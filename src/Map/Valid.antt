-- ===== src/Map/Valid.antt =====
-- The invariant of a map, and the entries that it holds.
use bplus_tree.Base.{ℕ, zero, suc, Option, none, some, List, []}
use bplus_tree.Order.{Ord}
use bplus_tree.Entries.{IsAscending}
use bplus_tree.Node.{Caps, Node, entries}
use bplus_tree.Node.Valid.{IsValid}
use bplus_tree.Node.Contents.{entries-IsAscending}
use bplus_tree.Map.{BPlusTreeMap}

-- A root leaf may be empty, a root branch has a separator.
abbrev pub root_min : ℕ → ℕ
root_min zero = 0
root_min (suc h) = 1

module _ {ℓ κ} {K : Type ℓ} {V : Type κ} where
  abbrev pub root_contents : Option ((h : ℕ) × Node K V h) → List (K × V)
  root_contents none = []
  root_contents (some (h, n)) = entries h n

  abbrev pub contents : BPlusTreeMap K V → List (K × V)
  contents m = root_contents m.root

module _ {ℓ κ} {K : Type ℓ} {V : Type κ} ⦃o : Ord K⦄ where
  abbrev pub IsValidRoot : Caps → Option ((h : ℕ) × Node K V h) → Type 0
  IsValidRoot c none = Unit
  IsValidRoot c (some (h, n)) = IsValid V c h (root_min h) none none n

  -- What `check_invariants` asks of the nodes.
  abbrev pub IsValidMap : BPlusTreeMap K V → Type 0
  IsValidMap m = IsValidRoot m.caps m.root

  root_contents-IsAscending :
      (c : Caps) (r : Option ((h : ℕ) × Node K V h))
      → IsValidRoot c r
      → IsAscending (root_contents r)
  root_contents-IsAscending c none v = tt
  root_contents-IsAscending c (some (h, n)) v = entries-IsAscending V c h (root_min h) none none n v

  -- The entries of a valid map, read from its leaves in turn, ascend strictly by key.
  pub contents-IsAscending : (m : BPlusTreeMap K V) → IsValidMap m → IsAscending (contents m)
  contents-IsAscending m v = root_contents-IsAscending m.caps m.root v
