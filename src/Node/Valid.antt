-- ===== src/Node/Valid.antt =====
-- The invariant of a node between two bounds, as `validate_leaf` and `validate_branch` check it.
use bplus_tree.Base.{ℕ, zero, suc, ◌≤◌, Option, length}
use bplus_tree.Order.{Ord}
use bplus_tree.Entries.{IsAscending, Within}
use bplus_tree.Node.{Caps, Node, min_len}
use bplus_tree.Node.Spans.{Spans}

module _ {ℓ κ} {K : Type ℓ} (V : Type κ) ⦃o : Ord K⦄ (c : Caps) where
  -- At least `m` keys; every node below has the minimum of its kind.
  abbrev pub IsValid : (h m : ℕ) → Option K → Option K → Node K V h → Type 0
  IsValid zero m lo hi n =
      (m ≤ length n.items)
      × (length n.items ≤ c.leaf_cap)
      × IsAscending n.items
      × Within lo hi n.items
  IsValid (suc h) m lo hi n =
      (m ≤ length n.keys)
      × (length n.keys ≤ c.branch_cap)
      × Spans (IsValid h (min_len c h)) lo hi n.keys n.children
