-- ===== src/Map/Reading.antt =====
-- The operations that read a map by key, against its entries.
use bplus_tree.Base.{ℕ, ◌≡◌, refl, Option, none, some}
use bplus_tree.Order.{Ord}
use bplus_tree.Entries.{lookup}
use bplus_tree.Node.{Caps, Node}
use bplus_tree.Descend.Lookup.{get-lookup}
use bplus_tree.Siblings.{Siblings}
use bplus_tree.Map.{BPlusTreeMap, get}
use bplus_tree.Map.Valid.{IsValidMap, IsValidRoot, contents, root_min}

module _ {ℓ κ} {K : Type ℓ} {V : Type κ} ⦃o : Ord K⦄ (key : K) where
  get_parts :
      (c : Caps) (s : Siblings) (r : Option ((h : ℕ) × Node K V h))
      → IsValidRoot c r
      → get (record { root = r; caps = c; store = s }) key
        ≡ lookup key (contents (record { root = r; caps = c; store = s }))
  unfolding get lookup
  get_parts c s none v = refl
  get_parts c s (some (h, n)) v = get-lookup c key h (root_min h) none none n v tt tt

  -- On a valid map `get` returns what a look-up among the entries of the leaves finds.
  pub get-contents : (m : BPlusTreeMap K V) → IsValidMap m → get m key ≡ lookup key (contents m)
  get-contents m v = get_parts m.caps m.store m.root v
