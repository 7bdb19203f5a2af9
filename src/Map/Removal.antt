-- ===== src/Map/Removal.antt =====
-- `remove` on a map refines the removal from its entries.
use bplus_tree.Base.{ℕ, zero, suc, ◌≤◌, ◌≡◌, refl, ◌∙◌, Option, none, some, arith, Ensures}
use bplus_tree.Order.{Ord}
use bplus_tree.Entries
use bplus_tree.Entries.{lookup}
use bplus_tree.Node.{Caps, IsUsable, Node}
use bplus_tree.Siblings.{Siblings}
use bplus_tree.Delete.Recursion.{remove_rec-Removed, least_keys}
use bplus_tree.Map.{BPlusTreeMap, remove, shrink_root}
use bplus_tree.Map.Collapse.{shrink_root-IsRootOf}
use bplus_tree.Map.Valid.{IsValidMap, IsValidRoot, contents, root_min}

pub least-root_min : (h : ℕ) → least_keys h ≤ root_min h
least-root_min zero = omega arith
least-root_min (suc h) = omega arith

module _ {ℓ κ} {K : Type ℓ} {V : Type κ} ⦃o : Ord K⦄ (key : K) where
  -- The map after a removal, and the value that it returned, against the map before.
  pub record IsRemoved (m m' : BPlusTreeMap K V) (old : Option V) : Type (ℓ ⊔ κ) where
    pub valid : IsValidMap m'
    pub holds : contents m' ≡ Entries.remove key (contents m)
    pub returned : old ≡ lookup key (contents m)
    pub caps : m'.caps ≡ m.caps

  remove_parts-IsRemoved :
      (c : Caps) (s : Siblings) (r : Option ((h : ℕ) × Node K V h))
      → IsUsable c
      → IsValidRoot c r
      → Ensures
          (remove (record { root = r; caps = c; store = s }) key)
          (λ p. IsRemoved (record { root = r; caps = c; store = s }) p.0 p.1)
  unfolding remove Entries.remove lookup
  remove_parts-IsRemoved c s none usable v = (
    (record { root = none; caps = c; store = s }, none),
    refl,
    record { valid = tt; holds = refl; returned = refl; caps = refl },
  )
  remove_parts-IsRemoved c s (some (h, n)) usable v =
      let (r, run, done) =
        remove_rec-Removed c usable key h (root_min h) none none n s (least-root_min h) v tt tt in
      let root = shrink_root c h r.0.0 r.0.1 r.1 in
      let right = shrink_root-IsRootOf V c usable h r.0.0 r.0.1 r.1 done.0 in
      (
        (record { root = root.0; caps = c; store = root.1 }, r.0.1),
        rw run,
        record { valid = right.0; holds = right.1 ∙ done.1; returned = done.2; caps = refl },
      )

  -- On a valid map with usable capacities `remove` does not fail: the map stays valid, it loses the
  -- entry at the key and no other, and the value that was there is returned.
  pub remove-IsRemoved :
      (m : BPlusTreeMap K V)
      → IsUsable m.caps
      → IsValidMap m
      → Ensures (remove m key) (λ p. IsRemoved m p.0 p.1)
  remove-IsRemoved m = remove_parts-IsRemoved m.caps m.store m.root
