-- ===== src/Map/Insertion.antt =====
-- `insert` on a map refines the insertion into its entries.
use mathlib.Core.List.{append-nil}
use bplus_tree.Base.{
  ℕ, zero, ◌≡◌, refl, ap, ◌∙◌, Option, none, some, [], ◌++◌, arith, Ensures, flat_map,
}
use bplus_tree.Order.{Ord}
use bplus_tree.Entries
use bplus_tree.Entries.{lookup}
use bplus_tree.Node.{Caps, IsUsable, Node, entries}
use bplus_tree.Node.Valid.{IsValid}
use bplus_tree.Siblings.{Siblings, alloc_leaf_block}
use bplus_tree.Insert.{InsertResult, no_split, split, Inserted}
use bplus_tree.Insert.Recursion.{insert_rec-Inserted}
use bplus_tree.Map.{BPlusTreeMap, insert, insert_root, grow_root}
use bplus_tree.Map.Valid.{IsValidMap, IsValidRoot, contents, root_contents, root_min}

module _ {ℓ κ} {K : Type ℓ} {V : Type κ} ⦃o : Ord K⦄ (key : K) (value : V) where
  -- The map after an insertion, and the value that it returned, against the map before.
  pub record IsInserted (m m' : BPlusTreeMap K V) (old : Option V) : Type (ℓ ⊔ κ) where
    pub valid : IsValidMap m'
    pub holds : contents m' ≡ Entries.insert key value (contents m)
    pub returned : old ≡ lookup key (contents m)
    pub caps : m'.caps ≡ m.caps

  grow_root-valid :
      (c : Caps) (usable : IsUsable c) (h : ℕ) (n : Node K V h) (r : InsertResult K V (Node K V h))
      → Inserted c h (root_min h) none none n key value r
      → IsValidRoot c (some (grow_root h r).0)
        × (root_contents (some (grow_root h r).0) ≡ Entries.insert key value (entries h n))
        × ((grow_root h r).1 ≡ lookup key (entries h n))
  unfolding grow_root entries flat_map
  grow_root-valid c usable h n (no_split n' old) done = done
  grow_root-valid c usable h n (split l sep r old) done = (
    (omega arith, omega (arith, usable.branch), (done.0, tt, tt, done.1)),
    ap (λ es. entries h l ++ es) (append-nil (entries h r)) ∙ done.4,
    done.5,
  )

  insert_node-IsInserted :
      (c : Caps) (s : Siblings) (r : Option ((h : ℕ) × Node K V h)) (h : ℕ) (n : Node K V h)
      (s' : Siblings)
      → IsUsable c
      → insert_root (record { root = r; caps = c; store = s }) ≡ ((h, n), s')
      → IsValid V c h (root_min h) none none n
      → entries h n ≡ root_contents r
      → Ensures
          (insert (record { root = r; caps = c; store = s }) key value)
          (λ p. IsInserted (record { root = r; caps = c; store = s }) p.0 p.1)
  unfolding insert
  insert_node-IsInserted c s r h n s' usable e v same =
      let (result, run, done) =
        insert_rec-Inserted c usable key value h (root_min h) none none n s' v tt tt in
      let (valid, holds, old) = grow_root-valid c usable h n result.0 done in
      (
        (
          record { root = some (grow_root h result.0).0; caps = c; store = result.1 },
          (grow_root h result.0).1,
        ),
        rw (e, run),
        record {
          valid = valid;
          holds = holds ∙ ap (Entries.insert key value) same;
          returned = old ∙ ap (lookup key) same;
          caps = refl;
        },
      )

  insert_parts-IsInserted :
      (c : Caps) (s : Siblings) (r : Option ((h : ℕ) × Node K V h))
      → IsUsable c
      → IsValidRoot c r
      → Ensures
          (insert (record { root = r; caps = c; store = s }) key value)
          (λ p. IsInserted (record { root = r; caps = c; store = s }) p.0 p.1)
  unfolding insert_root entries
  insert_parts-IsInserted c s none usable v =
      let (leaf, s') = alloc_leaf_block s in
      insert_node-IsInserted c s none zero (record { addr = leaf; items = [] }) s' usable refl
        (omega arith, omega arith, tt, tt) refl
  insert_parts-IsInserted c s (some (h, n)) usable v =
      insert_node-IsInserted c s (some (h, n)) h n s usable refl v refl

  -- On a valid map with usable capacities `insert` does not fail: the map stays valid, its entries
  -- are those before with the new one, and the value that was at the key is returned.
  pub insert-IsInserted :
      (m : BPlusTreeMap K V)
      → IsUsable m.caps
      → IsValidMap m
      → Ensures (insert m key value) (λ p. IsInserted m p.0 p.1)
  insert-IsInserted m = insert_parts-IsInserted m.caps m.store m.root
