-- ===== src/Map/Effects.antt =====
-- What `get` sees of an insertion and of a removal.
use Prim.Native.Nat.Ordering.{eq}
use bplus_tree.Base.{◌≡◌, sym, ap, ◌∙◌, none, some, Ensures}
use bplus_tree.Order.{Ord}
use bplus_tree.Entries.{lookup}
use bplus_tree.Entries.Laws.{lookup-insert, lookup-remove}
use bplus_tree.Node.{IsUsable}
use bplus_tree.Map.{BPlusTreeMap, insert, remove, get}
use bplus_tree.Map.Valid.{IsValidMap, contents, contents-IsAscending}
use bplus_tree.Map.Reading.{get-contents}
use bplus_tree.Map.Insertion.{insert-IsInserted}
use bplus_tree.Map.Removal.{remove-IsRemoved}

module _ {ℓ κ} {K : Type ℓ} {V : Type κ} ⦃o : Ord K⦄ (m : BPlusTreeMap K V)
    (usable : IsUsable m.caps) (valid : IsValidMap m) (key : K) where
  -- On a valid map with usable capacities: after `insert m key value`, `get` returns the value at the key and is unchanged at any other
  -- key; the call returned what `get` saw at the key before.
  pub get-insert :
      (value : V)
      → Ensures (insert m key value) (λ p.
        ((q : K) → get p.0 q ≡ (elim (o.cmp q key) [ eq ↦ some value | _ ↦ get m q ]))
        × (p.1 ≡ get m key))
  get-insert value =
      let (r, run, done) = insert-IsInserted key value m usable valid in
      (
        r,
        run,
        (
          λ q.
              get-contents q r.0 done.valid
              ∙ ap (lookup q) done.holds
              ∙ lookup-insert key q value (contents m)
              ∙ ap (λ found. elim (o.cmp q key) [ eq ↦ some value | _ ↦ found ])
                  (sym (get-contents q m valid)),
          done.returned ∙ sym (get-contents key m valid),
        ),
      )

  -- On a valid map with usable capacities: after `remove m key`, `get` finds nothing at the key and is unchanged at any other key; the
  -- call returned what `get` saw at the key before.
  pub get-remove : Ensures (remove m key) (λ p.
      ((q : K) → get p.0 q ≡ (elim (o.cmp q key) [ eq ↦ none | _ ↦ get m q ])) × (p.1 ≡ get m key))
  get-remove =
      let (r, run, done) = remove-IsRemoved key m usable valid in
      (
        r,
        run,
        (
          λ q.
              get-contents q r.0 done.valid
              ∙ ap (lookup q) done.holds
              ∙ lookup-remove key q (contents m) (contents-IsAscending m valid)
              ∙ ap (λ found. elim (o.cmp q key) [ eq ↦ none | _ ↦ found ])
                  (sym (get-contents q m valid)),
          done.returned ∙ sym (get-contents key m valid),
        ),
      )
