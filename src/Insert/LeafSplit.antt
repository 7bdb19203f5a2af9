-- ===== src/Insert/LeafSplit.antt =====
-- The moves of a full leaf: `split_items` against a plain insertion and one cut.
use bplus_tree.Base.{
  ℕ, suc, ◌+◌, ◌-◌, ◌/◌, ◌≤◌, ◌≡◌, refl, inl, inr, some, List, arith, ltb, ltb→le, ltb→lt, lt→ltb,
  le→ltb, Bool-cases, length, take, drop, insert_at, length-insert_at, length-take, length-drop,
  take-insert_at_le, drop-insert_at_le, take-insert_at_ge, drop-insert_at_ge,
}
use bplus_tree.Node.{Caps, fits-some}
use bplus_tree.Insert.{split_items, insert_into_leaf_slot}

module _ {ℓ κ} {K : Type ℓ} {V : Type κ} (c : Caps) where
  pub slot-some :
      (items : List (K × V)) (i : ℕ) (k : K) (v : V)
      → suc (length items) ≤ c.leaf_cap
      → insert_into_leaf_slot c items i k v ≡ some (insert_at items i (k, v))
  unfolding insert_into_leaf_slot
  slot-some items i k v h =
      fits-some c.leaf_cap (insert_at items i (k, v))
        (omega (arith, length-insert_at items i (k, v)))

  split_left :
      (items : List (K × V)) (i m : ℕ) (k : K) (v : V)
      → (length items + 1) / 2 ≡ suc m
      → i ≤ m
      → length items ≤ c.leaf_cap
      → 1 ≤ length items
      → split_items c items i k v
        ≡ some (take (suc m) (insert_at items i (k, v)), drop (suc m) (insert_at items i (k, v)))
  unfolding split_items
  split_left items i m k v e b full pos =
      let back : suc m - 1 ≡ m = omega arith in
      rw (
        e,
        lt→ltb i (suc m) (omega arith),
        back,
        slot-some (take m items) i k v (omega (arith, length-take m items)),
        take-insert_at_le m items i (k, v) b,
        drop-insert_at_le m items i (k, v) b,
      )

  split_right :
      (items : List (K × V)) (i m : ℕ) (k : K) (v : V)
      → (length items + 1) / 2 ≡ m
      → m ≤ i
      → i ≤ length items
      → length items ≤ c.leaf_cap
      → 1 ≤ length items
      → split_items c items i k v
        ≡ some (take m (insert_at items i (k, v)), drop m (insert_at items i (k, v)))
  unfolding split_items
  split_right items i m k v e b b' full pos = rw (
    e,
    le→ltb i m b,
    slot-some (drop m items) (i - m) k v (omega (arith, length-drop m items)),
    take-insert_at_ge m items i (k, v) b b',
    drop-insert_at_ge m items i (k, v) b b',
  )

  -- For a leaf with an item and no more than the capacity, and a position in it: the moves of a
  -- split come to one insertion followed by one cut at `(len + 1) / 2`.
  pub split_items-take-drop :
      (items : List (K × V)) (i : ℕ) (k : K) (v : V)
      → i ≤ length items
      → length items ≤ c.leaf_cap
      → 1 ≤ length items
      → split_items c items i k v
        ≡ some (
          take ((length items + 1) / 2) (insert_at items i (k, v)),
          drop ((length items + 1) / 2) (insert_at items i (k, v)),
        )
  split_items-take-drop items i k v b full pos =
      elim (Bool-cases (ltb i ((length items + 1) / 2))) [
        | inl e ↦
            let below = ltb→lt i ((length items + 1) / 2) e in
            let m : ℕ = (length items + 1) / 2 - 1 in
            let e' : (length items + 1) / 2 ≡ suc m = omega arith in
            rw e' (split_left items i m k v e' (omega arith) full pos)
        | inr e ↦ split_right items i ((length items + 1) / 2) k v refl (ltb→le i _ e) b full pos
      ]
