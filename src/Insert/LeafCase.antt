-- ===== src/Insert/LeafCase.antt =====
-- `leaf_insert_or_split` on a valid leaf.
use bplus_tree.Base.{
  ℕ, zero, suc, ◌+◌, ◌/◌, ◌≤◌, ◌<◌, ◌≡◌, sym, ◌∙◌, inl, inr, Option, none, some, arith, ok, err,
  Ensures, tests, ltb, ltb→lt, lt→ltb, le→ltb, Result-cases, Bool-cases, length, take, drop,
  insert_at, length-insert_at, length-take, length-drop, take-append-drop,
}
use bplus_tree.Order.{Ord, AtLeast, Under}
use bplus_tree.Entries.{insert, IsAscending, Within}
use bplus_tree.Entries.Laws.{insert-IsAscending, All-insert}
use bplus_tree.Entries.Cut.{take-drop-IsCut}
use bplus_tree.Search.{binary_search_keys}
use bplus_tree.Search.Items.{
  keys, search-IsHit, search-IsMiss, value_at-some, write_value, length-write_value,
}
use bplus_tree.Node.{Caps, IsUsable, Leaf, entries}
use bplus_tree.Node.Valid.{IsValid}
use bplus_tree.Siblings.{Siblings, alloc_leaf_block, link_right}
use bplus_tree.Insert.{no_split, split, Inserted, leaf_split, leaf_insert_or_split}
use bplus_tree.Insert.LeafSplit.{slot-some, split_items-take-drop}

module _ {ℓ κ} {K : Type ℓ} {V : Type κ} ⦃o : Ord K⦄ (c : Caps) (usable : IsUsable c) (m : ℕ)
    (lo hi : Option K) (leaf : Leaf K V) (valid : IsValid V c zero m lo hi leaf) (key : K)
    (value : V) (above : AtLeast lo key) (below : Under hi key) where
  -- The items with the new entry are in order and within the bounds.
  insert-Within : Within lo hi (insert key value leaf.items)
  insert-Within =
      All-insert (λ k. AtLeast lo k × Under hi k) key value leaf.items (above, below) valid.3

  insert-asc : IsAscending (insert key value leaf.items)
  insert-asc = insert-IsAscending key value leaf.items valid.2

  hit-Inserted :
      (i : ℕ) (s : Siblings)
      → binary_search_keys (keys leaf.items) key ≡ ok i
      → Ensures
          (leaf_insert_or_split c leaf key value s)
          (λ r. Inserted c zero m lo hi leaf key value r.0)
  unfolding leaf_insert_or_split entries
  hit-Inserted i s e =
      let hit = search-IsHit key leaf.items e in
      let (old, there) = value_at-some leaf.items i hit.inside in
      let same = hit.replaced value in
      (
        (no_split (record leaf { items = write_value leaf.items i value }) (some old), s),
        rw (leaf_insert_or_split, e, there),
        (
          (
            omega (arith, length-write_value leaf.items i value, valid.0),
            omega (arith, length-write_value leaf.items i value, valid.1),
            rw same at insert-asc,
            rw same at insert-Within,
          ),
          sym same,
          sym (hit.found ∙ there),
        ),
      )

  room-Inserted :
      (i : ℕ) (s : Siblings)
      → binary_search_keys (keys leaf.items) key ≡ err i
      → length leaf.items < c.leaf_cap
      → Ensures
          (leaf_insert_or_split c leaf key value s)
          (λ r. Inserted c zero m lo hi leaf key value r.0)
  unfolding leaf_insert_or_split entries
  room-Inserted i s e room =
      let miss = search-IsMiss key leaf.items e in
      let same = miss.inserted value in
      let items = insert_at leaf.items i (key, value) in
      (
        (no_split (record leaf { items = items }) none, s),
        rw (leaf_insert_or_split, e, lt→ltb _ _ room, slot-some c leaf.items i key value room),
        (
          (
            omega (arith, length-insert_at leaf.items i (key, value), valid.0),
            omega (arith, length-insert_at leaf.items i (key, value)),
            rw same at insert-asc,
            rw same at insert-Within,
          ),
          sym same,
          sym (miss.absent valid.2),
        ),
      )

  full-Inserted :
      (i : ℕ) (s : Siblings)
      → binary_search_keys (keys leaf.items) key ≡ err i
      → length leaf.items ≡ c.leaf_cap
      → Ensures
          (leaf_insert_or_split c leaf key value s)
          (λ r. Inserted c zero m lo hi leaf key value r.0)
  unfolding leaf_insert_or_split leaf_split entries alloc_leaf_block
  full-Inserted i s e full =
      let miss = search-IsMiss key leaf.items e in
      let two : 2 ≤ c.leaf_cap = usable.leaf in
      let m : ℕ = (length leaf.items + 1) / 2 in
      let F = insert_at leaf.items i (key, value) in
      let len : length F ≡ suc (length leaf.items) = length-insert_at leaf.items i (key, value) in
      let same = miss.inserted value in
      let (y, there, cut) =
        take-drop-IsCut lo hi m F (omega arith) (omega arith) (rw same at insert-asc)
          (rw same at insert-Within) in
      (
        (
          split (record leaf { items = take m F }) y.0 (record { addr = s.fresh; items = drop m F })
              none,
          link_right leaf.addr s.fresh (alloc_leaf_block s).1,
        ),
        rw (
          leaf_insert_or_split,
          e,
          le→ltb (length leaf.items) c.leaf_cap (omega arith),
          leaf_split,
          split_items-take-drop c leaf.items i key value miss.inside (omega arith) (omega arith),
          there,
        ),
        (
          (omega (arith, length-take m F), omega (arith, length-take m F), cut.left, cut.below),
          (omega (arith, length-drop m F), omega (arith, length-drop m F), cut.right, cut.above),
          cut.beyond,
          cut.under,
          take-append-drop m F ∙ sym same,
          sym (miss.absent valid.2),
        ),
      )

  -- With usable capacities, on a valid leaf whose bounds admit the key: `leaf_insert_or_split`
  -- does not fail, and its result is right, for a key that is there, a leaf with room and a full
  -- leaf.
  pub leaf-Inserted :
      (s : Siblings)
      → Ensures
          (leaf_insert_or_split c leaf key value s)
          (λ r. Inserted c zero m lo hi leaf key value r.0)
  leaf-Inserted s = elim (Result-cases (binary_search_keys (keys leaf.items) key)) [
    | inl (i, e) ↦ hit-Inserted i s e
    | inr (i, e) ↦ elim (Bool-cases (ltb (length leaf.items) c.leaf_cap)) [
      | inl room ↦ room-Inserted i s e (ltb→lt _ _ room)
      | inr full ↦ full-Inserted i s e (omega (tests, valid.1))
    ]
  ]
