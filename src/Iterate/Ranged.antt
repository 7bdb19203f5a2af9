-- ===== src/Iterate/Ranged.antt =====
-- iterate.rs: `collect_range_bounds` and `items_range`, which collect a range at once.
use bplus_tree.Base.{
  ℕ, zero, suc, Bool, true, false, Option, none, some, List, [], ◌∷◌, ◌++◌, ◌>>=◌, ◌==◌,
  if◌then◌else◌, drop,
}
use bplus_tree.Order.{Ord}
use bplus_tree.Search.{binary_search_keys}
use bplus_tree.Search.Items.{keys}
use bplus_tree.Node.{Leaf}
use bplus_tree.Siblings.{null}
use bplus_tree.Map.{BPlusTreeMap}
use bplus_tree.Walk.{leaf_at, tree_leaves, walk_fuel, leftmost_leaf, leaf_for_key}
use bplus_tree.Iterate.{Bound, included, excluded, unbounded, Items, vec, within_end, start_idx}

module _ {ℓ κ} {K : Type ℓ} {V : Type κ} ⦃o : Ord K⦄ where
  -- `collect_range_bounds`, the loop over the items of a leaf: what was pushed, and whether the
  -- end bound was met.
  unfoldable pub push_items : Bound K → List (K × V) → List (K × V) → List (K × V) × Bool
  unfolding within_end
  push_items end [] out = (out, false)
  push_items end (x ∷ xs) out =
      let rest = push_items end xs (out ++ x ∷ []) in
      if within_end end x.0 then rest else (out, true)

  unfoldable pub push_leaves :
      ℕ → BPlusTreeMap K V → Bound K → ℕ → ℕ → List (K × V) → Option (List (K × V))
  unfolding leaf_at push_items
  push_leaves zero m end cur first_idx out = none
  push_leaves (suc fuel) m end cur first_idx out = elim (cur == null) [
    | true ↦ some out
    | false ↦ (do
      leaf ← leaf_at (tree_leaves m) cur
      let (out', stopped) = push_items end (drop first_idx leaf.items) out
      elim stopped [ true ↦ some out' | false ↦ push_leaves fuel m end (m.store.next cur) 0 out' ])
  ]

  -- `collect_range_bounds`, where the first item is.
  unfoldable pub first_idx : Bound K → Leaf K V → ℕ
  first_idx unbounded leaf = 0
  first_idx (included s) leaf = start_idx false (binary_search_keys (keys leaf.items) s)
  first_idx (excluded s) leaf = start_idx true (binary_search_keys (keys leaf.items) s)

  unfoldable pub first_leaf : BPlusTreeMap K V → Bound K → Option (Leaf K V)
  unfolding leftmost_leaf leaf_for_key
  first_leaf m unbounded = leftmost_leaf m
  first_leaf m (included k) = leaf_for_key m k
  first_leaf m (excluded k) = leaf_for_key m k

  unfoldable pub collect_range_bounds : BPlusTreeMap K V → Bound K → Bound K → Option (List (K × V))
  unfolding first_leaf first_idx push_leaves
  collect_range_bounds m start end = elim (first_leaf m start) [
    | none ↦ some []
    | some leaf ↦ push_leaves (walk_fuel m) m end leaf.addr (first_idx start leaf) []
  ]

  -- `start.map_or(Bound::Unbounded, Bound::Included)`, and the same with `Excluded` for the end.
  unfoldable pub items_range : BPlusTreeMap K V → Option K → Option K → Option (Items K V)
  unfolding collect_range_bounds
  items_range m start end =
      let sb : Bound K = elim start [ none ↦ unbounded | some k ↦ included k ] in
      let eb : Bound K = elim end [ none ↦ unbounded | some k ↦ excluded k ] in
      do xs ← collect_range_bounds m sb eb; some (vec xs)
