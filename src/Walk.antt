-- ===== src/Walk.antt =====
-- common.rs and lib.rs: the leaf at an address, the leaves at the ends of the tree, and the walks
-- along the chain that count leaves and entries. `none` is the read of a block that is no leaf of
-- the tree, or a walk that has run out of fuel.
pub mod Ends
pub mod Links
pub mod Counts
use bplus_tree.Base.{
  ℕ, zero, suc, ◌+◌, Bool, true, false, Option, none, some, List, [], ◌∷◌, ◌>>=◌, ◌==◌,
  if◌then◌else◌, length,
}
use bplus_tree.Order.{Ord}
use bplus_tree.Node.{Leaf, Node}
use bplus_tree.Node.Leaves.{leaves}
use bplus_tree.Siblings.{null}
use bplus_tree.Descend
use bplus_tree.Map.{BPlusTreeMap}

module _ {ℓ κ} {K : Type ℓ} {V : Type κ} where
  -- `carve_leaf`: the leaf whose block is at the address.
  unfoldable pub leaf_at : List (Leaf K V) → ℕ → Option (Leaf K V)
  leaf_at [] a = none
  leaf_at (leaf ∷ ls) a = let rest = leaf_at ls a in if a == leaf.addr then some leaf else rest

  abbrev pub root_leaves : Option ((h : ℕ) × Node K V h) → List (Leaf K V)
  root_leaves none = []
  root_leaves (some (h, n)) = leaves h n

  abbrev pub tree_leaves : BPlusTreeMap K V → List (Leaf K V)
  tree_leaves m = root_leaves m.root

  -- `leftmost_leaf` and `rightmost_leaf` of a map
  unfoldable pub leftmost_leaf : BPlusTreeMap K V → Option (Leaf K V)
  leftmost_leaf m = elim m.root [ none ↦ none | some (h, n) ↦ Descend.leftmost_leaf h n ]

  unfoldable pub rightmost_leaf : BPlusTreeMap K V → Option (Leaf K V)
  rightmost_leaf m = elim m.root [ none ↦ none | some (h, n) ↦ Descend.rightmost_leaf h n ]

  -- The pointer to a leaf that may be missing.
  abbrev pub leaf_ptr : Option (Leaf K V) → ℕ
  leaf_ptr none = null
  leaf_ptr (some leaf) = leaf.addr

  -- The loop of `len`, from the leaf at `cur` on.
  unfoldable pub len_from : ℕ → BPlusTreeMap K V → ℕ → ℕ → Option ℕ
  unfolding leaf_at
  len_from zero m cur total = none
  len_from (suc fuel) m cur total = elim (cur == null) [
    | true ↦ some total
    | false ↦ (do
      leaf ← leaf_at (tree_leaves m) cur
      len_from fuel m (m.store.next cur) (total + length leaf.items))
  ]

  -- Enough fuel for a walk: one more than there are leaves.
  abbrev pub walk_fuel : BPlusTreeMap K V → ℕ
  walk_fuel m = suc (length (tree_leaves m))

  unfoldable pub len : BPlusTreeMap K V → Option ℕ
  unfolding len_from leftmost_leaf
  len m = len_from (walk_fuel m) m (leaf_ptr (leftmost_leaf m)) 0

  unfoldable pub is_empty : BPlusTreeMap K V → Option Bool
  unfolding len
  is_empty m = do n ← len m; some (n == 0)

  -- The loop of `leaf_count`.
  unfoldable pub leaf_count_from : ℕ → BPlusTreeMap K V → ℕ → ℕ → Option ℕ
  unfolding leaf_at
  leaf_count_from zero m cur count = none
  leaf_count_from (suc fuel) m cur count = elim (cur == null) [
    | true ↦ some count
    | false ↦ (do
      leaf ← leaf_at (tree_leaves m) cur
      leaf_count_from fuel m (m.store.next cur) (count + 1))
  ]

  unfoldable pub leaf_count : BPlusTreeMap K V → Option ℕ
  unfolding leaf_count_from leftmost_leaf
  leaf_count m = leaf_count_from (walk_fuel m) m (leaf_ptr (leftmost_leaf m)) 0

  unfoldable pub is_leaf_root : BPlusTreeMap K V → Bool
  is_leaf_root m = elim m.root [ none ↦ true | some (zero, n) ↦ true | some (suc h, n) ↦ false ]

module _ {ℓ κ} {K : Type ℓ} {V : Type κ} ⦃o : Ord K⦄ where
  unfoldable pub leaf_for_key : BPlusTreeMap K V → K → Option (Leaf K V)
  leaf_for_key m key = elim m.root [ none ↦ none | some (h, n) ↦ Descend.leaf_for_key h n key ]
