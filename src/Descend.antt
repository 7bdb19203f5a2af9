-- ===== src/Descend.antt =====
-- common.rs and get.rs: the way down from a node to a leaf, and the search there. `none` is the
-- `None` of the source, or the read of a child that is not there.
pub mod Lookup
use bplus_tree.Base.{ℕ, zero, suc, ◌≡◌, Option, none, some, to_option, ◌>>=◌, length, get_elem?}
use bplus_tree.Order.{Ord}
use bplus_tree.Search.{binary_search_keys, child_idx}
use bplus_tree.Search.Items.{keys, value_at}
use bplus_tree.Node.{Leaf, Branch, Node}

module _ {ℓ κ} {K : Type ℓ} {A : Type κ} ⦃o : Ord K⦄ where
  unfoldable pub child_for_key : Branch K A → K → Option (A × ℕ)
  child_for_key b key =
      let idx = child_idx (binary_search_keys b.keys key) in
      elim (get_elem? b.children idx) [ none ↦ none | some child ↦ some (child, idx) ]

  pub child_for_key-some :
      (b : Branch K A) (key : K) {child : A}
      → get_elem? b.children (child_idx (binary_search_keys b.keys key)) ≡ some child
      → child_for_key b key ≡ some (child, child_idx (binary_search_keys b.keys key))
  unfolding child_for_key
  child_for_key-some b key e = rw (child_for_key, e)

module _ {ℓ κ} {K : Type ℓ} {V : Type κ} where
  unfoldable pub leftmost_leaf : (h : ℕ) → Node K V h → Option (Leaf K V)
  leftmost_leaf zero leaf = some leaf
  leftmost_leaf (suc h) b = elim (get_elem? b.children 0) [
    | none ↦ none
    | some child ↦ leftmost_leaf h child
  ]

  unfoldable pub rightmost_leaf : (h : ℕ) → Node K V h → Option (Leaf K V)
  rightmost_leaf zero leaf = some leaf
  rightmost_leaf (suc h) b = elim (get_elem? b.children (length b.keys)) [
    | none ↦ none
    | some child ↦ rightmost_leaf h child
  ]

module _ {ℓ κ} {K : Type ℓ} {V : Type κ} ⦃o : Ord K⦄ where
  unfoldable pub leaf_for_key : (h : ℕ) → Node K V h → K → Option (Leaf K V)
  leaf_for_key zero leaf key = some leaf
  leaf_for_key (suc h) b key = elim (child_for_key b key) [
    | none ↦ none
    | some (child, idx) ↦ leaf_for_key h child key
  ]

  unfoldable pub leaf_search : (h : ℕ) → Node K V h → K → Option (Leaf K V × ℕ)
  leaf_search h n key = do
    leaf ← leaf_for_key h n key
    idx ← to_option (binary_search_keys (keys leaf.items) key)
    some (leaf, idx)

  unfoldable pub get : (h : ℕ) → Node K V h → K → Option V
  unfolding leaf_search
  get h n key = do (leaf, idx) ← leaf_search h n key; value_at leaf.items idx
