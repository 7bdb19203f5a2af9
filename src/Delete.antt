-- ===== src/Delete.antt =====
-- delete.rs: what a leaf and a branch do for `rebalance_leaf_child` and `rebalance_branch_child`,
-- and the removal of a key from a node. `none` is a panic, or a slot that is not there.
pub mod LeafKind
pub mod BranchKind
pub mod Recursion
pub mod KindChain
pub mod Chain
use Prim.Native.Nat.{min}
use bplus_tree.Base.{
  ℕ, zero, suc, ◌+◌, ◌-◌, Option, none, some, List, [], ◌∷◌, ◌++◌, Result, ok, err, ◌>>=◌, ltb, leb,
  ◌==◌, if◌then◌else◌, length, get_elem?, set, take, drop, remove_at,
}
use bplus_tree.Order.{Ord}
use bplus_tree.Search.{binary_search_keys}
use bplus_tree.Search.Items.{keys, value_at}
use bplus_tree.Node.{Caps, Leaf, Branch, Node, fits, min_leaf_len, min_branch_len}
use bplus_tree.Siblings.{Siblings, free_leaf_node, make_leaf_root}
use bplus_tree.Descend.{child_for_key}
use bplus_tree.Rebalance.{Kind, rebalance_child}

module _ {ℓ κ} {K : Type ℓ} {V : Type κ} (c : Caps) where
  -- `borrow_from_left_leaf`: the last item of `left` becomes the first of `child`.
  unfoldable pub borrow_from_left_leaf : Leaf K V → K → Leaf K V → Option (Leaf K V × K × Leaf K V)
  borrow_from_left_leaf left sep child = do
    item ← get_elem? left.items (length left.items - 1)
    items ← fits c.leaf_cap (item ∷ child.items)
    some (
      record left { items = take (length left.items - 1) left.items },
      item.0,
      record child { items = items },
    )

  -- `borrow_from_right_leaf`: the new separator is what is then the first key of `right`.
  unfoldable pub borrow_from_right_leaf : Leaf K V → K → Leaf K V → Option (Leaf K V × K × Leaf K V)
  borrow_from_right_leaf child sep right = do
    item ← get_elem? right.items 0
    items ← fits c.leaf_cap (child.items ++ item ∷ [])
    (new_sep, _) ← get_elem? (drop 1 right.items) 0
    some (record child { items = items }, new_sep, record right { items = drop 1 right.items })

  -- `merge_leaf_into`, which panics when the items do not fit.
  unfoldable pub merge_leaf_into : Leaf K V → Leaf K V → Option (Leaf K V)
  merge_leaf_into target source = do
    items ← fits c.leaf_cap (target.items ++ source.items)
    some (record target { items = items })

  unfoldable pub leaf_kind : Kind K (Leaf K V)
  leaf_kind = record {
    size = λ leaf. length leaf.items;
    min_size = min_leaf_len c;
    lend_to_right = borrow_from_left_leaf;
    lend_to_left = borrow_from_right_leaf;
    merge = λ left sep right. merge_leaf_into left right;
    free = λ leaf s. free_leaf_node leaf.addr s;
  }

module _ {ℓ κ} {K : Type ℓ} {A : Type κ} (c : Caps) where
  -- `borrow_from_left_branch`: the separator moves down, and the last key of `left` moves up.
  unfoldable pub borrow_from_left_branch :
      Branch K A → K → Branch K A → Option (Branch K A × K × Branch K A)
  borrow_from_left_branch left parent_key child = do
    borrowed_key ← get_elem? left.keys (length left.keys - 1)
    borrowed_child ← get_elem? left.children (length left.keys)
    ks ← fits c.branch_cap (parent_key ∷ child.keys)
    some (
      record {
        keys = take (length left.keys - 1) left.keys;
        children = take (length left.keys) left.children;
      },
      borrowed_key,
      record { keys = ks; children = borrowed_child ∷ child.children },
    )

  unfoldable pub borrow_from_right_branch :
      Branch K A → K → Branch K A → Option (Branch K A × K × Branch K A)
  borrow_from_right_branch child parent_key right = do
    new_sep ← get_elem? right.keys 0
    transfer_child ← get_elem? right.children 0
    ks ← fits c.branch_cap (child.keys ++ parent_key ∷ [])
    some (
      record { keys = ks; children = child.children ++ transfer_child ∷ [] },
      new_sep,
      record { keys = drop 1 right.keys; children = drop 1 right.children },
    )

  -- `merge_branch_with_left` and `merge_branch_with_right`, which panic when the keys do not fit.
  unfoldable pub merge_branches : Branch K A → K → Branch K A → Option (Branch K A)
  merge_branches left sep_key right = do
    ks ← fits c.branch_cap (left.keys ++ sep_key ∷ right.keys)
    some (record { keys = ks; children = left.children ++ right.children })

  -- The block of a branch has no place in the chain of the leaves.
  unfoldable pub branch_kind : Kind K (Branch K A)
  branch_kind = record {
    size = λ b. length b.keys;
    min_size = min_branch_len c;
    lend_to_right = borrow_from_left_branch;
    lend_to_left = borrow_from_right_branch;
    merge = merge_branches;
    free = λ b s. s;
  }

module _ {ℓ κ} {K : Type ℓ} (V : Type κ) (c : Caps) where
  -- `fix_branch_child`: the tag of the child chooses the function.
  abbrev pub kind_of : (h : ℕ) → Kind K (Node K V h)
  kind_of zero = leaf_kind c
  kind_of (suc h) = branch_kind c

  unfoldable pub fix_branch_child :
      (h : ℕ) → Node K V (suc h) → ℕ → Siblings → Option (Node K V (suc h) × Siblings)
  unfolding rebalance_child
  fix_branch_child h b child_idx s =
      if length b.keys == 0
      then some (b, s)
      else rebalance_child (kind_of h) b (min child_idx (length b.keys)) (length b.keys) s

module _ {ℓ κ} {K : Type ℓ} {V : Type κ} ⦃o : Ord K⦄ where
  unfoldable pub leaf_remove : Leaf K V → K → Option (Leaf K V × Option V)
  leaf_remove leaf key = elim (binary_search_keys (keys leaf.items) key) [
    | err _ ↦ some (leaf, none)
    | ok idx ↦ (do
      value ← value_at leaf.items idx
      some (record leaf { items = remove_at leaf.items idx }, some value))
  ]

module _ {ℓ κ} {K : Type ℓ} {V : Type κ} ⦃o : Ord K⦄ (c : Caps) where
  -- `remove_rec`, what a branch does when its child at `idx` has become `child`.
  unfoldable pub remove_above :
      (h : ℕ)
      → Node K V (suc h)
      → ℕ
      → Node K V h
      → Option V
      → Siblings
      → Option ((Node K V (suc h) × Option V) × Siblings)
  unfolding fix_branch_child
  remove_above h b idx child none s =
      some ((record b { children = set b.children idx child }, none), s)
  remove_above h b idx child (some value) s = do
    (b', s') ← fix_branch_child V c h (record b { children = set b.children idx child }) idx s
    some ((b', some value), s')

  unfoldable pub remove_rec :
      (h : ℕ) → Node K V h → K → Siblings → Option ((Node K V h × Option V) × Siblings)
  unfolding leaf_remove remove_above child_for_key
  remove_rec zero leaf key s = do r ← leaf_remove leaf key; some (r, s)
  remove_rec (suc h) b key s = elim (child_for_key b key) [
    | none ↦ some ((b, none), s)
    | some (child, idx) ↦ (do
      ((child', result), s') ← remove_rec h child key s
      remove_above h b idx child' result s')
  ]

module _ {ℓ κ} {K : Type ℓ} {V : Type κ} (c : Caps) where
  -- `check_root_collapse`, its loop over children that are leaves: the leaf to keep. The outer
  -- `none` is the early return, which comes before anything has changed: a root that gets here
  -- has two children at most, and the first one is kept then.
  unfoldable pub keep_leaf :
      Option (Leaf K V) → List (Leaf K V) → Siblings → Option (Option (Leaf K V) × Siblings)
  keep_leaf keep [] s = some (keep, s)
  keep_leaf none (child ∷ cs) s =
      if length child.items == 0
      then keep_leaf none cs (free_leaf_node child.addr s)
      else keep_leaf (some child) cs s
  keep_leaf (some existing) (child ∷ cs) s =
      if length child.items == 0
      then keep_leaf (some existing) cs (free_leaf_node child.addr s)
      else if ltb c.leaf_cap (length existing.items + length child.items)
      then none
      else (do
        merged ← merge_leaf_into c existing child
        keep_leaf (some merged) cs (free_leaf_node child.addr s))

-- The loop over children that are branches.
unfoldable pub keep_branch {κ} : {A : Type κ} → Option A → List A → Option (Option A)
keep_branch keep [] = some keep
keep_branch none (child ∷ cs) = keep_branch (some child) cs
keep_branch (some existing) (child ∷ cs) = none

module _ {ℓ κ} {K : Type ℓ} {V : Type κ} (c : Caps) where
  unfoldable pub check_root_collapse :
      (h : ℕ) → Node K V h → Siblings → Option ((h : ℕ) × Node K V h) × Siblings
  unfolding keep_leaf keep_branch
  check_root_collapse zero leaf s = (some (zero, leaf), s)
  check_root_collapse (suc zero) root s =
      if leb (length root.keys) 1
      then elim (keep_leaf c none (take (length root.keys + 1) root.children) s) [
        | none ↦ (some (suc zero, root), s)
        | some (none, s') ↦ (none, s')
        | some (some leaf, s') ↦ (some (zero, leaf), make_leaf_root leaf.addr s')
      ]
      else (some (suc zero, root), s)
  check_root_collapse (suc (suc h)) root s =
      if leb (length root.keys) 1
      then elim (keep_branch none (take (length root.keys + 1) root.children)) [
        | none ↦ (some (suc (suc h), root), s)
        | some none ↦ (none, s)
        | some (some child) ↦ (some (suc h, child), s)
      ]
      else (some (suc (suc h), root), s)

  -- `remove`, when a value was removed: only a root with two keys at most is looked at.
  unfoldable pub after_remove :
      (h : ℕ) → Node K V h → Siblings → Option ((h : ℕ) × Node K V h) × Siblings
  unfolding check_root_collapse
  after_remove zero leaf s = (some (zero, leaf), s)
  after_remove (suc h) root s =
      if leb (length root.keys) 2
      then check_root_collapse (suc h) root s
      else (some (suc h, root), s)
