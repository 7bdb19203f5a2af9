-- ===== src/Release.antt =====
-- lib.rs, `clear` and `Drop`: the blocks of the tree are freed and its entries dropped. `none` is a
-- double free.
pub mod Cleared
use bplus_tree.Base.{
  ℕ, zero, suc, ◌+◌, Bool, true, false, Option, none, some, List, [], ◌∷◌, ◌++◌, ◌>>=◌, ◌==◌,
  if◌then◌else◌, length, take,
}
use bplus_tree.Node.{Leaf, Node}
use bplus_tree.Siblings.{Siblings, update}
use bplus_tree.Map.{BPlusTreeMap}

-- `dealloc_raw` of the block of a leaf: it must be allocated.
unfoldable pub dealloc_raw : ℕ → Siblings → Option Siblings
dealloc_raw p s = if s.live p then some (record s { live = update s.live p false }) else none

-- The loop over the children of a branch.
unfoldable pub free_children {ℓ κ} :
    {A : Type ℓ} {B : Type κ}
    → (A → Siblings → Option (List B × Siblings))
    → List A
    → Siblings
    → Option (List B × Siblings)
free_children free [] s = some ([], s)
free_children free (child ∷ cs) s = do
  (xs, s1) ← free child s
  (ys, s2) ← free_children free cs s1
  some (xs ++ ys, s2)

module _ {ℓ κ} {K : Type ℓ} {V : Type κ} where
  -- `free_tree_no_drop`: the entries that it drops, in turn, and the store without the leaves. The
  -- block of a branch, which no pointer of the store knows, goes with its value.
  unfoldable pub free_tree_no_drop :
      (h : ℕ) → Node K V h → Siblings → Option (List (K × V) × Siblings)
  unfolding dealloc_raw free_children
  free_tree_no_drop zero leaf s = do s' ← dealloc_raw leaf.addr s; some (leaf.items, s')
  free_tree_no_drop (suc h) b s =
      free_children (free_tree_no_drop h) (take (length b.keys + 1) b.children) s

  unfoldable pub clear : BPlusTreeMap K V → Option (BPlusTreeMap K V × List (K × V))
  unfolding free_tree_no_drop
  clear m = elim m.root [
    | none ↦ some (m, [])
    | some (h, n) ↦ (do
      (dropped, s) ← free_tree_no_drop h n m.store
      some (record m { root = none; store = s }, dropped))
  ]
