-- ===== src/Walk/Counts.antt =====
-- `len`, `is_empty` and `leaf_count` on a sound map.
use bplus_tree.Base.{
  ℕ, zero, suc, ◌+◌, ◌<◌, ◌≡◌, refl, ap, ◌∙◌, Option, none, some, List, [], ◌∷◌, arith, ◌==◌,
  length, length-append, flat_map,
}
use bplus_tree.Order.{Ord}
use bplus_tree.Node.{Caps, Leaf, Node}
use bplus_tree.Node.Leaves.{entries-leaves}
use bplus_tree.Siblings.{Siblings}
use bplus_tree.Map.{BPlusTreeMap}
use bplus_tree.Map.Valid.{IsValidRoot, IsValidMap, contents, root_contents, root_min}
use bplus_tree.Map.Sound.{IsSound}
use bplus_tree.Walk.{
  leaf_at, root_leaves, tree_leaves, leftmost_leaf, leaf_ptr, len_from, len, is_empty,
  leaf_count_from, leaf_count,
}
use bplus_tree.Walk.Ends.{items_of, leftmost_leaf-IsFirst}
use bplus_tree.Walk.Links.{head_ptr, IsWalk, next-IsWalk}

module _ {ℓ κ} {K : Type ℓ} {V : Type κ} where
  root_contents-leaves :
      (r : Option ((h : ℕ) × Node K V h)) → root_contents r ≡ items_of (root_leaves r)
  unfolding flat_map
  root_contents-leaves none = refl
  root_contents-leaves (some (h, n)) = entries-leaves h n

  -- The contents of a map are the items of its leaves.
  pub contents-leaves : (m : BPlusTreeMap K V) → contents m ≡ items_of (tree_leaves m)
  contents-leaves m = root_contents-leaves m.root

module _ {ℓ κ} {K : Type ℓ} {V : Type κ} ⦃o : Ord K⦄ where
  first_ptr :
      (c : Caps) (s : Siblings) (r : Option ((h : ℕ) × Node K V h))
      → IsValidRoot c r
      → leaf_ptr (leftmost_leaf (record { root = r; caps = c; store = s }))
        ≡ head_ptr (root_leaves r)
  unfolding leftmost_leaf
  first_ptr c s none v = refl
  first_ptr c s (some (h, n)) v =
      let (l, ls, run, e) = leftmost_leaf-IsFirst V c h (root_min h) none none n v in rw (run, e)

  pub leftmost_leaf-head_ptr :
      (m : BPlusTreeMap K V) → IsValidMap m → leaf_ptr (leftmost_leaf m) ≡ head_ptr (tree_leaves m)
  leftmost_leaf-head_ptr m v = first_ptr m.caps m.store m.root v

  abbrev Walks : BPlusTreeMap K V → List (Leaf K V) → Type (ℓ ⊔ κ)
  Walks m ls = IsWalk (leaf_at (tree_leaves m)) m.store.next ls

  len_from-total :
      (fuel : ℕ) (m : BPlusTreeMap K V) (ls : List (Leaf K V)) (total : ℕ)
      → Walks m ls
      → length ls < fuel
      → len_from fuel m (head_ptr ls) total ≡ some (total + length (items_of ls))
  unfolding len_from flat_map
  len_from-total zero m ls total w b = absurd (omega arith)
  len_from-total (suc fuel) m [] total w b = ap some (omega arith)
  len_from-total (suc fuel) m (l ∷ ls) total w b =
      rw (len_from, w.1, w.0, w.2)
        (len_from-total fuel m ls (total + length l.items) w.3 (omega arith)
          ∙ ap some (omega (arith, length-append l.items (items_of ls))))

  leaf_count_from-total :
      (fuel : ℕ) (m : BPlusTreeMap K V) (ls : List (Leaf K V)) (count : ℕ)
      → Walks m ls
      → length ls < fuel
      → leaf_count_from fuel m (head_ptr ls) count ≡ some (count + length ls)
  unfolding leaf_count_from
  leaf_count_from-total zero m ls count w b = absurd (omega arith)
  leaf_count_from-total (suc fuel) m [] count w b = ap some (omega arith)
  leaf_count_from-total (suc fuel) m (l ∷ ls) count w b =
      rw (leaf_count_from, w.1, w.0, w.2)
        (leaf_count_from-total fuel m ls (count + 1) w.3 (omega arith) ∙ ap some (omega arith))

  module _ (m : BPlusTreeMap K V) (sound : IsSound m) where
    -- On a sound map the walk of `len` comes to its end with any fuel above the number of leaves,
    -- reads no block that is not a leaf of the map, and counts the entries.
    pub len_from-terminates :
        (fuel : ℕ)
        → length (tree_leaves m) < fuel
        → len_from fuel m (leaf_ptr (leftmost_leaf m)) 0 ≡ some (length (contents m))
    len_from-terminates fuel b =
        rw (leftmost_leaf-head_ptr m sound.valid, contents-leaves m)
          (len_from-total fuel m (tree_leaves m) 0 (next-IsWalk m sound) b ∙ ap some (omega arith))

    pub len-contents : len m ≡ some (length (contents m))
    unfolding len
    len-contents = len_from-terminates (suc (length (tree_leaves m))) (omega arith)

    -- On a sound map `len`, `is_empty` and `leaf_count` return: the number of entries, whether
    -- there is none, and the number of leaves.
    pub counts_lem :
        (len m ≡ some (length (contents m)))
        × (is_empty m ≡ some (length (contents m) == 0))
        × (leaf_count m ≡ some (length (tree_leaves m)))
    unfolding is_empty leaf_count
    counts_lem = (
      len-contents,
      rw len-contents,
      rw (leftmost_leaf-head_ptr m sound.valid) (
          leaf_count_from-total (suc (length (tree_leaves m))) m (tree_leaves m) 0
            (next-IsWalk m sound) (omega arith)
          ∙ ap some (omega arith)),
    )
