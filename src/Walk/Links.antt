-- ===== src/Walk/Links.antt =====
-- The leaves of a sound map as the pointers lead from one to the next, and back.
use mathlib.Core.List.{reverse, reverse_aux}
use mathlib.Core.Path.{subst}
use bplus_tree.Base.{
  ℕ, ◌≡◌, refl, ◌∙◌, false, Option, none, some, List, [], ◌∷◌, All, All-zip, arith, ◌==◌, eq→==,
  flat_map,
}
use bplus_tree.Order.{Ord}
use bplus_tree.Node.{Leaf, Node}
use bplus_tree.Node.Leaves.{addr_of, addrs-leaves}
use bplus_tree.Siblings.{Siblings, null}
use bplus_tree.Siblings.Chain.{IsChain, Linked, Distinct, has, head_or}
use bplus_tree.Map.{BPlusTreeMap}
use bplus_tree.Map.Linked.{root_addrs}
use bplus_tree.Map.Sound.{IsSound}
use bplus_tree.Walk.{leaf_at, root_leaves, tree_leaves}

module _ {ℓ κ} {K : Type ℓ} {V : Type κ} where
  abbrev pub addrs_of : List (Leaf K V) → List ℕ
  addrs_of ls = flat_map addr_of ls

  -- The pointer to the first leaf of a run.
  abbrev pub head_ptr : List (Leaf K V) → ℕ
  head_ptr [] = null
  head_ptr (leaf ∷ ls) = leaf.addr

  -- A run of leaves that can be read, each leading to the next, the last one to null.
  abbrev pub IsWalk : (ℕ → Option (Leaf K V)) → (ℕ → ℕ) → List (Leaf K V) → Type (ℓ ⊔ κ)
  IsWalk read link [] = Unit
  IsWalk read link (leaf ∷ ls) =
      (read leaf.addr ≡ some leaf)
      × ((leaf.addr == null) ≡ false)
      × (link leaf.addr ≡ head_ptr ls)
      × IsWalk read link ls

  -- What is known of each leaf: it is read at its address, which is not null.
  abbrev Readable : (ℕ → Option (Leaf K V)) → List (Leaf K V) → Type (ℓ ⊔ κ)
  Readable read ls = All (λ leaf. (read leaf.addr ≡ some leaf) × ((leaf.addr == null) ≡ false)) ls

  others :
      (a : ℕ) (ls : List (Leaf K V))
      → has a (addrs_of ls) ≡ false
      → All (λ l. (l.addr == a) ≡ false) ls
  unfolding flat_map
  others a [] h = tt
  others a (l ∷ ls) h = (ground (arith), others a ls (ground arith))

  real :
      (ls : List (Leaf K V))
      → has null (addrs_of ls) ≡ false
      → All (λ l. (l.addr == null) ≡ false) ls
  real ls h = others null ls h

  found : (ls : List (Leaf K V)) → Distinct (addrs_of ls) → All (λ l. leaf_at ls l.addr ≡ some l) ls
  unfolding leaf_at flat_map
  found [] d = tt
  found (l ∷ ls) d = (
    rw (eq→== l.addr l.addr refl),
    All-zip (λ k. (k.addr == l.addr) ≡ false) (λ k. leaf_at ls k.addr ≡ some k)
        (λ k e q. rw (leaf_at, e) q) ls (others l.addr ls d.0) (found ls d.1),
  )

  head-same : (ls : List (Leaf K V)) → head_or (addrs_of ls) null ≡ head_ptr ls
  unfolding flat_map
  head-same [] = refl
  head-same (l ∷ ls) = refl

  module _ (read : ℕ → Option (Leaf K V)) (s : Siblings) where
    forward :
        (p : ℕ) (ls : List (Leaf K V))
        → Linked s p (addrs_of ls) null
        → Readable read ls
        → IsWalk read s.next ls
    unfolding flat_map
    forward p [] h r = tt
    forward p (l ∷ ls) h r = (r.0.0, r.0.1, h.1 ∙ head-same ls, forward l.addr ls h.2 r.1)

    backward :
        (ls acc : List (Leaf K V))
        → Linked s (head_ptr acc) (addrs_of ls) null
        → Readable read ls
        → IsWalk read s.prev acc
        → IsWalk read s.prev (reverse_aux ls acc)
    unfolding flat_map
    backward [] acc h r w = w
    backward (l ∷ ls) acc h r w = backward ls (l ∷ acc) h.2 r.1 (r.0.0, r.0.1, h.0, w)

  root_addrs-leaves :
      (r : Option ((h : ℕ) × Node K V h)) → root_addrs K V r ≡ addrs_of (root_leaves r)
  unfolding flat_map
  root_addrs-leaves none = refl
  root_addrs-leaves (some (h, n)) = addrs-leaves K V h n

  Readable-leaves :
      (s : Siblings) (ls : List (Leaf K V)) → IsChain s (addrs_of ls) → Readable (leaf_at ls) ls
  Readable-leaves s ls chain =
      All-zip (λ l. leaf_at ls l.addr ≡ some l) (λ l. (l.addr == null) ≡ false) (λ l e q. (e, q)) ls
        (found ls chain.distinct) (real ls chain.real)

module _ {ℓ κ} {K : Type ℓ} {V : Type κ} ⦃o : Ord K⦄ (m : BPlusTreeMap K V)
    (sound : IsSound m) where
  leaves-IsChain : IsChain m.store (addrs_of (tree_leaves m))
  leaves-IsChain = subst (IsChain m.store) (root_addrs-leaves m.root) sound.chain

  -- In a sound map the next pointers lead through the leaves of the tree from left to right, and
  -- end in null.
  pub next-IsWalk : IsWalk (leaf_at (tree_leaves m)) m.store.next (tree_leaves m)
  next-IsWalk =
      forward (leaf_at (tree_leaves m)) m.store null (tree_leaves m) leaves-IsChain.linked
        (Readable-leaves m.store (tree_leaves m) leaves-IsChain)

  -- The previous pointers lead back, from the last leaf to the first.
  pub prev-IsWalk : IsWalk (leaf_at (tree_leaves m)) m.store.prev (reverse (tree_leaves m))
  prev-IsWalk =
      backward (leaf_at (tree_leaves m)) m.store (tree_leaves m) [] leaves-IsChain.linked
        (Readable-leaves m.store (tree_leaves m) leaves-IsChain) tt
