-- ===== src/Map/Linked.antt =====
-- The chain of the leaves when the root shrinks: a leaf below it is freed, or becomes the root.
use mathlib.Core.List.{append-nil}
use mathlib.Core.Path.{subst}
use bplus_tree.Base.{
  ℕ, zero, suc, ◌+◌, inl, inr, Option, none, some, List, [], ◌∷◌, ◌++◌, arith, ltb, leb, ltb→le,
  lt→leb, Bool-cases, length, length-append, flat_map,
}
use bplus_tree.Order.{Ord}
use bplus_tree.Node.{Caps, IsUsable, Leaf, Node, fits-some, min_leaf_len, min_branch_len}
use bplus_tree.Node.Leaves.{addrs}
use bplus_tree.Node.Valid.{IsValid}
use bplus_tree.Node.Spans.{Spans}
use bplus_tree.Siblings.{Siblings, free_leaf_node}
use bplus_tree.Siblings.Chain.{IsChain}
use bplus_tree.Siblings.Splice.{make_leaf_root-IsChain}
use bplus_tree.Siblings.Release.{free_leaf_node-IsChain}
use bplus_tree.Delete.{merge_leaf_into, keep_leaf, keep_branch, check_root_collapse, after_remove}
use bplus_tree.Delete.Recursion.{keys_left}
use bplus_tree.Map.{shrink_root}
use bplus_tree.Map.Valid.{root_min}
use bplus_tree.Map.Collapse.{nonempty}

module _ {ℓ κ} (K : Type ℓ) (V : Type κ) where
  abbrev pub root_addrs : Option ((h : ℕ) × Node K V h) → List ℕ
  root_addrs none = []
  root_addrs (some (h, n)) = addrs K V h n

  -- The leaves below the root are the chain of the store.
  abbrev pub Linked : Option ((h : ℕ) × Node K V h) × Siblings → Type 0
  Linked r = IsChain r.1 (root_addrs r.0)

module _ {ℓ κ} {K : Type ℓ} (V : Type κ) ⦃o : Ord K⦄ (c : Caps) (usable : IsUsable c) where
  abbrev IsItem : Option K → Option K → Leaf K V → Type 0
  IsItem = IsValid V c zero (min_leaf_len c)

  pair-Linked :
      (k : K) (l r : Leaf K V) (s : Siblings)
      → Spans IsItem none none (k ∷ []) (l ∷ r ∷ [])
      → IsChain s (l.addr ∷ r.addr ∷ [])
      → Linked K V (check_root_collapse c 1 (record { keys = k ∷ []; children = l ∷ r ∷ [] }) s)
  unfolding check_root_collapse keep_leaf merge_leaf_into addrs flat_map
  pair-Linked k l r s v chain =
      elim (Bool-cases (ltb c.leaf_cap (length l.items + length r.items))) [
        | inl over ↦
            rw
              (
                nonempty V c usable none (some k) l v.0,
                nonempty V c usable (some k) none r v.3,
                over,
              )
              chain
        | inr room ↦
            let room' = ltb→le c.leaf_cap (length l.items + length r.items) room in
            rw
              (
                nonempty V c usable none (some k) l v.0,
                nonempty V c usable (some k) none r v.3,
                room,
                fits-some c.leaf_cap (l.items ++ r.items)
                    (omega (arith, length-append l.items r.items)),
              )
              (make_leaf_root-IsChain (free_leaf_node r.addr s) l.addr []
                (free_leaf_node-IsChain s [] l.addr r.addr [] chain))
      ]

  leaves-Linked :
      (ks : List K) (cs : List (Leaf K V)) (s : Siblings)
      → Spans IsItem none none ks cs
      → IsChain s (addrs K V 1 (record { keys = ks; children = cs }))
      → Linked K V (check_root_collapse c 1 (record { keys = ks; children = cs }) s)
  unfolding check_root_collapse keep_leaf addrs flat_map
  leaves-Linked [] [] s v chain = absurd v
  leaves-Linked [] (l ∷ []) s v chain =
      rw (nonempty V c usable none none l v) (make_leaf_root-IsChain s l.addr [] chain)
  leaves-Linked [] (l ∷ r ∷ cs) s v chain = absurd v
  leaves-Linked (k ∷ ks) [] s v chain = absurd v
  leaves-Linked (k ∷ []) (l ∷ []) s v chain = absurd v.3
  leaves-Linked (k ∷ []) (l ∷ r ∷ []) s v chain = pair-Linked k l r s v chain
  leaves-Linked (k ∷ []) (l ∷ r ∷ d ∷ cs) s v chain = absurd v.3
  leaves-Linked (k ∷ k' ∷ ks) (l ∷ cs) s v chain =
      rw (lt→leb (length (k ∷ k' ∷ ks)) 1 (omega arith)) chain

  branches-Linked :
      (h : ℕ) (ks : List K) (cs : List (Node K V (suc h))) (s : Siblings)
      → Spans (IsValid V c (suc h) (min_branch_len c)) none none ks cs
      → IsChain s (addrs K V (suc (suc h)) (record { keys = ks; children = cs }))
      → Linked K V (check_root_collapse c (suc (suc h)) (record { keys = ks; children = cs }) s)
  unfolding check_root_collapse keep_branch addrs flat_map
  branches-Linked h [] [] s v chain = absurd v
  branches-Linked h [] (n ∷ []) s v chain =
      subst (IsChain s) (append-nil (addrs K V (suc h) n)) chain
  branches-Linked h [] (n ∷ n' ∷ cs) s v chain = absurd v
  branches-Linked h (k ∷ ks) [] s v chain = absurd v
  branches-Linked h (k ∷ []) (n ∷ []) s v chain = absurd v.3
  branches-Linked h (k ∷ []) (n ∷ n' ∷ cs) s v chain = chain
  branches-Linked h (k ∷ k' ∷ ks) (n ∷ cs) s v chain =
      rw (lt→leb (length (k ∷ k' ∷ ks)) 1 (omega arith)) chain

module _ {ℓ κ} (K : Type ℓ) (V : Type κ) ⦃o : Ord K⦄ (c : Caps) (usable : IsUsable c) where
  check_root_collapse-Linked :
      (h : ℕ) (n : Node K V h) (s : Siblings)
      → IsValid V c h 0 none none n
      → IsChain s (addrs K V h n)
      → Linked K V (check_root_collapse c h n s)
  unfolding check_root_collapse
  check_root_collapse-Linked zero n s v chain = chain
  check_root_collapse-Linked (suc zero) n s v chain =
      leaves-Linked V c usable n.keys n.children s v.2 chain
  check_root_collapse-Linked (suc (suc h)) n s v chain =
      branches-Linked V c usable h n.keys n.children s v.2 chain

  after_remove-Linked :
      (h : ℕ) (n : Node K V h) (s : Siblings)
      → IsValid V c h 0 none none n
      → IsChain s (addrs K V h n)
      → Linked K V (after_remove c h n s)
  unfolding after_remove
  after_remove-Linked zero n s v chain = chain
  after_remove-Linked (suc h) n s v chain = elim (Bool-cases (leb (length n.keys) 2)) [
    | inl few ↦ rw few (check_root_collapse-Linked (suc h) n s v chain)
    | inr many ↦ rw many chain
  ]

  pub shrink_root-Linked :
      (h : ℕ) (n : Node K V h) (old : Option V) (s : Siblings)
      → IsValid V c h (keys_left old (root_min h)) none none n
      → IsChain s (addrs K V h n)
      → Linked K V (shrink_root c h n old s)
  unfolding shrink_root
  shrink_root-Linked h n none s v chain = chain
  shrink_root-Linked zero n (some x) s v chain = after_remove-Linked zero n s v chain
  shrink_root-Linked (suc h) n (some x) s v chain = after_remove-Linked (suc h) n s v chain
