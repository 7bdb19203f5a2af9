-- ===== src/Map/Collapse.antt =====
-- `check_root_collapse` and its guard in `remove`.
use mathlib.Core.List.{append-nil}
use bplus_tree.Base.{
  ℕ, zero, suc, ◌+◌, ◌≤◌, ◌<◌, ◌≡◌, refl, sym, ap, inl, inr, false, Option, none, some, List, [],
  ◌∷◌, ◌++◌, arith, ltb, leb, leb→lt, ltb→le, lt→leb, ne→==, ◌==◌, Bool-cases, length,
  length-append, flat_map,
}
use bplus_tree.Order.{Ord}
use bplus_tree.Node.{
  Caps, IsUsable, Leaf, Node, entries, fits-some, min_leaf_len, min_branch_len, min_len_pos,
}
use bplus_tree.Node.Valid.{IsValid}
use bplus_tree.Node.Spans.{Spans}
use bplus_tree.Siblings.{Siblings}
use bplus_tree.Delete.{merge_leaf_into, keep_leaf, keep_branch, check_root_collapse, after_remove}
use bplus_tree.Delete.LeafKind.{both-IsAscending, both-Within}
use bplus_tree.Delete.Recursion.{keys_left}
use bplus_tree.Map.{shrink_root}
use bplus_tree.Map.Valid.{IsValidRoot, root_contents, root_min}

module _ {ℓ κ} {K : Type ℓ} (V : Type κ) ⦃o : Ord K⦄ (c : Caps) where
  -- A root that holds what `n` held.
  abbrev pub IsRootOf : (h : ℕ) → Node K V h → Option ((h : ℕ) × Node K V h) → Type (ℓ ⊔ κ)
  IsRootOf h n r = IsValidRoot c r × (root_contents r ≡ entries h n)

module _ {ℓ κ} {K : Type ℓ} (V : Type κ) ⦃o : Ord K⦄ (c : Caps) (usable : IsUsable c) where
  abbrev IsItem : Option K → Option K → Leaf K V → Type 0
  IsItem = IsValid V c zero (min_leaf_len c)

  pub nonempty : (lo hi : Option K) (l : Leaf K V) → IsItem lo hi l → (length l.items == 0) ≡ false
  nonempty lo hi l v = ne→== (length l.items) 0 (omega (arith, v.0, usable.leaf))

  -- The two leaves below a root with one key.
  pair-IsRootOf :
      (k : K) (l r : Leaf K V) (s : Siblings)
      → 1 ≤ c.branch_cap
      → Spans IsItem none none (k ∷ []) (l ∷ r ∷ [])
      → IsRootOf V c 1
          (record { keys = k ∷ []; children = l ∷ r ∷ [] })
          (check_root_collapse c 1 (record { keys = k ∷ []; children = l ∷ r ∷ [] }) s).0
  unfolding check_root_collapse keep_leaf merge_leaf_into entries flat_map
  pair-IsRootOf k l r s one v =
      elim (Bool-cases (ltb c.leaf_cap (length l.items + length r.items))) [
        | inl over ↦
            rw (nonempty none (some k) l v.0, nonempty (some k) none r v.3, over)
              ((omega arith, one, v), refl)
        | inr room ↦
            let room' = ltb→le c.leaf_cap (length l.items + length r.items) room in
            let len = length-append l.items r.items in
            rw
              (
                nonempty none (some k) l v.0,
                nonempty (some k) none r v.3,
                room,
                fits-some c.leaf_cap (l.items ++ r.items) (omega arith),
              )
              (
                (
                  omega arith,
                  omega arith,
                  both-IsAscending V c usable none none l k r
                      (omega (arith, v.0.0), v.0.1, v.0.2, v.0.3)
                      (omega (arith, v.3.0), v.3.1, v.3.2, v.3.3) tt tt,
                  both-Within V c usable none none l k r (omega (arith, v.0.0), v.0.1, v.0.2, v.0.3)
                      (omega (arith, v.3.0), v.3.1, v.3.2, v.3.3) tt tt,
                ),
                ap (λ es. l.items ++ es) (sym (append-nil r.items)),
              )
      ]

  leaves-IsRootOf :
      (ks : List K) (cs : List (Leaf K V)) (s : Siblings)
      → length ks ≤ c.branch_cap
      → Spans IsItem none none ks cs
      → IsRootOf V c 1
          (record { keys = ks; children = cs })
          (check_root_collapse c 1 (record { keys = ks; children = cs }) s).0
  unfolding check_root_collapse keep_leaf entries flat_map
  leaves-IsRootOf [] [] s b v = absurd v
  leaves-IsRootOf [] (l ∷ []) s b v =
      rw (nonempty none none l v) ((omega arith, v.1, v.2, v.3), sym (append-nil l.items))
  leaves-IsRootOf [] (l ∷ r ∷ cs) s b v = absurd v
  leaves-IsRootOf (k ∷ ks) [] s b v = absurd v
  leaves-IsRootOf (k ∷ []) (l ∷ []) s b v = absurd v.3
  leaves-IsRootOf (k ∷ []) (l ∷ r ∷ []) s b v = pair-IsRootOf k l r s b v
  leaves-IsRootOf (k ∷ []) (l ∷ r ∷ d ∷ cs) s b v = absurd v.3
  leaves-IsRootOf (k ∷ k' ∷ ks) (l ∷ cs) s b v =
      rw (lt→leb (length (k ∷ k' ∷ ks)) 1 (omega arith)) ((omega arith, b, v), refl)

  branches-IsRootOf :
      (h : ℕ) (ks : List K) (cs : List (Node K V (suc h))) (s : Siblings)
      → length ks ≤ c.branch_cap
      → Spans (IsValid V c (suc h) (min_branch_len c)) none none ks cs
      → IsRootOf V c
          (suc (suc h))
          (record { keys = ks; children = cs })
          (check_root_collapse c (suc (suc h)) (record { keys = ks; children = cs }) s).0
  unfolding check_root_collapse keep_branch entries flat_map
  branches-IsRootOf h [] [] s b v = absurd v
  branches-IsRootOf h [] (n ∷ []) s b v = (
    (omega (arith, v.0, min_len_pos c (suc h) usable), v.1, v.2),
    sym (append-nil (entries (suc h) n)),
  )
  branches-IsRootOf h [] (n ∷ n' ∷ cs) s b v = absurd v
  branches-IsRootOf h (k ∷ ks) [] s b v = absurd v
  branches-IsRootOf h (k ∷ []) (n ∷ []) s b v = absurd v.3
  branches-IsRootOf h (k ∷ []) (n ∷ n' ∷ cs) s b v = ((omega arith, b, v), refl)
  branches-IsRootOf h (k ∷ k' ∷ ks) (n ∷ cs) s b v =
      rw (lt→leb (length (k ∷ k' ∷ ks)) 1 (omega arith)) ((omega arith, b, v), refl)

  -- With usable capacities, for a root that is valid but may have no key: after
  -- `check_root_collapse` the root is valid, with a key when it is a branch, and holds the same
  -- entries.
  pub check_root_collapse-IsRootOf :
      (h : ℕ) (n : Node K V h) (s : Siblings)
      → IsValid V c h 0 none none n
      → IsRootOf V c h n (check_root_collapse c h n s).0
  unfolding check_root_collapse
  check_root_collapse-IsRootOf zero n s v = (v, refl)
  check_root_collapse-IsRootOf (suc zero) n s v = leaves-IsRootOf n.keys n.children s v.1 v.2
  check_root_collapse-IsRootOf (suc (suc h)) n s v = branches-IsRootOf h n.keys n.children s v.1 v.2

  after_remove-IsRootOf :
      (h : ℕ) (n : Node K V h) (s : Siblings)
      → IsValid V c h 0 none none n
      → IsRootOf V c h n (after_remove c h n s).0
  unfolding after_remove
  after_remove-IsRootOf zero n s v = (v, refl)
  after_remove-IsRootOf (suc h) n s v = elim (Bool-cases (leb (length n.keys) 2)) [
    | inl few ↦ rw few (check_root_collapse-IsRootOf (suc h) n s v)
    | inr many ↦
        let more : 2 < length n.keys = leb→lt (length n.keys) 2 many in
        rw many ((omega arith, v.1, v.2), refl)
  ]

  pub shrink_root-IsRootOf :
      (h : ℕ) (n : Node K V h) (old : Option V) (s : Siblings)
      → IsValid V c h (keys_left old (root_min h)) none none n
      → IsRootOf V c h n (shrink_root c h n old s).0
  unfolding shrink_root
  shrink_root-IsRootOf h n none s v = (v, refl)
  shrink_root-IsRootOf zero n (some x) s v = after_remove-IsRootOf zero n s v
  shrink_root-IsRootOf (suc h) n (some x) s v = after_remove-IsRootOf (suc h) n s v
