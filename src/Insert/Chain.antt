-- ===== src/Insert/Chain.antt =====
-- The chain of the leaves after an insertion: a leaf that splits has its new block behind it.
use bplus_tree.Base.{
  ℕ, zero, suc, ◌+◌, ◌/◌, ◌≤◌, ◌≡◌, refl, sym, ap, ◌∙◌, inl, inr, Option, List, [], ◌∷◌, ◌++◌,
  arith, tests, Yields, Yields->>=, Yields-each, Result-cases, ltb, ltb→lt, Bool-cases, length,
  get_elem?, set, take, drop, insert_at, length-insert_at, length-set, flat_map, flat_map-append,
  flat_map-set, flat_map-insert_at-set, flat_map-split, take-append-drop,
}
use bplus_tree.Order.{Ord, AtLeast, Under}
use bplus_tree.Search.{binary_search_keys, child_idx}
use bplus_tree.Search.Items.{keys, value_at}
use bplus_tree.Node.{Caps, IsUsable, Leaf, Branch, Node, fits-some, min_len}
use bplus_tree.Node.Leaves.{addrs}
use bplus_tree.Node.Spans.{Spans-length, lower_at, upper_at}
use bplus_tree.Node.Valid.{IsValid}
use bplus_tree.Node.Child.{search-IsHome}
use bplus_tree.Siblings.{Siblings, alloc_leaf_block}
use bplus_tree.Siblings.Splice.{link_right-IsChain}
use bplus_tree.Siblings.Extends.{Extends, Extends-same, Extends-within}
use bplus_tree.Descend.{child_for_key-some}
use bplus_tree.Insert.{
  InsertResult, no_split, split, insert_into_leaf_slot, split_items, leaf_split,
  leaf_insert_or_split, insert_into_branch_slot, insert_above, insert_rec,
}
use bplus_tree.Insert.BranchSplit.{branch_insert_and_split-IsCutAt}

-- What is listed of the one node or the two nodes of a result.
abbrev pub parts {ℓ κ μ ν} :
    {K : Type ℓ} {V : Type κ} {A : Type μ} {B : Type ν} → (A → List B) → InsertResult K V A → List B
parts f (no_split n old) = f n
parts f (split l sep r old) = f l ++ f r

module _ {ℓ κ} {K : Type ℓ} {V : Type κ} ⦃o : Ord K⦄ (c : Caps) (leaf : Leaf K V) (key : K)
    (value : V) (s : Siblings) where
  abbrev ExtendsLeaf : InsertResult K V (Leaf K V) × Siblings → Type 0
  ExtendsLeaf r = Extends s r.1 (leaf.addr ∷ []) (parts (addrs K V zero) r.0)

  leaf_split-Extends : (i : ℕ) → Yields (leaf_split c leaf i key value s) ExtendsLeaf
  unfolding leaf_split alloc_leaf_block addrs
  leaf_split-Extends i = Yields-each (split_items c leaf.items i key value) _ ExtendsLeaf (λ r e.
      Yields-each (get_elem? r.1 0) _ ExtendsLeaf
        (λ y e' xs ys. link_right-IsChain s xs leaf.addr ys))

  leaf_insert_or_split-Extends : Yields (leaf_insert_or_split c leaf key value s) ExtendsLeaf
  unfolding leaf_insert_or_split addrs
  leaf_insert_or_split-Extends = elim (Result-cases (binary_search_keys (keys leaf.items) key)) [
    | inl (i, e) ↦
        rw (leaf_insert_or_split, e)
          (Yields-each (value_at leaf.items i) _ ExtendsLeaf
            (λ old e'. Extends-same s (leaf.addr ∷ []) _ refl))
    | inr (i, e) ↦ elim (Bool-cases (ltb (length leaf.items) c.leaf_cap)) [
      | inl room ↦
          rw (leaf_insert_or_split, e, room)
            (Yields-each (insert_into_leaf_slot c leaf.items i key value) _ ExtendsLeaf
              (λ items e'. Extends-same s (leaf.addr ∷ []) _ refl))
      | inr full ↦ rw (leaf_insert_or_split, e, full) (leaf_split-Extends i)
    ]
  ]

module _ {ℓ κ μ ν} {K : Type ℓ} {V : Type κ} {A : Type μ} {B : Type ν} (c : Caps) (f : A → List B)
    (b : Branch K A) (i : ℕ) (inside : i ≤ length b.keys)
    (lens : length b.children ≡ suc (length b.keys)) (cap : length b.keys ≤ c.branch_cap)
    (pos : 1 ≤ c.branch_cap) where
  abbrev PartsAbove : InsertResult K V A → InsertResult K V (Branch K A) → Type ν
  PartsAbove r r' =
      parts (λ b. flat_map f b.children) r'
      ≡ flat_map f (take i b.children) ++ parts f r ++ flat_map f (drop (suc i) b.children)

  split_parts :
      (l : A) (sep : K) (r : A) (old : Option V)
      → Yields (insert_above c b i (split l sep r old)) (PartsAbove (split l sep r old))
  unfolding insert_above insert_into_branch_slot
  split_parts l sep r old = elim (Bool-cases (ltb (length b.keys) c.branch_cap)) [
    | inl room ↦
        rw
          (
            room,
            fits-some c.branch_cap (insert_at b.keys i sep) (
                omega
                  (arith, length-insert_at b.keys i sep, ltb→lt (length b.keys) c.branch_cap room)),
          )
          (flat_map-insert_at-set f b.children i l r (omega (arith, lens)))
    | inr full ↦
        let b' : Branch K A = record b { children = set b.children i l } in
        let (p, there, run) =
          branch_insert_and_split-IsCutAt c b' i sep r old inside (length-set b.children i l ∙ lens)
            cap (omega (tests, full)) in
        let grown : List A = insert_at (set b.children i l) (suc i) r in
        let m : ℕ = suc ((length b.keys + 1) / 2) in
        rw (full, run)
          (sym (flat_map-append f (take m grown) (drop m grown))
            ∙ ap (flat_map f) (take-append-drop m grown)
            ∙ flat_map-insert_at-set f b.children i l r (omega (arith, lens)))
  ]

  -- What a branch lists after its child was replaced by one node or two.
  insert_above-parts : (r : InsertResult K V A) → Yields (insert_above c b i r) (PartsAbove r)
  unfolding insert_above
  insert_above-parts (no_split n' old) = flat_map-set f b.children i n' (omega (arith, lens))
  insert_above-parts (split l sep r old) = split_parts l sep r old

module _ {ℓ κ} {K : Type ℓ} {V : Type κ} ⦃o : Ord K⦄ (c : Caps) (usable : IsUsable c) (key : K)
    (value : V) where
  abbrev pub ExtendsNode :
      Siblings → (h : ℕ) → Node K V h → InsertResult K V (Node K V h) × Siblings → Type 0
  ExtendsNode s h n r = Extends s r.1 (addrs K V h n) (parts (addrs K V h) r.0)

  pub insert_rec-Extends :
      (h m : ℕ) (lo hi : Option K) (n : Node K V h) (s : Siblings)
      → IsValid V c h m lo hi n
      → AtLeast lo key
      → Under hi key
      → Yields (insert_rec c h n key value s) (ExtendsNode s h n)
  unfolding insert_rec addrs
  insert_rec-Extends zero m lo hi n s v a u = leaf_insert_or_split-Extends c n key value s
  insert_rec-Extends (suc h) m lo hi n s v a u =
      let (child, home) = search-IsHome V c h lo hi n key m v a u in
      let i = child_idx (binary_search_keys n.keys key) in
      let f = addrs K V h in
      rw (child_for_key-some n key home.there) (
        Yields->>= (insert_rec c h child key value s) _ (ExtendsNode s h child)
          (ExtendsNode s (suc h) n)
          (insert_rec-Extends h (min_len c h) (lower_at lo n.keys i) (upper_at hi n.keys i) child s
            home.valid home.above home.below)
          (λ r e ext.
            Yields->>= (insert_above c n i r.0) _
              (PartsAbove c f n i home.inside
                (Spans-length (IsValid V c h (min_len c h)) hi lo n.keys n.children v.2) v.1
                (omega (arith, usable.branch)) r.0)
              (ExtendsNode s (suc h) n)
              (insert_above-parts c f n i home.inside
                (Spans-length (IsValid V c h (min_len c h)) hi lo n.keys n.children v.2) v.1
                (omega (arith, usable.branch)) r.0)
              (λ r' e' same.
                rw (flat_map-split f n.children i home.there, same)
                  (Extends-within s r.1 (flat_map f (take i n.children)) (f child) (parts f r.0)
                    (flat_map f (drop (suc i) n.children)) ext))))
