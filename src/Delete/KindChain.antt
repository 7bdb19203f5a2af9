-- ===== src/Delete/KindChain.antt =====
-- What moving and merging does to the leaves below two neighbours.
use bplus_tree.Base.{
  ℕ, zero, suc, ◌-◌, ◌≡◌, refl, sym, ap, ◌∙◌, Option, some, List, [], ◌∷◌, ◌++◌, arith, Yields-each,
  length, get_elem?, take, drop, flat_map, flat_map-append,
}
use mathlib.Core.List.{append_assoc, append-nil}
use bplus_tree.Order.{Ord}
use bplus_tree.Node.{Caps, Leaf, Node, fits}
use bplus_tree.Node.Leaves.{addrs}
use bplus_tree.Node.Valid.{IsValid}
use bplus_tree.Node.Spans.{Spans-length}
use bplus_tree.Node.{min_len}
use bplus_tree.Siblings.Release.{free_leaf_node-IsChain}
use bplus_tree.Siblings.Extends.{Extends-same}
use bplus_tree.Rebalance.Chain.{IsChained}
use bplus_tree.Delete.{
  kind_of, leaf_kind, branch_kind, borrow_from_left_leaf, borrow_from_right_leaf, merge_leaf_into,
  borrow_from_left_branch, borrow_from_right_branch, merge_branches,
}

module _ {ℓ κ} {A : Type ℓ} {B : Type κ} (f : A → List B) where
  flat_map-last :
      (xs : List A) (n : ℕ) {x : A}
      → get_elem? xs n ≡ some x
      → length xs ≡ suc n
      → flat_map f (take n xs) ++ f x ≡ flat_map f xs
  unfolding flat_map
  flat_map-last [] n p q = absurd (cc)
  flat_map-last (y ∷ []) zero {x} p q = let e : y ≡ x = cc in ap f (sym e) ∙ sym (append-nil (f y))
  flat_map-last (x ∷ x' ∷ xs) zero p q = absurd (omega (arith, q))
  flat_map-last (y ∷ xs) (suc n) {x} p q =
      append_assoc (f y) (flat_map f (take n xs)) (f x)
      ∙ ap (λ zs. f y ++ zs) (flat_map-last xs n p (omega (arith, q)))

  flat_map-first :
      (xs : List A) {x : A}
      → get_elem? xs 0 ≡ some x
      → f x ++ flat_map f (drop 1 xs) ≡ flat_map f xs
  unfolding flat_map
  flat_map-first [] p = absurd (cc)
  flat_map-first (y ∷ xs) {x} p = let e : y ≡ x = cc in ap (λ z. f z ++ flat_map f xs) (sym e)

module _ {ℓ κ} (K : Type ℓ) (V : Type κ) where
  -- A branch has one child more than keys.
  abbrev pub Formed : (h : ℕ) → Node K V h → Type 0
  Formed zero leaf = Unit
  Formed (suc h) b = length b.children ≡ suc (length b.keys)

module _ {ℓ κ} {K : Type ℓ} (V : Type κ) ⦃o : Ord K⦄ (c : Caps) where
  pub IsValid-Formed :
      (h m : ℕ) (lo hi : Option K) (n : Node K V h) → IsValid V c h m lo hi n → Formed K V h n
  IsValid-Formed zero m lo hi n v = tt
  IsValid-Formed (suc h) m lo hi n v =
      Spans-length (IsValid V c h (min_len c h)) hi lo n.keys n.children v.2

module _ {ℓ κ} (K : Type ℓ) (V : Type κ) (c : Caps) where
  leaf_kind-IsChained : IsChained {A = Leaf K V} (Formed K V zero) (addrs K V zero) (leaf_kind c)
  unfolding leaf_kind addrs borrow_from_left_leaf borrow_from_right_leaf merge_leaf_into
  leaf_kind-IsChained = record {
    to_right = λ l s r p q.
        Yields-each (get_elem? l.items (length l.items - 1)) _ _
          (λ x e. Yields-each (fits c.leaf_cap (x ∷ r.items)) _ _ (λ xs e'. refl));
    to_left = λ l s r p q. Yields-each (get_elem? r.items 0) _ _ (λ x e.
        Yields-each (fits c.leaf_cap (l.items ++ x ∷ [])) _ _
          (λ xs e'. Yields-each (get_elem? (drop 1 r.items) 0) _ _ (λ y e''. refl)));
    merged = λ l s r st.
        Yields-each (fits c.leaf_cap (l.items ++ r.items)) _ _
          (λ xs e before behind h. free_leaf_node-IsChain st before l.addr r.addr behind h);
  }

  branch_kind-IsChained :
      (h : ℕ)
      → IsChained {A = Node K V (suc h)} (Formed K V (suc h)) (addrs K V (suc h)) (branch_kind c)
  unfolding branch_kind addrs borrow_from_left_branch borrow_from_right_branch merge_branches
      flat_map
  branch_kind-IsChained h =
      let f = addrs K V h in
      record {
        to_right = λ l s r p q. Yields-each (get_elem? l.keys (length l.keys - 1)) _ _ (λ k e.
            Yields-each (get_elem? l.children (length l.keys)) _ _ (λ x e'.
              Yields-each (fits c.branch_cap (s ∷ r.keys)) _ _ (λ ks e''.
                sym (
                  append_assoc (flat_map f (take (length l.keys) l.children)) (f x)
                    (flat_map f r.children))
                ∙ ap (λ zs. zs ++ flat_map f r.children)
                    (flat_map-last f l.children (length l.keys) e' p))));
        to_left = λ l s r p q. Yields-each (get_elem? r.keys 0) _ _ (λ k e.
            Yields-each (get_elem? r.children 0) _ _ (λ x e'.
              Yields-each (fits c.branch_cap (l.keys ++ s ∷ [])) _ _ (λ ks e''.
                rw (flat_map-append f l.children (x ∷ []), append-nil (f x))
                  (append_assoc (flat_map f l.children) (f x) (flat_map f (drop 1 r.children))
                    ∙ ap (λ zs. flat_map f l.children ++ zs) (flat_map-first f r.children e')))));
        merged = λ l s r st.
            Yields-each (fits c.branch_cap (l.keys ++ s ∷ r.keys)) _ _
              (λ ks e. Extends-same st _ _ (sym (flat_map-append f l.children r.children)));
      }

  pub kind_of-IsChained :
      (h : ℕ) → IsChained {A = Node K V h} (Formed K V h) (addrs K V h) (kind_of V c h)
  kind_of-IsChained zero = leaf_kind-IsChained
  kind_of-IsChained (suc h) = branch_kind-IsChained h
