-- ===== src/Siblings/Release.antt =====
-- A chain after a leaf was freed out of it.
use mathlib.Core.List.{append_assoc}
use mathlib.Core.Path.{subst}
use bplus_tree.Base.{
  ℕ, ◌≡◌, ◌≢◌, refl, sym, ap, ◌∙◌, inl, inr, true, false, ◌||◌, List, ◌∷◌, ◌++◌, arith, ◌==◌,
  Bool-cases, ==→eq, eq→==, ne→==, ==→ne, [], if◌then◌else◌,
}
use bplus_tree.Siblings.{Siblings, null, set_next, set_prev, free_leaf_node}
use bplus_tree.Siblings.Chain.{
  has, head_or, last_or, Linked, IsChain, has-append, Distinct-append, Linked-append, Linked-left,
  Linked-right, Linked-same,
}
use bplus_tree.Siblings.Between.{
  has-ne, Linked-moved, not-head_or, IsBetween, between, live-mid, live-next,
}

-- What `free_leaf_node` writes, for a leaf `r` behind a leaf `l`.
module _ (s : Siblings) (l r : ℕ) (behind : s.prev r ≡ l) (apart : l ≢ r) (real : l ≢ null) where
  free-next : (b : ℕ) → b ≢ l → b ≢ r → (free_leaf_node r s).next b ≡ s.next b
  unfolding free_leaf_node set_next set_prev
  free-next b h k = ground arith

  free-next_left : (free_leaf_node r s).next l ≡ s.next r
  unfolding free_leaf_node set_next set_prev
  free-next_left = ground arith

  free-prev : (b : ℕ) → b ≢ s.next r → b ≢ r → (free_leaf_node r s).prev b ≡ s.prev b
  unfolding free_leaf_node set_next set_prev
  free-prev b h k = ground arith

  free-prev_next : s.next r ≢ null → s.next r ≢ r → (free_leaf_node r s).prev (s.next r) ≡ l
  unfolding free_leaf_node set_next set_prev
  free-prev_next h k = ground arith

  free-live : (b : ℕ) → (free_leaf_node r s).live b ≡ (if b == r then false else s.live b)
  unfolding free_leaf_node set_next set_prev
  free-live b = ground arith

  -- Nothing dead is written or freed.
  free-clean :
      s.fault ≡ false
      → s.live r ≡ true
      → s.live l ≡ true
      → (s.next r ≢ null → s.live (s.next r) ≡ true)
      → (free_leaf_node r s).fault ≡ false
  unfolding free_leaf_node set_next set_prev
  free-clean c live_r live_l n = elim (Bool-cases (s.next r == null)) [
    | inl e ↦ ground (arith, c, live_r, live_l, behind)
    | inr e ↦ ground (arith, c, live_r, live_l, behind, n (==→ne (s.next r) null e))
  ]

  free-fresh : (free_leaf_node r s).fresh ≡ s.fresh
  unfolding free_leaf_node set_next set_prev
  free-fresh = ground arith

module _ (s : Siblings) (xs : List ℕ) (l r : ℕ) (ys : List ℕ)
    (h : IsChain s (xs ++ l ∷ r ∷ ys)) where
  mid : IsBetween xs l (r ∷ ys)
  mid = between s xs l (r ∷ ys) h

  ne : l ≢ r
  ne e = ground (arith, mid.right, eq→== l r e)

  gone_left : has r xs ≡ false
  gone_left = ground (arith, mid.apart r, eq→== r r refl)

  here : Linked s (last_or null xs) (l ∷ r ∷ ys) null
  here = Linked-right s null null xs (l ∷ r ∷ ys) h.linked

  free-Linked : Linked (free_leaf_node r s) null (xs ++ l ∷ ys) null
  free-Linked =
      let t = free_leaf_node r s in
      let behind : s.prev r ≡ l = here.2.0 in
      let next_r : s.next r ≡ head_or ys null = here.2.1 in
      let gone_right : has r ys ≡ false = mid.behind.0 in
      let r_real : r ≢ null = λ e. ground (arith, mid.real_right, eq→== null r (sym e)) in
      let ys_real : has null ys ≡ false = ground (arith, mid.real_right) in
      let l_right : has l ys ≡ false = ground (arith, mid.right) in
      Linked-append t null null xs (l ∷ ys)
        (Linked-same s t null l xs
          (λ b k.
            let b_real : b ≢ null = has-ne b null xs k mid.real_left in
            let b_l : b ≢ l = has-ne b l xs k mid.left in
            let b_r : b ≢ r = has-ne b r xs k gone_left in
            let b_right : has b ys ≡ false = ground (arith, mid.apart b k) in
            (
              free-next s l r behind ne mid.real b b_l b_r,
              free-prev s l r behind ne mid.real b
                  (λ e. not-head_or b ys b_right b_real (e ∙ next_r)) b_r,
            ))
          (Linked-left s null null xs (l ∷ r ∷ ys) h.linked))
        (
          free-prev s l r behind ne mid.real l (λ e. not-head_or l ys l_right mid.real (e ∙ next_r))
                ne
              ∙ here.0,
          free-next_left s l r behind ne mid.real ∙ next_r,
          Linked-moved s t r l ys
              (λ b k.
                free-next s l r behind ne mid.real b (has-ne b l ys k l_right)
                  (has-ne b r ys k gone_right))
              (λ b k other.
                free-prev s l r behind ne mid.real b (λ e. other (e ∙ next_r))
                  (has-ne b r ys k gone_right))
              (λ some_next.
                ap t.prev (sym next_r)
                ∙ free-prev_next s l r behind ne mid.real (λ e. some_next (sym next_r ∙ e))
                    (λ e. not-head_or r ys gone_right r_real (sym e ∙ next_r)))
              mid.behind.1 ys_real here.2.2,
        )

  live-free : (b : ℕ) → (if b == r then false else s.live b) ≡ (has b xs || ((b == l) || has b ys))
  live-free b = elim (Bool-cases (b == r)) [
    | inl e ↦
        let e' : b ≡ r = ==→eq b r e in
        rw (e, e') (ground (arith, gone_left, ne→== r l (λ e. ne (sym e)), mid.behind.0))
    | inr e ↦ rw e (ground (arith, h.live b ∙ has-append b xs (l ∷ r ∷ ys)))
  ]

  clean : (free_leaf_node r s).fault ≡ false
  clean =
      let h' : IsChain s ((xs ++ l ∷ []) ++ r ∷ ys) =
        subst (IsChain s) (sym (append_assoc xs (l ∷ []) (r ∷ ys))) h in
      free-clean s l r here.2.0 ne mid.real h.clean (live-mid s (xs ++ l ∷ []) r ys h')
        (live-mid s xs l (r ∷ ys) h) (live-next s (xs ++ l ∷ []) r ys h')

  -- A leaf that is not the first leaves the chain.
  pub free_leaf_node-IsChain : IsChain (free_leaf_node r s) (xs ++ l ∷ ys)
  free_leaf_node-IsChain = record {
    linked = free-Linked;
    distinct =
        Distinct-append xs (l ∷ ys) mid.before (ground (arith, mid.right), mid.behind.1)
          (λ b k. ground (arith, mid.apart b k, ne→== b l (has-ne b l xs k mid.left)));
    live =
        λ b. free-live s l r here.2.0 ne mid.real b ∙ rw (has-append b xs (l ∷ ys)) (live-free b);
    unused = λ b k. rw (has-append b xs (l ∷ ys)) (
        ground (
          arith,
          sym (has-append b xs (l ∷ r ∷ ys))
              ∙ h.unused b (omega (arith, free-fresh s l r here.2.0 ne mid.real)),
        ));
    real =
        rw (has-append null xs (l ∷ ys)) (ground (arith, mid.real_left, mid.real, mid.real_right));
    started = omega (arith, free-fresh s l r here.2.0 ne mid.real, h.started);
    clean = clean;
  }
