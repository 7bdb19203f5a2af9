-- ===== src/Siblings/Splice.antt =====
-- A chain after a leaf was linked into it, or was freed out of it.
use bplus_tree.Base.{
  ℕ, ◌+◌, ◌≡◌, ◌≢◌, refl, sym, ap, ◌∙◌, true, false, List, [], ◌∷◌, ◌++◌, arith, ◌==◌, eq→==, ne→==,
  ==→ne, inl, inr, Bool-cases, if◌then◌else◌,
}
use bplus_tree.Siblings.{
  Siblings, null, alloc_leaf_block, set_next, set_prev, link_right, make_leaf_root,
}
use bplus_tree.Siblings.Chain.{
  has, head_or, last_or, Linked, IsChain, has-append, Distinct-append, Linked-append, Linked-left,
  Linked-right, Linked-same,
}
use bplus_tree.Siblings.Between.{
  has-ne, not-head_or, Linked-moved, IsBetween, between, live-mid, live-next,
}

-- What a split writes: a new block `r` behind the leaf `a`.
abbrev pub link_new : Siblings → ℕ → Siblings
link_new s a = link_right a s.fresh (alloc_leaf_block s).1

module _ (s : Siblings) (a : ℕ) (old : a ≢ s.fresh) where
  link-next : (b : ℕ) → b ≢ a → b ≢ s.fresh → (link_new s a).next b ≡ s.next b
  unfolding link_right alloc_leaf_block set_next set_prev
  link-next b h k = ground arith

  link-next_left : s.next a ≢ a → (link_new s a).next a ≡ s.fresh
  unfolding link_right alloc_leaf_block set_next set_prev
  link-next_left h = ground arith

  link-next_new : (link_new s a).next s.fresh ≡ s.next a
  unfolding link_right alloc_leaf_block set_next set_prev
  link-next_new = ground arith

  link-prev : (b : ℕ) → b ≢ s.next a → b ≢ s.fresh → (link_new s a).prev b ≡ s.prev b
  unfolding link_right alloc_leaf_block set_next set_prev
  link-prev b h k = ground arith

  link-prev_new : s.next a ≢ s.fresh → (link_new s a).prev s.fresh ≡ a
  unfolding link_right alloc_leaf_block set_next set_prev
  link-prev_new h = ground arith

  link-prev_next : s.next a ≢ null → (link_new s a).prev (s.next a) ≡ s.fresh
  unfolding link_right alloc_leaf_block set_next set_prev
  link-prev_next h = ground arith

  link-live : (b : ℕ) → (link_new s a).live b ≡ (if b == s.fresh then true else s.live b)
  unfolding link_right alloc_leaf_block set_next set_prev
  link-live b = ground arith

  link-fresh : (link_new s a).fresh ≡ s.fresh + 1
  unfolding link_right alloc_leaf_block set_next set_prev
  link-fresh = ground arith

-- The blocks that the linking writes are live: the leaf, the new block, and the next leaf.
link-clean :
    (s : Siblings) (a : ℕ)
    → s.fault ≡ false
    → s.live a ≡ true
    → (s.next a ≢ null → s.live (s.next a) ≡ true)
    → (link_new s a).fault ≡ false
unfolding link_right alloc_leaf_block set_next set_prev
link-clean s a c l n = elim (Bool-cases (s.next a == null)) [
  | inl e ↦ ground (arith, c, l)
  | inr e ↦ ground (arith, c, l, n (==→ne (s.next a) null e))
]

module _ (s : Siblings) (xs : List ℕ) (a : ℕ) (ys : List ℕ) (h : IsChain s (xs ++ a ∷ ys)) where
  mid : IsBetween xs a ys
  mid = between s xs a ys h

  new_left : has s.fresh xs ≡ false
  new_left =
      let new = rw (has-append s.fresh xs (a ∷ ys)) at (h.unused s.fresh (omega arith)) in
      ground arith

  new_right : has s.fresh ys ≡ false
  new_right =
      let new = rw (has-append s.fresh xs (a ∷ ys)) at (h.unused s.fresh (omega arith)) in
      ground arith

  new_ne : a ≢ s.fresh
  new_ne e =
      let new = rw (has-append s.fresh xs (a ∷ ys)) at (h.unused s.fresh (omega arith)) in
      ground (arith, eq→== s.fresh a (sym e))

  new_real : s.fresh ≢ null
  new_real e = omega (arith, h.started)

  here : Linked s (last_or null xs) (a ∷ ys) null
  here = Linked-right s null null xs (a ∷ ys) h.linked

  link-Linked : Linked (link_new s a) null (xs ++ a ∷ s.fresh ∷ ys) null
  link-Linked =
      let t = link_new s a in
      let next_a : s.next a ≡ head_or ys null = here.1 in
      let next_ne : s.next a ≢ a = λ e. not-head_or a ys mid.right mid.real (sym e ∙ next_a) in
      let next_new : s.next a ≢ s.fresh =
        λ e. not-head_or s.fresh ys new_right new_real (sym e ∙ next_a) in
      Linked-append t null null xs (a ∷ s.fresh ∷ ys)
        (Linked-same s t null a xs
          (λ b k.
            let b_real : b ≢ null = has-ne b null xs k mid.real_left in
            (
              link-next s a new_ne b (has-ne b a xs k mid.left) (has-ne b s.fresh xs k new_left),
              link-prev s a new_ne b (λ e. not-head_or b ys (mid.apart b k) b_real (e ∙ next_a))
                  (has-ne b s.fresh xs k new_left),
            ))
          (Linked-left s null null xs (a ∷ ys) h.linked))
        (
          link-prev s a new_ne a (λ e. next_ne (sym e)) new_ne ∙ here.0,
          link-next_left s a new_ne next_ne,
          (
            link-prev_new s a new_ne next_new,
            link-next_new s a new_ne ∙ next_a,
            Linked-moved s t a s.fresh ys
                (λ b k.
                  link-next s a new_ne b (has-ne b a ys k mid.right)
                    (has-ne b s.fresh ys k new_right))
                (λ b k ne.
                  link-prev s a new_ne b (λ e. ne (e ∙ next_a)) (has-ne b s.fresh ys k new_right))
                (λ ne.
                  ap t.prev (sym next_a) ∙ link-prev_next s a new_ne (λ e. ne (sym next_a ∙ e)))
                mid.behind mid.real_right here.2,
          ),
        )

  -- The new block of a split goes into the chain behind the leaf that was split.
  pub link_right-IsChain : IsChain (link_new s a) (xs ++ a ∷ s.fresh ∷ ys)
  link_right-IsChain = record {
    linked = link-Linked;
    distinct =
        Distinct-append xs (a ∷ s.fresh ∷ ys) mid.before
          (ground (arith, ne→== a s.fresh new_ne, mid.right), (new_right, mid.behind))
          (λ b k. ground (
            arith,
            ne→== b a (has-ne b a xs k mid.left),
            ne→== b s.fresh (has-ne b s.fresh xs k new_left),
            mid.apart b k,
          ));
    live = λ b.
        link-live s a new_ne b
        ∙ rw (has-append b xs (a ∷ s.fresh ∷ ys))
            (ground (arith, h.live b ∙ has-append b xs (a ∷ ys)));
    unused = λ b k. rw (has-append b xs (a ∷ s.fresh ∷ ys)) (
        ground (
          arith,
          link-fresh s a new_ne,
          sym (has-append b xs (a ∷ ys)) ∙ h.unused b (omega (arith, link-fresh s a new_ne)),
        ));
    real =
        rw (has-append null xs (a ∷ s.fresh ∷ ys))
          (ground (arith, mid.real_left, mid.real, mid.real_right, new_real));
    started = omega (arith, link-fresh s a new_ne, h.started);
    clean = link-clean s a h.clean (live-mid s xs a ys h) (live-next s xs a ys h);
  }

-- The chain of a map that gets its first leaf.
pub alloc_leaf_block-IsChain :
    (s : Siblings) → IsChain s [] → IsChain (alloc_leaf_block s).1 (s.fresh ∷ [])
unfolding alloc_leaf_block
alloc_leaf_block-IsChain s h = record {
  linked = (rw (eq→== s.fresh s.fresh refl), rw (eq→== s.fresh s.fresh refl), tt);
  distinct = (refl, tt);
  live = λ b. ground (arith, h.live b);
  unused = λ b k. ground arith;
  real = ground (arith, h.started);
  started = omega arith;
  clean = h.clean;
}

make_leaf_root-clean :
    (s : Siblings) (a : ℕ) (rest : List ℕ)
    → IsChain s (a ∷ rest)
    → (make_leaf_root a s).fault ≡ false
unfolding make_leaf_root set_prev
make_leaf_root-clean s a rest h = ground (arith, h.clean, live-mid s [] a rest h)

pub make_leaf_root-IsChain :
    (s : Siblings) (a : ℕ) (rest : List ℕ)
    → IsChain s (a ∷ rest)
    → IsChain (make_leaf_root a s) (a ∷ rest)
unfolding make_leaf_root set_prev
make_leaf_root-IsChain s a rest h = record {
  linked =
      Linked-same s (make_leaf_root a s) null null (a ∷ rest)
        (λ b k. (refl, ground (arith, h.linked.0))) h.linked;
  distinct = h.distinct;
  live = h.live;
  unused = h.unused;
  real = h.real;
  started = h.started;
  clean = make_leaf_root-clean s a rest h;
}
