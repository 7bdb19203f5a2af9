-- ===== src/Rebalance/Correct.antt =====
-- `rebalance_child` for a lawful kind.
use bplus_tree.Base.{
  ℕ, zero, suc, ◌+◌, ◌-◌, ◌≤◌, ◌<◌, ◌≡◌, ◌≢◌, refl, sym, ap, ◌∙◌, inl, inr, false, Option, some,
  List, arith, Ensures, ◌&&◌, ltb, leb, leb→le, leb→lt, ltb→lt, ltb→le, le→leb, Bool-cases, length,
  length-set, get_elem?, get_elem?-some, get_elem?-set_self, set, remove_at,
}
use bplus_tree.Order.{Ord}
use bplus_tree.Node.{Branch}
use bplus_tree.Node.Spans.{Spans, Spans-get, Spans-set, Spans-length, lower_at, upper_at}
use bplus_tree.Node.Spans.Cuts.{Spans-imp}
use bplus_tree.Siblings.{Siblings}
use bplus_tree.Rebalance.{
  Kind, can_lend, borrow_from_left, borrow_from_right, merge_pair, rebalance_child,
}
use bplus_tree.Rebalance.Pairs.{set-set_self, set-set_right, remove_at-set_right, get_elem?-set_ne}
use bplus_tree.Rebalance.Laws.{IsLawful}
use bplus_tree.Rebalance.Choice.{takes_right, merges_right, takes_left, merges_left, no_left}
use bplus_tree.Rebalance.Steps.{
  IsPair, between-IsPair, IsRebalanced, change_pair-IsRebalanced, merge_pair-IsRebalanced,
}

module _ {ℓ κ μ} {K : Type ℓ} {V : Type κ} {A : Type μ} ⦃o : Ord K⦄
    (P Q : Option K → Option K → A → Type 0) (f : A → List (K × V)) (kind : Kind K A)
    (lawful : IsLawful P Q f kind) (lo hi : Option K) (ks : List K) (cs : List A)
    (spans : Spans P lo hi ks cs) (st : Siblings) where
  open kind use {size, min_size}

  lends :
      (b : Branch K A) (j : ℕ) {n : A}
      → get_elem? b.children j ≡ some n
      → can_lend kind b j ≡ ltb min_size (size n)
  unfolding can_lend
  lends b j e = rw (can_lend, e)

  -- Child `i` has become `n`, which may lack a key.
  module _ (i : ℕ) (n : A) (inside : i ≤ length ks)
      (mended : Q (lower_at lo ks i) (upper_at hi ks i) n) where
    abbrev pub changed : Branch K A
    changed = record { keys = ks; children = set cs i n }

    abbrev pub Done : Branch K A × Siblings → Type (ℓ ⊔ κ)
    Done r = IsRebalanced P f lo hi ks (set cs i n) r.0

    spans' : Spans Q lo hi ks (set cs i n)
    spans' = Spans-set Q hi lo ks cs i n (Spans-imp P Q lawful.weaken hi lo ks cs spans) mended

    there : get_elem? (set cs i n) i ≡ some n
    there = get_elem?-set_self cs i n (omega (arith, Spans-length P hi lo ks cs spans))

    -- A child with enough keys stays.
    pub keep-Done : min_size ≤ size n → Ensures (rebalance_child kind changed i (length ks) st) Done
    unfolding rebalance_child
    keep-Done e = (
      (changed, st),
      rw (there, le→leb min_size (size n) e),
      record {
        spans = Spans-set P hi lo ks cs i n spans (lawful.enough _ _ n mended e);
        shrinks = omega arith;
        bounded = omega arith;
        same = refl;
      },
    )

    least : (j : ℕ) {r : A} → i ≢ j → get_elem? (set cs i n) j ≡ some r → min_size ≤ size r
    least j {r} ne q =
        lawful.least _ _ r
          (Spans-get P hi lo ks cs j spans (sym (get_elem?-set_ne cs i j n ne) ∙ q))

    -- The pair `j`, of which child `i` is one.
    module _ (j : ℕ)
        (agree : (l r : A) → set (set (set cs i n) j l) (suc j) r ≡ set (set cs j l) (suc j) r)
        (agree' : (m : A)
          → remove_at (set (set cs i n) j m) (suc j) ≡ remove_at (set cs j m) (suc j))
        (l : A) (s : K) (r : A) (pair : IsPair Q lo hi changed j l s r) where
      give_right-Done :
          min_size < size l
          → size r < min_size
          → Ensures (borrow_from_left kind changed (suc j) st) Done
      unfolding borrow_from_left
      give_right-Done big small =
          let (b', run, done) =
            change_pair-IsRebalanced P Q f lo hi ks cs (set cs i n) spans j agree agree' l s r pair
              kind.lend_to_right
              (lawful.lend_to_right_lem _ _ l s r pair.left pair.right pair.beyond pair.under big
                small) in
          let back : suc j - 1 ≡ j = omega arith in ((b', st), rw (back, run), done)

      give_left-Done :
          min_size < size r → size l < min_size → Ensures (borrow_from_right kind changed j st) Done
      unfolding borrow_from_right
      give_left-Done big small =
          let (b', run, done) =
            change_pair-IsRebalanced P Q f lo hi ks cs (set cs i n) spans j agree agree' l s r pair
              kind.lend_to_left
              (lawful.lend_to_left_lem _ _ l s r pair.left pair.right pair.beyond pair.under big
                small) in
          ((b', st), rw run, done)

      merge-Done :
          min_size ≤ size l + size r
          → size l + size r < min_size + min_size
          → Ensures (merge_pair kind changed j st) Done
      merge-Done enough small =
          merge_pair-IsRebalanced P Q f lo hi ks cs (set cs i n) spans j agree agree' l s r pair
            kind st
            (lawful.merge_lem _ _ l s r pair.left pair.right pair.beyond pair.under enough small)

  -- Child `i` with the neighbour behind it.
  module _ (i : ℕ) (n : A) (inside : i < length ks)
      (mended : Q (lower_at lo ks i) (upper_at hi ks i) n) where
    behind :
        (s : K) × (r : A) × IsPair Q lo hi (changed i n (omega arith) mended) i n s r
        × (min_size ≤ size r)
    behind =
        let (s, e) = get_elem?-some ks i inside in
        let (r, q) =
          get_elem?-some (set cs i n) (suc i)
            (omega (arith, length-set cs i n, Spans-length P hi lo ks cs spans)) in
        (
          s,
          r,
          between-IsPair Q lo hi (changed i n (omega arith) mended)
              (spans' i n (omega arith) mended) i (there i n (omega arith) mended) q e,
          least i n (omega arith) mended (suc i) (omega arith) q,
        )

    module _ (s : K) (r : A)
        (pair : IsPair Q lo hi (changed i n (omega arith) mended) i n s r) where
      from_right-Done :
          min_size < size r
          → size n < min_size
          → Ensures
              (borrow_from_right kind (changed i n (omega arith) mended) i st)
              (Done i n (omega arith) mended)
      from_right-Done =
          give_left-Done i n (omega arith) mended i
            (λ l' r'. ap (λ xs. set xs (suc i) r') (set-set_self cs i n l'))
            (λ m. ap (λ xs. remove_at xs (suc i)) (set-set_self cs i n m)) n s r pair

      merge_right-Done :
          min_size ≤ size n + size r
          → size n + size r < min_size + min_size
          → Ensures
              (merge_pair kind (changed i n (omega arith) mended) i st)
              (Done i n (omega arith) mended)
      merge_right-Done =
          merge-Done i n (omega arith) mended i
            (λ l' r'. ap (λ xs. set xs (suc i) r') (set-set_self cs i n l'))
            (λ m. ap (λ xs. remove_at xs (suc i)) (set-set_self cs i n m)) n s r pair

  first-Done :
      (n : A) (inside : 0 < length ks) (mended : Q lo (upper_at hi ks 0) n)
      → size n < min_size
      → Ensures
          (rebalance_child kind (changed 0 n (omega arith) mended) 0 (length ks) st)
          (Done 0 n (omega arith) mended)
  first-Done n inside mended small =
      let (s, r, pair, least) = behind 0 n inside mended in
      let b = changed 0 n (omega arith) mended in
      let can = lends b 1 pair.at_right in
      elim (Bool-cases (ltb min_size (size r))) [
        | inl big ↦
            let (x, run, done) =
              from_right-Done 0 n inside mended s r pair (ltb→lt min_size (size r) big) small in
            (
              x,
              takes_right kind b 0 (length ks) st pair.at_left small refl inside (can ∙ big) ∙ run,
              done,
            )
        | inr not_big ↦
            let (x, run, done) =
              merge_right-Done 0 n inside mended s r pair (omega arith)
                (omega (arith, ltb→le min_size (size r) not_big)) in
            (
              x,
              merges_right kind b (length ks) st pair.at_left small inside (can ∙ not_big) ∙ run,
              done,
            )
      ]

  -- Child `suc j` with the neighbour before it.
  module _ (j : ℕ) (n : A) (inside : j < length ks)
      (mended : Q (lower_at lo ks (suc j)) (upper_at hi ks (suc j)) n) where
    ahead :
        (l : A) × (s : K) × IsPair Q lo hi (changed (suc j) n (omega arith) mended) j l s n
        × (min_size ≤ size l)
    ahead =
        let (s, e) = get_elem?-some ks j inside in
        let (l, p) =
          get_elem?-some (set cs (suc j) n) j
            (omega (arith, length-set cs (suc j) n, Spans-length P hi lo ks cs spans)) in
        (
          l,
          s,
          between-IsPair Q lo hi (changed (suc j) n (omega arith) mended)
              (spans' (suc j) n (omega arith) mended) j p (there (suc j) n (omega arith) mended) e,
          least (suc j) n (omega arith) mended j (omega arith) p,
        )

    module _ (l : A) (s : K)
        (pair : IsPair Q lo hi (changed (suc j) n (omega arith) mended) j l s n) where
      from_left-Done :
          min_size < size l
          → size n < min_size
          → Ensures
              (borrow_from_left kind (changed (suc j) n (omega arith) mended) (suc j) st)
              (Done (suc j) n (omega arith) mended)
      from_left-Done =
          give_right-Done (suc j) n (omega arith) mended j (set-set_right cs j n)
            (remove_at-set_right cs j n) l s n pair

      merge_left-Done :
          min_size ≤ size l + size n
          → size l + size n < min_size + min_size
          → Ensures
              (merge_pair kind (changed (suc j) n (omega arith) mended) j st)
              (Done (suc j) n (omega arith) mended)
      merge_left-Done =
          merge-Done (suc j) n (omega arith) mended j (set-set_right cs j n)
            (remove_at-set_right cs j n) l s n pair

    -- No neighbour gives a key.
    alone-Done :
        (l : A) (s : K)
        → IsPair Q lo hi (changed (suc j) n (omega arith) mended) j l s n
        → min_size ≤ size l
        → size n < min_size
        → ltb min_size (size l) ≡ false
        → (ltb (suc j) (length ks)
            && can_lend kind (changed (suc j) n (omega arith) mended) (suc (suc j)))
          ≡ false
        → Ensures
            (rebalance_child kind (changed (suc j) n (omega arith) mended) (suc j) (length ks) st)
            (Done (suc j) n (omega arith) mended)
    alone-Done l s pair least small not_big no_right =
        let b = changed (suc j) n (omega arith) mended in
        let (x, run, done) =
          merge_left-Done l s pair (omega arith)
            (omega (arith, ltb→le min_size (size l) not_big)) in
        (
          x,
          merges_left kind b j (length ks) st pair.at_right small (lends b j pair.at_left ∙ not_big)
                no_right
              ∙ run,
          done,
        )

    -- The left neighbour has no key to give: the right one may.
    later-Done :
        (l : A) (s : K)
        → IsPair Q lo hi (changed (suc j) n (omega arith) mended) j l s n
        → min_size ≤ size l
        → size n < min_size
        → ltb min_size (size l) ≡ false
        → Ensures
            (rebalance_child kind (changed (suc j) n (omega arith) mended) (suc j) (length ks) st)
            (Done (suc j) n (omega arith) mended)
    later-Done l s pair least small not_big = elim (Bool-cases (ltb (suc j) (length ks))) [
      | inr end ↦ alone-Done l s pair least small not_big (rw end)
      | inl more ↦
          let b = changed (suc j) n (omega arith) mended in
          let more' : suc j < length ks = ltb→lt (suc j) (length ks) more in
          let (s', r, pair', least') = behind (suc j) n more' mended in
          let can = lends b (suc (suc j)) pair'.at_right in
          elim (Bool-cases (ltb min_size (size r))) [
            | inl big ↦
                let (x, run, done) =
                  from_right-Done (suc j) n more' mended s' r pair' (ltb→lt min_size (size r) big)
                    small in
                (
                  x,
                  takes_right kind b (suc j) (length ks) st pair.at_right small
                        (no_left kind b j (length ks) st pair.at_right small
                          (lends b j pair.at_left ∙ not_big))
                        more' (can ∙ big)
                      ∙ run,
                  done,
                )
            | inr r_small ↦ alone-Done l s pair least small not_big (rw (more, can, r_small))
          ]
    ]

    next-Done :
        size n < min_size
        → Ensures
            (rebalance_child kind (changed (suc j) n (omega arith) mended) (suc j) (length ks) st)
            (Done (suc j) n (omega arith) mended)
    next-Done small =
        let (l, s, pair, least) = ahead in
        let b = changed (suc j) n (omega arith) mended in
        elim (Bool-cases (ltb min_size (size l))) [
          | inl big ↦
              let (x, run, done) = from_left-Done l s pair (ltb→lt min_size (size l) big) small in
              (
                x,
                takes_left kind b j (length ks) st pair.at_right small
                      (lends b j pair.at_left ∙ big)
                    ∙ run,
                done,
              )
          | inr not_big ↦ later-Done l s pair least small not_big
        ]

  small-Done :
      (i : ℕ) (n : A) (inside : i ≤ length ks) (mended : Q (lower_at lo ks i) (upper_at hi ks i) n)
      → 1 ≤ length ks
      → size n < min_size
      → Ensures
          (rebalance_child kind (changed i n inside mended) i (length ks) st)
          (Done i n inside mended)
  small-Done zero n inside mended pos small = first-Done n (omega arith) mended small
  small-Done (suc j) n inside mended pos small = next-Done j n (omega arith) mended small

  -- For a lawful kind of child: when child `i` of a branch with a key, whose children were right,
  -- has become one that may lack a key, rebalancing it does not fail. All children are right
  -- afterwards, the entries are the same, and the branch has lost one key at most.
  pub rebalance_child-IsRebalanced :
      (i : ℕ) (n : A)
      → i ≤ length ks
      → Q (lower_at lo ks i) (upper_at hi ks i) n
      → 1 ≤ length ks
      → Ensures
          (rebalance_child kind (record { keys = ks; children = set cs i n }) i (length ks) st)
          (λ r. IsRebalanced P f lo hi ks (set cs i n) r.0)
  rebalance_child-IsRebalanced i n inside mended pos = elim (Bool-cases (leb min_size (size n))) [
    | inl big ↦ keep-Done i n inside mended (leb→le min_size (size n) big)
    | inr small ↦ small-Done i n inside mended pos (leb→lt min_size (size n) small)
  ]
