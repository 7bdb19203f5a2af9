-- ===== src/Iterate/Bounds.antt =====
-- The entries of a range: a sorted list between its two bounds.
use bplus_tree.Base.{
  ℕ, suc, ◌≡◌, refl, sym, ap, ◌∙◌, inl, inr, Bool, true, false, ◌&&◌, List, [], ◌∷◌, ◌++◌, All,
  All-imp, arith, Result, ok, err, Bool-cases, if◌then◌else◌, take, drop,
}
use bplus_tree.Order.{Ord, is_lt, is_le, ◌≺◌, Ordering-cases}
use bplus_tree.Order.Laws.{lt_of_gt, gt_of_lt}
use bplus_tree.Entries.{Before, After, IsAscending}
use bplus_tree.Entries.Laws.{After-trans}
use bplus_tree.Search.{binary_search_keys, move_up}
use bplus_tree.Search.Items.{keys}
use bplus_tree.Iterate.{Bound, included, excluded, unbounded, within_end, within_start, start_idx}
use bplus_tree.Iterate.Forward.{take_within}

start_idx-move_up :
    (excl : Bool) (r : Result ℕ ℕ) → start_idx excl (move_up r) ≡ suc (start_idx excl r)
start_idx-move_up true (ok i) = omega arith
start_idx-move_up false (ok i) = refl
start_idx-move_up excl (err i) = refl

module _ {ℓ κ} {K : Type ℓ} {V : Type κ} where
  -- The entries whose key passes a test.
  abbrev pub select : (K → Bool) → List (K × V) → List (K × V)
  select test [] = []
  select test (x ∷ es) = let rest = select test es in if test x.0 then x ∷ rest else rest

  abbrev pub Passes : (K → Bool) → Bool → List (K × V) → Type 0
  Passes test b es = All (λ e. test e.0 ≡ b) es

  select-none : (test : K → Bool) (es : List (K × V)) → Passes test false es → select test es ≡ []
  select-none test [] h = refl
  select-none test (x ∷ es) h = rw (h.0, select-none test es h.1)

  select-same :
      (p q : K → Bool) (es : List (K × V)) → ((k : K) → p k ≡ q k) → select p es ≡ select q es
  select-same p q [] h = refl
  select-same p q (x ∷ es) h = rw (h x.0, select-same p q es h)

  -- A second test does not matter when the first one fails for all of a front part.
  select-append :
      (p q : K → Bool) (xs ys : List (K × V))
      → Passes p false xs
      → Passes p true ys
      → select (λ k. p k && q k) (xs ++ ys) ≡ select q ys
  select-append p q [] [] h k = refl
  select-append p q [] (y ∷ ys) h k = rw (k.0, select-append p q [] ys tt k.1)
  select-append p q (x ∷ xs) ys h k = rw (h.0, select-append p q xs ys h.1 k)

module _ {ℓ} {K : Type ℓ} ⦃o : Ord K⦄ where
  -- The keys between two bounds.
  abbrev pub above : Bound K → K → Bool
  above unbounded k = true
  above (included s) k = is_le (o.cmp s k)
  above (excluded s) k = is_lt (o.cmp s k)

  abbrev pub below : Bound K → K → Bool
  below unbounded k = true
  below (included e) k = is_le (o.cmp k e)
  below (excluded e) k = is_lt (o.cmp k e)

  abbrev pub in_range : Bound K → Bound K → K → Bool
  in_range start end k = above start k && below end k

  -- The tests of the iterators are those.
  within_start-above : (start : Bound K) (k : K) → within_start start k ≡ above start k
  unfolding within_start
  within_start-above unbounded k = refl
  within_start-above (included s) k = ground (arith, o.cmp_swap k s)
  within_start-above (excluded s) k = ground (arith, o.cmp_swap k s)

  within_end-below : (end : Bound K) (k : K) → within_end end k ≡ below end k
  unfolding within_end
  within_end-below unbounded k = refl
  within_end-below (included e) k = refl
  within_end-below (excluded e) k = refl

  beyond_end :
      (end : Bound K) (x y : K) → within_end end x ≡ false → x ≺ y → within_end end y ≡ false
  unfolding within_end
  beyond_end unbounded x y h k = absurd (cc)
  beyond_end (included e) x y h k = ground (arith, o.cmp_swap, o.lt_trans x y e, o.eq_of_cmp y e)
  beyond_end (excluded e) x y h k = ground (arith, o.lt_trans x y e)

  -- The bound at a key, of either kind.
  abbrev pub bound_at : Bool → K → Bound K
  bound_at true k = excluded k
  bound_at false k = included k

  smaller : (excl : Bool) (k x : K) → x ≺ k → within_start (bound_at excl k) x ≡ false
  unfolding within_start
  smaller true k x h = rw h refl
  smaller false k x h = rw h refl

  larger : (excl : Bool) (k x : K) → k ≺ x → within_start (bound_at excl k) x ≡ true
  unfolding within_start
  larger true k x h = rw (gt_of_lt k x h) refl
  larger false k x h = rw (gt_of_lt k x h) refl

module _ {ℓ κ} {K : Type ℓ} {V : Type κ} ⦃o : Ord K⦄ where
  -- On a sorted list, to stop at the end bound is to select by it.
  pub take_within-select :
      (end : Bound K) (es : List (K × V))
      → IsAscending es
      → take_within (within_end end) es ≡ select (within_end end) es
  take_within-select end [] a = refl
  take_within-select end (x ∷ es) a = elim (Bool-cases (within_end end x.0)) [
    | inl within ↦ rw (within, take_within-select end es a.1)
    | inr beyond ↦ rw (
      beyond,
      select-none (within_end end) es (All-imp (λ e h. beyond_end end x.0 e.0 beyond h) es a.0),
    )
  ]

  -- `es` without the entries before the start bound.
  pub record IsFrom (start : Bound K) (all es : List (K × V)) : Type (ℓ ⊔ κ) where
    pub front : List (K × V)
    pub parts : all ≡ front ++ es
    pub before : Passes (within_start start) false front
    pub behind : Passes (within_start start) true es

  IsAscending-right : (xs ys : List (K × V)) → IsAscending (xs ++ ys) → IsAscending ys
  IsAscending-right [] ys a = a
  IsAscending-right (x ∷ xs) ys a = IsAscending-right xs ys a.1

  pub take_within-in_range :
      (start end : Bound K) (all es : List (K × V))
      → IsAscending all
      → IsFrom start all es
      → take_within (within_end end) es ≡ select (in_range start end) all
  take_within-in_range start end all es a from =
      take_within-select end es (IsAscending-right from.front es (rw from.parts at a))
      ∙ sym (
          select-append (within_start start) (within_end end) from.front es from.before from.behind)
      ∙ ap (select (λ k. within_start start k && within_end end k)) (sym from.parts)
      ∙ select-same (λ k. within_start start k && within_end end k) (in_range start end) all
          (λ k. rw (within_start-above start k, within_end-below end k) refl)

  -- The search cuts the items of a leaf at the start bound.
  abbrev pub Cut : Bool → K → List (K × V) → ℕ → Type 0
  Cut excl k es i =
      Passes (within_start (bound_at excl k)) false (take i es)
      × Passes (within_start (bound_at excl k)) true (drop i es)

  module _ (excl : Bool) (k : K) where
    pub Before-smaller :
        (es : List (K × V)) → Before k es → Passes (within_start (bound_at excl k)) false es
    Before-smaller es h = All-imp (λ e b. smaller excl k e.0 b) es h

    pub After-larger :
        (es : List (K × V)) → After k es → Passes (within_start (bound_at excl k)) true es
    After-larger es h = All-imp (λ e a. larger excl k e.0 a) es h

    -- The key itself is within the bound that includes it.
    equal-Cut :
        (x : K × V) (es : List (K × V))
        → x.0 ≡ k
        → After k es
        → Cut excl k (x ∷ es) (start_idx excl (ok 0))
    unfolding within_start
    equal-Cut = go excl
      where
        go :
            (excl : Bool) (x : K × V) (es : List (K × V))
            → x.0 ≡ k
            → After k es
            → Cut excl k (x ∷ es) (start_idx excl (ok 0))
        go true x es e a =
            ((rw (e, o.cmp_refl k) refl, tt), All-imp (λ y h. larger true k y.0 h) es a)
        go false x es e a =
            (tt, (rw (e, o.cmp_refl k) refl, All-imp (λ y h. larger false k y.0 h) es a))

    pub search-Cut :
        (es : List (K × V))
        → IsAscending es
        → Cut excl k es (start_idx excl (binary_search_keys (keys es) k))
    unfolding binary_search_keys
    search-Cut [] a = (tt, tt)
    search-Cut ((k', v) ∷ es) a = elim (Ordering-cases (o.cmp k k')) [
      | inl e ↦
          rw (e, binary_search_keys)
            (tt, (larger excl k k' e, After-larger es (After-trans k k' es e a.0)))
      | inr (inl e) ↦
          let same : k ≡ k' = o.eq_of_cmp k k' e in
          rw (e, binary_search_keys) (equal-Cut (k', v) es (sym same) (rw same a.0))
      | inr (inr e) ↦
          rw (e, binary_search_keys)
            (rw (start_idx-move_up excl (binary_search_keys (keys es) k))
              ((smaller excl k k' (lt_of_gt k k' e), (search-Cut es a.1).0), (search-Cut es a.1).1))
    ]
