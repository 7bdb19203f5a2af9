-- ===== src/Iterate/Advance.antt =====
-- An iterator over a whole map after some calls of `next`, and the entries at its two ends.
use mathlib.Core.List.{reverse, reverse-append}
use bplus_tree.Base.{
  ℕ, zero, suc, ◌-◌, ◌<◌, ◌≡◌, refl, sym, ap, ◌∙◌, inl, inr, true, Option, none, some, List, [],
  ◌∷◌, ◌++◌, arith, ◌>>=◌, Ensures, lt→ltb, length, get_elem?, take,
}
use bplus_tree.Order.{Ord}
use bplus_tree.Map.{BPlusTreeMap}
use bplus_tree.Map.Valid.{contents}
use bplus_tree.Map.Sound.{IsSound}
use bplus_tree.Walk.{walk_fuel}
use bplus_tree.Iterate.{
  unbounded, Lazy, Items, lazy, within_end, within_start, initialize, next_loop, next, next_back,
  collect, size_hint, pop_back,
}
use bplus_tree.Iterate.Queries.{items, first, last}
use bplus_tree.Iterate.Forward.{IsAt, Stepped, next_loop-IsAt, moved, fronted}
use bplus_tree.Iterate.Backward.{collect-IsBackAt}
use bplus_tree.Iterate.Full.{items-IsFull, items-contents, take_within-all, length-reverse_aux}

take-nil {ℓ} : {A : Type ℓ} (n : ℕ) → take {A = A} n [] ≡ []
take-nil zero = refl
take-nil (suc n) = refl

module _ {ℓ κ} {K : Type ℓ} {V : Type κ} ⦃o : Ord K⦄ where
  -- `n` calls of `next`: the entries that they return, and the iterator after them.
  unfoldable pub advance : ℕ → Items K V → Option (List (K × V) × Items K V)
  unfolding next
  advance zero it = some ([], it)
  advance (suc n) it = do
    (item, it') ← next it
    elim item [
      | none ↦ advance n it'
      | some x ↦ (do (xs, it'') ← advance n it'; some (x ∷ xs, it''))
    ]

  -- A call that returns nothing adds nothing.
  advance-none :
      (n : ℕ) (it : Lazy K V) {r : Option (K × V) × Lazy K V} {r' : List (K × V) × Items K V}
      → it.initialized ≡ true
      → next_loop (walk_fuel it.tree) it ≡ some r
      → r.0 ≡ none
      → advance n (lazy r.1) ≡ some r'
      → advance (suc n) (lazy it) ≡ some r'
  unfolding advance next initialize
  advance-none n it i run e run' = rw (advance, next, initialize, i) (rw (run, e) run')

  advance-IsAt :
      (n : ℕ) (it : Lazy K V) (es : List (K × V))
      → it.initialized ≡ true
      → it.end_bound ≡ unbounded
      → IsAt it.tree it.front_leaf it.front_idx es
      → it.remaining ≡ length es
      → Ensures (advance n (lazy it)) (λ r.
        (r.0 ≡ take n es)
        × ((leaf : Option ℕ) × (idx : ℕ) × (rem : ℕ) × (r.1 ≡ lazy (fronted it leaf idx rem))
            × (rem ≡ length es - n)))
  unfolding advance next initialize within_end
  advance-IsAt zero it es i u at same = (
    ([], lazy it),
    refl,
    (refl, (it.front_leaf, it.front_idx, it.remaining, refl, omega (arith, same))),
  )
  advance-IsAt (suc n) it [] i u at same =
      let (r, run, (e, (leaf, idx, rem, e', at', zero_left))) = next_loop-IsAt it [] at in
      let (r', run', (xs, (leaf', idx', rem', e'', left))) =
        advance-IsAt n (fronted it leaf idx rem) [] i u at' (zero_left same) in
      (
        r',
        advance-none n it i run e (ap (λ it'. advance n (lazy it')) e' ∙ run'),
        (xs ∙ take-nil n, (leaf', idx', rem', e'', omega arith)),
      )
  advance-IsAt (suc n) it (x ∷ es) i u at same =
      let (r, run, done) = next_loop-IsAt it (x ∷ es) at in
      elim done [
        | inl (beyond, e) ↦ absurd (cc (ap (λ u. within_end u x.0) u, beyond))
        | inr (leaf, idx, within, e, e', at') ↦
            let (r', run', (xs, (leaf', idx', rem', e'', left))) =
              advance-IsAt n (moved it leaf idx) es i u at' (omega arith) in
            (
              (x ∷ r'.0, r'.1),
              rw (advance, next, initialize, i) (rw (run, e, e') (rw run' refl)),
              (ap (◌∷◌ x) xs, (leaf', idx', rem', e'', omega arith)),
            )
      ]

  module _ (m : BPlusTreeMap K V) (sound : IsSound m) where
    -- On a sound map, after `n` calls of `next` on what `items` returns, `n` below the number of
    -- entries: the calls have returned the first `n` entries, and `size_hint` tells the number of
    -- the others exactly.
    pub advance-size_hint :
        (n : ℕ)
        → n < length (contents m)
        → Ensures (items m) (λ it. Ensures (advance n it) (λ r.
          (r.0 ≡ take n (contents m))
          × (size_hint r.1 ≡ (length (contents m) - n, some (length (contents m) - n)))))
    unfolding size_hint
    advance-size_hint n b =
        let (it, run, same, full) = items-IsFull m sound in
        let (r, run', (xs, (leaf, idx, rem, e, left))) =
          advance-IsAt n it (contents m) full.initialized full.end_bound full.front
            full.remaining in
        (
          lazy it,
          run,
          (
            r,
            run',
            (
              xs,
              rw (e, full.initialized, left, lt→ltb 0 (length (contents m) - n) (omega arith)) refl,
            ),
          ),
        )

    -- On a sound map, after any number `n` of calls of `next` on what `items` returns: these have
    -- returned the first `n` entries, or all, and calls of `next_back` still return all entries, with
    -- any fuel above their number: the two ends pass each other.
    pub advance-next_back :
        (n fuel : ℕ)
        → length (contents m) < fuel
        → Ensures (items m) (λ it. Ensures (advance n it) (λ r.
          (r.0 ≡ take n (contents m)) × (collect next_back fuel r.1 ≡ some (reverse (contents m)))))
    unfolding within_start
    advance-next_back n fuel f =
        let (it, run, same, full) = items-IsFull m sound in
        let (r, run', (xs, (leaf, idx, rem, e, left))) =
          advance-IsAt n it (contents m) full.initialized full.end_bound full.front
            full.remaining in
        (
          lazy it,
          run,
          (
            r,
            run',
            (
              xs,
              rw e (
                  collect-IsBackAt fuel (fronted it leaf idx rem) (reverse (contents m)) full.back
                    (omega (arith, length-reverse_aux (contents m) []))
                  ∙ ap some (
                      rw full.start_bound (
                        take_within-all (within_start unbounded) (reverse (contents m))
                          (λ k. refl)))),
            ),
          ),
        )

module _ {ℓ κ} {K : Type ℓ} {V : Type κ} where
  last_or_only : Option (K × V) → K × V → Option (K × V)
  last_or_only none x = some x
  last_or_only (some y) x = some y

  pop_cons :
      (o : Option (K × V)) (x : K × V) (rest : List (K × V))
      → (elim o as (λ _. Option (K × V) × List (K × V)) [
        | none ↦ (some x, [])
        | some y ↦ (some y, x ∷ rest)
      ]).0
        ≡ last_or_only o x
  unfolding last_or_only
  pop_cons none x rest = refl
  pop_cons (some y) x rest = refl

  get-append :
      (xs : List (K × V)) (x : K × V) → get_elem? (xs ++ x ∷ []) 0 ≡ last_or_only (get_elem? xs 0) x
  unfolding last_or_only
  get-append [] x = refl
  get-append (y ∷ xs) x = refl

  pop_back-reverse : (xs : List (K × V)) → (pop_back xs).0 ≡ get_elem? (reverse xs) 0
  unfolding pop_back
  pop_back-reverse [] = refl
  pop_back-reverse (x ∷ xs) =
      pop_cons (pop_back xs).0 x (pop_back xs).1
      ∙ ap (λ o. last_or_only o x) (pop_back-reverse xs)
      ∙ sym (get-append (reverse xs) x)
      ∙ ap (λ ys. get_elem? ys 0) (sym (reverse-append (x ∷ []) xs))

module _ {ℓ κ} {K : Type ℓ} {V : Type κ} ⦃o : Ord K⦄ where
  next_run :
      (it : Lazy K V) (r : Option (K × V) × Lazy K V)
      → it.initialized ≡ true
      → next_loop (walk_fuel it.tree) it ≡ some r
      → next (lazy it) ≡ some (r.0, lazy r.1)
  unfolding next initialize
  next_run it r i run = rw (next, initialize, i) (rw run refl)

  Stepped-first :
      (it : Lazy K V) (es : List (K × V)) (r : Option (K × V) × Lazy K V)
      → it.end_bound ≡ unbounded
      → Stepped it es r
      → r.0 ≡ get_elem? es 0
  unfolding within_end
  Stepped-first it [] r u done = done.0
  Stepped-first it (x ∷ es) r u (inl (beyond, e)) =
      absurd (cc (ap (λ u. within_end u x.0) u, beyond))
  Stepped-first it (x ∷ es) r u (inr (leaf, idx, within, e, e', at)) = e

  -- On a sound map `first` returns the entry with the least key and `last` the one with the
  -- greatest, and both return `None` on an empty map.
  pub first-last :
      (m : BPlusTreeMap K V)
      → IsSound m
      → (first m ≡ some (get_elem? (contents m) 0))
        × (last m ≡ some (get_elem? (reverse (contents m)) 0))
  unfolding first last
  first-last m sound =
      let (it, run, same, full) = items-IsFull m sound in
      let (it', run', both) = items-contents m (suc (length (contents m))) sound (omega arith) in
      let (r, run'', done) = next_loop-IsAt it (contents m) full.front in
      (
        rw (first, run)
            (rw (◌>>=◌, next_run it r full.initialized run'')
              (ap some (Stepped-first it (contents m) r full.end_bound done))),
        rw (last, run') (rw (both.0, ◌>>=◌) (ap some (pop_back-reverse (contents m)))),
      )
