-- ===== src/Iterate/Forward.antt =====
-- `next` along the leaves of a map.
use bplus_tree.Base.{
  ℕ, zero, suc, ◌+◌, ◌-◌, ◌<◌, ◌≡◌, refl, ap, ◌⊎◌, inl, inr, Bool, true, false, Option, none, some,
  List, [], ◌∷◌, ◌++◌, arith, ◌>>=◌, Ensures, Option-cases, Bool-cases, ◌==◌, if◌then◌else◌, length,
  get_elem?, drop, flat_map,
}
use bplus_tree.Order.{Ord}
use bplus_tree.Node.{Leaf}
use bplus_tree.Siblings.{null}
use bplus_tree.Map.{BPlusTreeMap}
use bplus_tree.Walk.{leaf_at, tree_leaves, walk_fuel}
use bplus_tree.Walk.Ends.{items_of}
use bplus_tree.Walk.Links.{IsWalk}
use bplus_tree.Iterate.{Lazy, lazy, within_end, end_front, initialize, next_loop, next, collect}

drop-none {ℓ} : {A : Type ℓ} (xs : List A) (i : ℕ) → get_elem? xs i ≡ none → drop i xs ≡ []
drop-none [] zero h = refl
drop-none [] (suc i) h = refl
drop-none (x ∷ xs) zero h = absurd (cc)
drop-none (x ∷ xs) (suc i) h = drop-none xs i h

drop-some {ℓ} :
    {A : Type ℓ} (xs : List A) (i : ℕ) {x : A}
    → get_elem? xs i ≡ some x
    → drop i xs ≡ x ∷ drop (i + 1) xs
drop-some [] i h = absurd (cc)
drop-some (y ∷ xs) zero {x} h = let e : y ≡ x = cc in ap (λ z. z ∷ xs) e
drop-some (y ∷ xs) (suc i) h =
    let back : suc i + 1 ≡ suc (i + 1) = omega arith in rw (back, drop-some xs i h)

module _ {ℓ κ} {K : Type ℓ} {V : Type κ} where
  abbrev pub Walks : BPlusTreeMap K V → List (Leaf K V) → Type (ℓ ⊔ κ)
  Walks m ls = IsWalk (leaf_at (tree_leaves m)) m.store.next ls

  -- At the position in the map the entries `es` are still to come.
  abbrev pub IsAt : BPlusTreeMap K V → Option ℕ → ℕ → List (K × V) → Type (ℓ ⊔ κ)
  IsAt m leaf idx es =
      ((leaf ≡ none) × (es ≡ []))
      ⊎ ((l : Leaf K V) × (ls : List (Leaf K V)) × (leaf ≡ some l.addr)
          × (length ls < length (tree_leaves m))
          × Walks m (l ∷ ls)
          × (es ≡ drop idx l.items ++ items_of ls))

  -- The entries up to the first whose key is out of bounds.
  abbrev pub take_within : (K → Bool) → List (K × V) → List (K × V)
  take_within inside [] = []
  take_within inside (x ∷ es) =
      let rest = take_within inside es in if inside x.0 then x ∷ rest else []

module _ {ℓ κ} {K : Type ℓ} {V : Type κ} ⦃o : Ord K⦄ where
  -- The iterator after an entry.
  abbrev pub moved : Lazy K V → Option ℕ → ℕ → Lazy K V
  moved it leaf idx = record it { front_leaf = leaf; front_idx = idx; remaining = it.remaining - 1 }

  -- The iterator whose front has moved: its back has not.
  abbrev pub fronted : Lazy K V → Option ℕ → ℕ → ℕ → Lazy K V
  fronted it leaf idx rem = record it { front_leaf = leaf; front_idx = idx; remaining = rem }

  -- A call of `next` with `es` to come.
  abbrev pub Stepped : Lazy K V → List (K × V) → Option (K × V) × Lazy K V → Type (ℓ ⊔ κ)
  Stepped it [] r =
      (r.0 ≡ none)
      × ((leaf : Option ℕ) × (idx : ℕ) × (rem : ℕ) × (r.1 ≡ fronted it leaf idx rem)
          × IsAt it.tree leaf idx []
          × (it.remaining ≡ 0 → rem ≡ 0))
  Stepped it (x ∷ es) r =
      ((within_end it.end_bound x.0 ≡ false) × (r.0 ≡ none))
      ⊎ ((leaf : Option ℕ) × (idx : ℕ) × (within_end it.end_bound x.0 ≡ true)
          × (r.0 ≡ some x)
          × (r.1 ≡ moved it leaf idx)
          × IsAt it.tree leaf idx es)

  module _ (fuel : ℕ) (it : Lazy K V) (l : Leaf K V) (ls : List (Leaf K V))
      (e : it.front_leaf ≡ some l.addr) (w : Walks it.tree (l ∷ ls))
      (b : length ls < length (tree_leaves it.tree)) where
    -- The leaf has an entry at the index.
    here-Stepped :
        (x : K × V)
        → get_elem? l.items it.front_idx ≡ some x
        → Ensures (next_loop (suc fuel) it) (Stepped it (drop it.front_idx l.items ++ items_of ls))
    unfolding next_loop
    here-Stepped x there = elim (Bool-cases (within_end it.end_bound x.0)) [
      | inl within ↦ (
        (some x, record it { front_idx = it.front_idx + 1; remaining = it.remaining - 1 }),
        rw (next_loop, e) (rw (w.0, ◌>>=◌, there, within) (rw e refl)),
        rw (drop-some l.items it.front_idx there)
            (inr (it.front_leaf, it.front_idx + 1, within, refl, refl, inr (l, ls, e, b, w, refl))),
      )
      | inr beyond ↦ (
        (none, end_front it),
        rw (next_loop, e) (rw (w.0, ◌>>=◌, there, beyond) refl),
        rw (drop-some l.items it.front_idx there) (inl (beyond, refl)),
      )
    ]

  -- The loop of `next` ends with any fuel above the number of leaves that it can still come to.
  next_loop-Stepped :
      (fuel : ℕ) (it : Lazy K V) (l : Leaf K V) (ls : List (Leaf K V))
      → it.front_leaf ≡ some l.addr
      → Walks it.tree (l ∷ ls)
      → length ls < length (tree_leaves it.tree)
      → length ls < fuel
      → Ensures (next_loop fuel it) (Stepped it (drop it.front_idx l.items ++ items_of ls))
  unfolding next_loop flat_map
  next_loop-Stepped zero it l ls e w b f = absurd (omega arith)
  next_loop-Stepped (suc fuel) it l [] e w b f =
      elim (Option-cases (get_elem? l.items it.front_idx)) [
        | inr (x, there) ↦ here-Stepped fuel it l [] e w b x there
        | inl past ↦ (
          (none, end_front it),
          rw (next_loop, e) (rw (w.0, ◌>>=◌, past, w.2) refl),
          rw (drop-none l.items it.front_idx past)
              (refl, (none, it.front_idx, 0, refl, inl (refl, refl), λ z. refl)),
        )
      ]
  next_loop-Stepped (suc fuel) it l (l' ∷ ls) e w b f =
      elim (Option-cases (get_elem? l.items it.front_idx)) [
        | inr (x, there) ↦ here-Stepped fuel it l (l' ∷ ls) e w b x there
        | inl past ↦
            let it' : Lazy K V = record it {
              front_leaf = some (it.tree.store.next l.addr);
              front_idx = 0;
            } in
            let on : (it.tree.store.next l.addr == null) ≡ false = rw w.2 w.3.1 in
            let (r, run, done) =
              next_loop-Stepped fuel it' l' ls (ap some w.2) w.3 (omega arith) (omega arith) in
            (
              r,
              rw (next_loop, e) (rw (w.0, ◌>>=◌, past, on) run),
              rw (drop-none l.items it.front_idx past) done,
            )
      ]

  -- The loop from a position, with the fuel of `next`.
  pub next_loop-IsAt :
      (it : Lazy K V) (es : List (K × V))
      → IsAt it.tree it.front_leaf it.front_idx es
      → Ensures (next_loop (walk_fuel it.tree) it) (Stepped it es)
  unfolding next_loop
  next_loop-IsAt it es (inl (e, none_left)) = (
    (none, it),
    rw (next_loop, e) (rw e refl),
    rw none_left (refl, (it.front_leaf, it.front_idx, it.remaining, refl, inl (e, refl), λ z. z)),
  )
  next_loop-IsAt it es (inr (l, ls, e, b, w, same)) =
      rw same (next_loop-Stepped (walk_fuel it.tree) it l ls e w b (omega arith))

  -- `collect` returns the entries to come up to the end bound, with any fuel above their number.
  pub collect-IsAt :
      (fuel : ℕ) (it : Lazy K V) (es : List (K × V))
      → it.initialized ≡ true
      → IsAt it.tree it.front_leaf it.front_idx es
      → length es < fuel
      → collect next fuel (lazy it) ≡ some (take_within (within_end it.end_bound) es)
  unfolding collect next initialize
  collect-IsAt zero it es i at b = absurd (omega arith)
  collect-IsAt (suc fuel) it [] i at b =
      let (r, run, done) = next_loop-IsAt it [] at in
      rw (next, initialize, i) (rw (run, done.0) refl)
  collect-IsAt (suc fuel) it (x ∷ es) i at b =
      let (r, run, done) = next_loop-IsAt it (x ∷ es) at in
      elim done [
        | inl (beyond, e) ↦ rw (next, initialize, i) (rw (run, e, beyond) refl)
        | inr (leaf, idx, within, e, e', at') ↦
            rw (next, initialize, i)
              (rw (run, e, e', within)
                (rw (collect-IsAt fuel (moved it leaf idx) es i at' (omega arith)) refl))
      ]
