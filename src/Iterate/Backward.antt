-- ===== src/Iterate/Backward.antt =====
-- `next_back` along the leaves of a map, from right to left.
use mathlib.Core.List.{reverse, reverse-append}
use bplus_tree.Base.{
  ℕ, zero, suc, ◌-◌, ◌≤◌, ◌<◌, ◌≡◌, refl, ap, ◌∙◌, ◌⊎◌, inl, inr, true, false, Option, none, some,
  List, [], ◌∷◌, ◌++◌, arith, ◌>>=◌, Ensures, Bool-cases, ◌==◌, length, get_elem?, get_elem?-some,
  take, flat_map,
}
use bplus_tree.Order.{Ord}
use bplus_tree.Node.{Leaf}
use bplus_tree.Siblings.{null}
use bplus_tree.Map.{BPlusTreeMap}
use bplus_tree.Walk.{leaf_at, tree_leaves, walk_fuel}
use bplus_tree.Walk.Links.{IsWalk}
use bplus_tree.Iterate.{Lazy, lazy, within_start, end_back, next_back_loop, next_back, collect}
use bplus_tree.Iterate.Forward.{take_within}

take-suc-snoc {ℓ} :
    {A : Type ℓ} (xs : List A) (i : ℕ) {x : A}
    → get_elem? xs i ≡ some x
    → take (suc i) xs ≡ take i xs ++ (x ∷ [])
take-suc-snoc [] i h = absurd (cc)
take-suc-snoc (y ∷ xs) zero {x} h = let e : y ≡ x = cc in ap (λ z. z ∷ []) e
take-suc-snoc (y ∷ xs) (suc i) h = ap (◌∷◌ y) (take-suc-snoc xs i h)

reverse-take-suc {ℓ} :
    {A : Type ℓ} (xs : List A) (i : ℕ) {x : A}
    → get_elem? xs i ≡ some x
    → reverse (take (suc i) xs) ≡ x ∷ reverse (take i xs)
reverse-take-suc xs i {x} h =
    ap reverse (take-suc-snoc xs i h) ∙ reverse-append (take i xs) (x ∷ [])

pub take-all {ℓ} : {A : Type ℓ} (xs : List A) → take (length xs) xs ≡ xs
take-all [] = refl
take-all (x ∷ xs) = ap (◌∷◌ x) (take-all xs)

module _ {ℓ κ} {K : Type ℓ} {V : Type κ} where
  -- The entries of a run of leaves that stands from right to left.
  abbrev pub back_items : List (Leaf K V) → List (K × V)
  back_items ls = flat_map (λ leaf. reverse leaf.items) ls

  abbrev pub BackWalks : BPlusTreeMap K V → List (Leaf K V) → Type (ℓ ⊔ κ)
  BackWalks m ls = IsWalk (leaf_at (tree_leaves m)) m.store.prev ls

  -- Before the position in the map the entries `es` are still to come, the last one first.
  abbrev pub IsBackAt : BPlusTreeMap K V → Option ℕ → ℕ → List (K × V) → Type (ℓ ⊔ κ)
  IsBackAt m leaf idx es =
      ((leaf ≡ none) × (es ≡ []))
      ⊎ ((l : Leaf K V) × (ls : List (Leaf K V)) × (leaf ≡ some l.addr)
          × (length ls < length (tree_leaves m))
          × BackWalks m (l ∷ ls)
          × (idx ≤ length l.items)
          × (es ≡ reverse (take idx l.items) ++ back_items ls))

module _ {ℓ κ} {K : Type ℓ} {V : Type κ} ⦃o : Ord K⦄ where
  abbrev pub moved_back : Lazy K V → Option ℕ → ℕ → Lazy K V
  moved_back it leaf idx = record it {
    back_leaf = leaf;
    back_idx = idx;
    remaining = it.remaining - 1;
  }

  -- A call of `next_back` with `es` to come.
  abbrev pub BackStepped : Lazy K V → List (K × V) → Option (K × V) × Lazy K V → Type (ℓ ⊔ κ)
  BackStepped it [] r = r.0 ≡ none
  BackStepped it (x ∷ es) r =
      ((within_start it.start_bound x.0 ≡ false) × (r.0 ≡ none))
      ⊎ ((leaf : Option ℕ) × (idx : ℕ) × (within_start it.start_bound x.0 ≡ true)
          × (r.0 ≡ some x)
          × (r.1 ≡ moved_back it leaf idx)
          × IsBackAt it.tree leaf idx es)

  module _ (fuel : ℕ) (it : Lazy K V) (l : Leaf K V) (ls : List (Leaf K V)) (idx : ℕ)
      (e : it.back_leaf ≡ some l.addr) (i : it.back_idx ≡ suc idx) (w : BackWalks it.tree (l ∷ ls))
      (b : length ls < length (tree_leaves it.tree)) (inside : suc idx ≤ length l.items) where
    here-BackStepped :
        (x : K × V)
        → get_elem? l.items idx ≡ some x
        → Ensures
            (next_back_loop (suc fuel) it)
            (BackStepped it (reverse (take (suc idx) l.items) ++ back_items ls))
    unfolding next_back_loop
    here-BackStepped x there = elim (Bool-cases (within_start it.start_bound x.0)) [
      | inl within ↦ (
        (some x, record it { back_idx = idx; remaining = it.remaining - 1 }),
        rw (next_back_loop, e) (rw (w.0, ◌>>=◌, i, there) (rw within (rw e refl))),
        rw (reverse-take-suc l.items idx there)
            (inr (it.back_leaf, idx, within, refl, refl, inr (l, ls, e, b, w, omega arith, refl))),
      )
      | inr beyond ↦ (
        (none, end_back (record it { back_idx = idx })),
        rw (next_back_loop, e) (rw (w.0, ◌>>=◌, i, there) (rw beyond refl)),
        rw (reverse-take-suc l.items idx there) (inl (beyond, refl)),
      )
    ]

  -- `next_back` ends with any fuel above the number of leaves that it can still come to.
  next_back_loop-BackStepped :
      (fuel : ℕ) (it : Lazy K V) (l : Leaf K V) (ls : List (Leaf K V)) (idx : ℕ)
      → it.back_leaf ≡ some l.addr
      → it.back_idx ≡ idx
      → BackWalks it.tree (l ∷ ls)
      → length ls < length (tree_leaves it.tree)
      → idx ≤ length l.items
      → length ls < fuel
      → Ensures
          (next_back_loop fuel it)
          (BackStepped it (reverse (take idx l.items) ++ back_items ls))
  unfolding next_back_loop flat_map
  next_back_loop-BackStepped zero it l ls idx e i w b inside f = absurd (omega arith)
  next_back_loop-BackStepped (suc fuel) it l ls (suc idx) e i w b inside f =
      let (x, there) = get_elem?-some l.items idx (omega arith) in
      here-BackStepped fuel it l ls idx e i w b inside x there
  next_back_loop-BackStepped (suc fuel) it l [] zero e i w b inside f =
      ((none, end_back it), rw (next_back_loop, e) (rw (w.0, ◌>>=◌, i, w.2) (rw i refl)), refl)
  next_back_loop-BackStepped (suc fuel) it l (l' ∷ ls) zero e i w b inside f =
      let it' : Lazy K V = record it {
        back_leaf = some (it.tree.store.prev l.addr);
        back_idx = length l'.items;
      } in
      let on : (it.tree.store.prev l.addr == null) ≡ false = rw w.2 w.3.1 in
      let there : leaf_at (tree_leaves it.tree) (it.tree.store.prev l.addr) ≡ some l' =
        rw w.2 w.3.0 in
      let (r, run, done) =
        next_back_loop-BackStepped fuel it' l' ls (length l'.items) (ap some w.2) refl w.3
          (omega arith) (omega arith) (omega arith) in
      (
        r,
        rw (next_back_loop, e) (rw (w.0, ◌>>=◌, i, on) (rw (there, ◌>>=◌) run)),
        rw (take-all l'.items) at done,
      )

  pub next_back_loop-IsBackAt :
      (it : Lazy K V) (es : List (K × V))
      → IsBackAt it.tree it.back_leaf it.back_idx es
      → Ensures (next_back_loop (walk_fuel it.tree) it) (BackStepped it es)
  unfolding next_back_loop
  next_back_loop-IsBackAt it es (inl (e, none_left)) =
      ((none, it), rw (next_back_loop, e) (rw e refl), rw none_left refl)
  next_back_loop-IsBackAt it es (inr (l, ls, e, b, w, inside, same)) = rw same (
      next_back_loop-BackStepped (walk_fuel it.tree) it l ls it.back_idx e refl w b inside
        (omega arith))

  -- Calls of `next_back` return the entries to come down to the start bound.
  pub collect-IsBackAt :
      (fuel : ℕ) (it : Lazy K V) (es : List (K × V))
      → IsBackAt it.tree it.back_leaf it.back_idx es
      → length es < fuel
      → collect next_back fuel (lazy it) ≡ some (take_within (within_start it.start_bound) es)
  unfolding collect next_back
  collect-IsBackAt zero it es at b = absurd (omega arith)
  collect-IsBackAt (suc fuel) it [] at b =
      let (r, run, done) = next_back_loop-IsBackAt it [] at in rw (next_back, run) (rw done refl)
  collect-IsBackAt (suc fuel) it (x ∷ es) at b =
      let (r, run, done) = next_back_loop-IsBackAt it (x ∷ es) at in
      elim done [
        | inl (beyond, e) ↦ rw (next_back, run) (rw (e, beyond) refl)
        | inr (leaf, idx, within, e, e', at') ↦
            rw (next_back, run)
              (rw (e, e', within)
                (rw (collect-IsBackAt fuel (moved_back it leaf idx) es at' (omega arith)) refl))
      ]
