-- ===== src/Iterate/History.antt =====
-- Reading a whole map after a sequence of calls.
use bplus_tree.Base.{
  true, ℕ, ◌≤◌, ◌<◌, ◌≡◌, refl, ap, ◌∙◌, some, List, [], ◌∷◌, Ensures, ok, length,
}
use mathlib.Core.List.{reverse}
use bplus_tree.Order.{Ord}
use bplus_tree.Map.{BPlusTreeMap, new}
use bplus_tree.Map.Valid.{contents}
use bplus_tree.Map.Sound.{IsSound, insert-IsSound, remove-IsSound, new-IsSound}
use bplus_tree.Map.History.{Call, put, take_out, look, step, run, step_entries, entries_after}
use bplus_tree.Check.{check_invariants}
use bplus_tree.Check.Complete.{check_invariants-IsSound}
use bplus_tree.Walk.{len}
use bplus_tree.Walk.Counts.{len-contents}
use bplus_tree.Iterate.{next, next_back, collect}
use bplus_tree.Iterate.Queries.{items}
use bplus_tree.Iterate.Full.{items-contents}

module _ {ℓ κ} {K : Type ℓ} {V : Type κ} ⦃o : Ord K⦄ where
  step-IsSound :
      (m : BPlusTreeMap K V) (call : Call K V)
      → IsSound m
      → Ensures (step m call) (λ p. IsSound p.0 × (contents p.0 ≡ step_entries call (contents m)))
  step-IsSound m (put k v) sound =
      let (r, e, done) = insert-IsSound k v m sound in (r, e, (done.0, done.1.holds))
  step-IsSound m (take_out k) sound =
      let (r, e, done) = remove-IsSound k m sound in (r, e, (done.0, done.1.holds))
  step-IsSound m (look k) sound = (_, refl, (sound, refl))

  -- On a sound map any sequence of insertions, removals and look-ups runs to its end and leaves a
  -- sound map: valid nodes, leaves that are linked in the order of the tree, no block live but
  -- theirs, and no dead block written or freed on the way. Its entries are those of a sorted association list after the same calls.
  pub run-IsSound :
      (m : BPlusTreeMap K V) (calls : List (Call K V))
      → IsSound m
      → Ensures (run m calls) (λ p. IsSound p.0 × (contents p.0 ≡ entries_after calls (contents m)))
  unfolding run
  run-IsSound m [] sound = ((m, []), refl, (sound, refl))
  run-IsSound m (call ∷ calls) sound =
      let (r, e, done) = step-IsSound m call sound in
      let (r', e', done') = run-IsSound r.0 calls done.0 in
      ((r'.0, r.1 ∷ r'.1), rw (run, e, e'), (done'.0, done'.1 ∙ ap (entries_after calls) done.1))

module _ {ℓ κ} (K : Type ℓ) (V : Type κ) ⦃o : Ord K⦄ where
  -- From a map that `new` returns for a capacity from 4 to 65,535, after any sequence of
  -- insertions, removals and look-ups: `check_invariants` accepts the map, `len` counts the entries of a sorted association list after
  -- the same calls, and `items` runs through them, forward and backward, with any fuel above their
  -- number.
  pub run-new_items :
      (capacity : ℕ) (calls : List (Call K V)) (fuel : ℕ)
      → 4 ≤ capacity
      → capacity < 65536
      → length (entries_after calls []) < fuel
      → (m : BPlusTreeMap K V) × (new capacity ≡ ok m)
        × Ensures (run m calls) (λ p.
          (check_invariants p.0 ≡ true)
          × (len p.0 ≡ some (length (entries_after calls [])))
          × Ensures (items p.0) (λ it.
            (collect next fuel it ≡ some (entries_after calls []))
            × (collect next_back fuel it ≡ some (reverse (entries_after calls [])))))
  run-new_items capacity calls fuel a b f =
      let (m, e, sound, empty) = new-IsSound K V capacity a b in
      let (r, e', done) = run-IsSound m calls sound in
      let same : contents r.0 ≡ entries_after calls [] = done.1 ∙ ap (entries_after calls) empty in
      (
        m,
        e,
        (
          r,
          e',
          (
            check_invariants-IsSound r.0 done.0,
            len-contents r.0 done.0 ∙ ap (λ es. some (length es)) same,
            rw same at (items-contents r.0 fuel done.0 (rw same f)),
          ),
        ),
      )
