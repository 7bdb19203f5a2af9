-- ===== src/Map/History.antt =====
-- A map through a sequence of calls, from `new` on.
use bplus_tree.Base.{
  ℕ, ◌≤◌, ◌<◌, ◌≡◌, refl, ap, ◌∙◌, Option, some, List, [], ◌∷◌, Ensures, ok, ◌>>=◌,
}
use bplus_tree.Order.{Ord}
use bplus_tree.Entries
use bplus_tree.Entries.{lookup}
use bplus_tree.Node.{IsUsable}
use bplus_tree.Map.{BPlusTreeMap, new, insert, remove, get}
use bplus_tree.Map.Valid.{IsValidMap, contents}
use bplus_tree.Map.Insertion.{insert-IsInserted}
use bplus_tree.Map.Removal.{remove-IsRemoved}
use bplus_tree.Map.Reading.{get-contents}
use bplus_tree.Map.Creation.{new-IsNew}

pub data Call {ℓ κ} (K : Type ℓ) (V : Type κ) : Type (ℓ ⊔ κ) where
  put : K → V → Call K V
  take_out : K → Call K V
  look : K → Call K V

module _ {ℓ κ} {K : Type ℓ} {V : Type κ} ⦃o : Ord K⦄ where
  -- A call, with the value that it returns.
  abbrev pub step : BPlusTreeMap K V → Call K V → Option (BPlusTreeMap K V × Option V)
  step m (put k v) = insert m k v
  step m (take_out k) = remove m k
  step m (look k) = some (m, get m k)

  unfoldable pub run :
      BPlusTreeMap K V → List (Call K V) → Option (BPlusTreeMap K V × List (Option V))
  run m [] = some (m, [])
  run m (call ∷ calls) = do
    (m', answer) ← step m call
    (m'', answers) ← run m' calls
    some (m'', answer ∷ answers)

  -- The same calls on a sorted association list.
  abbrev pub step_entries : Call K V → List (K × V) → List (K × V)
  step_entries (put k v) es = Entries.insert k v es
  step_entries (take_out k) es = Entries.remove k es
  step_entries (look k) es = es

  abbrev pub key_of : Call K V → K
  key_of (put k v) = k
  key_of (take_out k) = k
  key_of (look k) = k

  abbrev pub entries_after : List (Call K V) → List (K × V) → List (K × V)
  entries_after [] es = es
  entries_after (call ∷ calls) es = entries_after calls (step_entries call es)

  -- Each call answers with what stands at its key when it is made.
  abbrev pub answers_of : List (Call K V) → List (K × V) → List (Option V)
  answers_of [] es = []
  answers_of (call ∷ calls) es = lookup (key_of call) es ∷ answers_of calls (step_entries call es)

  step-entries :
      (m : BPlusTreeMap K V) (call : Call K V)
      → IsUsable m.caps
      → IsValidMap m
      → Ensures (step m call) (λ p.
        IsUsable p.0.caps
        × IsValidMap p.0
        × (contents p.0 ≡ step_entries call (contents m))
        × (p.1 ≡ lookup (key_of call) (contents m)))
  step-entries m (put k v) usable valid =
      let (r, e, done) = insert-IsInserted k v m usable valid in
      (r, e, (rw done.caps usable, done.valid, done.holds, done.returned))
  step-entries m (take_out k) usable valid =
      let (r, e, done) = remove-IsRemoved k m usable valid in
      (r, e, (rw done.caps usable, done.valid, done.holds, done.returned))
  step-entries m (look k) usable valid =
      ((m, get m k), refl, (usable, valid, refl, get-contents k m valid))

  -- On a valid map with usable capacities any sequence of insertions, removals and look-ups runs
  -- to its end, leaves a valid map, and answers as a sorted association list does.
  pub run-answers :
      (m : BPlusTreeMap K V) (calls : List (Call K V))
      → IsUsable m.caps
      → IsValidMap m
      → Ensures (run m calls) (λ p.
        IsValidMap p.0
        × (contents p.0 ≡ entries_after calls (contents m))
        × (p.1 ≡ answers_of calls (contents m)))
  unfolding run
  run-answers m [] usable valid = ((m, []), refl, (valid, refl, refl))
  run-answers m (call ∷ calls) usable valid =
      let (r, e, done) = step-entries m call usable valid in
      let (r', e', done') = run-answers r.0 calls done.0 done.1 in
      (
        (r'.0, r.1 ∷ r'.1),
        rw (run, e, e'),
        (done'.0, done'.1 ∙ ap (entries_after calls) done.2, rw (done.3, done'.2, done.2)),
      )

  -- From a map that `new` returns for a capacity from 4 to 65,535, any sequence of insertions,
  -- removals and look-ups runs to its end and answers as an empty association list does.
  pub run-new_answers :
      (capacity : ℕ) (calls : List (Call K V))
      → 4 ≤ capacity
      → capacity < 65536
      → (m : BPlusTreeMap K V) × (new capacity ≡ ok m)
        × Ensures (run m calls) (λ p.
          IsValidMap p.0 × (contents p.0 ≡ entries_after calls []) × (p.1 ≡ answers_of calls []))
  run-new_answers capacity calls a b =
      let (m, e, fresh) = new-IsNew K V capacity a b in
      (m, e, rw fresh.empty at (run-answers m calls fresh.usable fresh.valid))
