-- ===== src/Map/Batches.antt =====
-- `batch_insert` and `get_many`: their loops against the operations on one key.
use mathlib.Core.List.{append-nil, append_assoc}
use bplus_tree.Base.{
  ◌≡◌, refl, sym, ap, ◌∙◌, Option, none, some, List, [], ◌∷◌, ◌++◌, map, Ensures, Result, ok, err,
  inl, inr, Option-cases,
}
use bplus_tree.Order.{Ord}
use bplus_tree.Entries
use bplus_tree.Entries.{lookup}
use bplus_tree.Node.{IsUsable}
use bplus_tree.Error.{BPlusTreeError, key_not_found}
use bplus_tree.Map.{BPlusTreeMap, batch_insert, get, get_many_from, get_many}
use bplus_tree.Map.Valid.{IsValidMap, contents}
use bplus_tree.Map.Reading.{get-contents}
use bplus_tree.Map.Insertion.{insert-IsInserted}

module _ {ℓ κ} {K : Type ℓ} {V : Type κ} ⦃o : Ord K⦄ where
  -- The pairs are inserted from the first to the last.
  abbrev pub insert_all : List (K × V) → List (K × V) → List (K × V)
  insert_all [] es = es
  insert_all ((k, v) ∷ items) es = insert_all items (Entries.insert k v es)

  -- What each of these insertions finds at its key.
  abbrev pub replaced_all : List (K × V) → List (K × V) → List (Option V)
  replaced_all [] es = []
  replaced_all ((k, v) ∷ items) es = lookup k es ∷ replaced_all items (Entries.insert k v es)

  -- `batch_insert` on a valid map with usable capacities succeeds, leaves a valid map with the
  -- pairs inserted in their order, and returns the values replaced, in the same order.
  pub batch_insert-insert_all :
      (m : BPlusTreeMap K V) (items : List (K × V))
      → IsUsable m.caps
      → IsValidMap m
      → Ensures (batch_insert m items) (λ p.
        IsValidMap p.0
        × (contents p.0 ≡ insert_all items (contents m))
        × (p.1 ≡ replaced_all items (contents m)))
  unfolding batch_insert
  batch_insert-insert_all m [] usable valid = ((m, []), refl, (valid, refl, refl))
  batch_insert-insert_all m ((k, v) ∷ items) usable valid =
      let (r, run, done) = insert-IsInserted k v m usable valid in
      let usable' : IsUsable r.0.caps = rw done.caps usable in
      let (r', run', done') = batch_insert-insert_all r.0 items usable' done.valid in
      (
        (r'.0, r.1 ∷ r'.1),
        rw (batch_insert, run, run'),
        (
          done'.0,
          done'.1 ∙ ap (insert_all items) done.holds,
          rw (done.returned, done'.2, done.holds),
        ),
      )

module _ {κ} {V : Type κ} where
  -- What `get_many` documents: all values in the order of the keys, or the error.
  abbrev pub collect : List (Option V) → Option (List V)
  collect [] = some []
  collect (none ∷ xs) = none
  collect (some v ∷ xs) = elim (collect xs) [ none ↦ none | some vs ↦ some (v ∷ vs) ]

  abbrev pub or_missing : List V → Option (List V) → Result (List V) BPlusTreeError
  or_missing out none = err key_not_found
  or_missing out (some vs) = ok (out ++ vs)

  or_missing-collect :
      (out : List V) (v : V) (xs : Option (List V))
      → or_missing (out ++ v ∷ []) xs
        ≡ or_missing out (elim xs [ none ↦ none | some vs ↦ some (v ∷ vs) ])
  or_missing-collect out v none = refl
  or_missing-collect out v (some vs) = ap ok (append_assoc out (v ∷ []) vs)

module _ {ℓ κ} {K : Type ℓ} {V : Type κ} ⦃o : Ord K⦄ (m : BPlusTreeMap K V)
    (valid : IsValidMap m) where
  get_many_from-collect :
      (out : List V) (ks : List K)
      → get_many_from m out ks ≡ or_missing out (collect (map (λ k. lookup k (contents m)) ks))
  unfolding get_many_from
  get_many_from-collect out [] = ap ok (sym (append-nil out))
  get_many_from-collect out (k ∷ ks) = elim (Option-cases (get m k)) [
    | inl e ↦ rw (get_many_from, sym (get-contents k m valid), e)
    | inr (v, e) ↦
        rw (get_many_from, sym (get-contents k m valid), e)
          (get_many_from-collect (out ++ v ∷ []) ks
            ∙ or_missing-collect out v (collect (map (λ k. lookup k (contents m)) ks)))
  ]

  -- On a valid map `get_many` returns the values at all the keys, in their order, or
  -- `KeyNotFound` when one of the keys is not there.
  pub get_many-collect :
      (ks : List K) → get_many m ks ≡ or_missing [] (collect (map (λ k. lookup k (contents m)) ks))
  unfolding get_many
  get_many-collect ks = get_many_from-collect [] ks
