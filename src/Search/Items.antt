-- ===== src/Search/Items.antt =====
-- The search among the keys of a leaf finds where the specification looks up, inserts and removes.
use Prim.Native.Nat.Ordering.{gt}
use bplus_tree.Base.{
  ℕ, zero, suc, ◌≤◌, ◌<◌, ◌≡◌, refl, inl, inr, Option, none, some, List, [], ◌∷◌, arith, Result, ok,
  err, length, insert_at, remove_at,
}
use bplus_tree.Order.{Ord, Ordering-cases}
use bplus_tree.Entries.{lookup, insert, remove, IsAscending}
use bplus_tree.Entries.Laws.{After-trans}
use bplus_tree.Entries.Append.{lookup-After, remove-After}
use bplus_tree.Search.{binary_search_keys, move_up}

module _ {ℓ κ} {K : Type ℓ} {V : Type κ} where
  -- The keys array of a leaf.
  abbrev pub keys : List (K × V) → List K
  keys [] = []
  keys ((k, v) ∷ es) = k ∷ keys es

  -- The values array, written at `i`.
  abbrev pub write_value : List (K × V) → ℕ → V → List (K × V)
  write_value [] i w = []
  write_value ((k, v) ∷ es) zero w = (k, w) ∷ es
  write_value ((k, v) ∷ es) (suc i) w = (k, v) ∷ write_value es i w

  abbrev pub value_at : List (K × V) → ℕ → Option V
  value_at [] i = none
  value_at ((k, v) ∷ es) zero = some v
  value_at ((k, v) ∷ es) (suc i) = value_at es i

  pub value_at-some :
      (es : List (K × V)) (i : ℕ) → i < length es → (v : V) × (value_at es i ≡ some v)
  value_at-some [] i h = absurd (omega arith)
  value_at-some ((k, v) ∷ es) zero h = (v, refl)
  value_at-some ((k, v) ∷ es) (suc i) h = value_at-some es i (omega arith)

  pub length-write_value :
      (es : List (K × V)) (i : ℕ) (w : V) → length (write_value es i w) ≡ length es
  length-write_value [] i w = refl
  length-write_value ((k, v) ∷ es) zero w = refl
  length-write_value ((k, v) ∷ es) (suc i) w = ground (arith, length-write_value es i w)

module _ {ℓ κ} {K : Type ℓ} {V : Type κ} ⦃o : Ord K⦄ (q : K) where
  -- The three answers of a search that finds the key.
  pub record IsHit (es : List (K × V)) (i : ℕ) : Type (ℓ ⊔ κ) where
    pub inside : i < length es
    pub found : lookup q es ≡ value_at es i
    pub replaced : (w : V) → insert q w es ≡ write_value es i w
    pub removed : remove q es ≡ remove_at es i

  pub record IsMiss (es : List (K × V)) (i : ℕ) : Type (ℓ ⊔ κ) where
    pub inside : i ≤ length es
    pub inserted : (w : V) → insert q w es ≡ insert_at es i (q, w)
    pub absent : IsAscending es → lookup q es ≡ none
    pub kept : IsAscending es → remove q es ≡ es

  abbrev Answers : List (K × V) → Result ℕ ℕ → Type (ℓ ⊔ κ)
  Answers es (ok i) = IsHit es i
  Answers es (err i) = IsMiss es i

  Answers-cons :
      (k : K) (v : V) (es : List (K × V)) (r : Result ℕ ℕ)
      → o.cmp q k ≡ gt
      → Answers es r
      → Answers ((k, v) ∷ es) (move_up r)
  unfolding lookup insert remove
  Answers-cons k v es (ok i) e h = record {
    inside = omega (arith, h.inside);
    found = rw (e, lookup) h.found;
    replaced = λ w. rw (e, insert) (rw (h.replaced w));
    removed = rw (e, remove) (rw h.removed);
  }
  Answers-cons k v es (err i) e h = record {
    inside = omega (arith, h.inside);
    inserted = λ w. rw (e, insert) (rw (h.inserted w));
    absent = λ a. rw (e, lookup) (h.absent a.1);
    kept = λ a. rw (e, remove) (rw (h.kept a.1));
  }

  search-Answers : (es : List (K × V)) → Answers es (binary_search_keys (keys es) q)
  unfolding lookup insert remove binary_search_keys
  search-Answers [] = record {
    inside = omega arith;
    inserted = λ w. refl;
    absent = λ a. refl;
    kept = λ a. refl;
  }
  search-Answers ((k, v) ∷ es) = elim (Ordering-cases (o.cmp q k)) [
    | inl e ↦
        rw (e, binary_search_keys)
          (record {
            inside = omega arith;
            inserted = λ w. rw (e, insert);
            absent = λ a. rw (e, lookup) (lookup-After q es (After-trans q k es e a.0));
            kept = λ a. rw (e, remove) (rw (remove-After q es (After-trans q k es e a.0)));
          })
    | inr (inl e) ↦
        rw (e, binary_search_keys)
          (record {
            inside = omega arith;
            found = rw (e, lookup);
            replaced = λ w. rw (e, insert);
            removed = rw (e, remove);
          })
    | inr (inr e) ↦
        rw (e, binary_search_keys)
          (Answers-cons k v es (binary_search_keys (keys es) q) e (search-Answers es))
  ]

  pub search-IsHit :
      (es : List (K × V)) {i : ℕ} → binary_search_keys (keys es) q ≡ ok i → IsHit es i
  search-IsHit es e = rw e at (search-Answers es)

  pub search-IsMiss :
      (es : List (K × V)) {i : ℕ} → binary_search_keys (keys es) q ≡ err i → IsMiss es i
  search-IsMiss es e = rw e at (search-Answers es)
