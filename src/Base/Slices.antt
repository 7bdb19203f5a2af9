-- ===== src/Base/Slices.antt =====
-- How `take` and `drop` cut a list into which an element has been inserted.
use Prim.Native.Nat.{ℕ, zero, suc, ◌+◌, ◌-◌, ◌≤◌, ◌<◌}
use mathlib.Core.Path.{◌≡◌, refl, ap, sym, ◌∙◌}
use mathlib.Core.List.{List, [], ◌∷◌, ◌++◌}
use mathlib.Core.Option.{some}
use native.Mathlib.Omega.{arith}
use bplus_tree.Base.Lists.{length, get_elem?, take, drop, insert_at}

module _ {ℓ} {A : Type ℓ} where
  pub take-insert_at_le :
      (m : ℕ) (xs : List A) (i : ℕ) (v : A)
      → i ≤ m
      → take (suc m) (insert_at xs i v) ≡ insert_at (take m xs) i v
  take-insert_at_le m xs zero v h = refl
  take-insert_at_le zero xs (suc i) v h = absurd (omega arith)
  take-insert_at_le (suc m) [] (suc i) v h = refl
  take-insert_at_le (suc m) (x ∷ xs) (suc i) v h =
      ap (◌∷◌ x) (take-insert_at_le m xs i v (omega arith))

  pub drop-insert_at_le :
      (m : ℕ) (xs : List A) (i : ℕ) (v : A) → i ≤ m → drop (suc m) (insert_at xs i v) ≡ drop m xs
  drop-insert_at_le m xs zero v h = refl
  drop-insert_at_le zero xs (suc i) v h = absurd (omega arith)
  drop-insert_at_le (suc m) [] (suc i) v h = refl
  drop-insert_at_le (suc m) (x ∷ xs) (suc i) v h = drop-insert_at_le m xs i v (omega arith)

  pub take-insert_at_ge :
      (m : ℕ) (xs : List A) (i : ℕ) (v : A)
      → m ≤ i
      → i ≤ length xs
      → take m (insert_at xs i v) ≡ take m xs
  take-insert_at_ge zero xs i v h k = refl
  take-insert_at_ge (suc m) xs zero v h k = absurd (omega arith)
  take-insert_at_ge (suc m) [] (suc i) v h k = absurd (omega arith)
  take-insert_at_ge (suc m) (x ∷ xs) (suc i) v h k =
      ap (◌∷◌ x) (take-insert_at_ge m xs i v (omega arith) (omega arith))

  pub drop-insert_at_ge :
      (m : ℕ) (xs : List A) (i : ℕ) (v : A)
      → m ≤ i
      → i ≤ length xs
      → drop m (insert_at xs i v) ≡ insert_at (drop m xs) (i - m) v
  drop-insert_at_ge zero xs i v h k = ap (λ (n : ℕ). insert_at xs n v) (omega arith)
  drop-insert_at_ge (suc m) xs zero v h k = absurd (omega arith)
  drop-insert_at_ge (suc m) [] (suc i) v h k = absurd (omega arith)
  drop-insert_at_ge (suc m) (x ∷ xs) (suc i) v h k =
      drop-insert_at_ge m xs i v (omega arith) (omega arith)
      ∙ ap (λ (n : ℕ). insert_at (drop m xs) n v) (omega arith)

  pub get_elem?-insert_at_self :
      (xs : List A) (i : ℕ) (v : A) → i ≤ length xs → get_elem? (insert_at xs i v) i ≡ some v
  get_elem?-insert_at_self xs zero v h = refl
  get_elem?-insert_at_self [] (suc i) v h = absurd (omega arith)
  get_elem?-insert_at_self (x ∷ xs) (suc i) v h = get_elem?-insert_at_self xs i v (omega arith)

  pub get_elem?-insert_at_lt :
      (xs : List A) (i j : ℕ) (v : A)
      → j < i
      → i ≤ length xs
      → get_elem? (insert_at xs i v) j ≡ get_elem? xs j
  get_elem?-insert_at_lt xs zero j v h k = absurd (omega arith)
  get_elem?-insert_at_lt [] (suc i) j v h k = absurd (omega arith)
  get_elem?-insert_at_lt (x ∷ xs) (suc i) zero v h k = refl
  get_elem?-insert_at_lt (x ∷ xs) (suc i) (suc j) v h k =
      get_elem?-insert_at_lt xs i j v (omega arith) (omega arith)

  pub get_elem?-insert_at_gt :
      (xs : List A) (i j : ℕ) (v : A)
      → i ≤ j
      → get_elem? (insert_at xs i v) (suc j) ≡ get_elem? xs j
  get_elem?-insert_at_gt xs zero j v h = refl
  get_elem?-insert_at_gt [] (suc i) j v h = refl
  get_elem?-insert_at_gt (x ∷ xs) (suc i) zero v h = absurd (omega arith)
  get_elem?-insert_at_gt (x ∷ xs) (suc i) (suc j) v h =
      get_elem?-insert_at_gt xs i j v (omega arith)

  pub insert_at-take-drop :
      (xs : List A) (i : ℕ) (v : A) → i ≤ length xs → insert_at xs i v ≡ take i xs ++ v ∷ drop i xs
  insert_at-take-drop xs zero v h = refl
  insert_at-take-drop [] (suc i) v h = absurd (omega arith)
  insert_at-take-drop (x ∷ xs) (suc i) v h = ap (◌∷◌ x) (insert_at-take-drop xs i v (omega arith))

  drop-nil : (n : ℕ) → drop {A = A} n [] ≡ []
  drop-nil zero = refl
  drop-nil (suc n) = refl

  pub drop-drop : (m n k : ℕ) (xs : List A) → k ≡ m + n → drop n (drop m xs) ≡ drop k xs
  drop-drop zero n k xs e = ap (λ (j : ℕ). drop j xs) (omega arith)
  drop-drop (suc m) n k [] e = drop-nil n ∙ sym (drop-nil k)
  drop-drop (suc m) n zero (x ∷ xs) e = absurd (omega arith)
  drop-drop (suc m) n (suc k) (x ∷ xs) e = drop-drop m n k xs (omega arith)

  -- Two lists cut one element away from where they meet.
  pub take-append_le : (n : ℕ) (xs ys : List A) → n ≤ length xs → take n (xs ++ ys) ≡ take n xs
  take-append_le zero xs ys h = refl
  take-append_le (suc n) [] ys h = absurd (omega arith)
  take-append_le (suc n) (x ∷ xs) ys h = ap (◌∷◌ x) (take-append_le n xs ys (omega arith))

  pub drop-append_last :
      (m : ℕ) (xs ys : List A) {x : A}
      → get_elem? xs m ≡ some x
      → length xs ≡ suc m
      → drop m (xs ++ ys) ≡ x ∷ ys
  drop-append_last m [] ys e h = absurd (omega arith)
  drop-append_last zero (x ∷ []) ys e h = cc
  drop-append_last zero (x ∷ y ∷ xs) ys e h = absurd (omega arith)
  drop-append_last (suc m) (x ∷ xs) ys e h = drop-append_last m xs ys e (omega arith)

  pub take-append_suc :
      (xs ys : List A) {y : A}
      → get_elem? ys 0 ≡ some y
      → take (suc (length xs)) (xs ++ ys) ≡ xs ++ y ∷ []
  take-append_suc [] [] e = absurd (cc)
  take-append_suc [] (z ∷ ys) e = cc
  take-append_suc (x ∷ xs) ys e = ap (◌∷◌ x) (take-append_suc xs ys e)

  pub drop-append_suc : (xs ys : List A) → drop (suc (length xs)) (xs ++ ys) ≡ drop 1 ys
  drop-append_suc [] [] = refl
  drop-append_suc [] (y ∷ ys) = refl
  drop-append_suc (x ∷ xs) ys = drop-append_suc xs ys

  pub get_elem?-append_lt :
      (n : ℕ) (xs ys : List A) → n < length xs → get_elem? (xs ++ ys) n ≡ get_elem? xs n
  get_elem?-append_lt n [] ys h = absurd (omega arith)
  get_elem?-append_lt zero (x ∷ xs) ys h = refl
  get_elem?-append_lt (suc n) (x ∷ xs) ys h = get_elem?-append_lt n xs ys (omega arith)

  pub get_elem?-append_suc :
      (xs : List A) (y : A) (ys : List A)
      → get_elem? (xs ++ y ∷ ys) (suc (length xs)) ≡ get_elem? ys 0
  get_elem?-append_suc [] y ys = refl
  get_elem?-append_suc (x ∷ xs) y ys = get_elem?-append_suc xs y ys

  pub drop-append_all : (xs ys : List A) → drop (length xs) (xs ++ ys) ≡ ys
  drop-append_all [] ys = refl
  drop-append_all (x ∷ xs) ys = drop-append_all xs ys

  pub drop-append_two :
      (xs : List A) (y : A) (ys : List A) → drop (suc (suc (length xs))) (xs ++ y ∷ ys) ≡ drop 1 ys
  drop-append_two [] y ys = refl
  drop-append_two (x ∷ xs) y ys = drop-append_two xs y ys
