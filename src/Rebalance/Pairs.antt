-- ===== src/Rebalance/Pairs.antt =====
-- Two neighbours in a list changed or made one: the list, and what is listed below it.
use mathlib.Core.List.{append_assoc}
use bplus_tree.Base.{
  ℕ, zero, suc, ◌≡◌, ◌≢◌, refl, sym, ap, ◌∙◌, some, List, [], ◌∷◌, ◌++◌, arith, get_elem?, set,
  remove_at, flat_map,
}

module _ {ℓ} {A : Type ℓ} where
  pub set-set_self : (xs : List A) (i : ℕ) (a b : A) → set (set xs i a) i b ≡ set xs i b
  set-set_self [] i a b = refl
  set-set_self (x ∷ xs) zero a b = refl
  set-set_self (x ∷ xs) (suc i) a b = ap (◌∷◌ x) (set-set_self xs i a b)

  pub set-set_right :
      (xs : List A) (j : ℕ) (a l r : A)
      → set (set (set xs (suc j) a) j l) (suc j) r ≡ set (set xs j l) (suc j) r
  set-set_right [] j a l r = refl
  set-set_right (x ∷ xs) zero a l r = ap (◌∷◌ l) (set-set_self xs 0 a r)
  set-set_right (x ∷ xs) (suc j) a l r = ap (◌∷◌ x) (set-set_right xs j a l r)

  pub remove_at-set_right :
      (xs : List A) (j : ℕ) (a m : A)
      → remove_at (set (set xs (suc j) a) j m) (suc j) ≡ remove_at (set xs j m) (suc j)
  remove_at-set_right [] j a m = refl
  remove_at-set_right (x ∷ []) zero a m = refl
  remove_at-set_right (x ∷ y ∷ xs) zero a m = refl
  remove_at-set_right (x ∷ xs) (suc j) a m = ap (◌∷◌ x) (remove_at-set_right xs j a m)

  pub get_elem?-set_ne :
      (xs : List A) (i j : ℕ) (a : A) → i ≢ j → get_elem? (set xs i a) j ≡ get_elem? xs j
  get_elem?-set_ne [] i j a h = refl
  get_elem?-set_ne (x ∷ xs) zero zero a h = absurd (h refl)
  get_elem?-set_ne (x ∷ xs) zero (suc j) a h = refl
  get_elem?-set_ne (x ∷ xs) (suc i) zero a h = refl
  get_elem?-set_ne (x ∷ xs) (suc i) (suc j) a h = get_elem?-set_ne xs i j a (omega arith)

module _ {ℓ κ} {A : Type ℓ} {B : Type κ} (f : A → List B) where
  pub flat_map-set_pair :
      (xs : List A) (j : ℕ) {l r : A} (l' r' : A)
      → get_elem? xs j ≡ some l
      → get_elem? xs (suc j) ≡ some r
      → f l' ++ f r' ≡ f l ++ f r
      → flat_map f (set (set xs j l') (suc j) r') ≡ flat_map f xs
  unfolding flat_map
  flat_map-set_pair [] j l' r' p q e = absurd (cc)
  flat_map-set_pair (x ∷ []) zero l' r' p q e = absurd (cc)
  flat_map-set_pair (x ∷ y ∷ xs) zero {l} {r} l' r' p q e =
      let e' : f l' ++ f r' ≡ f x ++ f y = cc in
      sym (append_assoc (f l') (f r') (flat_map f xs))
      ∙ ap (λ zs. zs ++ flat_map f xs) e'
      ∙ append_assoc (f x) (f y) (flat_map f xs)
  flat_map-set_pair (x ∷ xs) (suc j) l' r' p q e =
      ap (λ zs. f x ++ zs) (flat_map-set_pair xs j l' r' p q e)

  pub flat_map-merge_pair :
      (xs : List A) (j : ℕ) {l r : A} (m : A)
      → get_elem? xs j ≡ some l
      → get_elem? xs (suc j) ≡ some r
      → f m ≡ f l ++ f r
      → flat_map f (remove_at (set xs j m) (suc j)) ≡ flat_map f xs
  unfolding flat_map
  flat_map-merge_pair [] j m p q e = absurd (cc)
  flat_map-merge_pair (x ∷ []) zero m p q e = absurd (cc)
  flat_map-merge_pair (x ∷ y ∷ xs) zero {l} {r} m p q e =
      let e' : f m ≡ f x ++ f y = cc in
      ap (λ zs. zs ++ flat_map f xs) e' ∙ append_assoc (f x) (f y) (flat_map f xs)
  flat_map-merge_pair (x ∷ xs) (suc j) m p q e =
      ap (λ zs. f x ++ zs) (flat_map-merge_pair xs j m p q e)
