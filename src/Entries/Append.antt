-- ===== src/Entries/Append.antt =====
-- A key that lies between two parts of a list is looked up, inserted and removed in between.
use mathlib.Core.List.{append_assoc}
use bplus_tree.Base.{◌≡◌, refl, ◌∙◌, ap, none, List, [], ◌∷◌, ◌++◌, arith}
use bplus_tree.Order.{Ord}
use bplus_tree.Order.Laws.{gt_of_lt}
use bplus_tree.Entries.{lookup, insert, remove, Before, After}

module _ {ℓ κ} {K : Type ℓ} {V : Type κ} ⦃o : Ord K⦄ (q : K) where
  lookup-Before : (xs ys : List (K × V)) → Before q xs → lookup q (xs ++ ys) ≡ lookup q ys
  unfolding lookup
  lookup-Before [] ys h = refl
  lookup-Before ((k, v) ∷ xs) ys h = ground (arith, gt_of_lt k q, lookup-Before xs ys h.1)

  pub lookup-After : (ys : List (K × V)) → After q ys → lookup q ys ≡ none
  unfolding lookup
  lookup-After [] h = refl
  lookup-After ((k, v) ∷ ys) h = ground (arith, lookup-After ys h.1)

  lookup-append : (ms ys : List (K × V)) → After q ys → lookup q (ms ++ ys) ≡ lookup q ms
  unfolding lookup
  lookup-append [] ys h = lookup-After ys h
  lookup-append ((k, v) ∷ ms) ys h = ground (arith, lookup-append ms ys h)

  pub lookup_between :
      (xs ms ys : List (K × V)) → Before q xs → After q ys → lookup q (xs ++ ms ++ ys) ≡ lookup q ms
  lookup_between xs ms ys h k =
      ap (lookup q) (append_assoc xs ms ys) ∙ lookup-Before xs (ms ++ ys) h ∙ lookup-append ms ys k

  insert-Before :
      (w : V) (xs ys : List (K × V)) → Before q xs → insert q w (xs ++ ys) ≡ xs ++ insert q w ys
  unfolding insert
  insert-Before w [] ys h = refl
  insert-Before w ((k, v) ∷ xs) ys h = ground (arith, gt_of_lt k q, insert-Before w xs ys h.1)

  insert-append :
      (w : V) (ms ys : List (K × V)) → After q ys → insert q w (ms ++ ys) ≡ insert q w ms ++ ys
  unfolding insert
  insert-append w [] [] h = refl
  insert-append w [] ((k, v) ∷ ys) h = ground arith
  insert-append w ((k, v) ∷ ms) ys h = ground (arith, insert-append w ms ys h)

  pub insert_between :
      (w : V) (xs ms ys : List (K × V))
      → Before q xs
      → After q ys
      → insert q w (xs ++ ms ++ ys) ≡ xs ++ insert q w ms ++ ys
  insert_between w xs ms ys h k =
      rw (append_assoc xs ms ys, insert-Before w xs (ms ++ ys) h, insert-append w ms ys k)
        (simp append_assoc)

  remove-Before : (xs ys : List (K × V)) → Before q xs → remove q (xs ++ ys) ≡ xs ++ remove q ys
  unfolding remove
  remove-Before [] ys h = refl
  remove-Before ((k, v) ∷ xs) ys h = ground (arith, gt_of_lt k q, remove-Before xs ys h.1)

  pub remove-After : (ys : List (K × V)) → After q ys → remove q ys ≡ ys
  unfolding remove
  remove-After [] h = refl
  remove-After ((k, v) ∷ ys) h = ground (arith, remove-After ys h.1)

  remove-append : (ms ys : List (K × V)) → After q ys → remove q (ms ++ ys) ≡ remove q ms ++ ys
  unfolding remove
  remove-append [] ys h = remove-After ys h
  remove-append ((k, v) ∷ ms) ys h = ground (arith, remove-append ms ys h)

  pub remove_between :
      (xs ms ys : List (K × V))
      → Before q xs
      → After q ys
      → remove q (xs ++ ms ++ ys) ≡ xs ++ remove q ms ++ ys
  remove_between xs ms ys h k =
      rw (append_assoc xs ms ys, remove-Before xs (ms ++ ys) h, remove-append ms ys k)
        (simp append_assoc)
