-- ===== src/Entries/Cut.antt =====
-- Ascending lists joined and cut.
use mathlib.Core.Path.{sym, subst}
use bplus_tree.Base.{
  Option, some, List, [], ◌∷◌, ◌++◌, All-append, All-left, All-right, All-imp, All-zip, ℕ, ◌≤◌, ◌<◌,
  ◌≡◌, length, get_elem?, take, drop, take-cons, drop-cons, take-append-drop,
}
use bplus_tree.Order.{Ord, Beyond, Under}
use bplus_tree.Order.Laws.{le_refl, le_of_lt, lt_of_lt_of_le, Beyond-lt}
use bplus_tree.Entries.{Before, From, IsAscending, Within}

module _ {ℓ κ} {K : Type ℓ} {V : Type κ} ⦃o : Ord K⦄ where
  -- Two ascending lists on the two sides of a key make one.
  pub append-IsAscending :
      (s : K) (xs ys : List (K × V))
      → IsAscending xs
      → Before s xs
      → IsAscending ys
      → From s ys
      → IsAscending (xs ++ ys)
  append-IsAscending s [] ys hx b hy f = hy
  append-IsAscending s (x ∷ xs) ys hx b hy f = (
    All-append _ xs ys hx.0 (All-imp (λ e h. lt_of_lt_of_le x.0 s e.0 b.0 h) ys f),
    append-IsAscending s xs ys hx.1 b.1 hy f,
  )

  pub IsAscending-left : (xs ys : List (K × V)) → IsAscending (xs ++ ys) → IsAscending xs
  IsAscending-left [] ys h = tt
  IsAscending-left (x ∷ xs) ys h = (All-left _ xs ys h.0, IsAscending-left xs ys h.1)

  pub IsAscending-right : (xs ys : List (K × V)) → IsAscending (xs ++ ys) → IsAscending ys
  IsAscending-right [] ys h = h
  IsAscending-right (x ∷ xs) ys h = IsAscending-right xs ys h.1

  pub Before-head :
      (xs : List (K × V)) (y : K × V) (ys : List (K × V))
      → IsAscending (xs ++ y ∷ ys)
      → Before y.0 xs
  Before-head [] y ys h = tt
  Before-head (x ∷ xs) y ys h = ((All-right _ xs (y ∷ ys) h.0).0, Before-head xs y ys h.1)

  pub From-head : (y : K × V) (ys : List (K × V)) → IsAscending (y ∷ ys) → From y.0 (y ∷ ys)
  From-head y ys h = (le_refl y.0, All-imp (λ e k. le_of_lt y.0 e.0 k) ys h.0)

  -- A list cut before the entry `y`, which becomes the separator.
  pub record IsCut (lo hi : Option K) (xs : List (K × V)) (y : K) (ys : List (K × V)) : Type 0 where
    pub left : IsAscending xs
    pub right : IsAscending ys
    pub below : Within lo (some y) xs
    pub above : Within (some y) hi ys
    pub beyond : Beyond lo y
    pub under : Under hi y

  pub append-IsCut :
      (lo hi : Option K) (x : K × V) (xs : List (K × V)) (y : K × V) (ys : List (K × V))
      → IsAscending ((x ∷ xs) ++ y ∷ ys)
      → Within lo hi ((x ∷ xs) ++ y ∷ ys)
      → IsCut lo hi (x ∷ xs) y.0 (y ∷ ys)
  append-IsCut lo hi x xs y ys a w =
      let right = IsAscending-right (x ∷ xs) (y ∷ ys) a in
      let before = Before-head (x ∷ xs) y ys a in
      let w' = All-right _ (x ∷ xs) (y ∷ ys) w in
      record {
        left = IsAscending-left (x ∷ xs) (y ∷ ys) a;
        right = right;
        below = All-zip _ _ (λ e p q. (p.0, q)) (x ∷ xs) (All-left _ (x ∷ xs) (y ∷ ys) w) before;
        above = All-zip _ _ (λ e p q. (q, p.1)) (y ∷ ys) w' (From-head y ys right);
        beyond = Beyond-lt lo x.0 y.0 w.0.0 before.0;
        under = w'.0.1;
      }

  append_same-IsCut :
      (lo hi : Option K) {x : K × V} {xs : List (K × V)} {y : K × V} {ys us vs : List (K × V)}
      → us ≡ x ∷ xs
      → vs ≡ y ∷ ys
      → IsAscending (us ++ vs)
      → Within lo hi (us ++ vs)
      → IsCut lo hi us y.0 vs
  append_same-IsCut lo hi {x} {xs} {y} {ys} ex ey a w =
      rw (ex, ey) (append-IsCut lo hi x xs y ys (rw (ex, ey) at a) (rw (ex, ey) at w))

  -- A list cut at a position inside it.
  pub take-drop-IsCut :
      (lo hi : Option K) (m : ℕ) (es : List (K × V))
      → 1 ≤ m
      → m < length es
      → IsAscending es
      → Within lo hi es
      → (y : K × V) × (get_elem? (drop m es) 0 ≡ some y) × IsCut lo hi (take m es) y.0 (drop m es)
  take-drop-IsCut lo hi m es h k a w =
      let (x, xs, ex) = take-cons m es h k in
      let (y, ys, ey) = drop-cons m es k in
      let whole = sym (take-append-drop m es) in
      (
        y,
        rw ey,
        append_same-IsCut lo hi ex ey (subst IsAscending whole a) (subst (Within lo hi) whole w),
      )
