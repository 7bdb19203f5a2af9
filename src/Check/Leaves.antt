-- ===== src/Check/Leaves.antt =====
-- A leaf that `validate_leaf` accepts is valid.
use bplus_tree.Base.{
  zero, suc, ◌-◌, ◌≡◌, refl, inl, inr, Bool, true, false, Option, none, some, List, [], ◌∷◌, arith,
  bind-some, ltb, ltb→le, leb, leb→le, ◌==◌, ==→eq, Bool-cases, All-zip, length, get_elem?,
}
use bplus_tree.Order.{Ord, ◌≺◌, AtLeast, Under}
use bplus_tree.Order.Laws.{le_of_lt, AtLeast-le, Under-lt}
use bplus_tree.Entries.{IsAscending, Within}
use bplus_tree.Entries.Laws.{After-trans}
use bplus_tree.Search.Items.{keys}
use bplus_tree.Siblings.{Siblings}
use bplus_tree.Node.{Caps, Leaf, min_leaf_len}
use bplus_tree.Node.Valid.{IsValid}
use bplus_tree.Check.{
  ValidationState, require, not, is_increasing, falls_below, reaches, validate_items, validate_leaf,
}

pub require-true : (b : Bool) {u : Unit {0}} → require b ≡ some u → b ≡ true
require-true true e = refl
require-true false e = absurd (cc)

module _ {ℓ} {K : Type ℓ} ⦃o : Ord K⦄ where
  pub falls_below-AtLeast : (lo : Option K) (k : K) → not (falls_below lo k) ≡ true → AtLeast lo k
  falls_below-AtLeast none k e = tt
  falls_below-AtLeast (some l) k e = ground (arith, o.cmp_swap l k)

  pub reaches-Under : (hi : Option K) (k : K) → not (reaches hi k) ≡ true → Under hi k
  reaches-Under none k e = tt
  reaches-Under (some u) k e = ground arith

  -- There is a key between the bounds.
  abbrev pub IsInhabited : Option K → Option K → Type ℓ
  IsInhabited lo hi = (k : K) × AtLeast lo k × Under hi k

module _ {ℓ κ} {K : Type ℓ} {V : Type κ} ⦃o : Ord K⦄ where
  empty-IsAscending : (es : List (K × V)) → length es ≡ 0 → IsAscending es × Within none none es
  empty-IsAscending [] e = (tt, tt)
  empty-IsAscending (x ∷ es) e = absurd (omega arith)

  increasing-IsAscending : (es : List (K × V)) → is_increasing (keys es) ≡ true → IsAscending es
  increasing-IsAscending [] e = tt
  increasing-IsAscending (x ∷ []) e = (tt, tt)
  increasing-IsAscending (x ∷ y ∷ es) e =
      let less : x.0 ≺ y.0 = ground arith in
      let rest = increasing-IsAscending (y ∷ es) (ground arith) in
      ((less, After-trans x.0 y.0 es less rest.0), rest)

  first-Within :
      (lo : Option K) (es : List (K × V)) {k : K}
      → IsAscending es
      → get_elem? (keys es) 0 ≡ some k
      → AtLeast lo k
      → Within lo none es
  first-Within lo [] a e h = tt
  first-Within lo (x ∷ []) a e h = ((ground arith, tt), tt)
  first-Within lo (x ∷ y ∷ es) a e h =
      let h' : AtLeast lo x.0 = ground arith in
      (
        (h', tt),
        first-Within lo (y ∷ es) a.1 refl (AtLeast-le lo x.0 y.0 h' (le_of_lt x.0 y.0 a.0.0)),
      )

  last-Within :
      (hi : Option K) (es : List (K × V)) {k : K}
      → IsAscending es
      → get_elem? (keys es) (length (keys es) - 1) ≡ some k
      → Under hi k
      → Within none hi es
  last-Within hi [] a e h = tt
  last-Within hi (x ∷ []) a e h = ((tt, ground arith), tt)
  last-Within hi (x ∷ y ∷ es) a e h =
      let n = length (keys es) in
      let longer : suc (suc n) - 1 ≡ suc n = omega arith in
      let shorter : suc n - 1 ≡ n = omega arith in
      let rest = last-Within hi (y ∷ es) a.1 (rw shorter (rw longer at e)) h in
      ((tt, Under-lt hi x.0 y.0 a.0.0 rest.0.1), rest)

  first-Under :
      (hi : Option K) (es : List (K × V)) {k : K}
      → get_elem? (keys es) 0 ≡ some k
      → Within none hi es
      → Under hi k
  first-Under hi [] e h = absurd (cc)
  first-Under hi (x ∷ es) e h = ground (arith, h.0)

module _ {ℓ κ} {K : Type ℓ} {V : Type κ} ⦃o : Ord K⦄ (c : Caps) (s : Siblings) where
  items-IsAscending :
      (leaf : Leaf K V) (lo hi : Option K) (st : ValidationState K)
      {r : Option (K × K) × ValidationState K}
      → validate_items c s leaf lo hi st ≡ some r
      → IsAscending leaf.items × Within lo hi leaf.items × IsInhabited lo hi
  unfolding validate_items
  items-IsAscending leaf lo hi st e =
      let (_, e0, e) = bind-some (require (is_increasing (keys leaf.items))) _ e in
      let (first, e1, e) = bind-some (get_elem? (keys leaf.items) 0) _ e in
      let (last, e2, e) =
        bind-some (get_elem? (keys leaf.items) (length (keys leaf.items) - 1)) _ e in
      let (_, e3, e) = bind-some (require (not (falls_below lo first))) _ e in
      let (_, e4, e) = bind-some (require (not (reaches hi last))) _ e in
      let asc = increasing-IsAscending leaf.items (require-true _ e0) in
      let low = falls_below-AtLeast lo first (require-true _ e3) in
      let high = last-Within hi leaf.items asc e2 (reaches-Under hi last (require-true _ e4)) in
      (
        asc,
        All-zip _ _ (λ x p q. (p.0, q.1)) leaf.items (first-Within lo leaf.items asc e1 low) high,
        (first, low, first-Under hi leaf.items e1 high),
      )

  -- A leaf below the root that `validate_leaf` accepts between two bounds is valid, and there is a
  -- key between the bounds.
  pub validate_leaf-IsValid :
      (leaf : Leaf K V) (lo hi : Option K) (st : ValidationState K)
      {r : Option (K × K) × ValidationState K}
      → validate_leaf c s leaf lo hi false st ≡ some r
      → IsValid V c zero (min_leaf_len c) lo hi leaf × IsInhabited lo hi
  unfolding validate_leaf
  validate_leaf-IsValid leaf lo hi st e = elim (Bool-cases (ltb c.leaf_cap (length leaf.items))) [
    | inl over ↦ let e' = rw over at e in absurd (cc)
    | inr fits ↦ elim (Bool-cases (length leaf.items == 0)) [
      | inl empty ↦ let e' = rw (fits, empty) at e in absurd (cc)
      | inr full ↦
          let (_, e0, e1) =
            bind-some (require (leb (min_leaf_len c) (length leaf.items))) _
              (rw (fits, full) at e) in
          let (asc, within, key) = items-IsAscending leaf lo hi st e1 in
          ((leb→le _ _ (require-true _ e0), ltb→le _ _ fits, asc, within), key)
    ]
  ]

  -- A root leaf that is accepted is valid; it may be empty.
  pub validate_root_leaf-IsValid :
      (leaf : Leaf K V) (st : ValidationState K) {r : Option (K × K) × ValidationState K}
      → validate_leaf c s leaf none none true st ≡ some r
      → IsValid V c zero 0 none none leaf
  unfolding validate_leaf
  validate_root_leaf-IsValid leaf st e = elim (Bool-cases (ltb c.leaf_cap (length leaf.items))) [
    | inl over ↦ let e' = rw over at e in absurd (cc)
    | inr fits ↦ elim (Bool-cases (length leaf.items == 0)) [
      | inl empty ↦
          let none_left : length leaf.items ≡ 0 = ==→eq (length leaf.items) 0 empty in
          let (asc, within) = empty-IsAscending leaf.items none_left in
          (omega arith, omega arith, asc, within)
      | inr full ↦
          let (asc, within, _) = items-IsAscending leaf none none st (rw (fits, full) at e) in
          (omega arith, ltb→le _ _ fits, asc, within)
    ]
  ]
