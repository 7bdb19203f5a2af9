-- ===== src/Node/Spans.antt =====
-- The children of a branch between its separators: child `i` covers the keys from separator
-- `i - 1` on and below separator `i`. What each operation on the two arrays keeps of that.
pub mod Cuts
pub mod Merges
pub mod Covers
pub mod Entries
use bplus_tree.Base.{
  ℕ, zero, suc, ◌≤◌, ◌<◌, ◌≡◌, refl, Option, none, some, List, [], ◌∷◌, arith, length, get_elem?,
  set, insert_at, remove_at,
}
use bplus_tree.Order.{Ord, Beyond, Under}
use bplus_tree.Order.Laws.{Under-lt}

module _ {ℓ} {K : Type ℓ} where
  -- `validate_branch`: the bounds of child `i`.
  abbrev pub lower_at : Option K → List K → ℕ → Option K
  lower_at lo ks zero = lo
  lower_at lo [] (suc i) = lo
  lower_at lo (k ∷ ks) (suc i) = lower_at (some k) ks i

  abbrev pub upper_at : Option K → List K → ℕ → Option K
  upper_at hi [] i = hi
  upper_at hi (k ∷ ks) zero = some k
  upper_at hi (k ∷ ks) (suc i) = upper_at hi ks i

module _ {ℓ κ} {K : Type ℓ} {A : Type κ} ⦃o : Ord K⦄ where
  abbrev pub Spans :
      (Option K → Option K → A → Type 0) → Option K → Option K → List K → List A → Type 0
  Spans P lo hi [] [] = ⊥
  Spans P lo hi [] (c ∷ []) = P lo hi c
  Spans P lo hi [] (c ∷ d ∷ cs) = ⊥
  Spans P lo hi (k ∷ ks) [] = ⊥
  Spans P lo hi (k ∷ ks) (c ∷ cs) =
      P lo (some k) c × Beyond lo k × Under hi k × Spans P (some k) hi ks cs

module _ {ℓ κ} {K : Type ℓ} {A : Type κ} ⦃o : Ord K⦄ (P : Option K → Option K → A → Type 0)
    (hi : Option K) where
  pub Spans-length :
      (lo : Option K) (ks : List K) (cs : List A)
      → Spans P lo hi ks cs
      → length cs ≡ suc (length ks)
  Spans-length lo [] [] h = absurd h
  Spans-length lo [] (c ∷ []) h = refl
  Spans-length lo [] (c ∷ d ∷ cs) h = absurd h
  Spans-length lo (k ∷ ks) [] h = absurd h
  Spans-length lo (k ∷ ks) (c ∷ cs) h = omega (arith, Spans-length (some k) ks cs h.3)

  pub Spans-get :
      (lo : Option K) (ks : List K) (cs : List A) (i : ℕ) {c : A}
      → Spans P lo hi ks cs
      → get_elem? cs i ≡ some c
      → P (lower_at lo ks i) (upper_at hi ks i) c
  Spans-get lo [] [] i h e = absurd h
  Spans-get lo [] (d ∷ []) zero h e = ground arith
  Spans-get lo [] (d ∷ []) (suc i) h e = absurd (cc)
  Spans-get lo [] (c ∷ d ∷ cs) i h e = absurd h
  Spans-get lo (k ∷ ks) [] i h e = absurd h
  Spans-get lo (k ∷ ks) (d ∷ cs) zero h e = ground arith
  Spans-get lo (k ∷ ks) (d ∷ cs) (suc i) h e = Spans-get (some k) ks cs i h.3 e

  -- A child is replaced.
  pub Spans-set :
      (lo : Option K) (ks : List K) (cs : List A) (i : ℕ) (c : A)
      → Spans P lo hi ks cs
      → P (lower_at lo ks i) (upper_at hi ks i) c
      → Spans P lo hi ks (set cs i c)
  Spans-set lo [] [] i c h p = absurd h
  Spans-set lo [] (d ∷ []) zero c h p = p
  Spans-set lo [] (d ∷ []) (suc i) c h p = h
  Spans-set lo [] (e ∷ d ∷ cs) i c h p = absurd h
  Spans-set lo (k ∷ ks) [] i c h p = absurd h
  Spans-set lo (k ∷ ks) (d ∷ cs) zero c h p = (p, h.1, h.2, h.3)
  Spans-set lo (k ∷ ks) (d ∷ cs) (suc i) c h p = (h.0, h.1, h.2, Spans-set (some k) ks cs i c h.3 p)

  -- A child becomes two, with a new separator between them.
  pub Spans-insert_at :
      (lo : Option K) (ks : List K) (cs : List A) (i : ℕ) (l : A) (s : K) (r : A)
      → Spans P lo hi ks cs
      → i ≤ length ks
      → P (lower_at lo ks i) (some s) l
      → P (some s) (upper_at hi ks i) r
      → Beyond (lower_at lo ks i) s
      → Under (upper_at hi ks i) s
      → Spans P lo hi (insert_at ks i s) (insert_at (set cs i l) (suc i) r)
  Spans-insert_at lo [] [] i l s r h b p q x y = absurd h
  Spans-insert_at lo [] (d ∷ []) zero l s r h b p q x y = (p, x, y, q)
  Spans-insert_at lo [] (d ∷ []) (suc i) l s r h b p q x y = absurd (omega arith)
  Spans-insert_at lo [] (e ∷ d ∷ cs) i l s r h b p q x y = absurd h
  Spans-insert_at lo (k ∷ ks) [] i l s r h b p q x y = absurd h
  Spans-insert_at lo (k ∷ ks) (d ∷ cs) zero l s r h b p q x y =
      (p, x, Under-lt hi s k y h.2, (q, y, h.2, h.3))
  Spans-insert_at lo (k ∷ ks) (d ∷ cs) (suc i) l s r h b p q x y =
      (h.0, h.1, h.2, Spans-insert_at (some k) ks cs i l s r h.3 (omega arith) p q x y)
