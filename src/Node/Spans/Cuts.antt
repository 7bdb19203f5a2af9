-- ===== src/Node/Spans/Cuts.antt =====
-- A branch cut at a separator, two branches joined by one, and neighbours changed or merged.
use bplus_tree.Base.{
  ℕ, zero, suc, ◌≤◌, ◌≡◌, refl, Option, some, List, [], ◌∷◌, arith, length, get_elem?, take, drop,
}
use bplus_tree.Order.{Ord, ◌≺◌, Beyond, Under}
use bplus_tree.Order.Laws.{AtLeast-Beyond, Beyond-lt}
use bplus_tree.Node.Spans.{Spans, lower_at, upper_at}

module _ {ℓ} {K : Type ℓ} where
  pub lower_at-suc :
      (lo : Option K) (ks : List K) (j : ℕ) {s : K}
      → get_elem? ks j ≡ some s
      → lower_at lo ks (suc j) ≡ some s
  lower_at-suc lo [] j e = absurd (cc)
  lower_at-suc lo (k ∷ ks) zero e = e
  lower_at-suc lo (k ∷ ks) (suc j) e = lower_at-suc (some k) ks j e

  pub upper_at-get :
      (hi : Option K) (ks : List K) (j : ℕ) {s : K}
      → get_elem? ks j ≡ some s
      → upper_at hi ks j ≡ some s
  upper_at-get hi [] j e = absurd (cc)
  upper_at-get hi (k ∷ ks) zero e = e
  upper_at-get hi (k ∷ ks) (suc j) e = upper_at-get hi ks j e

  pub upper_at_end : (hi : Option K) (ks : List K) (i : ℕ) → length ks ≤ i → upper_at hi ks i ≡ hi
  upper_at_end hi [] i h = refl
  upper_at_end hi (k ∷ ks) zero h = absurd (omega arith)
  upper_at_end hi (k ∷ ks) (suc i) h = upper_at_end hi ks i (omega arith)

module _ {ℓ κ} {K : Type ℓ} {A : Type κ} ⦃o : Ord K⦄ (P : Option K → Option K → A → Type 0)
    (hi : Option K) where
  separator-lt :
      (k : K) (ks : List K) (cs : List A) (j : ℕ) {s : K}
      → Spans P (some k) hi ks cs
      → get_elem? ks j ≡ some s
      → k ≺ s
  separator-lt k [] cs j h e = absurd (cc)
  separator-lt k (k' ∷ ks) [] j h e = absurd h
  separator-lt k (k' ∷ ks) (c ∷ cs) zero h e = ground (arith, h.1)
  separator-lt k (k' ∷ ks) (c ∷ cs) (suc j) {s} h e =
      o.lt_trans k k' s h.1 (separator-lt k' ks cs j h.3 e)

  pub separator-Under :
      (lo : Option K) (ks : List K) (cs : List A) (j : ℕ) {s : K}
      → Spans P lo hi ks cs
      → get_elem? ks j ≡ some s
      → Under hi s
  separator-Under lo [] cs j h e = absurd (cc)
  separator-Under lo (k ∷ ks) [] j h e = absurd h
  separator-Under lo (k ∷ ks) (c ∷ cs) zero h e = ground (arith, h.2)
  separator-Under lo (k ∷ ks) (c ∷ cs) (suc j) h e = separator-Under (some k) ks cs j h.3 e

  pub separator-Beyond_lower :
      (lo : Option K) (ks : List K) (cs : List A) (j : ℕ) {s : K}
      → Spans P lo hi ks cs
      → get_elem? ks j ≡ some s
      → Beyond lo s
  separator-Beyond_lower lo [] cs j h e = absurd (cc)
  separator-Beyond_lower lo (k ∷ ks) [] j h e = absurd h
  separator-Beyond_lower lo (k ∷ ks) (c ∷ cs) zero h e = ground (arith, h.1)
  separator-Beyond_lower lo (k ∷ ks) (c ∷ cs) (suc j) {s} h e =
      Beyond-lt lo k s (AtLeast-Beyond lo k h.1) (separator-lt k ks cs j h.3 e)

  pub separator-Beyond :
      (lo : Option K) (ks : List K) (cs : List A) (j : ℕ) {s : K}
      → Spans P lo hi ks cs
      → get_elem? ks j ≡ some s
      → Beyond (lower_at lo ks j) s
  separator-Beyond lo [] cs j h e = absurd (cc)
  separator-Beyond lo (k ∷ ks) [] j h e = absurd h
  separator-Beyond lo (k ∷ ks) (c ∷ cs) zero h e = ground (arith, h.1)
  separator-Beyond lo (k ∷ ks) (c ∷ cs) (suc j) h e = separator-Beyond (some k) ks cs j h.3 e

  pub separator-Under_upper :
      (lo : Option K) (ks : List K) (cs : List A) (j : ℕ) {s : K}
      → Spans P lo hi ks cs
      → get_elem? ks j ≡ some s
      → Under (upper_at hi ks (suc j)) s
  separator-Under_upper lo [] cs j h e = absurd (cc)
  separator-Under_upper lo (k ∷ ks) [] j h e = absurd h
  separator-Under_upper lo (k ∷ []) (c ∷ cs) zero h e = ground (arith, h.2)
  separator-Under_upper lo (k ∷ k' ∷ ks) (c ∷ []) zero h e = absurd h.3
  separator-Under_upper lo (k ∷ k' ∷ ks) (c ∷ d ∷ cs) zero h e = ground (arith, h.3.1)
  separator-Under_upper lo (k ∷ ks) (c ∷ cs) (suc j) h e =
      separator-Under_upper (some k) ks cs j h.3 e

  pub Spans-take :
      (lo : Option K) (ks : List K) (cs : List A) (m : ℕ) {s : K}
      → Spans P lo hi ks cs
      → get_elem? ks m ≡ some s
      → Spans P lo (some s) (take m ks) (take (suc m) cs)
  Spans-take lo [] cs m h e = absurd (cc)
  Spans-take lo (k ∷ ks) [] m h e = absurd h
  Spans-take lo (k ∷ ks) (c ∷ cs) zero h e = ground (arith, h.0)
  Spans-take lo (k ∷ []) (c ∷ []) (suc m) h e = absurd h.3
  Spans-take lo (k ∷ k' ∷ ks) (c ∷ []) (suc m) h e = absurd h.3
  Spans-take lo (k ∷ ks) (c ∷ d ∷ cs) (suc m) h e =
      (h.0, h.1, separator-lt k ks (d ∷ cs) m h.3 e, Spans-take (some k) ks (d ∷ cs) m h.3 e)

  pub Spans-drop :
      (lo : Option K) (ks : List K) (cs : List A) (m : ℕ) {s : K}
      → Spans P lo hi ks cs
      → get_elem? ks m ≡ some s
      → Spans P (some s) hi (drop (suc m) ks) (drop (suc m) cs)
  Spans-drop lo [] cs m h e = absurd (cc)
  Spans-drop lo (k ∷ ks) [] m h e = absurd h
  Spans-drop lo (k ∷ ks) (c ∷ cs) zero h e = ground (arith, h.3)
  Spans-drop lo (k ∷ ks) (c ∷ cs) (suc m) h e = Spans-drop (some k) ks cs m h.3 e

module _ {ℓ κ} {K : Type ℓ} {A : Type κ} ⦃o : Ord K⦄ (P Q : Option K → Option K → A → Type 0)
    (weaken : (lo hi : Option K) (a : A) → P lo hi a → Q lo hi a) (hi : Option K) where
  pub Spans-imp :
      (lo : Option K) (ks : List K) (cs : List A) → Spans P lo hi ks cs → Spans Q lo hi ks cs
  Spans-imp lo [] [] h = absurd h
  Spans-imp lo [] (c ∷ []) h = weaken lo hi c h
  Spans-imp lo [] (c ∷ d ∷ cs) h = absurd h
  Spans-imp lo (k ∷ ks) [] h = absurd h
  Spans-imp lo (k ∷ ks) (c ∷ cs) h =
      (weaken lo (some k) c h.0, h.1, h.2, Spans-imp (some k) ks cs h.3)
