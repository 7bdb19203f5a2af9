-- ===== src/Node/Spans/Merges.antt =====
-- Two branches joined by a separator, and neighbours among the children changed or merged.
use bplus_tree.Base.{
  ℕ, zero, suc, ◌<◌, Option, some, List, [], ◌∷◌, ◌++◌, arith, length, set, remove_at,
}
use bplus_tree.Order.{Ord, Beyond, Under}
use bplus_tree.Order.Laws.{Under-lt, AtLeast-Beyond, Beyond-lt}
use bplus_tree.Node.Spans.{Spans, lower_at, upper_at}

module _ {ℓ κ} {K : Type ℓ} {A : Type κ} ⦃o : Ord K⦄ (P : Option K → Option K → A → Type 0)
    (hi : Option K) where
  -- A branch, a separator and a second branch behind it.
  pub Spans-append :
      (lo : Option K) (ks : List K) (cs : List A) (s : K) (ls : List K) (ds : List A)
      → Spans P lo (some s) ks cs
      → Beyond lo s
      → Under hi s
      → Spans P (some s) hi ls ds
      → Spans P lo hi (ks ++ s ∷ ls) (cs ++ ds)
  Spans-append lo [] [] s ls ds h x y g = absurd h
  Spans-append lo [] (c ∷ []) s ls ds h x y g = (h, x, y, g)
  Spans-append lo [] (c ∷ d ∷ cs) s ls ds h x y g = absurd h
  Spans-append lo (k ∷ ks) [] s ls ds h x y g = absurd h
  Spans-append lo (k ∷ ks) (c ∷ cs) s ls ds h x y g =
      (h.0, h.1, Under-lt hi k s h.2 y, Spans-append (some k) ks cs s ls ds h.3 h.2 y g)

  -- Two neighbours are replaced, and the separator between them.
  pub Spans-set_pair :
      (lo : Option K) (ks : List K) (cs : List A) (j : ℕ) (l : A) (s : K) (r : A)
      → Spans P lo hi ks cs
      → j < length ks
      → P (lower_at lo ks j) (some s) l
      → P (some s) (upper_at hi ks (suc j)) r
      → Beyond (lower_at lo ks j) s
      → Under (upper_at hi ks (suc j)) s
      → Spans P lo hi (set ks j s) (set (set cs j l) (suc j) r)
  Spans-set_pair lo [] cs j l s r h b p q x y = absurd (omega arith)
  Spans-set_pair lo (k ∷ ks) [] j l s r h b p q x y = absurd h
  Spans-set_pair lo (k ∷ []) (c ∷ []) zero l s r h b p q x y = absurd h.3
  Spans-set_pair lo (k ∷ []) (c ∷ d ∷ []) zero l s r h b p q x y = (p, x, y, q)
  Spans-set_pair lo (k ∷ []) (c ∷ d ∷ e ∷ cs) zero l s r h b p q x y = absurd h.3
  Spans-set_pair lo (k ∷ k' ∷ ks) (c ∷ []) zero l s r h b p q x y = absurd h.3
  Spans-set_pair lo (k ∷ k' ∷ ks) (c ∷ d ∷ cs) zero l s r h b p q x y =
      (p, x, Under-lt hi s k' y h.3.2, (q, y, h.3.2, h.3.3))
  Spans-set_pair lo (k ∷ ks) (c ∷ cs) (suc j) l s r h b p q x y =
      (h.0, h.1, h.2, Spans-set_pair (some k) ks cs j l s r h.3 (omega arith) p q x y)

  -- Two neighbours become one, and the separator between them goes.
  pub Spans-merge_pair :
      (lo : Option K) (ks : List K) (cs : List A) (j : ℕ) (m : A)
      → Spans P lo hi ks cs
      → j < length ks
      → P (lower_at lo ks j) (upper_at hi ks (suc j)) m
      → Spans P lo hi (remove_at ks j) (remove_at (set cs j m) (suc j))
  Spans-merge_pair lo [] cs j m h b p = absurd (omega arith)
  Spans-merge_pair lo (k ∷ ks) [] j m h b p = absurd h
  Spans-merge_pair lo (k ∷ []) (c ∷ []) zero m h b p = absurd h.3
  Spans-merge_pair lo (k ∷ []) (c ∷ d ∷ []) zero m h b p = p
  Spans-merge_pair lo (k ∷ []) (c ∷ d ∷ e ∷ cs) zero m h b p = absurd h.3
  Spans-merge_pair lo (k ∷ k' ∷ ks) (c ∷ []) zero m h b p = absurd h.3
  Spans-merge_pair lo (k ∷ k' ∷ ks) (c ∷ d ∷ cs) zero m h b p =
      (p, Beyond-lt lo k k' (AtLeast-Beyond lo k h.1) h.3.1, h.3.2, h.3.3)
  Spans-merge_pair lo (k ∷ ks) (c ∷ cs) (suc j) m h b p =
      (h.0, h.1, h.2, Spans-merge_pair (some k) ks cs j m h.3 (omega arith) p)
