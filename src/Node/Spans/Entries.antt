-- ===== src/Node/Spans/Entries.antt =====
-- The entries below the children of a branch: ascending, within its bounds, and split by a key
-- at the child that admits it.
use mathlib.Core.List.{append-nil}
use bplus_tree.Base.{
  ℕ, zero, suc, ◌≤◌, Option, some, List, [], ◌∷◌, arith, All-append, All-imp, length, take, drop,
  flat_map,
}
use bplus_tree.Order.{Ord, ◌≼◌, AtLeast, Under}
use bplus_tree.Order.Laws.{Under-lt, le_of_lt, le_trans, lt_of_lt_of_le, AtLeast-le, AtLeast-Beyond}
use bplus_tree.Entries.{Before, After, IsAscending, Within}
use bplus_tree.Entries.Cut.{append-IsAscending}
use bplus_tree.Node.Spans.{Spans, lower_at, upper_at}

module _ {ℓ κ μ} {K : Type ℓ} {A : Type κ} {V : Type μ} ⦃o : Ord K⦄
    (P : Option K → Option K → A → Type 0) (f : A → List (K × V))
    (inside : (lo hi : Option K) (c : A) → P lo hi c → Within lo hi (f c)) (hi : Option K) where
  pub Spans-Within :
      (lo : Option K) (ks : List K) (cs : List A)
      → Spans P lo hi ks cs
      → Within lo hi (flat_map f cs)
  unfolding flat_map
  Spans-Within lo [] [] h = absurd h
  Spans-Within lo [] (c ∷ []) h = All-append _ (f c) [] (inside lo hi c h) tt
  Spans-Within lo [] (c ∷ d ∷ cs) h = absurd h
  Spans-Within lo (k ∷ ks) [] h = absurd h
  Spans-Within lo (k ∷ ks) (c ∷ cs) h =
      All-append _ (f c) (flat_map f cs)
        (All-imp (λ e w. (w.0, Under-lt hi e.0 k w.1 h.2)) (f c) (inside lo (some k) c h.0))
        (All-imp (λ e w. (AtLeast-le lo k e.0 (AtLeast-Beyond lo k h.1) w.0, w.1)) (flat_map f cs)
          (Spans-Within (some k) ks cs h.3))

  pub Spans-IsAscending :
      ((lo hi : Option K) (c : A) → P lo hi c → IsAscending (f c))
      → (lo : Option K) (ks : List K) (cs : List A) → Spans P lo hi ks cs
      → IsAscending (flat_map f cs)
  unfolding flat_map
  Spans-IsAscending asc lo [] [] h = absurd h
  Spans-IsAscending asc lo [] (c ∷ []) h = rw append-nil (asc lo hi c h)
  Spans-IsAscending asc lo [] (c ∷ d ∷ cs) h = absurd h
  Spans-IsAscending asc lo (k ∷ ks) [] h = absurd h
  Spans-IsAscending asc lo (k ∷ ks) (c ∷ cs) h =
      append-IsAscending k (f c) (flat_map f cs) (asc lo (some k) c h.0)
        (All-imp (λ e w. w.1) (f c) (inside lo (some k) c h.0))
        (Spans-IsAscending asc (some k) ks cs h.3)
        (All-imp (λ e w. w.0) (flat_map f cs) (Spans-Within (some k) ks cs h.3))

  module _ (q : K) where
    lower_at-le :
        (k : K) (ks : List K) (cs : List A) (i : ℕ)
        → Spans P (some k) hi ks cs
        → AtLeast (lower_at (some k) ks i) q
        → k ≼ q
    lower_at-le k ks cs zero h a = a
    lower_at-le k [] cs (suc i) h a = a
    lower_at-le k (k' ∷ ks) [] (suc i) h a = absurd h
    lower_at-le k (k' ∷ ks) (c ∷ cs) (suc i) h a =
        le_trans k k' q (le_of_lt k k' h.1) (lower_at-le k' ks cs i h.3 a)

    pub Before-take :
        (lo : Option K) (ks : List K) (cs : List A) (i : ℕ)
        → Spans P lo hi ks cs
        → i ≤ length ks
        → AtLeast (lower_at lo ks i) q
        → Before q (flat_map f (take i cs))
    unfolding flat_map
    Before-take lo ks cs zero h b a = tt
    Before-take lo [] cs (suc i) h b a = absurd (omega arith)
    Before-take lo (k ∷ ks) [] (suc i) h b a = absurd h
    Before-take lo (k ∷ ks) (c ∷ cs) (suc i) h b a =
        All-append _ (f c) (flat_map f (take i cs))
          (All-imp (λ e w. lt_of_lt_of_le e.0 k q w.1 (lower_at-le k ks cs i h.3 a)) (f c)
            (inside lo (some k) c h.0))
          (Before-take (some k) ks cs i h.3 (omega arith) a)

    pub After-drop :
        (lo : Option K) (ks : List K) (cs : List A) (i : ℕ)
        → Spans P lo hi ks cs
        → i ≤ length ks
        → Under (upper_at hi ks i) q
        → After q (flat_map f (drop (suc i) cs))
    unfolding flat_map
    After-drop lo [] [] i h b u = absurd h
    After-drop lo [] (c ∷ []) zero h b u = tt
    After-drop lo [] (c ∷ []) (suc i) h b u = absurd (omega arith)
    After-drop lo [] (c ∷ d ∷ cs) i h b u = absurd h
    After-drop lo (k ∷ ks) [] i h b u = absurd h
    After-drop lo (k ∷ ks) (c ∷ cs) zero h b u =
        All-imp (λ e w. lt_of_lt_of_le q k e.0 u w.0) (flat_map f cs)
          (Spans-Within (some k) ks cs h.3)
    After-drop lo (k ∷ ks) (c ∷ cs) (suc i) h b u = After-drop (some k) ks cs i h.3 (omega arith) u
