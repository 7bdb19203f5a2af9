-- ===== src/Entries/Laws.antt =====
-- `insert` and `remove` as changes at one key, and that both keep the order.
use Prim.Native.Nat.Ordering.{eq}
use bplus_tree.Base.{◌≡◌, refl, none, some, List, [], ◌∷◌, arith, All, All-imp}
use bplus_tree.Order.{Ord, ◌≺◌}
use bplus_tree.Order.Laws.{lt_of_gt}
use bplus_tree.Entries.Append.{lookup-After}
use bplus_tree.Entries.{lookup, insert, remove, After, IsAscending}

module _ {ℓ κ} {K : Type ℓ} {V : Type κ} ⦃o : Ord K⦄ where
  pub All-insert {μ} :
      (P : K → Type μ) (q : K) (w : V) (es : List (K × V))
      → P q
      → All (λ e. P e.0) es
      → All (λ e. P e.0) (insert q w es)
  unfolding insert
  All-insert P q w [] new h = (new, tt)
  All-insert P q w ((k, v) ∷ es) new h = ground (arith, All-insert P q w es new h.1)

  pub All-remove {μ} :
      (P : K × V → Type μ) (q : K) (es : List (K × V)) → All P es → All P (remove q es)
  unfolding remove
  All-remove P q [] h = tt
  All-remove P q ((k, v) ∷ es) h = ground (arith, All-remove P q es h.1)

  pub After-trans : (a b : K) (es : List (K × V)) → a ≺ b → After b es → After a es
  After-trans a b es h = All-imp (λ e k. o.lt_trans a b e.0 h k) es

  pub insert-IsAscending :
      (q : K) (w : V) (es : List (K × V)) → IsAscending es → IsAscending (insert q w es)
  unfolding insert
  insert-IsAscending q w [] h = (tt, tt)
  insert-IsAscending q w ((k, v) ∷ es) h = ground (
    arith,
    insert-IsAscending q w es h.1,
    After-trans q k es,
    lt_of_gt q k,
    All-insert (λ j. k ≺ j) q w es,
  )

  pub remove-IsAscending : (q : K) (es : List (K × V)) → IsAscending es → IsAscending (remove q es)
  unfolding remove
  remove-IsAscending q [] h = tt
  remove-IsAscending q ((k, v) ∷ es) h =
      ground (arith, remove-IsAscending q es h.1, All-remove (λ e. k ≺ e.0) q es h.0)

  -- An insertion changes what is found at its own key, and at no other.
  pub lookup-insert :
      (q p : K) (w : V) (es : List (K × V))
      → lookup p (insert q w es) ≡ elim (o.cmp p q) [ eq ↦ some w | _ ↦ lookup p es ]
  unfolding lookup insert
  lookup-insert q p w [] = refl
  lookup-insert q p w ((k, v) ∷ es) =
      ground (arith, lookup-insert q p w es, o.eq_of_cmp p q, o.eq_of_cmp q k, o.eq_of_cmp p k)

  pub lookup-remove :
      (q p : K) (es : List (K × V))
      → IsAscending es
      → lookup p (remove q es) ≡ elim (o.cmp p q) [ eq ↦ none | _ ↦ lookup p es ]
  unfolding lookup remove
  lookup-remove q p [] h = ground arith
  lookup-remove q p ((k, v) ∷ es) h = ground (
    arith,
    lookup-remove q p es h.1,
    lookup-After k es h.0,
    o.eq_of_cmp p q,
    o.eq_of_cmp q k,
    o.eq_of_cmp p k,
  )
