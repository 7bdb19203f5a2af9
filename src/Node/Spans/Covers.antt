-- ===== src/Node/Spans/Covers.antt =====
-- Where a key lies among the children of a branch, and the entries on the two sides of it.
use bplus_tree.Base.{
  ℕ, zero, ◌≤◌, refl, inl, inr, Option, some, List, [], ◌∷◌, arith, Result, ok, err, length,
}
use bplus_tree.Order.{Ord, Ordering-cases, AtLeast, Under}
use bplus_tree.Order.Laws.{le_of_lt, lt_of_gt}
use bplus_tree.Search.{binary_search_keys, move_up, child_idx}
use bplus_tree.Node.Spans.Cuts.{separator-Under_upper}
use bplus_tree.Node.Spans.{Spans, lower_at, upper_at}

module _ {ℓ κ} {K : Type ℓ} {A : Type κ} ⦃o : Ord K⦄ (P : Option K → Option K → A → Type 0)
    (hi : Option K) (q : K) where
  -- The bounds of a child admit the key.
  pub record Admits (lo : Option K) (ks : List K) (i : ℕ) : Type 0 where
    pub inside : i ≤ length ks
    pub above : AtLeast (lower_at lo ks i) q
    pub below : Under (upper_at hi ks i) q

  Admits-suc :
      (lo : Option K) (k : K) (ks : List K) (r : Result ℕ ℕ)
      → Admits (some k) ks (child_idx r)
      → Admits lo (k ∷ ks) (child_idx (move_up r))
  Admits-suc lo k ks (ok i) h = record {
    inside = omega (arith, h.inside);
    above = h.above;
    below = h.below;
  }
  Admits-suc lo k ks (err i) h = record {
    inside = omega (arith, h.inside);
    above = h.above;
    below = h.below;
  }

  -- The child that `child_for_key` chooses admits the key.
  pub search-Admits :
      (lo : Option K) (ks : List K) (cs : List A)
      → Spans P lo hi ks cs
      → AtLeast lo q
      → Under hi q
      → Admits lo ks (child_idx (binary_search_keys ks q))
  unfolding binary_search_keys
  search-Admits lo [] cs h a u = record { inside = omega arith; above = a; below = u }
  search-Admits lo (k ∷ ks) [] h a u = absurd h
  search-Admits lo (k ∷ ks) (c ∷ cs) h a u = elim (Ordering-cases (o.cmp q k)) [
    | inl e ↦ rw (e, binary_search_keys) (record { inside = omega arith; above = a; below = e })
    | inr (inl e) ↦
        rw (e, binary_search_keys)
          (record {
            inside = omega arith;
            above = ground (arith, o.eq_of_cmp q k, o.cmp_refl k);
            below =
                rw (o.eq_of_cmp q k e)
                  (separator-Under_upper P hi lo (k ∷ ks) (c ∷ cs) zero h refl);
          })
    | inr (inr e) ↦
        rw (e, binary_search_keys)
          (Admits-suc lo k ks (binary_search_keys ks q)
            (search-Admits (some k) ks cs h.3 (le_of_lt k q (lt_of_gt q k e)) u))
  ]
