-- ===== src/Rebalance/Steps.antt =====
-- A pair of neighbours in a branch that is changed, or merged, by a lawful kind.
use bplus_tree.Base.{
  ℕ, suc, ◌≤◌, ◌<◌, ◌≡◌, Option, some, List, arith, Ensures, length, length-set, length-remove_at,
  lt→leb, get_elem?, get_elem?-some, get_elem?-lt, set, remove_at, flat_map,
}
use bplus_tree.Order.{Ord, Beyond, Under}
use bplus_tree.Node.{Branch}
use bplus_tree.Node.Spans.{Spans, Spans-get, Spans-length, lower_at, upper_at}
use bplus_tree.Node.Spans.Cuts.{lower_at-suc, upper_at-get, separator-Beyond, separator-Under_upper}
use bplus_tree.Node.Spans.Merges.{Spans-set_pair, Spans-merge_pair}
use bplus_tree.Siblings.{Siblings}
use bplus_tree.Rebalance.{Kind, change_pair, merge_pair, remove_branch_entry}
use bplus_tree.Rebalance.Pairs.{flat_map-set_pair, flat_map-merge_pair}
use bplus_tree.Rebalance.Laws.{IsLent, IsMerged}

module _ {ℓ μ} {K : Type ℓ} {A : Type μ} ⦃o : Ord K⦄ (Q : Option K → Option K → A → Type 0)
    (lo hi : Option K) (b : Branch K A) where
  -- Children `j` and `j + 1`, with the separator between them and their bounds.
  pub record IsPair (j : ℕ) (l : A) (s : K) (r : A) : Type (ℓ ⊔ μ) where
    pub at_left : get_elem? b.children j ≡ some l
    pub at_right : get_elem? b.children (suc j) ≡ some r
    pub between : get_elem? b.keys j ≡ some s
    pub left : Q (lower_at lo b.keys j) (some s) l
    pub right : Q (some s) (upper_at hi b.keys (suc j)) r
    pub beyond : Beyond (lower_at lo b.keys j) s
    pub under : Under (upper_at hi b.keys (suc j)) s

  module _ (spans : Spans Q lo hi b.keys b.children) where
    pub between-IsPair :
        (j : ℕ) {l : A} {s : K} {r : A}
        → get_elem? b.children j ≡ some l
        → get_elem? b.children (suc j) ≡ some r
        → get_elem? b.keys j ≡ some s
        → IsPair j l s r
    between-IsPair j {l} {s} {r} p q e = record {
      at_left = p;
      at_right = q;
      between = e;
      left = rw (upper_at-get hi b.keys j e) at (Spans-get Q hi lo b.keys b.children j spans p);
      right =
          rw (lower_at-suc lo b.keys j e) at (Spans-get Q hi lo b.keys b.children (suc j) spans q);
      beyond = separator-Beyond Q hi lo b.keys b.children j spans e;
      under = separator-Under_upper Q hi lo b.keys b.children j spans e;
    }

    pub key-IsPair : (j : ℕ) → j < length b.keys → (l : A) × (s : K) × (r : A) × IsPair j l s r
    key-IsPair j h =
        let n = Spans-length Q hi lo b.keys b.children spans in
        let (l, p) = get_elem?-some b.children j (omega arith) in
        let (r, q) = get_elem?-some b.children (suc j) (omega arith) in
        let (s, e) = get_elem?-some b.keys j h in (l, s, r, between-IsPair j p q e)

module _ {ℓ κ μ} {K : Type ℓ} {V : Type κ} {A : Type μ} ⦃o : Ord K⦄
    (P : Option K → Option K → A → Type 0) (f : A → List (K × V)) (lo hi : Option K) (ks : List K)
    (ds : List A) where
  -- The branch that comes of `ks` and `ds`: mended, with at most one key less, and the same
  -- entries.
  pub record IsRebalanced (b' : Branch K A) : Type (ℓ ⊔ κ) where
    pub spans : Spans P lo hi b'.keys b'.children
    pub shrinks : length ks ≤ suc (length b'.keys)
    pub bounded : length b'.keys ≤ length ks
    pub same : flat_map f b'.children ≡ flat_map f ds

-- `cs` are the children before one of them lost a key, and `ds` those after it: the two agree but
-- at the pair `j`.
module _ {ℓ κ μ} {K : Type ℓ} {V : Type κ} {A : Type μ} ⦃o : Ord K⦄
    (P Q : Option K → Option K → A → Type 0) (f : A → List (K × V)) (lo hi : Option K) (ks : List K)
    (cs ds : List A) (spans : Spans P lo hi ks cs) (j : ℕ)
    (agree : (l r : A) → set (set ds j l) (suc j) r ≡ set (set cs j l) (suc j) r)
    (agree' : (m : A) → remove_at (set ds j m) (suc j) ≡ remove_at (set cs j m) (suc j)) (l : A)
    (s : K) (r : A) (pair : IsPair Q lo hi (record { keys = ks; children = ds }) j l s r) where
  pub change_pair-IsRebalanced :
      (change : A → K → A → Option (A × K × A))
      → Ensures (change l s r) (IsLent P Q f (lower_at lo ks j) (upper_at hi ks (suc j)) l r)
      → Ensures
          (change_pair change (record { keys = ks; children = ds }) j)
          (IsRebalanced P f lo hi ks ds)
  unfolding change_pair
  change_pair-IsRebalanced change (x, run, lent) = (
    record { keys = set ks j x.1; children = set (set ds j x.0) (suc j) x.2 },
    rw (pair.at_left, pair.at_right, pair.between, run),
    record {
      spans = rw (agree x.0 x.2) (
          Spans-set_pair P hi lo ks cs j x.0 x.1 x.2 spans (get_elem?-lt ks j pair.between)
            lent.left lent.right lent.beyond lent.under);
      shrinks = omega (arith, length-set ks j x.1);
      bounded = omega (arith, length-set ks j x.1);
      same = flat_map-set_pair f ds j x.0 x.2 pair.at_left pair.at_right lent.same;
    },
  )

  pub merge_pair-IsRebalanced :
      (kind : Kind K A) (st : Siblings)
      → Ensures (kind.merge l s r) (IsMerged P Q f (lower_at lo ks j) (upper_at hi ks (suc j)) l r)
      → Ensures
          (merge_pair kind (record { keys = ks; children = ds }) j st)
          (λ p. IsRebalanced P f lo hi ks ds p.0)
  unfolding merge_pair
  merge_pair-IsRebalanced kind st (m, run, merged) =
      let h = get_elem?-lt ks j pair.between in
      (
        (
          record { keys = remove_at ks j; children = remove_at (set ds j m) (suc j) },
          kind.free r st,
        ),
        rw (
          pair.at_left,
          pair.at_right,
          pair.between,
          run,
          remove_branch_entry,
          lt→leb (length ks) j h,
        ),
        record {
          spans = rw (agree' m) (Spans-merge_pair P hi lo ks cs j m spans h merged.whole);
          shrinks = omega (arith, length-remove_at ks j h);
          bounded = omega (arith, length-remove_at ks j h);
          same = flat_map-merge_pair f ds j m pair.at_left pair.at_right merged.same;
        },
      )
