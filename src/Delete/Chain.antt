-- ===== src/Delete/Chain.antt =====
-- The chain of the leaves after a removal.
use Prim.Native.Nat.{min}
use bplus_tree.Base.{
  ℕ, zero, suc, ◌-◌, ◌≤◌, ◌≡◌, refl, sym, ap, inl, inr, Option, none, some, [], ◌∷◌, Yields,
  Yields->>=, Yields-each, Yields-some, Yields-if, Result-cases, ◌==◌, length, get_elem?,
  get_elem?-lt, set, take, drop, flat_map, flat_map-set, flat_map-split,
}
use bplus_tree.Order.{Ord, AtLeast, Under}
use bplus_tree.Search.{binary_search_keys, child_idx}
use bplus_tree.Search.Items.{keys, value_at}
use bplus_tree.Node.{Caps, IsUsable, Leaf, Node, min_len}
use bplus_tree.Node.Leaves.{addrs}
use bplus_tree.Node.Spans.{Spans, Spans-get, Spans-set, lower_at, upper_at}
use bplus_tree.Node.Spans.Cuts.{Spans-imp}
use bplus_tree.Node.Valid.{IsValid}
use bplus_tree.Node.Child.{IsHome, search-IsHome}
use bplus_tree.Siblings.{Siblings}
use bplus_tree.Siblings.Extends.{Extends, Extends-same, Extends-trans, Extends-within}
use bplus_tree.Descend.{child_for_key-some}
use bplus_tree.Rebalance.{rebalance_child}
use bplus_tree.Rebalance.Chain.{rebalance_child-Extends}
use bplus_tree.Delete.{kind_of, fix_branch_child, leaf_remove, remove_above, remove_rec}
use bplus_tree.Delete.KindChain.{Formed, IsValid-Formed, kind_of-IsChained}
use bplus_tree.Delete.Recursion.{
  least_keys, least_keys-le, Removed, kind_of-IsLawful, remove_rec-Removed,
}

module _ {ℓ κ} {K : Type ℓ} (V : Type κ) ⦃o : Ord K⦄ (c : Caps) (usable : IsUsable c) (h : ℕ)
    (lo hi : Option K) (b : Node K V (suc h))
    (spans : Spans (IsValid V c h (min_len c h)) lo hi b.keys b.children) (i : ℕ) (n : Node K V h)
    (mended : IsValid V c h (min_len c h - 1) (lower_at lo b.keys i) (upper_at hi b.keys i) n) where
  changed : Node K V (suc h)
  changed = record b { children = set b.children i n }

  changed-Formed :
      (j : ℕ) (r : Node K V h) → get_elem? (set b.children i n) j ≡ some r → Formed K V h r
  changed-Formed j r e =
      let P = IsValid V c h (min_len c h) in
      let Q = IsValid V c h (min_len c h - 1) in
      let spans' =
        Spans-set Q hi lo b.keys b.children i n
          (Spans-imp P Q (kind_of-IsLawful V c usable h).weaken hi lo b.keys b.children spans)
          mended in
      IsValid-Formed V c h (min_len c h - 1) (lower_at lo b.keys j) (upper_at hi b.keys j) r
        (Spans-get Q hi lo b.keys (set b.children i n) j spans' e)

  fix-Extends :
      (s : Siblings)
      → Yields
          (fix_branch_child V c h (record b { children = set b.children i n }) i s)
          (λ r. Extends s r.1 (flat_map (addrs K V h) (set b.children i n)) (addrs K V (suc h) r.0))
  unfolding fix_branch_child addrs
  fix-Extends s =
      let b' : Node K V (suc h) = record b { children = set b.children i n } in
      let f = addrs K V h in
      let E : Node K V (suc h) × Siblings → Type 0 =
        λ r. Extends s r.1 (flat_map f (set b.children i n)) (flat_map f r.0.children) in
      let len = length b.keys in
      Yields-if (len == 0) (some (b', s)) (rebalance_child (kind_of V c h) b' (min i len) len s) E
        (Extends-same s (flat_map f (set b.children i n)) _ refl)
        (rebalance_child-Extends (Formed K V h) f (kind_of V c h) (kind_of-IsChained K V c h) b' s
          changed-Formed (min i len) len)

module _ {ℓ κ} {K : Type ℓ} (V : Type κ) ⦃o : Ord K⦄ (c : Caps) (usable : IsUsable c)
    (key : K) where
  leaf_remove-addr : (leaf : Leaf K V) → Yields (leaf_remove leaf key) (λ r. r.0.addr ≡ leaf.addr)
  unfolding leaf_remove
  leaf_remove-addr leaf = elim (Result-cases (binary_search_keys (keys leaf.items) key)) [
    | inl (i, e) ↦ rw (leaf_remove, e) (Yields-each (value_at leaf.items i) _ _ (λ v e'. refl))
    | inr (i, e) ↦ rw (leaf_remove, e) refl
  ]

  abbrev ExtendsNode : Siblings → (h : ℕ) → Node K V h → (Node K V h × Option V) × Siblings → Type 0
  ExtendsNode s h n r = Extends s r.1 (addrs K V h n) (addrs K V h r.0.0)

  module _ (h m : ℕ) (lo hi : Option K) (b : Node K V (suc h))
      (valid : IsValid V c (suc h) m lo hi b) {i : ℕ} {child : Node K V h}
      (home : IsHome V c h lo hi b key i child) (s : Siblings) where
    placed-Extends :
        (n : Node K V h) (s' : Siblings)
        → Extends s s' (addrs K V h child) (addrs K V h n)
        → Extends s s' (addrs K V (suc h) b) (flat_map (addrs K V h) (set b.children i n))
    unfolding addrs
    placed-Extends n s' ext =
        let f = addrs K V h in
        rw
          (
            flat_map-split f b.children i home.there,
            flat_map-set f b.children i n (get_elem?-lt b.children i home.there),
          )
          (Extends-within s s' (flat_map f (take i b.children)) (f child) (f n)
            (flat_map f (drop (suc i) b.children)) ext)

    above-Extends :
        (n : Node K V h) (old : Option V) (s' : Siblings)
        → Removed c h (min_len c h) (lower_at lo b.keys i) (upper_at hi b.keys i) child key (n, old)
        → Extends s s' (addrs K V h child) (addrs K V h n)
        → Yields (remove_above c h b i n old s') (ExtendsNode s (suc h) b)
    unfolding remove_above addrs
    above-Extends n none s' done ext = placed-Extends n s' ext
    above-Extends n (some value) s' done ext =
        let b' : Node K V (suc h) = record b { children = set b.children i n } in
        let f = addrs K V h in
        Yields->>= (fix_branch_child V c h b' i s') _
          (λ r. Extends s' r.1 (flat_map f (set b.children i n)) (addrs K V (suc h) r.0))
          (ExtendsNode s (suc h) b) (fix-Extends V c usable h lo hi b valid.2 i n done.0 s')
          (λ r e fixed.
            Extends-trans s s' r.1 (addrs K V (suc h) b) (flat_map f (set b.children i n))
              (addrs K V (suc h) r.0) (placed-Extends n s' ext) fixed)

  pub remove_rec-Extends :
      (h m : ℕ) (lo hi : Option K) (n : Node K V h) (s : Siblings)
      → least_keys h ≤ m
      → IsValid V c h m lo hi n
      → AtLeast lo key
      → Under hi key
      → Yields (remove_rec c h n key s) (ExtendsNode s h n)
  unfolding remove_rec addrs
  remove_rec-Extends zero m lo hi n s pos v a u =
      Yields->>= (leaf_remove n key) _ (λ r. r.0.addr ≡ n.addr) (ExtendsNode s zero n)
        (leaf_remove-addr n) (λ r e same. Extends-same s _ _ (ap (λ a. a ∷ []) (sym same)))
  remove_rec-Extends (suc h) m lo hi n s pos v a u =
      let (child, home) = search-IsHome V c h lo hi n key m v a u in
      let i = child_idx (binary_search_keys n.keys key) in
      let lo' = lower_at lo n.keys i in
      let hi' = upper_at hi n.keys i in
      let (r, run, done) =
        remove_rec-Removed c usable key h (min_len c h) lo' hi' child s (least_keys-le c usable h)
          home.valid home.above home.below in
      let ext =
        Yields-some (remove_rec c h child key s) (ExtendsNode s h child)
          (remove_rec-Extends h (min_len c h) lo' hi' child s (least_keys-le c usable h) home.valid
            home.above home.below)
          run in
      rw (remove_rec, child_for_key-some n key home.there, run)
        (above-Extends h m lo hi n v home s r.0.0 r.0.1 r.1 done ext)
