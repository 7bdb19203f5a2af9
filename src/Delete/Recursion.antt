-- ===== src/Delete/Recursion.antt =====
-- `remove_rec` on a valid node.
use Prim.Native.Nat.{min}
use bplus_tree.Base.{
  ℕ, zero, suc, ◌-◌, ◌≤◌, ◌≡◌, refl, sym, ap, ◌∙◌, inl, inr, Option, none, some, ◌++◌, arith,
  Ensures, Result-cases, ne→==, length, length-remove_at, get_elem?-lt, set, remove_at, flat_map,
  flat_map-set,
}
use bplus_tree.Order.{Ord, AtLeast, Under}
use bplus_tree.Entries.{lookup, remove}
use bplus_tree.Entries.Laws.{All-remove, remove-IsAscending}
use bplus_tree.Search.{binary_search_keys, child_idx}
use bplus_tree.Search.Items.{keys, value_at-some, search-IsHit, search-IsMiss}
use bplus_tree.Siblings.{Siblings}
use bplus_tree.Node.{Caps, IsUsable, Leaf, Node, entries, min_len, min_len_pos}
use bplus_tree.Node.Valid.{IsValid}
use bplus_tree.Node.Spans.{Spans-set, lower_at, upper_at}
use bplus_tree.Node.Child.{IsHome, search-IsHome, before, after, lookup_home, remove_home}
use bplus_tree.Descend.{child_for_key-some}
use bplus_tree.Rebalance.Laws.{IsLawful}
use bplus_tree.Rebalance.Steps.{IsRebalanced}
use bplus_tree.Rebalance.Correct.{rebalance_child-IsRebalanced}
use bplus_tree.Delete.{kind_of, fix_branch_child, leaf_remove, remove_above, remove_rec}
use bplus_tree.Delete.LeafKind.{leaf_kind-IsLawful}
use bplus_tree.Delete.BranchKind.{branch_kind-IsLawful}

-- A branch that may be asked to give up a key has one.
abbrev pub least_keys : ℕ → ℕ
least_keys zero = 0
least_keys (suc h) = 1

-- The keys that are left of `m` when a value was removed.
abbrev pub keys_left {κ} : {V : Type κ} → Option V → ℕ → ℕ
keys_left none m = m
keys_left (some _) m = m - 1

module _ {ℓ κ} {K : Type ℓ} {V : Type κ} ⦃o : Ord K⦄ (c : Caps) where
  -- The node after the removal of `key` from `n`, and the value that was there. A node that lost
  -- an entry may have one key less than it had to.
  abbrev pub Removed :
      (h m : ℕ) → Option K → Option K → Node K V h → K → Node K V h × Option V → Type (ℓ ⊔ κ)
  Removed h m lo hi n key r =
      IsValid V c h (keys_left r.1 m) lo hi r.0
      × (entries h r.0 ≡ remove key (entries h n))
      × (r.1 ≡ lookup key (entries h n))

module _ {ℓ κ} {K : Type ℓ} (V : Type κ) ⦃o : Ord K⦄ (c : Caps) (usable : IsUsable c) where
  -- The operations of the two kinds of node are right.
  pub kind_of-IsLawful :
      (h : ℕ)
      → IsLawful {K = K} {A = Node K V h}
          (IsValid V c h (min_len c h))
          (IsValid V c h (min_len c h - 1))
          (entries h)
          (kind_of V c h)
  kind_of-IsLawful zero = leaf_kind-IsLawful V c usable
  kind_of-IsLawful (suc h) = branch_kind-IsLawful V c usable h

pub least_keys-le : (c : Caps) → IsUsable c → (h : ℕ) → least_keys h ≤ min_len c h
least_keys-le c usable zero = omega arith
least_keys-le c usable (suc h) = min_len_pos c (suc h) usable

module _ {ℓ κ} {K : Type ℓ} {V : Type κ} ⦃o : Ord K⦄ (c : Caps) (usable : IsUsable c)
    (key : K) where
  leaf-Removed :
      (m : ℕ) (lo hi : Option K) (leaf : Leaf K V)
      → IsValid V c zero m lo hi leaf
      → Ensures (leaf_remove leaf key) (Removed c zero m lo hi leaf key)
  unfolding leaf_remove entries
  leaf-Removed m lo hi leaf v = elim (Result-cases (binary_search_keys (keys leaf.items) key)) [
    | inl (i, e) ↦
        let hit = search-IsHit key leaf.items e in
        let (old, there) = value_at-some leaf.items i hit.inside in
        let asc = remove-IsAscending key leaf.items v.2 in
        let within = All-remove (λ e. AtLeast lo e.0 × Under hi e.0) key leaf.items v.3 in
        (
          (record leaf { items = remove_at leaf.items i }, some old),
          rw (leaf_remove, e, there),
          (
            (
              omega (arith, length-remove_at leaf.items i hit.inside, v.0),
              omega (arith, length-remove_at leaf.items i hit.inside, v.1),
              rw hit.removed at asc,
              rw hit.removed at within,
            ),
            sym hit.removed,
            sym (hit.found ∙ there),
          ),
        )
    | inr (i, e) ↦
        let miss = search-IsMiss key leaf.items e in
        ((leaf, none), rw (leaf_remove, e), (v, sym (miss.kept v.2), sym (miss.absent v.2)))
  ]

  module _ (h m : ℕ) (lo hi : Option K) (b : Node K V (suc h)) (pos : 1 ≤ m)
      (valid : IsValid V c (suc h) m lo hi b) {i : ℕ} {child : Node K V h}
      (home : IsHome V c h lo hi b key i child) where
    abbrev RemovedHere : Node K V h × Option V → Type (ℓ ⊔ κ)
    RemovedHere = Removed c h (min_len c h) (lower_at lo b.keys i) (upper_at hi b.keys i) child key

    set-entries :
        (n : Node K V h)
        → entries h n ≡ remove key (entries h child)
        → flat_map (entries h) (set b.children i n) ≡ remove key (entries (suc h) b)
    unfolding entries
    set-entries n e =
        flat_map-set (entries h) b.children i n (get_elem?-lt b.children i home.there)
        ∙ ap (λ es. before V c h lo hi b key i ++ es ++ after V c h lo hi b key i) e
        ∙ sym (remove_home V c h lo hi b key home)

    fix-IsRebalanced :
        (n : Node K V h) (s : Siblings)
        → IsValid V c h (min_len c h - 1) (lower_at lo b.keys i) (upper_at hi b.keys i) n
        → Ensures (fix_branch_child V c h (record b { children = set b.children i n }) i s) (λ r.
          IsRebalanced
            (IsValid V c h (min_len c h))
            (entries h)
            lo
            hi
            b.keys
            (set b.children i n)
            r.0)
    unfolding fix_branch_child
    fix-IsRebalanced n s v =
        let same : min i (length b.keys) ≡ i = omega (arith, home.inside) in
        rw (ne→== (length b.keys) 0 (omega (arith, valid.0)), same)
          (rebalance_child-IsRebalanced (IsValid V c h (min_len c h))
            (IsValid V c h (min_len c h - 1)) (entries h) (kind_of V c h)
            (kind_of-IsLawful V c usable h) lo hi b.keys b.children valid.2 s i n home.inside v
            (omega (arith, valid.0)))

    above-Removed :
        (n : Node K V h) (old : Option V) (s : Siblings)
        → RemovedHere (n, old)
        → Ensures (remove_above c h b i n old s) (λ r. Removed c (suc h) m lo hi b key r.0)
    unfolding remove_above entries
    above-Removed n none s done = (
      ((record b { children = set b.children i n }, none), s),
      refl,
      (
        (
          valid.0,
          valid.1,
          Spans-set (IsValid V c h (min_len c h)) hi lo b.keys b.children i n valid.2 done.0,
        ),
        set-entries n done.1,
        done.2 ∙ sym (lookup_home V c h lo hi b key home),
      ),
    )
    above-Removed n (some value) s done =
        let ((b', s'), run, fixed) = fix-IsRebalanced n s done.0 in
        (
          ((b', some value), s'),
          rw run,
          (
            (
              omega (arith, valid.0, fixed.shrinks),
              omega (arith, valid.1, fixed.bounded),
              fixed.spans,
            ),
            fixed.same ∙ set-entries n done.1,
            done.2 ∙ sym (lookup_home V c h lo hi b key home),
          ),
        )

  -- With usable capacities, on a valid node whose bounds admit the key, and that has a key when it
  -- is a branch, `remove_rec` does not fail: what it returns is valid, but that it may have one key
  -- less when a value was removed; it holds the other entries, and the value that was at the key
  -- is returned.
  pub remove_rec-Removed :
      (h m : ℕ) (lo hi : Option K) (n : Node K V h) (s : Siblings)
      → least_keys h ≤ m
      → IsValid V c h m lo hi n
      → AtLeast lo key
      → Under hi key
      → Ensures (remove_rec c h n key s) (λ r. Removed c h m lo hi n key r.0)
  unfolding remove_rec
  remove_rec-Removed zero m lo hi n s pos v a u =
      let (r, run, done) = leaf-Removed m lo hi n v in ((r, s), rw run, done)
  remove_rec-Removed (suc h) m lo hi n s pos v a u =
      let (child, home) = search-IsHome V c h lo hi n key m v a u in
      let i = child_idx (binary_search_keys n.keys key) in
      let (r, run, done) =
        remove_rec-Removed h (min_len c h) (lower_at lo n.keys i) (upper_at hi n.keys i) child s
          (least_keys-le c usable h) home.valid home.above home.below in
      let (r', run', done') = above-Removed h m lo hi n pos v home r.0.0 r.0.1 r.1 done in
      (r', rw (remove_rec, child_for_key-some n key home.there, run, run'), done')
