-- ===== src/Insert/BranchCase.antt =====
-- `insert_above`: what a branch does with the result for its child.
use bplus_tree.Base.{
  ℕ, suc, ◌+◌, ◌/◌, ◌≤◌, ◌<◌, ◌≡◌, refl, sym, ap, ◌∙◌, inl, inr, Option, List, ◌++◌, arith, tests,
  Ensures, ltb, ltb→lt, lt→ltb, le→ltb, Bool-cases, length, get_elem?-lt, set, take, drop,
  insert_at, length-insert_at, length-take, length-drop, length-set, flat_map, flat_map-append,
  flat_map-set, flat_map-insert_at-set, take-append-drop,
}
use bplus_tree.Order.{Ord}
use bplus_tree.Entries.{lookup, insert}
use bplus_tree.Node.{Caps, IsUsable, Branch, Node, entries, fits-some, min_len, min_branch_len-le}
use bplus_tree.Node.Spans.{Spans, Spans-set, Spans-insert_at, Spans-length, lower_at, upper_at}
use bplus_tree.Node.Spans.Cuts.{Spans-take, Spans-drop, separator-Beyond_lower, separator-Under}
use bplus_tree.Node.Valid.{IsValid}
use bplus_tree.Node.Child.{IsHome, before, after, lookup_home, insert_home}
use bplus_tree.Insert.{
  InsertResult, no_split, split, Inserted, insert_into_branch_slot, insert_above,
}
use bplus_tree.Insert.BranchSplit.{branch_insert_and_split-IsCutAt}

module _ {ℓ κ} {K : Type ℓ} {V : Type κ} ⦃o : Ord K⦄ (c : Caps) (usable : IsUsable c) (h m : ℕ)
    (lo hi : Option K) (b : Node K V (suc h)) (key : K) (value : V)
    (valid : IsValid V c (suc h) m lo hi b) {i : ℕ} {child : Node K V h}
    (home : IsHome V c h lo hi b key i child) where
  abbrev InsertedHere : InsertResult K V (Node K V h) → Type (ℓ ⊔ κ)
  InsertedHere =
      Inserted c h (min_len c h) (lower_at lo b.keys i) (upper_at hi b.keys i) child key value

  abbrev InsertedAbove : InsertResult K V (Node K V (suc h)) → Type (ℓ ⊔ κ)
  InsertedAbove = Inserted c (suc h) m lo hi b key value

  -- The child keeps its place.
  set-Inserted :
      (n' : Node K V h) (old : Option V)
      → InsertedHere (no_split n' old)
      → Ensures (insert_above c b i (no_split n' old)) InsertedAbove
  unfolding insert_above entries
  set-Inserted n' old r = (
    no_split (record b { children = set b.children i n' }) old,
    refl,
    (
      (
        valid.0,
        valid.1,
        Spans-set (IsValid V c h (min_len c h)) hi lo b.keys b.children i n' valid.2 r.0,
      ),
      flat_map-set (entries h) b.children i n' (get_elem?-lt b.children i home.there)
          ∙ ap (λ es. before V c h lo hi b key i ++ es ++ after V c h lo hi b key i) r.1
          ∙ sym (insert_home V c h lo hi b key home value),
      r.2 ∙ sym (lookup_home V c h lo hi b key home),
    ),
  )

  module _ (l : Node K V h) (sep : K) (r : Node K V h) (old : Option V)
      (done : InsertedHere (split l sep r old)) where
    abbrev grown_keys : List K
    grown_keys = insert_at b.keys i sep

    abbrev grown_children : List (Node K V h)
    grown_children = insert_at (set b.children i l) (suc i) r

    -- The arrays that hold the new child are in order, and hold the new entry.
    grown-Spans : Spans (IsValid V c h (min_len c h)) lo hi grown_keys grown_children
    grown-Spans =
        Spans-insert_at (IsValid V c h (min_len c h)) hi lo b.keys b.children i l sep r valid.2
          home.inside done.0 done.1 done.2 done.3

    grown_entries : flat_map (entries h) grown_children ≡ insert key value (entries (suc h) b)
    grown_entries =
        flat_map-insert_at-set (entries h) b.children i l r (get_elem?-lt b.children i home.there)
        ∙ ap (λ es. before V c h lo hi b key i ++ es ++ after V c h lo hi b key i) done.4
        ∙ sym (insert_home V c h lo hi b key home value)

    grown_old : old ≡ lookup key (entries (suc h) b)
    grown_old = done.5 ∙ sym (lookup_home V c h lo hi b key home)

    room-Inserted :
        length b.keys < c.branch_cap
        → Ensures (insert_above c b i (split l sep r old)) InsertedAbove
    unfolding insert_above insert_into_branch_slot entries
    room-Inserted room = (
      no_split (record { keys = grown_keys; children = grown_children }) old,
      rw (
        lt→ltb (length b.keys) c.branch_cap room,
        fits-some c.branch_cap grown_keys (omega (arith, length-insert_at b.keys i sep)),
      ),
      (
        (
          omega (arith, length-insert_at b.keys i sep, valid.0),
          omega (arith, length-insert_at b.keys i sep),
          grown-Spans,
        ),
        grown_entries,
        grown_old,
      ),
    )

    full-Inserted :
        length b.keys ≡ c.branch_cap
        → Ensures (insert_above c b i (split l sep r old)) InsertedAbove
    unfolding insert_above entries
    full-Inserted full =
        let P = IsValid V c h (min_len c h) in
        let b' : Branch K (Node K V h) = record b { children = set b.children i l } in
        let two : 2 ≤ c.branch_cap = usable.branch in
        let len = length-insert_at b.keys i sep in
        let pm : ℕ = (length b.keys + 1) / 2 in
        let lens = length-set b.children i l ∙ Spans-length P hi lo b.keys b.children valid.2 in
        let (p, there, run) =
          branch_insert_and_split-IsCutAt c b' i sep r old home.inside lens (omega arith)
            (omega arith) in
        let least = min_branch_len-le c usable.branch in
        (
          split (record { keys = take pm grown_keys; children = take (suc pm) grown_children }) p
              (record { keys = drop (suc pm) grown_keys; children = drop (suc pm) grown_children })
              old,
          rw (le→ltb (length b.keys) c.branch_cap (omega arith)) run,
          (
            (
              omega (arith, length-take pm grown_keys),
              omega (arith, length-take pm grown_keys),
              Spans-take P hi lo grown_keys grown_children pm grown-Spans there,
            ),
            (
              omega (arith, length-drop (suc pm) grown_keys),
              omega (arith, length-drop (suc pm) grown_keys),
              Spans-drop P hi lo grown_keys grown_children pm grown-Spans there,
            ),
            separator-Beyond_lower P hi lo grown_keys grown_children pm grown-Spans there,
            separator-Under P hi lo grown_keys grown_children pm grown-Spans there,
            sym (
                  flat_map-append (entries h) (take (suc pm) grown_children)
                    (drop (suc pm) grown_children))
                ∙ ap (flat_map (entries h)) (take-append-drop (suc pm) grown_children)
                ∙ grown_entries,
            grown_old,
          ),
        )

    split-Inserted : Ensures (insert_above c b i (split l sep r old)) InsertedAbove
    split-Inserted = elim (Bool-cases (ltb (length b.keys) c.branch_cap)) [
      | inl room ↦ room-Inserted (ltb→lt (length b.keys) c.branch_cap room)
      | inr full ↦ full-Inserted (omega (tests, valid.1))
    ]

  -- With usable capacities, in a valid branch: when the result for the child where the key belongs
  -- is right, `insert_above` does not fail, and its result for the branch is right.
  pub insert_above-Inserted :
      (r : InsertResult K V (Node K V h))
      → InsertedHere r
      → Ensures (insert_above c b i r) InsertedAbove
  insert_above-Inserted (no_split n' old) done = set-Inserted n' old done
  insert_above-Inserted (split l sep r old) done = split-Inserted l sep r old done
