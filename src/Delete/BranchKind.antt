-- ===== src/Delete/BranchKind.antt =====
-- Branches as children that are rebalanced: moving a child between neighbours, and merging them.
use bplus_tree.Base.{
  ℕ, suc, ◌+◌, ◌-◌, ◌≤◌, ◌<◌, ◌≡◌, refl, sym, ap, ◌∙◌, Option, some, List, [], ◌∷◌, ◌++◌, arith,
  Ensures, length, length-append, length-take, length-drop, get_elem?, get_elem?-some, take, drop,
  take-append-drop, take-append_le, drop-append_last, take-append_suc, drop-append_suc,
  get_elem?-append_lt, get_elem?-append_suc, drop-append_all, drop-append_two, flat_map,
  flat_map-append,
}
use bplus_tree.Order.{Ord, Beyond, Under}
use bplus_tree.Node.{
  Caps, IsUsable, Node, entries, fits-some, min_len, min_branch_len, min_branch_len_double,
}
use bplus_tree.Node.Spans.{Spans, Spans-length}
use bplus_tree.Node.Spans.Cuts.{Spans-take, Spans-drop, separator-Beyond_lower, separator-Under}
use bplus_tree.Node.Spans.Merges.{Spans-append}
use bplus_tree.Node.Valid.{IsValid}
use bplus_tree.Rebalance.Laws.{IsLent, IsMerged, IsLawful}
use bplus_tree.Delete.{
  branch_kind, borrow_from_left_branch, borrow_from_right_branch, merge_branches,
}

module _ {ℓ κ} {K : Type ℓ} (V : Type κ) ⦃o : Ord K⦄ (c : Caps) (usable : IsUsable c) (h : ℕ) where
  abbrev IsFull : Option K → Option K → Node K V (suc h) → Type 0
  IsFull = IsValid V c (suc h) (min_branch_len c)

  abbrev IsShort : Option K → Option K → Node K V (suc h) → Type 0
  IsShort = IsValid V c (suc h) (min_branch_len c - 1)

  abbrev IsChild : Option K → Option K → Node K V h → Type 0
  IsChild = IsValid V c h (min_len c h)

  module _ (lo hi : Option K) (l : Node K V (suc h)) (s : K) (r : Node K V (suc h))
      (left : IsShort lo (some s) l) (right : IsShort (some s) hi r) (beyond : Beyond lo s)
      (under : Under hi s) where
    abbrev both_keys : List K
    both_keys = l.keys ++ s ∷ r.keys

    abbrev both_children : List (Node K V h)
    both_children = l.children ++ r.children

    both-Spans : Spans IsChild lo hi both_keys both_children
    both-Spans =
        Spans-append IsChild hi lo l.keys l.children s r.keys r.children left.2 beyond under right.2

    len : length both_keys ≡ suc (length l.keys + length r.keys)
    len = omega (arith, length-append l.keys (s ∷ r.keys))

    -- The two branches after all their keys and children are cut anew, at key `m`.
    cut-IsLent :
        (m : ℕ) {p : K}
        → get_elem? both_keys m ≡ some p
        → min_branch_len c ≤ m
        → m ≤ c.branch_cap
        → m + min_branch_len c ≤ length l.keys + length r.keys
        → length l.keys + length r.keys ≤ m + c.branch_cap
        → IsLent IsFull IsShort (entries (suc h)) lo hi l r (
          record { keys = take m both_keys; children = take (suc m) both_children },
          p,
          record { keys = drop (suc m) both_keys; children = drop (suc m) both_children },
        )
    unfolding entries
    cut-IsLent m e a b d f = record {
      left = (
        omega (arith, len, length-take m both_keys),
        omega (arith, len, length-take m both_keys),
        Spans-take IsChild hi lo both_keys both_children m both-Spans e,
      );
      right = (
        omega (arith, len, length-drop (suc m) both_keys),
        omega (arith, len, length-drop (suc m) both_keys),
        Spans-drop IsChild hi lo both_keys both_children m both-Spans e,
      );
      beyond = separator-Beyond_lower IsChild hi lo both_keys both_children m both-Spans e;
      under = separator-Under IsChild hi lo both_keys both_children m both-Spans e;
      same =
          sym
            (flat_map-append (entries h) (take (suc m) both_children) (drop (suc m) both_children))
          ∙ ap (flat_map (entries h)) (take-append-drop (suc m) both_children)
          ∙ flat_map-append (entries h) l.children r.children;
    }

    merge-IsMerged :
        min_branch_len c ≤ length l.keys + length r.keys
        → length l.keys + length r.keys < min_branch_len c + min_branch_len c
        → Ensures (merge_branches c l s r) (IsMerged IsFull IsShort (entries (suc h)) lo hi l r)
    unfolding merge_branches entries
    merge-IsMerged a b =
        let room = min_branch_len_double c usable.branch in
        (
          record { keys = both_keys; children = both_children },
          rw (fits-some c.branch_cap both_keys (omega (arith, len))),
          record {
            whole = (omega (arith, len), omega (arith, len), both-Spans);
            same = flat_map-append (entries h) l.children r.children;
          },
        )

    lend_to_right-IsLent :
        min_branch_len c < length l.keys
        → length r.keys < min_branch_len c
        → Ensures
            (borrow_from_left_branch c l s r)
            (IsLent IsFull IsShort (entries (suc h)) lo hi l r)
    unfolding borrow_from_left_branch
    lend_to_right-IsLent big small =
        let m : ℕ = length l.keys - 1 in
        let e : length l.keys ≡ suc m = omega arith in
        let n = Spans-length IsChild (some s) lo l.keys l.children left.2 in
        let room = min_branch_len_double c usable.branch in
        let (p, there) = get_elem?-some l.keys m (omega arith) in
        let (ch, last) = get_elem?-some l.children (length l.keys) (omega arith) in
        let lent =
          cut-IsLent m (get_elem?-append_lt m l.keys (s ∷ r.keys) (omega arith) ∙ there)
            (omega arith) (omega (arith, left.1)) (omega (arith, right.0))
            (omega (arith, left.1, right.1)) in
        (
          (
            record { keys = take m both_keys; children = take (suc m) both_children },
            p,
            record { keys = drop (suc m) both_keys; children = drop (suc m) both_children },
          ),
          rw (
            there,
            last,
            fits-some c.branch_cap (s ∷ r.keys) (omega arith),
            take-append_le m l.keys (s ∷ r.keys) (omega arith),
            sym e,
            drop-append_all l.keys (s ∷ r.keys),
            take-append_le (length l.keys) l.children r.children (omega arith),
            drop-append_last (length l.keys) l.children r.children last n,
          ),
          lent,
        )

    lend_to_left-IsLent :
        min_branch_len c < length r.keys
        → length l.keys < min_branch_len c
        → Ensures
            (borrow_from_right_branch c l s r)
            (IsLent IsFull IsShort (entries (suc h)) lo hi l r)
    unfolding borrow_from_right_branch
    lend_to_left-IsLent big small =
        let m : ℕ = suc (length l.keys) in
        let n = Spans-length IsChild (some s) lo l.keys l.children left.2 in
        let n' = Spans-length IsChild hi (some s) r.keys r.children right.2 in
        let room = min_branch_len_double c usable.branch in
        let (p, there) = get_elem?-some r.keys 0 (omega arith) in
        let (ch, first) = get_elem?-some r.children 0 (omega arith) in
        let lent =
          cut-IsLent m (get_elem?-append_suc l.keys s r.keys ∙ there) (omega (arith, left.0))
            (omega arith) (omega arith) (omega (arith, right.1)) in
        (
          (
            record { keys = take m both_keys; children = take (suc m) both_children },
            p,
            record { keys = drop (suc m) both_keys; children = drop (suc m) both_children },
          ),
          rw (
            there,
            first,
            fits-some c.branch_cap (l.keys ++ s ∷ [])
                (omega (arith, length-append l.keys (s ∷ []))),
            take-append_suc l.keys (s ∷ r.keys) refl,
            drop-append_two l.keys s r.keys,
            sym n,
            take-append_suc l.children r.children first,
            drop-append_suc l.children r.children,
          ),
          lent,
        )

  -- With usable capacities the operations on two neighbouring branches mend a branch that lacks a
  -- key: borrowing, when the neighbour has more than the minimum, and merging, when the two have
  -- less than twice the minimum, succeed, keep the entries in order, and make valid branches.
  pub branch_kind-IsLawful : IsLawful IsFull IsShort (entries (suc h)) (branch_kind c)
  unfolding branch_kind
  branch_kind-IsLawful = record {
    weaken = λ lo hi n v. (omega (arith, v.0), v.1, v.2);
    enough = λ lo hi n v e. (e, v.1, v.2);
    least = λ lo hi n v. v.0;
    lend_to_right_lem = lend_to_right-IsLent;
    lend_to_left_lem = lend_to_left-IsLent;
    merge_lem = merge-IsMerged;
  }
