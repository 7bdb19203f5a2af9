-- ===== src/Delete/LeafKind.antt =====
-- Leaves as children that are rebalanced: moving an item between neighbours, and merging them.
use bplus_tree.Base.{
  ℕ, zero, suc, ◌+◌, ◌-◌, ◌≤◌, ◌<◌, ◌≡◌, refl, ap, Option, none, some, List, [], ◌∷◌, ◌++◌, arith,
  Ensures, All-append, All-imp, length, length-append, length-take, length-drop, get_elem?,
  get_elem?-some, take, drop, take-append-drop, take-append_le, drop-append_last, take-append_suc,
  drop-append_suc,
}
use bplus_tree.Order.{Ord, Beyond, Under}
use bplus_tree.Order.Laws.{AtLeast-le, AtLeast-Beyond, Under-lt}
use bplus_tree.Entries.{IsAscending, Within}
use bplus_tree.Entries.Cut.{append-IsAscending, take-drop-IsCut}
use bplus_tree.Node.{Caps, IsUsable, Leaf, entries, fits-some, min_leaf_len}
use bplus_tree.Node.Valid.{IsValid}
use bplus_tree.Rebalance.Laws.{IsLent, IsMerged, IsLawful}
use bplus_tree.Delete.{leaf_kind, borrow_from_left_leaf, borrow_from_right_leaf, merge_leaf_into}

module _ {ℓ κ} {K : Type ℓ} (V : Type κ) ⦃o : Ord K⦄ (c : Caps) (usable : IsUsable c) where
  abbrev IsFull : Option K → Option K → Leaf K V → Type 0
  IsFull = IsValid V c zero (min_leaf_len c)

  abbrev IsShort : Option K → Option K → Leaf K V → Type 0
  IsShort = IsValid V c zero (min_leaf_len c - 1)

  module _ (lo hi : Option K) (l : Leaf K V) (s : K) (r : Leaf K V) (left : IsShort lo (some s) l)
      (right : IsShort (some s) hi r) (beyond : Beyond lo s) (under : Under hi s) where
    abbrev both : List (K × V)
    both = l.items ++ r.items

    pub both-IsAscending : IsAscending both
    both-IsAscending =
        append-IsAscending s l.items r.items left.2 (All-imp (λ e h. h.1) l.items left.3) right.2
          (All-imp (λ e h. h.0) r.items right.3)

    pub both-Within : Within lo hi both
    both-Within =
        All-append _ l.items r.items
          (All-imp (λ e h. (h.0, Under-lt hi e.0 s h.1 under)) l.items left.3)
          (All-imp (λ e h. (AtLeast-le lo s e.0 (AtLeast-Beyond lo s beyond) h.0, h.1)) r.items
            right.3)

    -- The two leaves after all their items are cut anew.
    cut-IsLent :
        (m : ℕ)
        → min_leaf_len c ≤ m
        → 1 ≤ m
        → m ≤ c.leaf_cap
        → m + min_leaf_len c ≤ length both
        → length both ≤ m + c.leaf_cap
        → m < length both
        → (y : K × V) × (get_elem? (drop m both) 0 ≡ some y)
          × IsLent IsFull IsShort
              (λ leaf. entries zero leaf)
              lo
              hi
              l
              r
              (record l { items = take m both }, y.0, record r { items = drop m both })
    unfolding entries
    cut-IsLent m a b d e f g =
        let (y, there, cut) = take-drop-IsCut lo hi m both b g both-IsAscending both-Within in
        (
          y,
          there,
          record {
            left = (
              omega (arith, length-take m both),
              omega (arith, length-take m both),
              cut.left,
              cut.below,
            );
            right = (
              omega (arith, length-drop m both),
              omega (arith, length-drop m both),
              cut.right,
              cut.above,
            );
            beyond = cut.beyond;
            under = cut.under;
            same = take-append-drop m both;
          },
        )

    merge-IsMerged :
        min_leaf_len c ≤ length l.items + length r.items
        → length l.items + length r.items < min_leaf_len c + min_leaf_len c
        → Ensures
            (merge_leaf_into c l r)
            (IsMerged IsFull IsShort (λ leaf. entries zero leaf) lo hi l r)
    unfolding merge_leaf_into entries
    merge-IsMerged a b =
        let len = length-append l.items r.items in
        (
          record l { items = both },
          rw (fits-some c.leaf_cap both (omega arith)),
          record { whole = (omega arith, omega arith, both-IsAscending, both-Within); same = refl },
        )

    lend_to_right-IsLent :
        min_leaf_len c < length l.items
        → length r.items < min_leaf_len c
        → Ensures
            (borrow_from_left_leaf c l s r)
            (IsLent IsFull IsShort (λ leaf. entries zero leaf) lo hi l r)
    unfolding borrow_from_left_leaf
    lend_to_right-IsLent big small =
        let m = length l.items - 1 in
        let two : 2 ≤ c.leaf_cap = usable.leaf in
        let len = length-append l.items r.items in
        let (item, there) = get_elem?-some l.items m (omega arith) in
        let kept = take-append_le m l.items r.items (omega arith) in
        let moved = drop-append_last m l.items r.items there (omega arith) in
        let (y, first, lent) =
          cut-IsLent m (omega arith) (omega arith) (omega (arith, left.1)) (omega (arith, right.0))
            (omega (arith, right.1)) (omega arith) in
        let e : some item ≡ some y = rw moved at first in
        (
          (record l { items = take m both }, y.0, record r { items = drop m both }),
          rw (there, fits-some c.leaf_cap (item ∷ r.items) (omega arith), kept, moved)
              (ap
                (λ z. elim z [
                  | none ↦ none
                  | some x ↦ some (
                    record l { items = take m l.items },
                    x.0,
                    record r { items = item ∷ r.items },
                  )
                ])
                e),
          lent,
        )

    lend_to_left-IsLent :
        min_leaf_len c < length r.items
        → length l.items < min_leaf_len c
        → Ensures
            (borrow_from_right_leaf c l s r)
            (IsLent IsFull IsShort (λ leaf. entries zero leaf) lo hi l r)
    unfolding borrow_from_right_leaf
    lend_to_left-IsLent big small =
        let m = suc (length l.items) in
        let two : 2 ≤ c.leaf_cap = usable.leaf in
        let len = length-append l.items r.items in
        let (item, there) = get_elem?-some r.items 0 (omega arith) in
        let kept = take-append_suc l.items r.items there in
        let moved = drop-append_suc l.items r.items in
        let (y, first, lent) =
          cut-IsLent m (omega (arith, left.0)) (omega arith) (omega arith) (omega arith)
            (omega (arith, right.1)) (omega arith) in
        (
          (record l { items = take m both }, y.0, record r { items = drop m both }),
          rw (
            there,
            fits-some c.leaf_cap (l.items ++ item ∷ [])
                (omega (arith, length-append l.items (item ∷ []))),
            kept,
            moved,
            rw moved at first,
          ),
          lent,
        )

  -- With usable capacities the operations on two neighbouring leaves mend a leaf that lacks an
  -- item: borrowing, when the neighbour has more than the minimum, and merging, when the two have
  -- less than twice the minimum, succeed, keep the items in order, and make valid leaves.
  pub leaf_kind-IsLawful : IsLawful IsFull IsShort (λ leaf. entries zero leaf) (leaf_kind c)
  unfolding leaf_kind
  leaf_kind-IsLawful = record {
    weaken = λ lo hi n v. (omega (arith, v.0), v.1, v.2, v.3);
    enough = λ lo hi n v e. (e, v.1, v.2, v.3);
    least = λ lo hi n v. v.0;
    lend_to_right_lem = lend_to_right-IsLent;
    lend_to_left_lem = lend_to_left-IsLent;
    merge_lem = merge-IsMerged;
  }
