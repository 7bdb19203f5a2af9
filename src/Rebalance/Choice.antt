-- ===== src/Rebalance/Choice.antt =====
-- Which of its steps `rebalance_child` takes.
use bplus_tree.Base.{
  ℕ, suc, ◌-◌, ◌<◌, ◌≡◌, true, false, ◌&&◌, some, arith, ltb, lt→ltb, lt→leb, get_elem?,
}
use bplus_tree.Node.{Branch}
use bplus_tree.Siblings.{Siblings}
use bplus_tree.Rebalance.{
  Kind, can_lend, borrow_from_left, borrow_from_right, merge_pair, rebalance_child,
  remove_branch_entry,
}

module _ {ℓ κ} {K : Type ℓ} {A : Type κ} (kind : Kind K A) (b : Branch K A) where
  module _ (i len : ℕ) (st : Siblings) {n : A} (there : get_elem? b.children i ≡ some n)
      (small : kind.size n < kind.min_size) where
    pub takes_right :
        (ltb 0 i && can_lend kind b (i - 1)) ≡ false
        → i < len
        → can_lend kind b (suc i) ≡ true
        → rebalance_child kind b i len st ≡ borrow_from_right kind b i st
    unfolding rebalance_child
    takes_right no_left h can =
        rw (rebalance_child, there, lt→leb _ _ small, no_left, lt→ltb i len h, can)

  module _ (len : ℕ) (st : Siblings) {n : A} (there : get_elem? b.children 0 ≡ some n)
      (small : kind.size n < kind.min_size) where
    pub merges_right :
        0 < len
        → can_lend kind b 1 ≡ false
        → rebalance_child kind b 0 len st ≡ merge_pair kind b 0 st
    unfolding rebalance_child
    merges_right h can = rw (rebalance_child, there, lt→leb _ _ small, lt→ltb 0 len h, can)

  module _ (j len : ℕ) (st : Siblings) {n : A} (there : get_elem? b.children (suc j) ≡ some n)
      (small : kind.size n < kind.min_size) where
    back : suc j - 1 ≡ j
    back = omega arith

    pub no_left : can_lend kind b j ≡ false → (ltb 0 (suc j) && can_lend kind b (suc j - 1)) ≡ false
    no_left can = rw (lt→ltb 0 (suc j) (omega arith), back, can)

    pub takes_left :
        can_lend kind b j ≡ true
        → rebalance_child kind b (suc j) len st ≡ borrow_from_left kind b (suc j) st
    unfolding rebalance_child
    takes_left can =
        rw (rebalance_child, there, lt→leb _ _ small, lt→ltb 0 (suc j) (omega arith), back, can)

    pub merges_left :
        can_lend kind b j ≡ false
        → (ltb (suc j) len && can_lend kind b (suc (suc j))) ≡ false
        → rebalance_child kind b (suc j) len st ≡ merge_pair kind b j st
    unfolding rebalance_child
    merges_left can no_right = rw (
      rebalance_child,
      there,
      lt→leb _ _ small,
      no_left can,
      no_right,
      lt→ltb 0 (suc j) (omega arith),
      back,
      there,
      merge_pair,
      remove_branch_entry,
    )
