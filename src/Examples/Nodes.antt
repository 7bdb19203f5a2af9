-- ===== src/Examples/Nodes.antt =====
-- The theorems on nodes at concrete nodes.
use bplus_tree.Base.{
  ℕ, zero, suc, ◌+◌, ◌-◌, ◌/◌, ◌≡◌, refl, Option, none, some, List, [], ◌∷◌, arith, Ensures, length,
  take, drop, insert_at, set,
}
use bplus_tree.Order.{nat_ord}
use bplus_tree.Node.{Leaf, Branch, entries, min_leaf_len, min_branch_len}
use bplus_tree.Node.Valid.{IsValid}
use bplus_tree.Node.Child.{IsHome}
use bplus_tree.Insert.{Inserted, split_items, insert_rec}
use bplus_tree.Insert.LeafSplit.{split_items-take-drop}
use bplus_tree.Insert.BranchSplit.{IsCutAt, branch_insert_and_split-IsCutAt}
use bplus_tree.Insert.Recursion.{insert_rec-Inserted}
use bplus_tree.Rebalance.{rebalance_child}
use bplus_tree.Rebalance.Laws.{IsLawful}
use bplus_tree.Rebalance.Steps.{IsRebalanced}
use bplus_tree.Rebalance.Correct.{rebalance_child-IsRebalanced}
use bplus_tree.Delete.{leaf_kind, branch_kind, remove_rec}
use bplus_tree.Delete.LeafKind.{leaf_kind-IsLawful}
use bplus_tree.Delete.BranchKind.{branch_kind-IsLawful}
use bplus_tree.Delete.Recursion.{Removed, remove_rec-Removed}
use bplus_tree.Examples.Sample.{four, four-IsUsable, low, high, root, store, sample-IsValid}

root-IsValid : IsValid ℕ four 1 1 none none root
root-IsValid = sample-IsValid

low-IsValid : IsValid ℕ four 0 2 none (some 5) low
low-IsValid = sample-IsValid.2.0

insert_rec-Inserted_example :
    Ensures (insert_rec four 1 root 0 9 store) (λ r. Inserted four 1 1 none none root 0 9 r.0)
insert_rec-Inserted_example =
    insert_rec-Inserted four four-IsUsable 0 9 1 1 none none root store root-IsValid tt tt

remove_rec-Removed_example :
    Ensures (remove_rec four 1 root 6 store) (λ r. Removed four 1 1 none none root 6 r.0)
remove_rec-Removed_example =
    remove_rec-Removed four four-IsUsable 6 1 1 none none root store (omega arith) root-IsValid tt
      tt

leaf_kind-IsLawful_example :
    IsLawful {K = ℕ}
      (IsValid ℕ four 0 (min_leaf_len four))
      (IsValid ℕ four 0 (min_leaf_len four - 1))
      (λ leaf. entries 0 leaf)
      (leaf_kind four)
leaf_kind-IsLawful_example = leaf_kind-IsLawful ℕ four four-IsUsable

branch_kind-IsLawful_example :
    IsLawful {K = ℕ}
      (IsValid ℕ four 1 (min_branch_len four))
      (IsValid ℕ four 1 (min_branch_len four - 1))
      (entries 1)
      (branch_kind four)
branch_kind-IsLawful_example = branch_kind-IsLawful ℕ four four-IsUsable 0

abbrev short : Leaf ℕ ℕ
short = record { addr = 2; items = (6, 60) ∷ [] }

short-IsValid : IsValid ℕ four 0 1 (some 5) none short
unfolding nat_ord
short-IsValid = (omega arith, omega arith, (tt, tt), ((refl, tt), tt))

rebalance_child-IsRebalanced_example :
    Ensures
      (rebalance_child
        (leaf_kind four)
        (record { keys = root.keys; children = set root.children 1 short })
        1
        1
        store)
      (λ r.
        IsRebalanced
          (IsValid ℕ four 0 2)
          (λ leaf. entries 0 leaf)
          none
          none
          root.keys
          (set root.children 1 short)
          r.0)
rebalance_child-IsRebalanced_example =
    rebalance_child-IsRebalanced (IsValid ℕ four 0 2) (IsValid ℕ four 0 1) (λ leaf. entries 0 leaf)
      (leaf_kind four) (leaf_kind-IsLawful ℕ four four-IsUsable) none none root.keys root.children
      root-IsValid.2 store 1 short (omega arith) short-IsValid (omega arith)

split_items-take-drop_example :
    split_items four low.items 0 0 9
    ≡ some (
      take ((length low.items + 1) / 2) (insert_at low.items 0 (0, 9)),
      drop ((length low.items + 1) / 2) (insert_at low.items 0 (0, 9)),
    )
split_items-take-drop_example =
    split_items-take-drop four low.items 0 0 9 (omega arith) (omega arith) (omega arith)

abbrev wide : Branch ℕ ℕ
wide = record { keys = 10 ∷ 20 ∷ 30 ∷ 40 ∷ []; children = 1 ∷ 2 ∷ 3 ∷ 4 ∷ 5 ∷ [] }

branch_insert_and_split-IsCutAt_example :
    IsCutAt {V = ℕ} four wide 4 50 6 none (omega arith) refl (omega arith) 2
branch_insert_and_split-IsCutAt_example =
    branch_insert_and_split-IsCutAt {V = ℕ} four wide 4 50 6 none (omega arith) refl (omega arith)
      (omega arith)

high-IsHome : IsHome ℕ four 0 none none root 5 1 high
unfolding nat_ord entries bplus_tree.Base.flat_map
high-IsHome = record {
  inside = omega arith;
  there = refl;
  above = refl;
  below = tt;
  valid = root-IsValid.2.3;
  parts = refl;
  left = (refl, (refl, (refl, (refl, tt))));
  right = tt;
}
