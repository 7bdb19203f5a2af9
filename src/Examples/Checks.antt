-- ===== src/Examples/Checks.antt =====
-- The invariant checker on the sample map.
use bplus_tree.Base.{◌≡◌, refl, true}
use bplus_tree.Order.{nat_ord}
use bplus_tree.Check.{
  check_invariants, check_invariants_detailed, validate_node, validate_leaf, validate_items,
  validate_children,
}
use bplus_tree.Check.Nodes.{IsCheckedRoot, check_invariants-IsCheckedRoot}
use bplus_tree.Examples.Sample.{sample}

sample_passes : check_invariants sample ≡ true
unfolding check_invariants check_invariants_detailed validate_node validate_leaf validate_items
    validate_children nat_ord
sample_passes = refl

check_invariants-IsCheckedRoot_example : IsCheckedRoot sample.caps sample.root
check_invariants-IsCheckedRoot_example = check_invariants-IsCheckedRoot sample sample_passes
