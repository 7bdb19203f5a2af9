-- ===== src/Examples/Blocks.antt =====
-- The theorems on layouts for keys and values of 8 bytes, as `u64`.
use Prim.Native.Nat.{min}
use bplus_tree.Base.{ltb, ◌*◌, ℕ, ◌-◌, ◌/◌, ◌≤◌, ◌≡◌, refl, true, [], arith, Ensures}
use bplus_tree.Order.{nat_ord}
use bplus_tree.Layout.{
  Sizes, align_up, after_sib, leaf_end, branch_hdr_size, branch_end, leaf_compute,
  leaf_compute_for_cap, branch_compute, branch_compute_for_cap, leaf_search_cap, leaf_arrays,
  two_arrays,
}
use bplus_tree.Layout.Placed.{IsBranchPlaced, branch_compute_for_cap-IsPlaced}
use bplus_tree.Layout.Room.{IsSizes}
use bplus_tree.Layout.Best.{
  IsBestLeaf, IsBestBranch, leaf_compute-IsBestLeaf, branch_compute-IsBestBranch,
}
use bplus_tree.Map.{with_budgets}
use bplus_tree.Map.Valid.{contents}
use bplus_tree.Map.Creation.{IsBestCap, with_budgets_lem}

abbrev words : Sizes
words = record {
  a_ptr = 8;
  s_ptr = 8;
  a_hdr = 2;
  s_hdr = 6;
  a_k = 8;
  s_k = 8;
  a_v = 8;
  s_v = 8;
  usize_bits = 64;
}

words-IsSizes : IsSizes words
words-IsSizes = record {
  ptr = record { exponent = 3; gap = 61; width = refl; power = refl };
  hdr = record { exponent = 1; gap = 63; width = refl; power = refl };
  key = record { exponent = 3; gap = 61; width = refl; power = refl };
  val = record { exponent = 3; gap = 61; width = refl; power = refl };
}

-- Four cache lines hold 14 pairs behind the header and the two pointers.
leaf_256 :
    Ensures
      (leaf_compute words 256 true)
      (λ l. (l.cap ≡ 14) × (l.keys_off ≡ 24) × (l.vals_off ≡ 136))
unfolding leaf_compute leaf_search_cap leaf_arrays leaf_end two_arrays align_up
leaf_256 = (_, refl, (refl, refl, refl))

leaf_compute-IsBestLeaf_example : Ensures (leaf_compute words 256 true) (λ l.
    (l.cap ≤ 65535)
    × IsBestLeaf words words-IsSizes true 256 (min ((256 - after_sib words true) / 16) 65535) l)
leaf_compute-IsBestLeaf_example =
    leaf_compute-IsBestLeaf words words-IsSizes 256 true (omega arith) (omega arith)

branch_compute-IsBestBranch_example :
    ((branch_compute words 256).cap ≤ 65535)
    × IsBestBranch words words-IsSizes 256
        (min ((256 - branch_hdr_size words) / 16) 65535)
        (branch_compute words 256)
branch_compute-IsBestBranch_example =
    branch_compute-IsBestBranch words words-IsSizes 256 (omega arith) (omega arith)

branch_compute_for_cap-IsPlaced_example : IsBranchPlaced words (branch_compute_for_cap words 16)
branch_compute_for_cap-IsPlaced_example =
    branch_compute_for_cap-IsPlaced words words-IsSizes 16 (omega arith)

with_budgets_lem_example : Ensures (with_budgets {K = ℕ} {V = ℕ} words 256 512) (λ m.
    (contents m ≡ [])
    × IsBestCap
        (leaf_end words true)
        256
        (min ((256 - after_sib words true) / 16) 65535)
        m.caps.leaf_cap
    × IsBestCap
        (branch_end words)
        512
        (min ((512 - branch_hdr_size words) / 16) 65535)
        m.caps.branch_cap)
with_budgets_lem_example =
    with_budgets_lem ℕ ℕ words words-IsSizes (omega arith) (omega arith) 256 512 (omega arith)
      (omega arith)

-- Keys of 70,000 bytes where `usize` has 32 bits: the offsets of 65,535 of them wrap.
abbrev wide : Sizes
wide = record words { s_k = 70000; usize_bits = 32 }

wide_wraps : ltb (leaf_compute_for_cap wide 65535 true).bytes (65535 * 70000) ≡ true
unfolding leaf_compute_for_cap leaf_end leaf_arrays two_arrays align_up
wide_wraps = refl
