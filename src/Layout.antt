-- ===== src/Layout.antt =====
-- layout.rs: where the header, the sibling pointers and the arrays of a node lie in its block, and
-- lib.rs, `with_budgets`. The sizes and alignments of the types are the compiler's.
pub mod Masks
pub mod Align
pub mod Room
pub mod Placed
pub mod Best
use Prim.Native.Nat.{min, max, bit_and}
use bplus_tree.Base.{
  ℕ, zero, suc, ◌+◌, ◌-◌, ◌*◌, ◌/◌, ◌%◌, ◌^◌, Bool, true, false, Option, none, some, leb, ◌==◌,
  if◌then◌else◌,
}

-- `align_of` and `size_of` of a pointer, of `NodeHdr`, of the keys and of the values.
pub record Sizes : Type 0 where
  pub a_ptr : ℕ
  pub s_ptr : ℕ
  pub a_hdr : ℕ
  pub s_hdr : ℕ
  pub a_k : ℕ
  pub s_k : ℕ
  pub a_v : ℕ
  pub s_v : ℕ
  -- The width of `usize`: sums and products of offsets wrap at it.
  pub usize_bits : ℕ

-- `align_up` on a `usize` of `w` bits: the sum wraps, and the mask is `!(a - 1)`.
unfoldable pub align_up : (w x a : ℕ) → ℕ
align_up w x a = bit_and ((x + (a - 1)) % 2 ^ w) (2 ^ w - 1 - (a - 1))

pub record LeafLayout : Type 0 where
  pub bytes : ℕ
  pub cap : ℕ
  pub max_align : ℕ
  pub hdr_size : ℕ
  pub next_off : ℕ
  pub prev_off : Option ℕ
  pub keys_off : ℕ
  pub vals_off : ℕ

pub record BranchLayout : Type 0 where
  pub bytes : ℕ
  pub cap : ℕ
  pub max_align : ℕ
  pub hdr_size : ℕ
  pub children_off : ℕ
  pub keys_off : ℕ

-- Two arrays behind `start`, `n1` elements and then `n2`, the second aligned: their offsets, and
-- the end.
unfoldable pub two_arrays : (w start a1 s1 n1 a2 s2 n2 : ℕ) → ℕ × ℕ × ℕ
two_arrays w start a1 s1 n1 a2 s2 n2 =
    let first_off = align_up w start a1 in
    let second_off = align_up w ((first_off + n1 * s1 % 2 ^ w) % 2 ^ w) a2 in
    (first_off, second_off, (second_off + n2 * s2 % 2 ^ w) % 2 ^ w)

abbrev pub swap_first : ℕ × ℕ × ℕ → ℕ × ℕ × ℕ
swap_first x = (x.1, x.0, x.2)

module _ (t : Sizes) where
  abbrev pub leaf_align : ℕ
  leaf_align = max (max (max t.a_ptr t.a_k) t.a_v) t.a_hdr

  abbrev pub branch_align : ℕ
  branch_align = max (max t.a_ptr t.a_k) t.a_hdr

  abbrev pub leaf_hdr_size : ℕ
  leaf_hdr_size = align_up t.usize_bits t.s_hdr leaf_align

  abbrev pub branch_hdr_size : ℕ
  branch_hdr_size = align_up t.usize_bits t.s_hdr branch_align

  abbrev pub sib_off : ℕ
  sib_off = align_up t.usize_bits leaf_hdr_size t.a_ptr

  abbrev pub sib_bytes : Bool → ℕ
  sib_bytes doubly_linked = if doubly_linked then 2 * t.s_ptr % 2 ^ t.usize_bits else t.s_ptr

  abbrev pub after_sib : Bool → ℕ
  after_sib doubly_linked = (sib_off + sib_bytes doubly_linked) % 2 ^ t.usize_bits

  -- The offsets of the keys and of the values for `cap` pairs, and the end of both: the array
  -- with the larger alignment comes first.
  unfoldable pub leaf_arrays : Bool → ℕ → ℕ × ℕ × ℕ
  unfolding two_arrays
  leaf_arrays doubly_linked cap =
      if leb t.a_v t.a_k
      then two_arrays t.usize_bits (after_sib doubly_linked) t.a_k t.s_k cap t.a_v t.s_v cap
      else swap_first
          (two_arrays t.usize_bits (after_sib doubly_linked) t.a_v t.s_v cap t.a_k t.s_k cap)

  unfoldable pub leaf_end : Bool → ℕ → ℕ
  unfolding leaf_arrays
  leaf_end doubly_linked cap = align_up t.usize_bits (leaf_arrays doubly_linked cap).2 leaf_align

  abbrev pub leaf_at : Bool → ℕ → ℕ → ℕ → ℕ → LeafLayout
  leaf_at doubly_linked bytes cap keys_off vals_off = record {
    bytes = bytes;
    cap = cap;
    max_align = leaf_align;
    hdr_size = leaf_hdr_size;
    next_off = sib_off;
    prev_off = if doubly_linked then some ((sib_off + t.s_ptr) % 2 ^ t.usize_bits) else none;
    keys_off = keys_off;
    vals_off = vals_off;
  }

  -- `LeafLayout::compute`, its loop: the first capacity that fits, from `cap_guess` down.
  unfoldable pub leaf_search_cap : ℕ → Bool → ℕ → LeafLayout
  unfolding leaf_arrays leaf_end
  leaf_search_cap bytes doubly_linked zero =
      leaf_at doubly_linked bytes 0 (after_sib doubly_linked) (after_sib doubly_linked)
  leaf_search_cap bytes doubly_linked (suc n) =
      let smaller = leaf_search_cap bytes doubly_linked n in
      if leb (leaf_end doubly_linked (suc n)) bytes
      then leaf_at doubly_linked bytes (suc n % 2 ^ 16) (leaf_arrays doubly_linked (suc n)).0
          (leaf_arrays doubly_linked (suc n)).1
      else smaller

  -- `LeafLayout::compute`. The division panics for keys and values without a size.
  unfoldable pub leaf_compute : ℕ → Bool → Option LeafLayout
  unfolding leaf_search_cap
  leaf_compute bytes doubly_linked =
      if t.s_k + t.s_v == 0
      then none
      else some (
          leaf_search_cap bytes doubly_linked
            (min ((bytes - after_sib doubly_linked) / (t.s_k + t.s_v)) 65535))

  -- `LeafLayout::compute_for_cap`
  unfoldable pub leaf_compute_for_cap : ℕ → Bool → LeafLayout
  unfolding leaf_arrays leaf_end
  leaf_compute_for_cap cap doubly_linked =
      leaf_at doubly_linked (leaf_end doubly_linked cap) cap (leaf_arrays doubly_linked cap).0
        (leaf_arrays doubly_linked cap).1

  -- The offsets of the `cap + 1` children and of the `cap` keys of a branch, and the end of both.
  unfoldable pub branch_arrays : ℕ → ℕ × ℕ × ℕ
  unfolding two_arrays
  branch_arrays cap =
      if leb t.a_k t.a_ptr
      then two_arrays t.usize_bits branch_hdr_size t.a_ptr t.s_ptr (cap + 1) t.a_k t.s_k cap
      else swap_first
          (two_arrays t.usize_bits branch_hdr_size t.a_k t.s_k cap t.a_ptr t.s_ptr (cap + 1))

  unfoldable pub branch_end : ℕ → ℕ
  unfolding branch_arrays
  branch_end cap = align_up t.usize_bits (branch_arrays cap).2 branch_align

  abbrev pub branch_at : ℕ → ℕ → ℕ → ℕ → BranchLayout
  branch_at bytes cap children_off keys_off = record {
    bytes = bytes;
    cap = cap;
    max_align = branch_align;
    hdr_size = branch_hdr_size;
    children_off = children_off;
    keys_off = keys_off;
  }

  unfoldable pub branch_search_cap : ℕ → ℕ → BranchLayout
  unfolding branch_arrays branch_end
  branch_search_cap bytes zero = branch_at bytes 0 branch_hdr_size branch_hdr_size
  branch_search_cap bytes (suc n) =
      let smaller = branch_search_cap bytes n in
      if leb (branch_end (suc n)) bytes
      then branch_at bytes (suc n % 2 ^ 16) (branch_arrays (suc n)).0 (branch_arrays (suc n)).1
      else smaller

  -- `BranchLayout::compute`
  unfoldable pub branch_compute : ℕ → BranchLayout
  unfolding branch_search_cap
  branch_compute bytes = branch_search_cap bytes (
      if t.s_k + t.s_ptr == 0 then 0 else min ((bytes - branch_hdr_size) / (t.s_k + t.s_ptr)) 65535)

  -- `BranchLayout::compute_for_cap`
  unfoldable pub branch_compute_for_cap : ℕ → BranchLayout
  unfolding branch_arrays branch_end
  branch_compute_for_cap cap =
      branch_at (branch_end cap) cap (branch_arrays cap).0 (branch_arrays cap).1
