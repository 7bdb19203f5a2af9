-- ===== src/Layout/Room.antt =====
-- What a layout takes before its arrays, where no sum wraps.
use native.Mathlib.Nat.{mod-eq_of_lt}
use Prim.Native.Nat.{max}
use bplus_tree.Base.{
  ℕ, ◌+◌, ◌*◌, ◌^◌, ◌≤◌, ◌<◌, ◌%◌, ◌≡◌, refl, true, false, if◌then◌else◌, Bool, arith,
}
use bplus_tree.Layout.{
  Sizes, leaf_align, branch_align, after_sib, sib_off, sib_bytes, leaf_hdr_size, branch_hdr_size,
}
use bplus_tree.Layout.Align.{IsPower, IsPower-pos, max-IsPower, align_up_ge, align_up_lt}

-- Alignments are powers of two that fit `usize`.
pub record IsSizes (t : Sizes) : Type 0 where
  pub ptr : IsPower t.usize_bits t.a_ptr
  pub hdr : IsPower t.usize_bits t.a_hdr
  pub key : IsPower t.usize_bits t.a_k
  pub val : IsPower t.usize_bits t.a_v

module _ (t : Sizes) where
  -- Enough for the header, the pointers, the arrays of `cap` elements and what alignment adds: when
  -- it fits `usize`, no sum or product of the layout wraps.
  abbrev pub leaf_room : ℕ → ℕ
  leaf_room cap = t.s_hdr + 2 * t.s_ptr + 6 * leaf_align t + (cap * t.s_k + cap * t.s_v)

  abbrev pub branch_room : ℕ → ℕ
  branch_room cap = t.s_hdr + 6 * branch_align t + ((cap + 1) * t.s_ptr + cap * t.s_k)

  -- The bytes of the sibling pointers.
  abbrev pub pointers : Bool → ℕ
  pointers d = if d then 2 * t.s_ptr else t.s_ptr

  sib_bytes-pointers :
      (d : Bool) → 2 * t.s_ptr % 2 ^ t.usize_bits ≡ 2 * t.s_ptr → sib_bytes t d ≡ pointers d
  sib_bytes-pointers true e = e
  sib_bytes-pointers false e = refl

  pointers_le : (d : Bool) → pointers d ≤ 2 * t.s_ptr
  pointers_le true = omega arith
  pointers_le false = omega arith

module _ (t : Sizes) (sizes : IsSizes t) where
  pub leaf_align-IsPower : IsPower t.usize_bits (leaf_align t)
  leaf_align-IsPower =
      max-IsPower t.usize_bits (max (max t.a_ptr t.a_k) t.a_v) t.a_hdr
        (max-IsPower t.usize_bits (max t.a_ptr t.a_k) t.a_v
          (max-IsPower t.usize_bits t.a_ptr t.a_k sizes.ptr sizes.key) sizes.val)
        sizes.hdr

  pub branch_align-IsPower : IsPower t.usize_bits (branch_align t)
  branch_align-IsPower =
      max-IsPower t.usize_bits (max t.a_ptr t.a_k) t.a_hdr
        (max-IsPower t.usize_bits t.a_ptr t.a_k sizes.ptr sizes.key) sizes.hdr

  -- The pointers lie behind the header, and end where the arrays may start.
  pub after_sib-exact :
      (d : Bool)
      → t.s_hdr + 2 * t.s_ptr + 2 * leaf_align t ≤ 2 ^ t.usize_bits
      → (t.s_hdr ≤ sib_off t)
        × (after_sib t d ≡ sib_off t + pointers t d)
        × (after_sib t d ≤ t.s_hdr + 2 * t.s_ptr + 2 * leaf_align t)
  after_sib-exact d room =
      let w = t.usize_bits in
      let hdr_lt = align_up_lt w t.s_hdr (leaf_align t) leaf_align-IsPower (omega arith) in
      let hdr_ge = align_up_ge w t.s_hdr (leaf_align t) leaf_align-IsPower (omega arith) in
      let off_lt = align_up_lt w (leaf_hdr_size t) t.a_ptr sizes.ptr (omega (arith, hdr_lt)) in
      let off_ge = align_up_ge w (leaf_hdr_size t) t.a_ptr sizes.ptr (omega (arith, hdr_lt)) in
      let two : 2 * t.s_ptr % 2 ^ w ≡ 2 * t.s_ptr =
        mod-eq_of_lt (omega (arith, IsPower-pos t.usize_bits (leaf_align t) leaf_align-IsPower)) in
      let bytes : sib_bytes t d ≡ pointers t d = sib_bytes-pointers t d two in
      let least : pointers t d ≤ 2 * t.s_ptr = pointers_le t d in
      let end : after_sib t d ≡ sib_off t + sib_bytes t d =
        mod-eq_of_lt (omega (arith, off_lt, hdr_lt, bytes, least)) in
      (
        omega (arith, hdr_ge, off_ge),
        omega (arith, end, bytes),
        omega (arith, end, bytes, least, off_lt, hdr_lt),
      )

  -- The start of the arrays, where the header and the pointers do not wrap.
  pub after_sib_le :
      (d : Bool)
      → t.s_hdr + 2 * t.s_ptr + 2 * leaf_align t ≤ 2 ^ t.usize_bits
      → after_sib t d ≤ t.s_hdr + 2 * t.s_ptr + 2 * leaf_align t
  after_sib_le d room = omega (arith, (after_sib-exact d room).1, (after_sib-exact d room).2)

  pub branch_hdr_size_lt :
      t.s_hdr + branch_align t ≤ 2 ^ t.usize_bits → branch_hdr_size t < t.s_hdr + branch_align t
  branch_hdr_size_lt room =
      align_up_lt t.usize_bits t.s_hdr (branch_align t) branch_align-IsPower room
