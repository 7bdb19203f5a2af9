-- ===== src/Layout/Align.antt =====
-- `align_up` rounds up to a multiple of the alignment, where the sums do not wrap.
use Prim.Native.Nat.{max}
use native.Mathlib.Nat.{one-le-pow, div-mul-le_self, div-add-mod', mod-lt, mod-eq_of_lt}
use bplus_tree.Base.{
  leb, leb→le, leb→lt, Bool-cases, inl, inr, ℕ, ◌+◌, ◌-◌, ◌*◌, ◌/◌, ◌%◌, ◌^◌, ◌≤◌, ◌<◌, ◌≡◌, refl,
  arith,
}
use bplus_tree.Layout.{align_up, two_arrays}
use bplus_tree.Layout.Masks.{bit_and-clear}

-- A multiple of the alignment.
pub record IsAligned (x a : ℕ) : Type 0 where
  pub quotient : ℕ
  pub multiple : x ≡ quotient * a

-- A power of two that fits `w` bits.
pub record IsPower (w a : ℕ) : Type 0 where
  pub exponent : ℕ
  pub gap : ℕ
  pub width : w ≡ exponent + gap
  pub power : a ≡ 2 ^ exponent

pub IsPower-pos : (w a : ℕ) → IsPower w a → 1 ≤ a
IsPower-pos w a p = omega (arith, p.power, one-le-pow p.exponent 2 (omega arith))

pub max-IsPower : (w a b : ℕ) → IsPower w a → IsPower w b → IsPower w (max a b)
max-IsPower w a b p q = elim (Bool-cases (leb a b)) [
  | inl e ↦ let larger : max a b ≡ b = omega (arith, leb→le a b e) in rw larger q
  | inr e ↦ let larger : max a b ≡ a = omega (arith, leb→lt a b e) in rw larger p
]

-- For a power of two the mask clears what the division drops.
align_up-div : (w x a : ℕ) → IsPower w a → align_up w x a ≡ (x + (a - 1)) % 2 ^ w / a * a
unfolding align_up
align_up-div w x a p = rw p.power (
    bit_and-clear ((x + (2 ^ p.exponent - 1)) % 2 ^ w) p.exponent p.gap w p.width
      (mod-lt (x + (2 ^ p.exponent - 1)) (one-le-pow w 2 (omega arith))))

pub align_up-IsAligned : (w x a : ℕ) → IsPower w a → IsAligned (align_up w x a) a
align_up-IsAligned w x a p = record {
  quotient = (x + (a - 1)) % 2 ^ w / a;
  multiple = align_up-div w x a p;
}

module _ (w x a : ℕ) (p : IsPower w a) (room : x + a ≤ 2 ^ w) where
  positive : 1 ≤ a
  positive = IsPower-pos w a p

  sum : (x + (a - 1)) % 2 ^ w ≡ x + (a - 1)
  sum = mod-eq_of_lt (omega (arith, positive))

  pub align_up_ge : x ≤ align_up w x a
  align_up_ge =
      rw (align_up-div w x a p, sum)
        (omega (arith, positive, div-add-mod' (x + (a - 1)) a, mod-lt (x + (a - 1)) positive))

  pub align_up_lt : align_up w x a < x + a
  align_up_lt =
      rw (align_up-div w x a p, sum) (omega (arith, positive, div-mul-le_self (x + (a - 1)) a))

module _ (w start a1 s1 n1 a2 s2 n2 : ℕ) (h1 : IsPower w a1) (h2 : IsPower w a2)
    (room : start + a1 + n1 * s1 + a2 + n2 * s2 ≤ 2 ^ w) where
  abbrev first : ℕ
  first = align_up w start a1

  abbrev second : ℕ
  second = align_up w (first + n1 * s1) a2

  first_lt : first < start + a1
  first_lt = align_up_lt w start a1 h1 (omega arith)

  second_lt : second < first + n1 * s1 + a2
  second_lt = align_up_lt w (first + n1 * s1) a2 h2 (omega (arith, first_lt))

  -- Below the width of `usize` the offsets are those of the integers.
  two_arrays-exact : two_arrays w start a1 s1 n1 a2 s2 n2 ≡ (first, second, second + n2 * s2)
  unfolding two_arrays
  two_arrays-exact =
      let pos = IsPower-pos w a1 h1 in
      let len1 : n1 * s1 % 2 ^ w ≡ n1 * s1 = mod-eq_of_lt (omega (arith, pos)) in
      let len2 : n2 * s2 % 2 ^ w ≡ n2 * s2 = mod-eq_of_lt (omega (arith, pos)) in
      let end1 : (first + n1 * s1) % 2 ^ w ≡ first + n1 * s1 =
        mod-eq_of_lt (omega (arith, first_lt)) in
      let end2 : (second + n2 * s2) % 2 ^ w ≡ second + n2 * s2 =
        mod-eq_of_lt (omega (arith, first_lt, second_lt)) in
      rw (len1, len2, end1, end2) refl

  -- The two arrays lie behind `start`, one after the other, each aligned.
  pub two_arrays-ordered :
      (start ≤ (two_arrays w start a1 s1 n1 a2 s2 n2).0)
      × ((two_arrays w start a1 s1 n1 a2 s2 n2).0 + n1 * s1
          ≤ (two_arrays w start a1 s1 n1 a2 s2 n2).1)
      × ((two_arrays w start a1 s1 n1 a2 s2 n2).1 + n2 * s2
          ≤ (two_arrays w start a1 s1 n1 a2 s2 n2).2)
      × IsAligned (two_arrays w start a1 s1 n1 a2 s2 n2).0 a1
      × IsAligned (two_arrays w start a1 s1 n1 a2 s2 n2).1 a2
      × ((two_arrays w start a1 s1 n1 a2 s2 n2).2 ≤ start + a1 + n1 * s1 + a2 + n2 * s2)
  two_arrays-ordered = rw two_arrays-exact (
    align_up_ge w start a1 h1 (omega arith),
    align_up_ge w (first + n1 * s1) a2 h2 (omega (arith, first_lt)),
    omega arith,
    align_up-IsAligned w start a1 h1,
    align_up-IsAligned w (first + n1 * s1) a2 h2,
    omega (arith, first_lt, second_lt),
  )
