-- ===== src/Layout/Masks.antt =====
-- The mask `!(a - 1)` for a power of two `a`: it clears the digits below.
use Prim.Native.Nat.{digits, bit_and, bit_and-bitwise, min}
use native.Mathlib.Nat.{zero-div, div-div-eq-div-mul, pow-succ', pow-suc, mul_assoc, one-le-pow}
use bplus_tree.Base.{ℕ, zero, suc, ◌+◌, ◌-◌, ◌*◌, ◌/◌, ◌%◌, ◌^◌, ◌≤◌, ◌<◌, ◌≡◌, sym, ap, ◌∙◌, arith}

clear_zero : (k : ℕ) → 0 ≡ 0 / 2 ^ k * 2 ^ k
clear_zero k = rw (zero-div (2 ^ k)) (omega arith)

digits-clear :
    (fuel a k d w : ℕ)
    → a ≤ fuel
    → w ≡ k + d
    → a < 2 ^ w
    → digits (λ _. zero) min fuel a (2 ^ w - 2 ^ k) ≡ a / 2 ^ k * 2 ^ k
digits-clear zero zero k d w h e b = clear_zero k
digits-clear zero (suc a) k d w h e b = absurd (omega arith)
digits-clear (suc f) zero k d w h e b = clear_zero k
digits-clear (suc f) (suc a) zero d zero h e b = absurd (omega arith)
digits-clear (suc f) (suc a) zero d (suc w) h e b =
    let ones : (2 ^ suc w - 1) / 2 ≡ 2 ^ w - 1 = omega arith in
    let rest = digits-clear f (suc a / 2) zero w w (omega arith) (omega arith) (omega arith) in
    rw (ones, rest) (omega arith)
digits-clear (suc f) (suc a) (suc k) d zero h e b = absurd (omega arith)
digits-clear (suc f) (suc a) (suc k) d (suc w) h e b =
    let rest = digits-clear f (suc a / 2) k d w (omega arith) (omega arith) (omega arith) in
    let half : (2 ^ suc w - 2 ^ suc k) / 2 ≡ 2 ^ w - 2 ^ k = omega arith in
    let same : suc a / 2 ^ suc k ≡ suc a / 2 / 2 ^ k =
      ap (λ m. suc a / m) (pow-succ' 2 k) ∙ sym (div-div-eq-div-mul (suc a) 2 (2 ^ k)) in
    let even : (2 ^ suc w - 2 ^ suc k) % 2 ≡ 0 = omega (arith, pow-suc 2 w, pow-suc 2 k) in
    let q = suc a / 2 / 2 ^ k in
    let product : q * 2 ^ suc k ≡ q * 2 ^ k * 2 =
      ap (λ (m : ℕ). q * m) (pow-suc 2 k) ∙ sym (mul_assoc q (2 ^ k) 2) in
    rw (half, rest, same, even, product) (omega arith)

-- `n & !(2 ^ k - 1)` in `w` digits.
pub bit_and-clear :
    (n k d w : ℕ) → w ≡ k + d → n < 2 ^ w → bit_and n (2 ^ w - 1 - (2 ^ k - 1)) ≡ n / 2 ^ k * 2 ^ k
bit_and-clear n k d w e b =
    let mask : 2 ^ w - 1 - (2 ^ k - 1) ≡ 2 ^ w - 2 ^ k =
      omega (arith, one-le-pow k 2 (omega arith)) in
    rw mask (bit_and-bitwise n (2 ^ w - 2 ^ k) ∙ digits-clear n n k d w (omega arith) e b)
