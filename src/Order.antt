-- ===== src/Order.antt =====
-- The bound `K: Ord`: `cmp` with the laws that the trait documents, its `==` read as `≡`.
pub mod Laws
use Prim.Native.Nat.{compare, Ordering}
use Prim.Native.Nat.Ordering.{lt, eq, gt}
use bplus_tree.Base.{ℕ, ◌≡◌, refl, ◌⊎◌, inl, inr, Bool, true, false, Option, none, some, arith}

abbrev pub swap : Ordering → Ordering
swap lt = gt
swap eq = eq
swap gt = lt

pub record IsTotalOrder {ℓ} {K : Type ℓ} (cmp : K → K → Ordering) : Type ℓ where
  pub cmp_swap : (x y : K) → cmp y x ≡ swap (cmp x y)
  pub lt_trans : (x y z : K) → cmp x y ≡ lt → cmp y z ≡ lt → cmp x z ≡ lt
  pub eq_of_cmp : (x y : K) → cmp x y ≡ eq → x ≡ y
  pub cmp_refl : (x : K) → cmp x x ≡ eq

pub compare-IsTotalOrder : IsTotalOrder compare
compare-IsTotalOrder = ground arith

-- `Ordering::is_lt` and `Ordering::is_le`
abbrev pub is_lt : Ordering → Bool
is_lt lt = true
is_lt _ = false

abbrev pub is_le : Ordering → Bool
is_le gt = false
is_le _ = true

pub record Ord {ℓ} (K : Type ℓ) : Type ℓ where
  pub cmp : K → K → Ordering
  pub laws : IsTotalOrder cmp
  pub open laws use *

module _ {ℓ} {K : Type ℓ} ⦃o : Ord K⦄ where
  infix 50 ◌≺◌ ◌≼◌
  abbrev pub ◌≺◌ : K → K → Type 0
  a ≺ b = o.cmp a b ≡ lt

  abbrev pub ◌≼◌ : K → K → Type 0
  a ≼ b = is_le (o.cmp a b) ≡ true

  -- The optional bounds of a node: `lower ≤ k`, `lower < k` and `k < upper`.
  abbrev pub AtLeast : Option K → K → Type 0
  AtLeast none k = Unit
  AtLeast (some l) k = l ≼ k

  abbrev pub Beyond : Option K → K → Type 0
  Beyond none k = Unit
  Beyond (some l) k = l ≺ k

  abbrev pub Under : Option K → K → Type 0
  Under none k = Unit
  Under (some u) k = k ≺ u

pub Ordering-cases : (r : Ordering) → (r ≡ lt) ⊎ (r ≡ eq) ⊎ (r ≡ gt)
Ordering-cases lt = inl refl
Ordering-cases eq = inr (inl refl)
Ordering-cases gt = inr (inr refl)

-- `u64` keys and the like.
instance unfoldable pub nat_ord : Ord ℕ
nat_ord = record { laws = compare-IsTotalOrder; cmp = compare }
