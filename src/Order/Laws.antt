-- ===== src/Order/Laws.antt =====
-- Transitivity for the two orders of keys, and for the bounds of a node.
use Prim.Native.Nat.Ordering.{gt}
use bplus_tree.Base.{◌≡◌, Option, none, some, arith}
use bplus_tree.Order.{Ord, ◌≺◌, ◌≼◌, AtLeast, Beyond, Under}

module _ {ℓ} {K : Type ℓ} ⦃o : Ord K⦄ where
  pub le_refl : (a : K) → a ≼ a
  le_refl a = rw (o.cmp_refl a)

  pub le_of_lt : (a b : K) → a ≺ b → a ≼ b
  le_of_lt a b h = ground arith

  pub lt_of_lt_of_le : (a b c : K) → a ≺ b → b ≼ c → a ≺ c
  lt_of_lt_of_le a b c h k = ground (arith, o.eq_of_cmp b c, o.lt_trans a b c)

  pub lt_of_le_of_lt : (a b c : K) → a ≼ b → b ≺ c → a ≺ c
  lt_of_le_of_lt a b c h k = ground (arith, o.eq_of_cmp a b, o.lt_trans a b c)

  pub le_trans : (a b c : K) → a ≼ b → b ≼ c → a ≼ c
  le_trans a b c h k = ground (arith, o.eq_of_cmp a b, o.eq_of_cmp b c, o.lt_trans a b c)

  pub lt_of_gt : (a b : K) → o.cmp a b ≡ gt → b ≺ a
  lt_of_gt a b h = ground (arith, o.cmp_swap a b)

  pub gt_of_lt : (a b : K) → a ≺ b → o.cmp b a ≡ gt
  gt_of_lt a b h = ground (arith, o.cmp_swap a b)

  pub AtLeast-le : (lo : Option K) (a b : K) → AtLeast lo a → a ≼ b → AtLeast lo b
  AtLeast-le none a b h k = tt
  AtLeast-le (some l) a b h k = le_trans l a b h k

  pub AtLeast-Beyond : (lo : Option K) (a : K) → Beyond lo a → AtLeast lo a
  AtLeast-Beyond none a h = tt
  AtLeast-Beyond (some l) a h = le_of_lt l a h

  pub Beyond-lt : (lo : Option K) (a b : K) → AtLeast lo a → a ≺ b → Beyond lo b
  Beyond-lt none a b h k = tt
  Beyond-lt (some l) a b h k = lt_of_le_of_lt l a b h k

  pub Under-le : (hi : Option K) (a b : K) → a ≼ b → Under hi b → Under hi a
  Under-le none a b h k = tt
  Under-le (some u) a b h k = lt_of_le_of_lt a b u h k

  pub Under-lt : (hi : Option K) (a b : K) → a ≺ b → Under hi b → Under hi a
  Under-lt hi a b h = Under-le hi a b (le_of_lt a b h)
