-- ===== src/Insert/Outcome.antt =====
-- `InsertResult`, and what it means for a result to be right.
use bplus_tree.Base.{ℕ, ◌≡◌, Option, some, ◌++◌}
use bplus_tree.Order.{Ord, Beyond, Under}
use bplus_tree.Entries.{lookup, insert}
use bplus_tree.Node.{Caps, Node, entries, min_len}
use bplus_tree.Node.Valid.{IsValid}

-- The node that the source has written in place comes first.
pub data InsertResult {ℓ κ μ} (K : Type ℓ) (V : Type κ) (N : Type μ) : Type (ℓ ⊔ κ ⊔ μ) where
  no_split : N → Option V → InsertResult K V N
  split : N → K → N → Option V → InsertResult K V N

module _ {ℓ κ} {K : Type ℓ} {V : Type κ} ⦃o : Ord K⦄ (c : Caps) where
  -- The result of an insertion into `n`, which had at least `m` keys between the bounds: one node
  -- or two, valid, which hold the entries of `n` with the new one, and the value that was there.
  abbrev pub Inserted :
      (h m : ℕ)
      → Option K
      → Option K
      → Node K V h
      → K
      → V
      → InsertResult K V (Node K V h)
      → Type (ℓ ⊔ κ)
  Inserted h m lo hi n key value (no_split n' old) =
      IsValid V c h m lo hi n'
      × (entries h n' ≡ insert key value (entries h n))
      × (old ≡ lookup key (entries h n))
  Inserted h m lo hi n key value (split l sep r old) =
      IsValid V c h (min_len c h) lo (some sep) l
      × IsValid V c h (min_len c h) (some sep) hi r
      × Beyond lo sep
      × Under hi sep
      × (entries h l ++ entries h r ≡ insert key value (entries h n))
      × (old ≡ lookup key (entries h n))
