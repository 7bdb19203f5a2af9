-- ===== src/Entries.antt =====
-- The abstract view of a map: its entries in ascending order of their keys, with look-up,
-- insertion and removal as on a sorted association list (what `BTreeMap` documents).
pub mod Laws
pub mod Append
pub mod Cut
use Prim.Native.Nat.Ordering.{lt, eq, gt}
use bplus_tree.Base.{Option, none, some, List, [], ◌∷◌, All}
use bplus_tree.Order.{Ord, ◌≺◌, ◌≼◌, AtLeast, Under}

module _ {ℓ κ} {K : Type ℓ} {V : Type κ} ⦃o : Ord K⦄ where
  unfoldable pub lookup : K → List (K × V) → Option V
  lookup q [] = none
  lookup q ((k, v) ∷ es) = elim (o.cmp q k) [ eq ↦ some v | _ ↦ lookup q es ]

  -- An entry with the key keeps its place, and takes the new value.
  unfoldable pub insert : K → V → List (K × V) → List (K × V)
  insert q w [] = (q, w) ∷ []
  insert q w ((k, v) ∷ es) = elim (o.cmp q k) [
    | lt ↦ (q, w) ∷ (k, v) ∷ es
    | eq ↦ (k, w) ∷ es
    | gt ↦ (k, v) ∷ insert q w es
  ]

  unfoldable pub remove : K → List (K × V) → List (K × V)
  remove q [] = []
  remove q ((k, v) ∷ es) = elim (o.cmp q k) [ eq ↦ es | _ ↦ (k, v) ∷ remove q es ]

  abbrev pub Before : K → List (K × V) → Type 0
  Before b es = All (λ e. e.0 ≺ b) es

  abbrev pub After : K → List (K × V) → Type 0
  After b es = All (λ e. b ≺ e.0) es

  abbrev pub From : K → List (K × V) → Type 0
  From b es = All (λ e. b ≼ e.0) es

  -- The keys ascend strictly.
  abbrev pub IsAscending : List (K × V) → Type 0
  IsAscending [] = Unit
  IsAscending (e ∷ es) = After e.0 es × IsAscending es

  abbrev pub Within : Option K → Option K → List (K × V) → Type 0
  Within lo hi es = All (λ e. AtLeast lo e.0 × Under hi e.0) es
