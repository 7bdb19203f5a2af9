-- ===== src/Rebalance/Laws.antt =====
-- What a kind of child promises: its operations keep the entries of the two neighbours, and mend
-- a child that lacks a key. `P` is the invariant of a child, `Q` that of one that may lack a key.
use bplus_tree.Base.{◌+◌, ◌≤◌, ◌<◌, ◌≡◌, Option, some, List, ◌++◌, Ensures}
use bplus_tree.Order.{Ord, Beyond, Under}
use bplus_tree.Rebalance.{Kind}

module _ {ℓ κ μ} {K : Type ℓ} {V : Type κ} {A : Type μ} ⦃o : Ord K⦄
    (P Q : Option K → Option K → A → Type 0) (f : A → List (K × V)) where
  -- Two neighbours and a separator that are right, and hold what `l` and `r` held.
  pub record IsLent (lo hi : Option K) (l r : A) (x : A × K × A) : Type (ℓ ⊔ κ ⊔ μ) where
    pub left : P lo (some x.1) x.0
    pub right : P (some x.1) hi x.2
    pub beyond : Beyond lo x.1
    pub under : Under hi x.1
    pub same : f x.0 ++ f x.2 ≡ f l ++ f r

  pub record IsMerged (lo hi : Option K) (l r m : A) : Type (ℓ ⊔ κ ⊔ μ) where
    pub whole : P lo hi m
    pub same : f m ≡ f l ++ f r

  pub record IsLawful (kind : Kind K A) : Type (ℓ ⊔ κ ⊔ μ) where
    pub weaken : (lo hi : Option K) (n : A) → P lo hi n → Q lo hi n
    pub enough : (lo hi : Option K) (n : A) → Q lo hi n → kind.min_size ≤ kind.size n → P lo hi n
    pub least : (lo hi : Option K) (n : A) → P lo hi n → kind.min_size ≤ kind.size n
    pub lend_to_right_lem :
        (lo hi : Option K) (l : A) (s : K) (r : A)
        → Q lo (some s) l
        → Q (some s) hi r
        → Beyond lo s
        → Under hi s
        → kind.min_size < kind.size l
        → kind.size r < kind.min_size
        → Ensures (kind.lend_to_right l s r) (IsLent lo hi l r)
    pub lend_to_left_lem :
        (lo hi : Option K) (l : A) (s : K) (r : A)
        → Q lo (some s) l
        → Q (some s) hi r
        → Beyond lo s
        → Under hi s
        → kind.min_size < kind.size r
        → kind.size l < kind.min_size
        → Ensures (kind.lend_to_left l s r) (IsLent lo hi l r)
    pub merge_lem :
        (lo hi : Option K) (l : A) (s : K) (r : A)
        → Q lo (some s) l
        → Q (some s) hi r
        → Beyond lo s
        → Under hi s
        → kind.min_size ≤ kind.size l + kind.size r
        → kind.size l + kind.size r < kind.min_size + kind.min_size
        → Ensures (kind.merge l s r) (IsMerged lo hi l r)
