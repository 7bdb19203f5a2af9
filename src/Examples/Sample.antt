-- ===== src/Examples/Sample.antt =====
-- A map of two leaves, of which the first is full.
use bplus_tree.Base.{
  false, ℕ, zero, suc, refl, some, [], ◌∷◌, ◌==◌, ltb, ◌&&◌, if◌then◌else◌, arith,
}
use bplus_tree.Order.{nat_ord}
use bplus_tree.Siblings.{Siblings}
use bplus_tree.Node.{Caps, Leaf, Branch, IsUsable}
use bplus_tree.Map.{BPlusTreeMap}
use bplus_tree.Map.Valid.{IsValidMap}

abbrev pub four : Caps
four = record { leaf_cap = 4; branch_cap = 4 }

pub four-IsUsable : IsUsable four
four-IsUsable = record { leaf = omega arith; branch = omega arith }

abbrev pub low : Leaf ℕ ℕ
low = record { addr = 1; items = (1, 10) ∷ (2, 20) ∷ (3, 30) ∷ (4, 40) ∷ [] }

abbrev pub high : Leaf ℕ ℕ
high = record { addr = 2; items = (5, 50) ∷ (6, 60) ∷ [] }

abbrev pub root : Branch ℕ (Leaf ℕ ℕ)
root = record { keys = 5 ∷ []; children = low ∷ high ∷ [] }

-- The two leaves are linked.
abbrev pub store : Siblings
store = record {
  next = λ a. if a == 1 then 2 else 0;
  prev = λ a. if a == 2 then 1 else 0;
  live = λ a. ltb 0 a && ltb a 3;
  fresh = 3;
  fault = false;
}

abbrev pub sample : BPlusTreeMap ℕ ℕ
sample = record { root = some (suc zero, root); caps = four; store = store }

pub sample-IsValid : IsValidMap sample
unfolding nat_ord
sample-IsValid = (
  omega arith,
  omega arith,
  (
    (
      omega arith,
      omega arith,
      ((refl, (refl, (refl, tt))), ((refl, (refl, tt)), ((refl, tt), (tt, tt)))),
      ((tt, refl), ((tt, refl), ((tt, refl), ((tt, refl), tt)))),
    ),
    tt,
    tt,
    (omega arith, omega arith, ((refl, tt), (tt, tt)), ((refl, tt), ((refl, tt), tt))),
  ),
)
