-- ===== src/Node.antt =====
-- The nodes of the tree, without their sibling pointers. A node owns its children, so a tree of
-- nodes is a value. Its type carries its height: a block whose tag is `Leaf` has height 0.
pub mod Spans
pub mod Valid
pub mod Contents
pub mod Child
pub mod Leaves
use bplus_tree.Base.{
  ℕ, zero, suc, ◌+◌, ◌/◌, ◌≤◌, ◌≡◌, arith, Option, none, some, List, leb, if◌then◌else◌, length,
  flat_map,
}

-- The capacities of the two layouts.
pub record Caps : Type 0 where
  pub leaf_cap : ℕ
  pub branch_cap : ℕ

-- The key and value arrays are one list of pairs: only slots below `len` are listed, so that
-- `len` is the length of the list.
pub record Leaf {ℓ κ} (K : Type ℓ) (V : Type κ) : Type (ℓ ⊔ κ) where
  pub addr : ℕ
  pub items : List (K × V)

pub record Branch {ℓ κ} (K : Type ℓ) (A : Type κ) : Type (ℓ ⊔ κ) where
  pub keys : List K
  pub children : List A

abbrev pub Node {ℓ κ} : Type ℓ → Type κ → ℕ → Type (ℓ ⊔ κ)
Node K V zero = Leaf K V
Node K V (suc h) = Branch K (Node K V h)

-- `min_leaf_len` and `min_branch_len`
abbrev pub min_leaf_len : Caps → ℕ
min_leaf_len c = c.leaf_cap / 2

abbrev pub min_branch_len : Caps → ℕ
min_branch_len c = if leb c.branch_cap 2 then 1 else c.branch_cap / 2

abbrev pub min_len : Caps → ℕ → ℕ
min_len c zero = min_leaf_len c
min_len c (suc h) = min_branch_len c

-- An array of `cap` slots is written: a write behind them is a fault.
unfoldable pub fits {ℓ} : {A : Type ℓ} → ℕ → List A → Option (List A)
fits cap xs = if leb (length xs) cap then some xs else none

pub fits-some {ℓ} : {A : Type ℓ} (cap : ℕ) (xs : List A) → length xs ≤ cap → fits cap xs ≡ some xs
unfolding fits
fits-some cap xs h = ground arith

-- Capacities with which no node runs empty: every non-root node keeps a key.
pub record IsUsable (c : Caps) : Type 0 where
  pub leaf : 2 ≤ c.leaf_cap
  pub branch : 2 ≤ c.branch_cap

-- Half a branch is enough for a branch.
pub min_branch_len-le : (c : Caps) → 2 ≤ c.branch_cap → min_branch_len c ≤ c.branch_cap / 2
min_branch_len-le c h = ground arith

-- Two branches of which one lacks a key fit into one, with the separator between them.
pub min_branch_len_double :
    (c : Caps) → 2 ≤ c.branch_cap → min_branch_len c + min_branch_len c ≤ c.branch_cap
min_branch_len_double c h = ground arith

pub min_len_pos : (c : Caps) (h : ℕ) → IsUsable c → 1 ≤ min_len c h
min_len_pos c zero u = omega (arith, u.leaf)
min_len_pos c (suc h) u = ground (arith, u.branch)

module _ {ℓ κ} {K : Type ℓ} {V : Type κ} where
  -- The entries below a node, in the order of its leaves.
  unfoldable pub entries : (h : ℕ) → Node K V h → List (K × V)
  entries zero leaf = leaf.items
  entries (suc h) b = flat_map (entries h) b.children
