-- ===== src/Check.antt =====
-- common.rs: `validate_node` and what it calls, without the texts of the errors: `none` is an `Err`.
pub mod Leaves
pub mod Nodes
pub mod Accepts
pub mod Complete
use bplus_tree.Base.{
  ℕ, zero, suc, ◌+◌, ◌-◌, Bool, true, false, ◌&&◌, ◌||◌, Option, none, some, List, [], ◌∷◌, ◌>>=◌,
  ltb, leb, ◌==◌, if◌then◌else◌, length, get_elem?,
}
use bplus_tree.Order.{Ord, is_lt}
use bplus_tree.Search.Items.{keys}
use bplus_tree.Siblings.{Siblings, null}
use bplus_tree.Node.{Caps, Leaf, Branch, Node, min_leaf_len, min_branch_len}
use bplus_tree.Map.{BPlusTreeMap}

abbrev pub not : Bool → Bool
not true = false
not false = true

-- An early `return Err(..)` unless the test holds.
abbrev pub require : Bool → Option (Unit {0})
require true = some tt
require false = none

pub record ValidationState {ℓ} (K : Type ℓ) : Type ℓ where
  pub total_items : ℕ
  pub prev_leaf : Option ℕ
  pub prev_key : Option K

abbrev pub or_null : Option ℕ → ℕ
or_null none = null
or_null (some p) = p

module _ {ℓ} {K : Type ℓ} ⦃o : Ord K⦄ where
  -- `keys.windows(2)`: no key is at or above the next one.
  abbrev pub is_increasing : List K → Bool
  is_increasing [] = true
  is_increasing (k ∷ []) = true
  is_increasing (k ∷ k' ∷ ks) = is_lt (o.cmp k k') && is_increasing (k' ∷ ks)

  abbrev pub falls_below : Option K → K → Bool
  falls_below none k = false
  falls_below (some low) k = is_lt (o.cmp k low)

  abbrev pub reaches : Option K → K → Bool
  reaches none k = false
  reaches (some high) k = not (is_lt (o.cmp k high))

  -- The first and the last key of a branch against its bounds.
  abbrev pub starts_in : Option K → List K → Bool
  starts_in lower ks = elim (get_elem? ks 0) [ none ↦ true | some k ↦ not (falls_below lower k) ]

  abbrev pub ends_in : Option K → List K → Bool
  ends_in upper ks = elim (get_elem? ks (length ks - 1)) [
    | none ↦ true
    | some k ↦ not (reaches upper k)
  ]

  abbrev pub is_behind : Option K → K → Bool
  is_behind none k = true
  is_behind (some prev) k = is_lt (o.cmp prev k)

-- The pointer `next` of the leaf before.
abbrev pub is_linked : Siblings → Option ℕ → ℕ → Bool
is_linked s none leaf = true
is_linked s (some prev) leaf = s.next prev == leaf

module _ {ℓ κ} {K : Type ℓ} {V : Type κ} ⦃o : Ord K⦄ (c : Caps) (s : Siblings) where
  -- `validate_leaf`, for a leaf with an item.
  unfoldable pub validate_items :
      Leaf K V
      → Option K
      → Option K
      → ValidationState K
      → Option (Option (K × K) × ValidationState K)
  validate_items leaf lower upper state = do
    _ ← require (is_increasing (keys leaf.items))
    first ← get_elem? (keys leaf.items) 0
    last ← get_elem? (keys leaf.items) (length (keys leaf.items) - 1)
    _ ← require (not (falls_below lower first))
    _ ← require (not (reaches upper last))
    _ ← require (is_linked s state.prev_leaf leaf.addr)
    _ ← require (s.prev leaf.addr == or_null state.prev_leaf)
    _ ← require (is_behind state.prev_key first)
    some (
      some (first, last),
      record {
        total_items = state.total_items + length leaf.items;
        prev_leaf = some leaf.addr;
        prev_key = some last;
      },
    )

  unfoldable pub validate_leaf :
      Leaf K V
      → Option K
      → Option K
      → Bool
      → ValidationState K
      → Option (Option (K × K) × ValidationState K)
  unfolding validate_items
  validate_leaf leaf lower upper is_root state =
      if ltb c.leaf_cap (length leaf.items)
      then none
      else if length leaf.items == 0
      then (if is_root then some (none, state) else none)
      else (do
        _ ← require (is_root || leb (min_leaf_len c) (length leaf.items))
        validate_items leaf lower upper state)

module _ {ℓ} {K : Type ℓ} where
  -- The least key of the first part that has one, and the greatest key of the last.
  abbrev pub span : Option (K × K) → Option (K × K) → Option (K × K)
  span none b = b
  span (some a) none = some a
  span (some a) (some b) = some (a.0, b.1)

module _ {ℓ κ} {K : Type ℓ} {A : Type κ} where
  -- No key, and a null pointer in place of the first child.
  abbrev pub is_bare : Branch K A → Bool
  is_bare b = length b.keys == 0 && length b.children == 0

  -- `validate_branch`, the loop over the children. The list has the children at `0..=len`.
  unfoldable pub validate_children :
      (Option K → Option K → A → ValidationState K → Option (Option (K × K) × ValidationState K))
      → Option K
      → Option K
      → List K
      → List A
      → ValidationState K
      → Option (Option (K × K) × ValidationState K)
  validate_children validate lower upper ks [] state = none
  validate_children validate lower upper [] (child ∷ []) state = validate lower upper child state
  validate_children validate lower upper [] (child ∷ _ ∷ _) state = none
  validate_children validate lower upper (k ∷ ks) (child ∷ cs) state = do
    (a, state') ← validate lower (some k) child state
    (b, state'') ← validate_children validate (some k) upper ks cs state'
    some (span a b, state'')

module _ {ℓ κ} {K : Type ℓ} (V : Type κ) ⦃o : Ord K⦄ (c : Caps) (s : Siblings) where
  -- A branch below the root has a key; a root may be without keys, and then without a child.
  unfoldable pub validate_node :
      (h : ℕ)
      → Node K V h
      → Option K
      → Option K
      → Bool
      → ValidationState K
      → Option (Option (K × K) × ValidationState K)
  unfolding validate_leaf validate_children
  validate_node zero leaf lower upper is_root state =
      validate_leaf c s leaf lower upper is_root state
  validate_node (suc h) b lower upper is_root state = do
    _ ← require (leb (length b.keys) c.branch_cap)
    _ ← require (is_root || not (length b.keys == 0))
    (if is_bare b then some (none, state) else (do
      _ ← require (is_root || leb (min_branch_len c) (length b.keys))
      _ ← require (is_increasing b.keys)
      _ ← require (starts_in lower b.keys)
      _ ← require (ends_in upper b.keys)
      validate_children (λ lo hi child state'. validate_node h child lo hi false state') lower upper
          b.keys b.children state))

  -- `check_invariants_detailed`
  unfoldable pub check_invariants_detailed : Option ((h : ℕ) × Node K V h) → Option (Unit {0})
  unfolding validate_node
  check_invariants_detailed none = some tt
  check_invariants_detailed (some (h, root)) = do
    (_, state) ←
        validate_node h root none none true
          (record { total_items = 0; prev_leaf = none; prev_key = none })
    require (elim state.prev_leaf [ none ↦ true | some last ↦ s.next last == null ])

module _ {ℓ κ} {K : Type ℓ} {V : Type κ} ⦃o : Ord K⦄ where
  unfoldable pub check_invariants : BPlusTreeMap K V → Bool
  unfolding check_invariants_detailed
  check_invariants m = elim (check_invariants_detailed V m.caps m.store m.root) [
    | none ↦ false
    | some _ ↦ true
  ]
