-- ===== src/Map.antt =====
-- lib.rs, insert.rs, get.rs and delete.rs: `BPlusTreeMap` and its operations by key. `none` is a panic.
pub mod Valid
pub mod Collapse
pub mod Insertion
pub mod Removal
pub mod Reading
pub mod Effects
pub mod Creation
pub mod Linked
pub mod Sound
pub mod Batches
pub mod History
use Prim.Native.String.{String}
use Prim.Native.Nat.{min}
use bplus_tree.Base.{
  ℕ, zero, suc, ◌+◌, ◌-◌, ◌*◌, ◌%◌, ◌^◌, Bool, true, false, Option, none, some, List, [], ◌∷◌, ◌++◌,
  Result, ok, err, ok_or, ◌>>=◌, ltb, if◌then◌else◌,
}
use bplus_tree.Order.{Ord}
use bplus_tree.Layout.{Sizes, leaf_compute, branch_compute}
use bplus_tree.Node.{Caps, Leaf, Branch, Node}
use bplus_tree.Siblings.{Siblings, null, alloc_leaf_block}
use bplus_tree.Descend
use bplus_tree.Insert.{InsertResult, no_split, split, insert_rec}
use bplus_tree.Delete.{remove_rec, after_remove}
use bplus_tree.Error.{BPlusTreeError, invalid_capacity, key_not_found, allocation_error}

-- The root with its height, the capacities of the layouts, and the store of the leaves.
pub record BPlusTreeMap {ℓ κ} (K : Type ℓ) (V : Type κ) : Type (ℓ ⊔ κ) where
  pub root : Option ((h : ℕ) × Node K V h)
  pub caps : Caps
  pub store : Siblings

-- The allocator before the first block; address 0 is never given out.
abbrev pub empty_store : Siblings
empty_store = record {
  next = λ _. null;
  prev = λ _. null;
  live = λ _. false;
  fresh = 1;
  fault = false;
}

-- `capacity as u16`, and the `min` with `u16::MAX` behind it.
unfoldable pub cap_u16 : ℕ → ℕ
cap_u16 capacity = min (capacity % 2 ^ 16) 65535

module _ {ℓ κ} {K : Type ℓ} {V : Type κ} where
  -- An empty map with the capacities that the layouts come to.
  unfoldable pub with_caps : Caps → BPlusTreeMap K V
  with_caps caps = record { root = none; caps = caps; store = empty_store }

  -- `with_budgets`
  unfoldable pub with_budgets : Sizes → ℕ → ℕ → Option (BPlusTreeMap K V)
  unfolding with_caps
  with_budgets t leaf_bytes branch_bytes = do
    leaf_layout ← leaf_compute t leaf_bytes true
    let branch_layout = branch_compute t branch_bytes
    some (with_caps (record { leaf_cap = leaf_layout.cap; branch_cap = branch_layout.cap }))

  -- `with_cache_lines`: 64 bytes each, by a multiplication that saturates.
  unfoldable pub with_cache_lines : Sizes → ℕ → ℕ → Option (BPlusTreeMap K V)
  unfolding with_budgets
  with_cache_lines t leaf_lines branch_lines =
      let max_usize = 2 ^ t.usize_bits - 1 in
      with_budgets t (min (leaf_lines * 64) max_usize) (min (branch_lines * 64) max_usize)

  -- `new`, by whether the allocator gives the block of the root.
  unfoldable pub new_if : Bool → ℕ → Result (BPlusTreeMap K V) BPlusTreeError
  unfolding cap_u16 alloc_leaf_block
  new_if allocated capacity =
      if ltb capacity 4 then err (invalid_capacity "capacity too small") else elim allocated [
        | false ↦ err (allocation_error "leaf root")
        | true ↦
            let (leaf, store) = alloc_leaf_block empty_store in
            ok (record {
              root = some (zero, record { addr = leaf; items = [] });
              caps = record { leaf_cap = cap_u16 capacity; branch_cap = cap_u16 capacity };
              store = store;
            })
      ]

  -- `new` where it does.
  unfoldable pub new : ℕ → Result (BPlusTreeMap K V) BPlusTreeError
  unfolding new_if
  new capacity = new_if true capacity

  -- The root to insert into: that of the map, or a new leaf.
  unfoldable pub insert_root : BPlusTreeMap K V → ((h : ℕ) × Node K V h) × Siblings
  insert_root m = elim m.root [
    | some root ↦ (root, m.store)
    | none ↦
        let (leaf, store) = alloc_leaf_block m.store in
        ((zero, record { addr = leaf; items = [] }), store)
  ]

  -- `insert`, what becomes of the root: a split puts a new branch above the two halves.
  unfoldable pub grow_root :
      (h : ℕ) → InsertResult K V (Node K V h) → ((h : ℕ) × Node K V h) × Option V
  grow_root h (no_split n old) = ((h, n), old)
  grow_root h (split l sep_key r old) =
      ((suc h, record { keys = sep_key ∷ []; children = l ∷ r ∷ [] }), old)

module _ {ℓ κ} {K : Type ℓ} {V : Type κ} ⦃o : Ord K⦄ where
  unfoldable pub insert : BPlusTreeMap K V → K → V → Option (BPlusTreeMap K V × Option V)
  unfolding insert_root grow_root
  insert m key value =
      let ((h, n), store) = insert_root m in
      do
        (result, store') ← insert_rec m.caps h n key value store
        let (root, old) = grow_root h result
        some (record m { root = some root; store = store' }, old)

  unfoldable pub batch_insert :
      BPlusTreeMap K V → List (K × V) → Option (BPlusTreeMap K V × List (Option V))
  batch_insert m [] = some (m, [])
  batch_insert m ((k, v) ∷ items) = do
    (m', old) ← insert m k v
    (m'', old_vals) ← batch_insert m' items
    some (m'', old ∷ old_vals)

  unfoldable pub get : BPlusTreeMap K V → K → Option V
  get m key = elim m.root [ none ↦ none | some (h, n) ↦ Descend.get h n key ]

  unfoldable pub get_item : BPlusTreeMap K V → K → Result V BPlusTreeError
  get_item m key = ok_or (get m key) key_not_found

  unfoldable pub contains_key : BPlusTreeMap K V → K → Bool
  contains_key m key = elim (get m key) [ none ↦ false | some _ ↦ true ]

  unfoldable pub get_or_default : BPlusTreeMap K V → K → V → V
  get_or_default m key default = elim (get m key) [ none ↦ default | some v ↦ v ]

  -- `get_many`, from the values that are read already.
  unfoldable pub get_many_from : BPlusTreeMap K V → List V → List K → Result (List V) BPlusTreeError
  get_many_from m out [] = ok out
  get_many_from m out (k ∷ ks) = elim (get m k) [
    | some v ↦ get_many_from m (out ++ v ∷ []) ks
    | none ↦ err key_not_found
  ]

  unfoldable pub get_many : BPlusTreeMap K V → List K → Result (List V) BPlusTreeError
  unfolding get_many_from
  get_many m ks = get_many_from m [] ks

  -- `remove`, what becomes of the root.
  unfoldable pub shrink_root :
      Caps → (h : ℕ) → Node K V h → Option V → Siblings → Option ((h : ℕ) × Node K V h) × Siblings
  unfolding after_remove
  shrink_root c h n none s = (some (h, n), s)
  shrink_root c h n (some value) s = after_remove c h n s

  unfoldable pub remove : BPlusTreeMap K V → K → Option (BPlusTreeMap K V × Option V)
  unfolding shrink_root
  remove m key = elim m.root [
    | none ↦ some (m, none)
    | some (h, n) ↦ (do
      ((n', result), store) ← remove_rec m.caps h n key m.store
      let (root, store') = shrink_root m.caps h n' result store
      some (record m { root = root; store = store' }, result))
  ]

  unfoldable pub remove_item :
      BPlusTreeMap K V → K → Option (BPlusTreeMap K V × Result V BPlusTreeError)
  unfolding remove
  remove_item m key = do (m', result) ← remove m key; some (m', ok_or result key_not_found)

  -- The `try_` functions of `compat_test_api`.
  unfoldable pub try_get : BPlusTreeMap K V → K → Result V BPlusTreeError
  unfolding get_item
  try_get m key = get_item m key

  unfoldable pub try_insert :
      BPlusTreeMap K V → K → V → Option (BPlusTreeMap K V × Result (Option V) BPlusTreeError)
  unfolding insert
  try_insert m key value = do (m', old) ← insert m key value; some (m', ok old)

  unfoldable pub try_remove :
      BPlusTreeMap K V → K → Option (BPlusTreeMap K V × Result V BPlusTreeError)
  unfolding remove_item
  try_remove m key = remove_item m key
