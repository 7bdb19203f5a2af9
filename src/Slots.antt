-- ===== src/Slots.antt =====
-- common.rs, insert.rs and delete.rs: the slots of a leaf, and the copies between them. A slot
-- holds a value or nothing that may be read; what stands in a slot at or above `len` is left over.
pub mod Arrays
pub mod Items
pub mod Transfers
pub mod Loans
use bplus_tree.Base.{
  ℕ, zero, suc, ◌+◌, ◌-◌, ◌%◌, ◌^◌, Option, none, some, List, ◌++◌, ◌&&◌, ◌>>=◌, ltb, leb,
  if◌then◌else◌, length, get_elem?, set, take, drop,
}

-- `ptr::copy`, `ptr::write` and `ptr::read` of the standard library, where an access outside the
-- array, or a read of nothing, is a fault.
module _ {ℓ} {A : Type ℓ} where
  unfoldable pub ptr_copy : List A → ℕ → ℕ → ℕ → Option (List A)
  ptr_copy xs src dst count =
      if leb (src + count) (length xs) && leb (dst + count) (length xs)
      then some (take dst xs ++ (take count (drop src xs) ++ drop (dst + count) xs))
      else none

  unfoldable pub ptr_write : List A → ℕ → A → Option (List A)
  ptr_write xs i x = if ltb i (length xs) then some (set xs i x) else none

  unfoldable pub ptr_read : List (Option A) → ℕ → Option A
  ptr_read xs i = get_elem? xs i >>= (λ x. x)

-- The arrays of a leaf that `carve_leaf` finds.
pub record Slots {ℓ κ} (K : Type ℓ) (V : Type κ) : Type (ℓ ⊔ κ) where
  pub keys : List (Option K)
  pub vals : List (Option V)

-- The arrays with `len` of the header.
pub record LeafParts {ℓ κ} (K : Type ℓ) (V : Type κ) : Type (ℓ ⊔ κ) where
  pub len : ℕ
  pub slots : Slots K V

module _ {ℓ κ} {K : Type ℓ} {V : Type κ} where
  unfoldable pub shift_right : Slots K V → ℕ → ℕ → Option (Slots K V)
  shift_right s idx len =
      if ltb idx len
      then (do
        keys ← ptr_copy s.keys idx (idx + 1) (len - idx)
        vals ← ptr_copy s.vals idx (idx + 1) (len - idx)
        some (record { keys = keys; vals = vals }))
      else some s

  unfoldable pub write_kv_at : Slots K V → ℕ → K → V → Option (Slots K V)
  write_kv_at s idx key val = do
    keys ← ptr_write s.keys idx (some key)
    vals ← ptr_write s.vals idx (some val)
    some (record { keys = keys; vals = vals })

  unfoldable pub read_kv_at : Slots K V → ℕ → Option (K × V)
  read_kv_at s idx = do k ← ptr_read s.keys idx; v ← ptr_read s.vals idx; some (k, v)

  -- From the slots of one leaf to those of another. What is left are zeros.
  unfoldable pub move_kv_at : Slots K V → ℕ → Slots K V → ℕ → Option (Slots K V × Slots K V)
  unfolding read_kv_at write_kv_at
  move_kv_at src src_idx dst dst_idx = do
    (key, val) ← read_kv_at src src_idx
    dst' ← write_kv_at dst dst_idx key val
    keys ← ptr_write src.keys src_idx none
    vals ← ptr_write src.vals src_idx none
    some (record { keys = keys; vals = vals }, dst')

  unfoldable pub shift_left_kv : Slots K V → ℕ → ℕ → Option (Slots K V)
  shift_left_kv s start_idx count =
      if ltb 0 count
      then (do
        keys ← ptr_copy s.keys (start_idx + 1) start_idx count
        vals ← ptr_copy s.vals (start_idx + 1) start_idx count
        some (record { keys = keys; vals = vals }))
      else some s

  unfoldable pub shift_and_write : Slots K V → ℕ → ℕ → K → V → Option (Slots K V)
  unfolding shift_right write_kv_at
  shift_and_write s idx cur_len key value = do
    s' ← shift_right s idx cur_len
    write_kv_at s' idx key value

  unfoldable pub insert_into_leaf_slot : LeafParts K V → ℕ → ℕ → K → V → Option (LeafParts K V)
  unfolding shift_right write_kv_at
  insert_into_leaf_slot parts idx cur_len key value = do
    s ← shift_right parts.slots idx cur_len
    s' ← write_kv_at s idx key value
    some (record { len = (cur_len + 1) % 2 ^ 16; slots = s' })

  -- `leaf_remove`, behind the search for the slot.
  unfoldable pub remove_slot : LeafParts K V → ℕ → Option (LeafParts K V × V)
  unfolding shift_left_kv
  remove_slot parts idx = do
    removed_key ← ptr_read parts.slots.keys idx
    value ← ptr_read parts.slots.vals idx
    s ←
        if ltb idx (parts.len - 1)
        then shift_left_kv parts.slots idx (parts.len - idx - 1)
        else some parts.slots
    some (record { len = (parts.len - 1) % 2 ^ 16; slots = s }, value)

  -- `merge_leaf_into`: its loop, then the whole on the slots, where `Delete` has it on the items.
  unfoldable pub move_items : Slots K V → Slots K V → ℕ → ℕ → ℕ → Option (Slots K V)
  unfolding read_kv_at write_kv_at
  move_items target source target_len i zero = some target
  move_items target source target_len i (suc n) = do
    (key, val) ← read_kv_at source i
    target' ← write_kv_at target (target_len + i) key val
    move_items target' source target_len (suc i) n

  unfoldable pub merge_slots :
      ℕ → LeafParts K V → LeafParts K V → Option (LeafParts K V × LeafParts K V)
  unfolding move_items
  merge_slots cap target source = if ltb cap (target.len + source.len) then none else (do
    slots ← move_items target.slots source.slots target.len 0 source.len
    some (
      record { len = (target.len + source.len) % 2 ^ 16; slots = slots },
      record source { len = 0 },
    ))

  -- `borrow_from_left_leaf`, on the slots of the two leaves.
  unfoldable pub borrow_slots :
      LeafParts K V → LeafParts K V → Option (LeafParts K V × LeafParts K V)
  unfolding shift_right move_kv_at
  borrow_slots left child = do
    room ← shift_right child.slots 0 child.len
    (left', child') ← move_kv_at left.slots (left.len - 1) room 0
    some (
      record { len = (left.len - 1) % 2 ^ 16; slots = left' },
      record { len = (child.len + 1) % 2 ^ 16; slots = child' },
    )

  -- `borrow_from_right_leaf`, on the slots of the two leaves.
  unfoldable pub close_gap : Slots K V → ℕ → Option (Slots K V)
  close_gap right right_len =
      if ltb 1 right_len
      then (do
        keys ← ptr_copy right.keys 1 0 (right_len - 1)
        vals ← ptr_copy right.vals 1 0 (right_len - 1)
        keys' ← ptr_write keys (right_len - 1) none
        vals' ← ptr_write vals (right_len - 1) none
        some (record { keys = keys'; vals = vals' }))
      else some right

  unfoldable pub borrow_right_slots :
      LeafParts K V → LeafParts K V → Option (LeafParts K V × LeafParts K V)
  unfolding move_kv_at close_gap
  borrow_right_slots child right = do
    (gap, child') ← move_kv_at right.slots 0 child.slots child.len
    right' ← close_gap gap right.len
    some (
      record { len = (child.len + 1) % 2 ^ 16; slots = child' },
      record { len = (right.len - 1) % 2 ^ 16; slots = right' },
    )
