-- ===== src/Rebalance.antt =====
-- delete.rs, `rebalance_leaf_child` and `rebalance_branch_child`: a child that lacks a key borrows
-- from a neighbour or merges with it. The two functions take the same steps, over leaves and over
-- branches, so the steps are written once, over what a kind of child can do.
pub mod Pairs
pub mod Laws
pub mod Steps
pub mod Choice
pub mod Correct
pub mod Chain
use bplus_tree.Base.{
  ℕ, suc, ◌+◌, ◌-◌, Bool, true, false, ◌&&◌, Option, none, some, ◌>>=◌, ltb, leb, if◌then◌else◌,
  length, get_elem?, set, remove_at,
}
use bplus_tree.Node.{Branch}
use bplus_tree.Siblings.{Siblings}

-- The operations on two neighbours and the separator between them. `none` is a panic.
pub record Kind {ℓ κ} (K : Type ℓ) (A : Type κ) : Type (ℓ ⊔ κ) where
  pub size : A → ℕ
  pub min_size : ℕ
  -- The left neighbour gives its last entry.
  pub lend_to_right : A → K → A → Option (A × K × A)
  -- The right neighbour gives its first entry.
  pub lend_to_left : A → K → A → Option (A × K × A)
  pub merge : A → K → A → Option A
  -- The block of a node that has been merged away is freed.
  pub free : A → Siblings → Siblings

module _ {ℓ κ} {K : Type ℓ} {A : Type κ} where
  -- `remove_branch_entry` and `collapse_branch_entry`
  unfoldable pub remove_branch_entry : Branch K A → ℕ → Branch K A
  remove_branch_entry b key_idx =
      if leb (length b.keys) key_idx
      then b
      else record { keys = remove_at b.keys key_idx; children = remove_at b.children (suc key_idx) }

  -- Children `j` and `j + 1` with separator `j`, changed in place.
  unfoldable pub change_pair :
      (A → K → A → Option (A × K × A)) → Branch K A → ℕ → Option (Branch K A)
  change_pair change b j = do
    left ← get_elem? b.children j
    right ← get_elem? b.children (suc j)
    sep ← get_elem? b.keys j
    (left', sep', right') ← change left sep right
    some (record {
      keys = set b.keys j sep';
      children = set (set b.children j left') (suc j) right';
    })

module _ {ℓ κ} {K : Type ℓ} {A : Type κ} (kind : Kind K A) where
  open kind use {size, min_size, lend_to_right, lend_to_left, merge, free}

  unfoldable pub borrow_from_left : Branch K A → ℕ → Siblings → Option (Branch K A × Siblings)
  unfolding change_pair
  borrow_from_left b child_idx s = do b' ← change_pair lend_to_right b (child_idx - 1); some (b', s)

  unfoldable pub borrow_from_right : Branch K A → ℕ → Siblings → Option (Branch K A × Siblings)
  unfolding change_pair
  borrow_from_right b child_idx s = do b' ← change_pair lend_to_left b child_idx; some (b', s)

  -- Child `j + 1` goes into child `j`, and is freed.
  unfoldable pub merge_pair : Branch K A → ℕ → Siblings → Option (Branch K A × Siblings)
  unfolding remove_branch_entry
  merge_pair b j s = do
    left ← get_elem? b.children j
    right ← get_elem? b.children (suc j)
    sep ← get_elem? b.keys j
    merged ← merge left sep right
    let b' : Branch K A = record b { children = set b.children j merged }
    some (remove_branch_entry b' j, free right s)

  -- A neighbour that can spare an entry.
  unfoldable pub can_lend : Branch K A → ℕ → Bool
  can_lend b j = elim (get_elem? b.children j) [ none ↦ false | some n ↦ ltb min_size (size n) ]

  unfoldable pub rebalance_child : Branch K A → ℕ → ℕ → Siblings → Option (Branch K A × Siblings)
  unfolding borrow_from_left borrow_from_right merge_pair can_lend
  rebalance_child b child_idx branch_len s = do
    child ← get_elem? b.children child_idx
    if leb min_size (size child)
        then some (b, s)
        else if ltb 0 child_idx && can_lend b (child_idx - 1)
        then borrow_from_left b child_idx s
        else if ltb child_idx branch_len && can_lend b (suc child_idx)
        then borrow_from_right b child_idx s
        else if ltb 0 child_idx
        then merge_pair b (child_idx - 1) s
        else if ltb child_idx branch_len
        then merge_pair b child_idx s
        else some (b, s)
