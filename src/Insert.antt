-- ===== src/Insert.antt =====
-- insert.rs. A node that the source writes in place is returned anew; the result carries it
-- beside what `InsertResult` holds. `none` is a fault: a panic, or a slot that is not there.
mod Outcome
pub use Outcome.{InsertResult, no_split, split, Inserted}
pub mod LeafSplit
pub mod LeafCase
pub mod BranchSplit
pub mod BranchCase
pub mod Recursion
pub mod Chain
use bplus_tree.Base.{
  ℕ, zero, suc, ◌+◌, ◌-◌, ◌/◌, Option, none, some, List, ◌∷◌, ◌++◌, Result, ok, err, ◌>>=◌, ltb,
  ◌==◌, if◌then◌else◌, length, get_elem?, set, take, drop, insert_at,
}
use bplus_tree.Order.{Ord}
use bplus_tree.Search.{binary_search_keys}
use bplus_tree.Search.Items.{keys, value_at, write_value}
use bplus_tree.Node.{Caps, Leaf, Branch, Node, fits}
use bplus_tree.Siblings.{Siblings, alloc_leaf_block, link_right}
use bplus_tree.Descend.{child_for_key}

module _ {ℓ κ} {K : Type ℓ} {V : Type κ} (c : Caps) where
  -- `insert_into_leaf_slot` and `shift_and_write`: the slots from `idx` on move up.
  unfoldable pub insert_into_leaf_slot : List (K × V) → ℕ → K → V → Option (List (K × V))
  insert_into_leaf_slot items idx key value = fits c.leaf_cap (insert_at items idx (key, value))

  -- `leaf_insert_or_split`, the moves of a full leaf: its items and those of the new right leaf.
  unfoldable pub split_items : List (K × V) → ℕ → K → V → Option (List (K × V) × List (K × V))
  split_items items insert_pos key value =
      let left_count = (length items + 1) / 2 in
      let left_keep = if ltb insert_pos left_count then left_count - 1 else left_count in
      let kept = take left_keep items in
      let moved = drop left_keep items in
      if ltb insert_pos left_count
      then (do
        left_items ← insert_into_leaf_slot kept insert_pos key value
        some (left_items, moved))
      else (do
        right_items ← insert_into_leaf_slot moved (insert_pos - left_keep) key value
        some (kept, right_items))

  -- `leaf_insert_or_split`, the branch of a full leaf.
  unfoldable pub leaf_split :
      Leaf K V → ℕ → K → V → Siblings → Option (InsertResult K V (Leaf K V) × Siblings)
  unfolding split_items
  leaf_split leaf insert_pos key value s =
      let (right, s1) = alloc_leaf_block s in
      do
        (left_items, right_items) ← split_items leaf.items insert_pos key value
        (sep, _) ← get_elem? right_items 0
        some (
          split (record leaf { items = left_items }) sep
              (record { addr = right; items = right_items }) none,
          link_right leaf.addr right s1,
        )

module _ {ℓ κ} {K : Type ℓ} {V : Type κ} ⦃o : Ord K⦄ (c : Caps) where
  unfoldable pub leaf_insert_or_split :
      Leaf K V → K → V → Siblings → Option (InsertResult K V (Leaf K V) × Siblings)
  unfolding leaf_split
  leaf_insert_or_split leaf key value s = elim (binary_search_keys (keys leaf.items) key) [
    | ok idx ↦ (do
      old ← value_at leaf.items idx
      some (no_split (record leaf { items = write_value leaf.items idx value }) (some old), s))
    | err idx ↦
        if ltb (length leaf.items) c.leaf_cap
        then (do
          items ← insert_into_leaf_slot c leaf.items idx key value
          some (no_split (record leaf { items = items }) none, s))
        else leaf_split c leaf idx key value s
  ]

module _ {ℓ κ} {K : Type ℓ} {A : Type κ} (c : Caps) where
  -- The two arrays of a branch with a key at `idx` and a child behind it.
  unfoldable pub insert_into_branch_slot : Branch K A → ℕ → K → A → Option (Branch K A)
  insert_into_branch_slot b idx key right = do
    ks ← fits c.branch_cap (insert_at b.keys idx key)
    some (record { keys = ks; children = insert_at b.children (suc idx) right })

module _ {ℓ κ μ} {K : Type ℓ} {V : Type κ} {A : Type μ} (c : Caps) where
  -- `branch_insert_and_split`; `pm` keys remain on the left.
  unfoldable pub branch_insert_and_split :
      Branch K A → ℕ → K → A → Option V → Option (InsertResult K V (Branch K A))
  unfolding insert_into_branch_slot
  branch_insert_and_split b insert_idx ins_key ins_right old_value =
      let len = length b.keys in
      let pm = (len + 1) / 2 in
      if ltb insert_idx pm
      then (do
        promote ← get_elem? b.keys (pm - 1)
        left ←
            insert_into_branch_slot c
              (record { keys = take (pm - 1) b.keys; children = take pm b.children }) insert_idx
              ins_key ins_right
        some (
            split left promote (record { keys = drop pm b.keys; children = drop pm b.children })
              old_value))
      else if insert_idx == pm
      then some (
          split (record { keys = take pm b.keys; children = take (pm + 1) b.children }) ins_key
            (record { keys = drop pm b.keys; children = ins_right ∷ drop (pm + 1) b.children })
            old_value)
      else (do
        promote ← get_elem? b.keys pm
        ks ← fits c.branch_cap (insert_at (drop (pm + 1) b.keys) (insert_idx - (pm + 1)) ins_key)
        let first_count = insert_idx - pm
        let chunk1 = take first_count (drop (pm + 1) b.children)
        let chunk2 = drop (insert_idx + 1) b.children
        some (
            split (record { keys = take pm b.keys; children = take (pm + 1) b.children }) promote
              (record { keys = ks; children = chunk1 ++ ins_right ∷ chunk2 }) old_value))

  -- `insert_rec`, what a branch does with the result for its child at `child_idx`.
  unfoldable pub insert_above :
      Branch K A → ℕ → InsertResult K V A → Option (InsertResult K V (Branch K A))
  unfolding branch_insert_and_split
  insert_above b child_idx (no_split child old) =
      some (no_split (record b { children = set b.children child_idx child }) old)
  insert_above b child_idx (split child sep_key right old_value) =
      let b' : Branch K A = record b { children = set b.children child_idx child } in
      if ltb (length b.keys) c.branch_cap
      then (do
        b'' ← insert_into_branch_slot c b' child_idx sep_key right
        some (no_split b'' old_value))
      else branch_insert_and_split b' child_idx sep_key right old_value

module _ {ℓ κ} {K : Type ℓ} {V : Type κ} ⦃o : Ord K⦄ (c : Caps) where
  unfoldable pub insert_rec :
      (h : ℕ) → Node K V h → K → V → Siblings → Option (InsertResult K V (Node K V h) × Siblings)
  unfolding leaf_insert_or_split insert_above
  insert_rec zero leaf key value s = leaf_insert_or_split c leaf key value s
  insert_rec (suc h) b key value s = do
    (child, child_idx) ← child_for_key b key
    (result, s') ← insert_rec h child key value s
    result' ← insert_above c b child_idx result
    some (result', s')
