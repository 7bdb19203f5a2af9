-- ===== src/Lib.antt =====
-- A model of the B+ tree map of this crate (`src/*.rs`, the library, without the programs under
-- `src/bin`), with the theorems that make it an ordered map.
--
-- The parts, and the files that model them:
--
-- * `Order` is the bound `K: Ord` of the keys, with the laws that the trait documents. `Entries`
--   is the abstract map: a list of entries in ascending order with look-up, insertion and removal.
--   Every operation of the tree is compared with it.
-- * `Node` has the nodes of `src/layout.rs` and `src/node_alloc.rs`: a leaf with its items and a
--   branch with its keys and children. The type of a node carries its height, which stands for
--   the tag of the block, so that a tree of nodes is a value. The arrays of a leaf are one list of
--   pairs and hold the slots below `len` alone. `Node.Valid` is the invariant of a node: order,
--   bounds, minimum and maximum number of keys, as `check_invariants` of `src/common.rs` looks for
--   them. Equal depth is not tested by the code, nor by the model, where the type has it. `Node.Spans` has what it means for the children of a branch.
-- * `Siblings` is the store of the sibling pointers, by the address of the leaf: which leaf comes
--   next and before, which blocks are live, and whether a dead block was written or freed (`fault`).
--   `alloc_leaf_block`, the linking of a split and
--   `free_leaf_node` change it; insertion and removal pass it along. `Siblings.Chain` says that
--   the pointers follow a list of addresses, and the files named `Chain` under `Insert`,
--   `Rebalance` and `Delete` carry that through the operations.
-- * `Search` and `Descend` are the searches of `src/common.rs` and `src/get.rs`:
--   `binary_search_keys`, `child_for_key`, `leaf_for_key`, `leaf_search`.
-- * `Insert` is `src/insert.rs`: `leaf_insert_or_split`, `branch_insert_and_split`, `insert_rec`.
-- * `Rebalance` and `Delete` are `src/delete.rs`. `rebalance_leaf_child` and
--   `rebalance_branch_child` take the same steps, so `Rebalance` has them once, over a record
--   `Kind` of what two neighbours can do: lend an entry, merge. `Delete` has the two kinds,
--   `remove_rec` and `check_root_collapse`.
-- * `Map` has `BPlusTreeMap` itself with `new`, `insert`, `batch_insert`, `remove`, `get` and
--   the calls built on them, and `Error` the error type of `src/lib.rs`. `Map.Sound` is the
--   invariant of a map with its store: valid nodes, leaves linked in the order of the tree, no
--   other block live, and no `fault` so far.
-- * `Walk` reads the leaves by their addresses, from the ends of the tree or along the chain:
--   `leftmost_leaf`, `rightmost_leaf`, `len`, `leaf_count`.
-- * `Iterate` is `src/iterate.rs`: the state of `Items`, `next`, `next_back`, `size_hint`,
--   `items`, `range`, `first` and `last` (`Iterate.Queries`), `items_range` and
--   `collect_range_bounds` (`Iterate.Ranged`).
-- * `Release` is `clear` and `free_tree_no_drop` of `src/lib.rs`, which give the blocks back.
-- * `Check` has the checker `check_invariants` of `src/common.rs` as a function that can be run.
-- * `Slots` has the copies between the slots of leaves (`shift_right`, `write_kv_at`, `move_kv_at`,
--   `shift_left_kv` of `src/common.rs`, and the code that calls them), on arrays of cells. The items
--   of `Node` are what such arrays hold below `len`.
-- * `Layout` has the computation of the memory layouts in `src/layout.rs`. The width of `usize` is a
--   parameter: sums and products wrap at it, and the theorems ask that the offsets fit
--   (`leaf_room`, `branch_room`). `align_up` is the bit mask of the code, and
--   the alignments are powers of two, as the code asserts.
-- * `Examples` has a concrete map, and the theorems at it.
--
-- How the code is read. A step that the code takes on shared memory is a function from the old node
-- and the old store to the new ones. `none` is a panic, or the use of a slot that is not there: a
-- write behind the end of an array is a fault (`fits`), and so is a read of a slot at or above
-- `len`. Allocation gives an address that was not in use. It succeeds,
-- except that `new_if` has the error that `new` returns where it does not. `slice::binary_search` is
-- modelled by what the standard library documents for a sorted slice. A pointer to a leaf is its
-- address, and what stands there is looked up among the leaves of the tree (`leaf_at`): a pointer
-- that leads to no leaf is a fault (`none`). A write of a sibling pointer in a block that is not
-- allocated, and freeing such a block, set `fault` in the store, which nothing clears; in `Release`,
-- freeing such a block is `none`.
--
-- Fuel. The operations by key have none: they recur on the height of the node or on a list. The
-- loops along the chain have fuel, one more than there are leaves, which is enough when the chain
-- lists the leaves. To run an iterator to its end (`collect`) takes fuel above the number of entries.
--
-- Capacities. `new(n)` makes nodes of `n` keys, with `n` reduced modulo 65,536; `with_budgets`
-- computes capacities from the sizes of the types, and may come to 0 or 1. The theorems on insertion
-- and removal ask for capacities of 2 and more (`IsUsable`).
--
-- Not modelled: the bytes of a node; `ptr::copy` between the slots of a branch and in the split of a
-- leaf (a list stands for the slots); the lifetimes of the references that an iterator returns; and
-- the text of the errors of `check_invariants_detailed`.
pub mod Base
pub mod Order
pub mod Entries
pub mod Search
pub mod Node
pub mod Siblings
pub mod Descend
pub mod Insert
pub mod Error
pub mod Rebalance
pub mod Delete
pub mod Map
pub mod Walk
pub mod Iterate
pub mod Release
pub mod Layout
pub mod Check
pub mod Slots
pub mod Examples
