-- ===== src/Iterate.antt =====
-- iterate.rs: the iterators over a map. The outer `none` of a result is a fault: the read of a
-- block that is no leaf of the map, or fuel that has run out; the inner one is the `None` of the
-- source, the end of the iteration.
pub mod Queries
pub mod Ranged
pub mod Forward
pub mod Backward
pub mod Full
pub mod Advance
pub mod Bounds
pub mod Starts
pub mod Ranges
pub mod Pushed
pub mod Collected
pub mod History
use bplus_tree.Base.{
  ℕ, zero, suc, ◌+◌, ◌-◌, Bool, true, false, ◌&&◌, Option, none, some, List, [], ◌∷◌, ◌++◌, Result,
  ok, err, ◌>>=◌, ltb, leb, ◌==◌, if◌then◌else◌, length, get_elem?, drop,
}
use mathlib.Core.Option.{map as map_option}
use Prim.Native.Nat.Ordering.{lt, eq, gt}
use bplus_tree.Order.{Ord, is_lt, is_le}
use bplus_tree.Search.{binary_search_keys}
use bplus_tree.Search.Items.{keys}
use bplus_tree.Node.{Leaf}
use bplus_tree.Siblings.{null}
use bplus_tree.Map.{BPlusTreeMap}
use bplus_tree.Map.Valid.{contents}
use bplus_tree.Walk.{
  leaf_at, tree_leaves, walk_fuel, leftmost_leaf, rightmost_leaf, leaf_for_key, len,
}

-- `Bound` of the standard library.
pub data Bound {ℓ} (K : Type ℓ) : Type ℓ where
  included : K → Bound K
  excluded : K → Bound K
  unbounded : Bound K

-- `NonNull::new`
abbrev pub non_null : ℕ → Option ℕ
non_null p = if p == null then none else some p

-- The index of the first item of a range, from the search for its start in a leaf.
abbrev pub start_idx : Bool → Result ℕ ℕ → ℕ
start_idx excluded_start (ok i) = if excluded_start then i + 1 else i
start_idx excluded_start (err i) = i

-- The fields of `ItemsInner::Lazy`. A pointer to a leaf is its address.
pub record Lazy {ℓ κ} (K : Type ℓ) (V : Type κ) : Type (ℓ ⊔ κ) where
  pub tree : BPlusTreeMap K V
  pub front_leaf : Option ℕ
  pub front_idx : ℕ
  pub back_leaf : Option ℕ
  pub back_idx : ℕ
  pub remaining : ℕ
  pub start_bound : Bound K
  pub end_bound : Bound K
  pub initialized : Bool

-- `ItemsInner`; the vector holds what its iterator has not returned yet.
pub data Items {ℓ κ} (K : Type ℓ) (V : Type κ) : Type (ℓ ⊔ κ) where
  lazy : Lazy K V → Items K V
  vec : List (K × V) → Items K V

module _ {ℓ} {K : Type ℓ} ⦃o : Ord K⦄ where
  -- The check of the end bound in `next`, and of the start bound in `next_back`.
  unfoldable pub within_end : Bound K → K → Bool
  within_end unbounded k = true
  within_end (included e) k = is_le (o.cmp k e)
  within_end (excluded e) k = is_lt (o.cmp k e)

  unfoldable pub within_start : Bound K → K → Bool
  within_start unbounded k = true
  within_start (included s) k = elim (o.cmp k s) [ lt ↦ false | _ ↦ true ]
  within_start (excluded s) k = elim (o.cmp k s) [ gt ↦ true | _ ↦ false ]

module _ {ℓ κ} {K : Type ℓ} {V : Type κ} where
  -- `*front_leaf = None; *remaining = 0`
  unfoldable pub end_front : Lazy K V → Lazy K V
  end_front it = record it { front_leaf = none; remaining = 0 }

  unfoldable pub end_back : Lazy K V → Lazy K V
  end_back it = record it { back_leaf = none; remaining = 0 }

  -- The last element of a vector, and the others: `next_back` of its iterator.
  unfoldable pub pop_back : List (K × V) → Option (K × V) × List (K × V)
  pop_back [] = (none, [])
  pop_back (x ∷ xs) =
      let (last, rest) = pop_back xs in
      elim last [ none ↦ (some x, []) | some y ↦ (some y, x ∷ rest) ]

module _ {ℓ κ} {K : Type ℓ} {V : Type κ} ⦃o : Ord K⦄ where
  -- `next`, where the first key of a range is looked for.
  unfoldable pub seek_front : BPlusTreeMap K V → K → Bool → Option ℕ × ℕ
  unfolding leaf_for_key
  seek_front m k excluded_start = elim (leaf_for_key m k) [
    | none ↦ (none, 0)
    | some leaf ↦
        let idx = start_idx excluded_start (binary_search_keys (keys leaf.items) k) in
        if leb (length leaf.items) idx
        then (non_null (m.store.next leaf.addr), 0)
        else (some leaf.addr, idx)
  ]

  unfoldable pub start_front : BPlusTreeMap K V → Bound K → Option ℕ × ℕ
  unfolding leftmost_leaf seek_front
  start_front m unbounded = elim (leftmost_leaf m) [
    | none ↦ (none, 0)
    | some leaf ↦ (some leaf.addr, 0)
  ]
  start_front m (included k) = seek_front m k false
  start_front m (excluded k) = seek_front m k true

  -- `next`, "Lazy initialization on first call".
  unfoldable pub initialize : Lazy K V → Lazy K V
  unfolding start_front
  initialize it = elim it.initialized [
    | true ↦ it
    | false ↦
        let (front_leaf, front_idx) = start_front it.tree it.start_bound in
        record it { initialized = true; front_leaf = front_leaf; front_idx = front_idx }
  ]

  -- `next`, the loop over the leaves.
  unfoldable pub next_loop : ℕ → Lazy K V → Option (Option (K × V) × Lazy K V)
  unfolding leaf_at within_end end_front
  next_loop zero it = none
  next_loop (suc fuel) it = elim it.front_leaf [
    | none ↦ some (none, it)
    | some leaf ↦ (do
      l ← leaf_at (tree_leaves it.tree) leaf
      elim (get_elem? l.items it.front_idx) [
        | some (k, v) ↦
            if within_end it.end_bound k
            then some (
              some (k, v),
              record it { front_idx = it.front_idx + 1; remaining = it.remaining - 1 },
            )
            else some (none, end_front it)
        | none ↦ elim (it.tree.store.next leaf == null) [
          | true ↦ some (none, end_front it)
          | false ↦
              next_loop fuel
                (record it { front_leaf = some (it.tree.store.next leaf); front_idx = 0 })
        ]
      ])
  ]

  unfoldable pub next : Items K V → Option (Option (K × V) × Items K V)
  unfolding initialize next_loop
  next (lazy it) = do
    (item, it') ← next_loop (walk_fuel it.tree) (initialize it)
    some (item, lazy it')
  next (vec []) = some (none, vec [])
  next (vec (x ∷ xs)) = some (some x, vec xs)

  -- `next_back`, which calls itself at the end of a leaf.
  unfoldable pub next_back_loop : ℕ → Lazy K V → Option (Option (K × V) × Lazy K V)
  unfolding leaf_at within_start end_back
  next_back_loop zero it = none
  next_back_loop (suc fuel) it = elim it.back_leaf [
    | none ↦ some (none, it)
    | some leaf ↦ (do
      l ← leaf_at (tree_leaves it.tree) leaf
      elim it.back_idx [
        | suc idx ↦ (do
          (k, v) ← get_elem? l.items idx
          if within_start it.start_bound k
              then some (some (k, v), record it { back_idx = idx; remaining = it.remaining - 1 })
              else some (none, end_back (record it { back_idx = idx })))
        | zero ↦ elim (it.tree.store.prev leaf == null) [
          | true ↦ some (none, end_back it)
          | false ↦ (do
            l' ← leaf_at (tree_leaves it.tree) (it.tree.store.prev leaf)
            next_back_loop fuel (record it {
              back_leaf = some (it.tree.store.prev leaf);
              back_idx = length l'.items;
            }))
        ]
      ])
  ]

  unfoldable pub next_back : Items K V → Option (Option (K × V) × Items K V)
  unfolding next_back_loop pop_back
  next_back (lazy it) = do
    (item, it') ← next_back_loop (walk_fuel it.tree) it
    some (item, lazy it')
  next_back (vec xs) = let (item, rest) = pop_back xs in some (item, vec rest)

  -- `Iterator::collect`: `step` until it returns `None`.
  unfoldable pub collect :
      (Items K V → Option (Option (K × V) × Items K V)) → ℕ → Items K V → Option (List (K × V))
  collect step zero it = none
  collect step (suc fuel) it = do
    (item, it') ← step it
    elim item [ none ↦ some [] | some x ↦ (do xs ← collect step fuel it'; some (x ∷ xs)) ]

module _ {ℓ κ} {K : Type ℓ} {V : Type κ} where
  -- `size_hint`: a lower bound, and the upper one when it is known.
  unfoldable pub size_hint : Items K V → ℕ × Option ℕ
  size_hint (lazy it) =
      if it.initialized && ltb 0 it.remaining then (it.remaining, some it.remaining) else (0, none)
  size_hint (vec xs) = (length xs, some (length xs))
