-- ===== src/Examples/Walks.antt =====
-- The sample map as a chain of leaves: counting, iterating, and giving back its blocks.
use mathlib.Core.List.{reverse}
use bplus_tree.Base.{
  true, ℕ, ◌-◌, ◌≡◌, refl, none, some, List, [], ◌∷◌, arith, ok, Ensures, length, get_elem?, take,
  flat_map,
}
use bplus_tree.Order.{nat_ord}
use bplus_tree.Entries
use bplus_tree.Node.{entries}
use bplus_tree.Node.Leaves.{leaves, addrs}
use bplus_tree.Siblings.Chain.{IsChain}
use bplus_tree.Map.{BPlusTreeMap, new}
use bplus_tree.Map.Valid.{contents}
use bplus_tree.Map.Sound.{IsSound}
use bplus_tree.Map.History.{Call, put, take_out, run, entries_after}
use bplus_tree.Check.{check_invariants}
use bplus_tree.Check.Complete.{check_invariants-IsSound}
use bplus_tree.Walk.{tree_leaves, leaf_ptr, leftmost_leaf, len_from, len}
use bplus_tree.Walk.Counts.{len_from-terminates}
use bplus_tree.Iterate.{included, excluded, unbounded, next, next_back, collect, size_hint}
use bplus_tree.Iterate.Queries.{items, range, first, last}
use bplus_tree.Iterate.Ranged.{items_range}
use bplus_tree.Iterate.Full.{items-contents}
use bplus_tree.Iterate.Advance.{advance, advance-size_hint, advance-next_back, first-last}
use bplus_tree.Iterate.Bounds.{select, in_range}
use bplus_tree.Iterate.Ranges.{range-contents}
use bplus_tree.Iterate.Collected.{items_range-range}
use bplus_tree.Iterate.History.{run-IsSound, run-new_items}
use bplus_tree.Release.{clear}
use bplus_tree.Release.Cleared.{IsCleared, clear-IsCleared}
use bplus_tree.Examples.Sample.{store, sample, sample-IsValid, four-IsUsable}

store-IsChain : IsChain store (1 ∷ 2 ∷ [])
store-IsChain = record {
  linked = (refl, refl, (refl, refl, tt));
  distinct = (refl, (refl, tt));
  live = λ b. ground arith;
  unused = λ b h. ground arith;
  real = refl;
  started = omega arith;
  clean = refl;
}

sample-IsSound : IsSound sample
unfolding addrs flat_map
sample-IsSound = record { usable = four-IsUsable; valid = sample-IsValid; chain = store-IsChain }

abbrev calls : List (Call ℕ ℕ)
calls = put 3 30 ∷ put 1 10 ∷ put 2 20 ∷ take_out 1 ∷ []

entries_left : entries_after calls [] ≡ (2, 20) ∷ (3, 30) ∷ []
unfolding nat_ord bplus_tree.Entries.insert bplus_tree.Entries.remove
entries_left = refl

sample-length : length (contents sample) ≡ 6
unfolding entries flat_map
sample-length = refl

sample_leaves : length (tree_leaves sample) ≡ 2
unfolding leaves flat_map
sample_leaves = refl

run-new_items_example :
    (m : BPlusTreeMap ℕ ℕ) × (new 4 ≡ ok m)
    × Ensures (run m calls) (λ p.
      (check_invariants p.0 ≡ true)
      × (len p.0 ≡ some (length (entries_after calls [])))
      × Ensures (items p.0) (λ it.
        (collect next 10 it ≡ some (entries_after calls []))
        × (collect next_back 10 it ≡ some (reverse (entries_after calls [])))))
run-new_items_example =
    run-new_items ℕ ℕ 4 calls 10 (omega arith) (omega arith) (rw entries_left (omega arith))

check_invariants-IsSound_example : check_invariants sample ≡ true
check_invariants-IsSound_example = check_invariants-IsSound sample sample-IsSound

run-IsSound_example :
    Ensures
      (run sample calls)
      (λ p. IsSound p.0 × (contents p.0 ≡ entries_after calls (contents sample)))
run-IsSound_example = run-IsSound sample calls sample-IsSound

items-contents_example : Ensures (items sample) (λ it.
    (collect next 10 it ≡ some (contents sample))
    × (collect next_back 10 it ≡ some (reverse (contents sample))))
items-contents_example = items-contents sample 10 sample-IsSound (omega (arith, sample-length))

range-contents_example :
    collect next 10 (range sample (excluded 2) (included 5))
    ≡ some (select (in_range (excluded 2) (included 5)) (contents sample))
range-contents_example =
    range-contents sample (excluded 2) (included 5) 10 sample-IsSound (omega (arith, sample-length))

items_range-range_example :
    Ensures
      (items_range sample (some 2) (some 5))
      (λ it. collect next 10 it ≡ collect next 10 (range sample (included 2) (excluded 5)))
items_range-range_example =
    items_range-range sample (some 2) (some 5) 10 sample-IsSound (omega (arith, sample-length))

len_from-terminates_example :
    len_from 3 sample (leaf_ptr (leftmost_leaf sample)) 0 ≡ some (length (contents sample))
len_from-terminates_example =
    len_from-terminates sample sample-IsSound 3 (omega (arith, sample_leaves))

clear-IsCleared_example : Ensures (clear sample) (λ p. IsCleared sample p.0 p.1)
clear-IsCleared_example = clear-IsCleared sample sample-IsSound

advance-size_hint_example : Ensures (items sample) (λ it. Ensures (advance 4 it) (λ r.
    (r.0 ≡ take 4 (contents sample))
    × (size_hint r.1 ≡ (length (contents sample) - 4, some (length (contents sample) - 4)))))
advance-size_hint_example = advance-size_hint sample sample-IsSound 4 (omega (arith, sample-length))

advance-next_back_example : Ensures (items sample) (λ it. Ensures (advance 8 it) (λ r.
    (r.0 ≡ take 8 (contents sample))
    × (collect next_back 10 r.1 ≡ some (reverse (contents sample)))))
advance-next_back_example =
    advance-next_back sample sample-IsSound 8 10 (omega (arith, sample-length))

first-last_example :
    (first sample ≡ some (get_elem? (contents sample) 0))
    × (last sample ≡ some (get_elem? (reverse (contents sample)) 0))
first-last_example = first-last sample sample-IsSound

-- A range looks for its first entry only in `next`: from the back it is over at once.
range_from_back :
    next_back (range sample (included 2) unbounded)
    ≡ some (none, range sample (included 2) unbounded)
unfolding next_back range
range_from_back = refl
