-- ===== src/Examples/Slots.antt =====
-- Leaves of four slots each: the copies between slots at concrete items.
use bplus_tree.Base.{
  ℕ, ◌≡◌, refl, none, some, List, [], ◌∷◌, ◌++◌, arith, Ensures, insert_at, remove_at,
}
use bplus_tree.Slots.{
  LeafParts, insert_into_leaf_slot, remove_slot, merge_slots, borrow_slots, borrow_right_slots,
  shift_right, ptr_copy,
}
use bplus_tree.Slots.Items.{Holds, insert_into_leaf_slot-insert_at, remove_slot-remove_at}
use bplus_tree.Slots.Transfers.{merge_slots-append, borrow_slots-cons}
use bplus_tree.Slots.Loans.{borrow_right_slots-append}

-- The second leaf has a value left over behind its items.
abbrev low : LeafParts ℕ ℕ
low = record {
  len = 2;
  slots = record {
    keys = some 1 ∷ some 4 ∷ none ∷ none ∷ [];
    vals = some 10 ∷ some 40 ∷ none ∷ none ∷ [];
  };
}

abbrev high : LeafParts ℕ ℕ
high = record {
  len = 1;
  slots = record {
    keys = some 6 ∷ some 9 ∷ none ∷ none ∷ [];
    vals = some 60 ∷ some 90 ∷ none ∷ none ∷ [];
  };
}

abbrev low_items : List (ℕ × ℕ)
low_items = (1, 10) ∷ (4, 40) ∷ []

abbrev high_items : List (ℕ × ℕ)
high_items = (6, 60) ∷ []

low-Holds : Holds 4 low low_items
low-Holds = record {
  len = refl;
  slots = record { keys = (none ∷ none ∷ [], refl, refl); vals = (none ∷ none ∷ [], refl, refl) };
  narrow = omega arith;
}

high-Holds : Holds 4 high high_items
high-Holds = record {
  len = refl;
  slots = record {
    keys = (some 9 ∷ none ∷ none ∷ [], refl, refl);
    vals = (some 90 ∷ none ∷ none ∷ [], refl, refl);
  };
  narrow = omega arith;
}

-- The shift leaves the old item in its slot, for the write that follows.
shifted :
    shift_right low.slots 0 2
    ≡ some (record {
      keys = some 1 ∷ some 1 ∷ some 4 ∷ none ∷ [];
      vals = some 10 ∷ some 10 ∷ some 40 ∷ none ∷ [];
    })
unfolding shift_right ptr_copy
shifted = refl

insert_into_leaf_slot-insert_at_example :
    Ensures
      (insert_into_leaf_slot low 1 low.len 2 20)
      (λ q. Holds 4 q (insert_at low_items 1 (2, 20)))
insert_into_leaf_slot-insert_at_example =
    insert_into_leaf_slot-insert_at 4 low low_items 1 2 20 low-Holds (omega arith) (omega arith)

remove_slot-remove_at_example :
    Ensures (remove_slot low 0) (λ r. Holds 4 r.0 (remove_at low_items 0) × (r.1 ≡ 10))
remove_slot-remove_at_example = remove_slot-remove_at 4 low low_items 0 (1, 10) low-Holds refl

merge_slots-append_example :
    Ensures (merge_slots 4 low high) (λ r. Holds 4 r.0 (low_items ++ high_items) × Holds 4 r.1 [])
merge_slots-append_example =
    merge_slots-append 4 low high low_items high_items low-Holds high-Holds (omega arith)

borrow_slots-cons_example :
    Ensures
      (borrow_slots low high)
      (λ r. Holds 4 r.0 ((1, 10) ∷ []) × Holds 4 r.1 ((4, 40) ∷ high_items))
borrow_slots-cons_example =
    borrow_slots-cons 4 low high ((1, 10) ∷ []) high_items (4, 40) low-Holds high-Holds
      (omega arith)

borrow_right_slots-append_example :
    Ensures
      (borrow_right_slots high low)
      (λ q. Holds 4 q.0 (high_items ++ (1, 10) ∷ []) × Holds 4 q.1 ((4, 40) ∷ []))
borrow_right_slots-append_example =
    borrow_right_slots-append 4 high low high_items ((4, 40) ∷ []) (1, 10) high-Holds low-Holds
      (omega arith)
