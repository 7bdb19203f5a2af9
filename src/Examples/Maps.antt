-- ===== src/Examples/Maps.antt =====
-- The theorems on maps at concrete maps and calls.
use bplus_tree.Base.{ℕ, ◌≡◌, refl, none, some, List, [], ◌∷◌, map, arith, Ensures, ok}
use bplus_tree.Order.{nat_ord}
use Prim.Native.Nat.Ordering.{eq}
use bplus_tree.Entries.{lookup, IsAscending}
use bplus_tree.Map.{BPlusTreeMap, new, insert, remove, batch_insert, get, get_many}
use bplus_tree.Map.Valid.{IsValidMap, contents}
use bplus_tree.Map.Insertion.{IsInserted, insert-IsInserted}
use bplus_tree.Map.Removal.{IsRemoved, remove-IsRemoved}
use bplus_tree.Map.Collapse.{IsRootOf, check_root_collapse-IsRootOf}
use bplus_tree.Map.Reading.{get-contents}
use bplus_tree.Map.Effects.{get-insert, get-remove}
use bplus_tree.Map.Creation.{IsNew, new-IsNew}
use bplus_tree.Map.Batches.{
  insert_all, replaced_all, collect, or_missing, batch_insert-insert_all, get_many-collect,
}
use bplus_tree.Map.History.{
  Call, put, take_out, look, run, entries_after, answers_of, run-new_answers,
}
use bplus_tree.Delete.{check_root_collapse}
use bplus_tree.Examples.Sample.{four, four-IsUsable, root, store, sample, sample-IsValid}

-- Splits, merges and the collapse of the root.
abbrev calls : List (Call ℕ ℕ)
calls =
    put 1 10
    ∷ put 2 20
    ∷ put 3 30
    ∷ put 4 40
    ∷ put 5 50
    ∷ put 3 33
    ∷ look 3
    ∷ take_out 1
    ∷ take_out 2
    ∷ take_out 9
    ∷ look 2
    ∷ []

answers :
    (answers_of calls []
      ≡ none ∷ none ∷ none ∷ none ∷ none ∷ some 30 ∷ some 33 ∷ some 10 ∷ some 20 ∷ none ∷ none ∷ [])
unfolding nat_ord bplus_tree.Entries.insert bplus_tree.Entries.remove lookup
answers = refl

run-new_answers_example :
    (m : BPlusTreeMap ℕ ℕ) × (new 4 ≡ ok m)
    × Ensures (run m calls) (λ p.
      IsValidMap p.0 × (contents p.0 ≡ entries_after calls []) × (p.1 ≡ answers_of calls []))
run-new_answers_example = run-new_answers 4 calls (omega arith) (omega arith)

insert-IsInserted_example : Ensures (insert sample 0 9) (λ p. IsInserted 0 9 sample p.0 p.1)
insert-IsInserted_example = insert-IsInserted 0 9 sample four-IsUsable sample-IsValid

remove-IsRemoved_example : Ensures (remove sample 5) (λ p. IsRemoved 5 sample p.0 p.1)
remove-IsRemoved_example = remove-IsRemoved 5 sample four-IsUsable sample-IsValid

get-contents_example : get sample 5 ≡ lookup 5 (contents sample)
get-contents_example = get-contents 5 sample sample-IsValid

get-insert_example : Ensures (insert sample 0 9) (λ p.
    ((q : ℕ) → get p.0 q ≡ (elim (nat_ord.cmp q 0) [ eq ↦ some 9 | _ ↦ get sample q ]))
    × (p.1 ≡ get sample 0))
get-insert_example = get-insert sample four-IsUsable sample-IsValid 0 9

get-remove_example : Ensures (remove sample 5) (λ p.
    ((q : ℕ) → get p.0 q ≡ (elim (nat_ord.cmp q 5) [ eq ↦ none | _ ↦ get sample q ]))
    × (p.1 ≡ get sample 5))
get-remove_example = get-remove sample four-IsUsable sample-IsValid 5

check_root_collapse-IsRootOf_example :
    IsRootOf ℕ four 1 root (check_root_collapse four 1 root store).0
check_root_collapse-IsRootOf_example =
    check_root_collapse-IsRootOf ℕ four four-IsUsable 1 root store
      (omega arith, sample-IsValid.1, sample-IsValid.2)

abbrev pairs : List (ℕ × ℕ)
pairs = (0, 9) ∷ (5, 55) ∷ (7, 70) ∷ []

batch_insert-insert_all_example : Ensures (batch_insert sample pairs) (λ p.
    IsValidMap p.0
    × (contents p.0 ≡ insert_all pairs (contents sample))
    × (p.1 ≡ replaced_all pairs (contents sample)))
batch_insert-insert_all_example = batch_insert-insert_all sample pairs four-IsUsable sample-IsValid

abbrev wanted : List ℕ
wanted = 6 ∷ 1 ∷ 7 ∷ []

get_many-collect_example :
    get_many sample wanted ≡ or_missing [] (collect (map (λ k. lookup k (contents sample)) wanted))
get_many-collect_example = get_many-collect sample sample-IsValid wanted

new-IsNew_example : (m : BPlusTreeMap ℕ ℕ) × (new 16 ≡ ok m) × IsNew ℕ ℕ 16 m
new-IsNew_example = new-IsNew ℕ ℕ 16 (omega arith) (omega arith)
