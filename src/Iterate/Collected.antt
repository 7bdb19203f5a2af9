-- ===== src/Iterate/Collected.antt =====
-- `collect_range_bounds` and `items_range`: a range that is collected at once.
use mathlib.Core.Path.{subst}
use bplus_tree.Base.{
  ℕ, zero, suc, ◌≤◌, ◌<◌, ◌≡◌, refl, sym, ap, ◌∙◌, inl, inr, Bool, true, false, Option, none, some,
  List, [], ◌∷◌, ◌++◌, arith, Ensures, Bool-cases, length, drop, flat_map,
}
use bplus_tree.Order.{Ord}
use bplus_tree.Search.{binary_search_keys}
use bplus_tree.Search.Items.{keys}
use bplus_tree.Node.{Leaf}
use bplus_tree.Map.{BPlusTreeMap}
use bplus_tree.Map.Valid.{contents, contents-IsAscending}
use bplus_tree.Map.Sound.{IsSound}
use bplus_tree.Walk.{tree_leaves, walk_fuel, leaf_for_key}
use bplus_tree.Walk.Ends.{items_of}
use bplus_tree.Walk.Links.{next-IsWalk}
use bplus_tree.Walk.Counts.{contents-leaves}
use bplus_tree.Iterate.{Bound, included, excluded, unbounded, vec, next, collect, start_idx}
use bplus_tree.Iterate.Queries.{range}
use bplus_tree.Iterate.Ranged.{
  push_leaves, first_leaf, first_idx, collect_range_bounds, items_range,
}
use bplus_tree.Iterate.Forward.{Walks}
use bplus_tree.Iterate.Full.{end_leaves}
use bplus_tree.Iterate.Bounds.{IsFrom, bound_at, select, in_range, take_within-in_range}
use bplus_tree.Iterate.Starts.{
  no_leaves, find_leaf, place-IsFrom, place-Walks, place-inside, whole-IsFrom, IsKeyLeaf,
}
use bplus_tree.Iterate.Ranges.{range-contents}
use bplus_tree.Iterate.Pushed.{push_leaves-run}

module _ {ℓ κ} {K : Type ℓ} {V : Type κ} ⦃o : Ord K⦄ where
  module _ (m : BPlusTreeMap K V) (sound : IsSound m) (end : Bound K) where
    push-range :
        (start : Bound K) (l : Leaf K V) (ls : List (Leaf K V)) (idx : ℕ)
        → Walks m (l ∷ ls)
        → length ls < length (tree_leaves m)
        → IsFrom start (contents m) (drop idx l.items ++ items_of ls)
        → push_leaves (walk_fuel m) m end l.addr idx []
          ≡ some (select (in_range start end) (contents m))
    push-range start l ls idx w b from =
        push_leaves-run (walk_fuel m) m end l ls idx [] w (omega arith)
        ∙ ap some (
            take_within-in_range start end (contents m) (drop idx l.items ++ items_of ls)
              (contents-IsAscending m sound.valid) from)

    collect_key-some :
        (excl : Bool) (k : K) (l : Leaf K V)
        → leaf_for_key m k ≡ some l
        → IsKeyLeaf (tree_leaves m) k l
        → collect_range_bounds m (bound_at excl k) end
          ≡ some (select (in_range (bound_at excl k) end) (contents m))
    unfolding collect_range_bounds first_leaf first_idx
    collect_key-some excl k l run place = ran excl (
        push-range (bound_at excl k) l place.right
          (start_idx excl (binary_search_keys (keys l.items) k))
          (place-Walks m sound excl k l place) (place-inside m sound excl k l place)
          (place-IsFrom m sound excl k l place))
      where
        ran :
            (excl : Bool)
            → push_leaves
                (walk_fuel m)
                m
                end
                l.addr
                (start_idx excl (binary_search_keys (keys l.items) k))
                []
              ≡ some (select (in_range (bound_at excl k) end) (contents m))
            → collect_range_bounds m (bound_at excl k) end
              ≡ some (select (in_range (bound_at excl k) end) (contents m))
        ran true e = rw (collect_range_bounds, first_leaf, run) e
        ran false e = rw (collect_range_bounds, first_leaf, run) e

    collect_key-none :
        (excl : Bool) (k : K)
        → leaf_for_key m k ≡ none
        → contents m ≡ []
        → collect_range_bounds m (bound_at excl k) end
          ≡ some (select (in_range (bound_at excl k) end) (contents m))
    unfolding collect_range_bounds first_leaf
    collect_key-none true k run e = rw (collect_range_bounds, first_leaf, run) (rw e refl)
    collect_key-none false k run e = rw (collect_range_bounds, first_leaf, run) (rw e refl)

    collect_key-range :
        (excl : Bool) (k : K)
        → collect_range_bounds m (bound_at excl k) end
          ≡ some (select (in_range (bound_at excl k) end) (contents m))
    unfolding collect_range_bounds first_leaf first_idx
    collect_key-range excl k = elim (find_leaf m k sound) [
      | inl (run, e) ↦ collect_key-none excl k run (no_leaves m sound e)
      | inr (l, run, place) ↦ collect_key-some excl k l run place
    ]

  -- On a sound map `collect_range_bounds` returns the entries whose keys are within the two bounds,
  -- in ascending order.
  pub collect_range_bounds-contents :
      (m : BPlusTreeMap K V) (start end : Bound K)
      → IsSound m
      → collect_range_bounds m start end ≡ some (select (in_range start end) (contents m))
  unfolding collect_range_bounds first_leaf first_idx flat_map
  collect_range_bounds-contents m unbounded end sound =
      elim (end_leaves m.caps m.store m.root sound.valid) [
        | inl (run, e) ↦ rw (collect_range_bounds, first_leaf, run) (rw (no_leaves m sound e) refl)
        | inr ((l, ls, run, e), last) ↦
            rw (collect_range_bounds, first_leaf, run)
              (push-range m sound end unbounded l ls 0
                (subst (λ xs. Walks m xs) e (next-IsWalk m sound)) (rw e (omega arith))
                (subst (IsFrom unbounded (contents m)) (contents-leaves m ∙ ap items_of e)
                  (whole-IsFrom (contents m))))
      ]
  collect_range_bounds-contents m (included k) end sound = collect_key-range m sound end false k
  collect_range_bounds-contents m (excluded k) end sound = collect_key-range m sound end true k

module _ {ℓ} {K : Type ℓ} where
  abbrev pub start_of : Option K → Bound K
  start_of none = unbounded
  start_of (some k) = included k

  abbrev pub end_of : Option K → Bound K
  end_of none = unbounded
  end_of (some k) = excluded k

module _ {ℓ κ} {K : Type ℓ} {V : Type κ} where
  length-select : (test : K → Bool) (es : List (K × V)) → length (select test es) ≤ length es
  length-select test [] = omega arith
  length-select test (x ∷ es) = elim (Bool-cases (test x.0)) [
    | inl e ↦ rw e (omega (arith, length-select test es))
    | inr e ↦ rw e (omega (arith, length-select test es))
  ]

module _ {ℓ κ} {K : Type ℓ} {V : Type κ} ⦃o : Ord K⦄ where
  collect-vec :
      (fuel : ℕ) (xs : List (K × V)) → length xs < fuel → collect next fuel (vec xs) ≡ some xs
  unfolding collect next
  collect-vec zero xs b = absurd (omega arith)
  collect-vec (suc fuel) [] b = refl
  collect-vec (suc fuel) (x ∷ xs) b = rw (collect-vec fuel xs (omega arith)) refl

  items_range-collected :
      (m : BPlusTreeMap K V) (start end : Option K) (xs : List (K × V))
      → collect_range_bounds m (start_of start) (end_of end) ≡ some xs
      → items_range m start end ≡ some (vec xs)
  unfolding items_range
  items_range-collected m none none xs e = rw e refl
  items_range-collected m none (some k) xs e = rw e refl
  items_range-collected m (some k) none xs e = rw e refl
  items_range-collected m (some k) (some j) xs e = rw e refl

  -- On a sound map `items_range` returns, and what it has collected at once is what the lazy
  -- iterator of `range` returns for the same bounds, call by call, with any fuel above the number
  -- of entries.
  pub items_range-range :
      (m : BPlusTreeMap K V) (start end : Option K) (fuel : ℕ)
      → IsSound m
      → length (contents m) < fuel
      → Ensures
          (items_range m start end)
          (λ it. collect next fuel it ≡ collect next fuel (range m (start_of start) (end_of end)))
  items_range-range m start end fuel sound b =
      let xs = select (in_range (start_of start) (end_of end)) (contents m) in
      (
        vec xs,
        items_range-collected m start end xs
            (collect_range_bounds-contents m (start_of start) (end_of end) sound),
        collect-vec fuel xs
              (omega (arith, length-select (in_range (start_of start) (end_of end)) (contents m)))
            ∙ sym (range-contents m (start_of start) (end_of end) fuel sound b),
      )
