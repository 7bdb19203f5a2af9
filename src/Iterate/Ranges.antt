-- ===== src/Iterate/Ranges.antt =====
-- The lazy iterator over a range.
use bplus_tree.Base.{
  ℕ, zero, suc, ◌<◌, ◌≡◌, refl, ap, ◌∙◌, true, none, some, arith, length, length-append,
}
use bplus_tree.Order.{Ord}
use bplus_tree.Map.{BPlusTreeMap}
use bplus_tree.Map.Valid.{contents, contents-IsAscending}
use bplus_tree.Map.Sound.{IsSound}
use bplus_tree.Iterate.{Bound, Lazy, lazy, start_front, initialize, next, collect}
use bplus_tree.Iterate.Queries.{range}
use bplus_tree.Iterate.Forward.{collect-IsAt}
use bplus_tree.Iterate.Bounds.{select, in_range, take_within-in_range}
use bplus_tree.Iterate.Starts.{start_front-Starts}

module _ {ℓ κ} {K : Type ℓ} {V : Type κ} ⦃o : Ord K⦄ (m : BPlusTreeMap K V)
    (start end : Bound K) where
  -- A range whose first entry has been looked for.
  started : Lazy K V
  started = record {
    tree = m;
    front_leaf = (start_front m start).0;
    front_idx = (start_front m start).1;
    back_leaf = none;
    back_idx = 0;
    remaining = 0;
    start_bound = start;
    end_bound = end;
    initialized = true;
  }

  -- The first call of `next` does that.
  next-started : next (range m start end) ≡ next (lazy started)
  unfolding next initialize range started
  next-started = refl

  collect-started :
      (fuel : ℕ) → collect next fuel (range m start end) ≡ collect next fuel (lazy started)
  unfolding collect range
  collect-started zero = refl
  collect-started (suc fuel) = rw (collect, next-started) refl

  -- On a sound map calls of `next` on `range`, with any fuel above the number of entries, return
  -- the entries whose keys are within the two bounds, in ascending order, and then end.
  pub range-contents :
      (fuel : ℕ)
      → IsSound m
      → length (contents m) < fuel
      → collect next fuel (range m start end) ≡ some (select (in_range start end) (contents m))
  unfolding started
  range-contents fuel sound b =
      let (es, at, from) = start_front-Starts m sound start in
      collect-started fuel
      ∙ collect-IsAt fuel started es refl at
          (omega (arith, ap length from.parts ∙ length-append from.front es))
      ∙ ap some
          (take_within-in_range start end (contents m) es (contents-IsAscending m sound.valid) from)
