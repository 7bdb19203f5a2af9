-- ===== src/Iterate/Queries.antt =====
-- iterate.rs: `items`, `range`, `first`, `last`, and the steps of `Keys` and `Values`.
use bplus_tree.Base.{suc, true, false, Option, none, some, ◌>>=◌, ◌==◌, if◌then◌else◌, length}
use mathlib.Core.Option.{map as map_option}
use bplus_tree.Order.{Ord}
use bplus_tree.Map.{BPlusTreeMap}
use bplus_tree.Map.Valid.{contents}
use bplus_tree.Walk.{leftmost_leaf, rightmost_leaf, len}
use bplus_tree.Iterate.{Bound, unbounded, Lazy, Items, lazy, pop_back, next, next_back, collect}

module _ {ℓ κ} {K : Type ℓ} {V : Type κ} ⦃o : Ord K⦄ where
  unfoldable pub items : BPlusTreeMap K V → Option (Items K V)
  unfolding len leftmost_leaf rightmost_leaf
  items m = do
    n ← len m
    let it : Lazy K V = record {
      tree = m;
      front_leaf = none;
      front_idx = 0;
      back_leaf = none;
      back_idx = 0;
      remaining = 0;
      start_bound = unbounded;
      end_bound = unbounded;
      initialized = true;
    }
    if n == 0
        then some (lazy it)
        else some (
            lazy (record it {
              front_leaf = map_option (λ leaf. leaf.addr) (leftmost_leaf m);
              back_leaf = map_option (λ leaf. leaf.addr) (rightmost_leaf m);
              back_idx = elim (rightmost_leaf m) [ none ↦ 0 | some leaf ↦ length leaf.items ];
              remaining = n;
            }))

  unfoldable pub range : BPlusTreeMap K V → Bound K → Bound K → Items K V
  range m start_bound end_bound = lazy (record {
    tree = m;
    front_leaf = none;
    front_idx = 0;
    back_leaf = none;
    back_idx = 0;
    remaining = 0;
    start_bound = start_bound;
    end_bound = end_bound;
    initialized = false;
  })

  unfoldable pub first : BPlusTreeMap K V → Option (Option (K × V))
  unfolding items next
  first m = do it ← items m; (item, _) ← next it; some item

  -- `Iterator::last`: the items are run through.
  unfoldable pub last : BPlusTreeMap K V → Option (Option (K × V))
  unfolding items next collect pop_back
  last m = do it ← items m; xs ← collect next (suc (length (contents m))) it; some (pop_back xs).0

  -- `Keys` and `Values`: `next` of the items, of which one half is returned.
  unfoldable pub next_key : Items K V → Option (Option K × Items K V)
  unfolding next
  next_key it = do (item, it') ← next it; some (map_option (λ e. e.0) item, it')

  unfoldable pub next_value : Items K V → Option (Option V × Items K V)
  unfolding next
  next_value it = do (item, it') ← next it; some (map_option (λ e. e.1) item, it')

  unfoldable pub next_back_key : Items K V → Option (Option K × Items K V)
  unfolding next_back
  next_back_key it = do (item, it') ← next_back it; some (map_option (λ e. e.0) item, it')

  unfoldable pub next_back_value : Items K V → Option (Option V × Items K V)
  unfolding next_back
  next_back_value it = do (item, it') ← next_back it; some (map_option (λ e. e.1) item, it')
