-- ===== src/Search.antt =====
-- common.rs, `binary_search_keys`: `slice::binary_search` of the standard library, by what it
-- documents for a sorted slice: the position of the key, or the position where it would go.
pub mod Items
use Prim.Native.Nat.Ordering.{lt, eq, gt}
use bplus_tree.Base.{ℕ, ◌+◌, suc, List, [], ◌∷◌, map, Result, ok, err}
use bplus_tree.Order.{Ord}

abbrev pub move_up : Result ℕ ℕ → Result ℕ ℕ
move_up (ok i) = ok (suc i)
move_up (err i) = err (suc i)

-- `child_for_key`: a separator that equals the key sends it to the right.
abbrev pub child_idx : Result ℕ ℕ → ℕ
child_idx (ok i) = suc i
child_idx (err i) = i

module _ {ℓ} {K : Type ℓ} ⦃o : Ord K⦄ where
  unfoldable pub binary_search_keys : List K → K → Result ℕ ℕ
  binary_search_keys [] target = err 0
  binary_search_keys (k ∷ ks) target = elim (o.cmp target k) [
    | lt ↦ err 0
    | eq ↦ ok 0
    | gt ↦ move_up (binary_search_keys ks target)
  ]
