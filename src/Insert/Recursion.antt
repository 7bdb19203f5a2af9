-- ===== src/Insert/Recursion.antt =====
-- `insert_rec` on a valid node of any height.
use bplus_tree.Base.{ℕ, zero, suc, Option, Ensures}
use bplus_tree.Order.{Ord, AtLeast, Under}
use bplus_tree.Search.{binary_search_keys, child_idx}
use bplus_tree.Node.{Caps, IsUsable, Node, min_len}
use bplus_tree.Node.Spans.{lower_at, upper_at}
use bplus_tree.Node.Valid.{IsValid}
use bplus_tree.Node.Child.{search-IsHome}
use bplus_tree.Siblings.{Siblings}
use bplus_tree.Descend.{child_for_key-some}
use bplus_tree.Insert.{Inserted, insert_rec}
use bplus_tree.Insert.LeafCase.{leaf-Inserted}
use bplus_tree.Insert.BranchCase.{insert_above-Inserted}

module _ {ℓ κ} {K : Type ℓ} {V : Type κ} ⦃o : Ord K⦄ (c : Caps) (usable : IsUsable c) (key : K)
    (value : V) where
  -- With usable capacities, on a valid node whose bounds admit the key, `insert_rec` does not
  -- fail: it returns one valid node or two with a separator, which hold the entries of the node
  -- with the new one, and the value that was at the key.
  pub insert_rec-Inserted :
      (h m : ℕ) (lo hi : Option K) (n : Node K V h) (s : Siblings)
      → IsValid V c h m lo hi n
      → AtLeast lo key
      → Under hi key
      → Ensures (insert_rec c h n key value s) (λ r. Inserted c h m lo hi n key value r.0)
  unfolding insert_rec
  insert_rec-Inserted zero m lo hi n s v a u = leaf-Inserted c usable m lo hi n v key value a u s
  insert_rec-Inserted (suc h) m lo hi n s v a u =
      let (child, home) = search-IsHome V c h lo hi n key m v a u in
      let i = child_idx (binary_search_keys n.keys key) in
      let (r, run, done) =
        insert_rec-Inserted h (min_len c h) (lower_at lo n.keys i) (upper_at hi n.keys i) child s
          home.valid home.above home.below in
      let (r', run', done') =
        insert_above-Inserted c usable h m lo hi n key value v home r.0 done in
      ((r', r.1), rw (child_for_key-some n key home.there, run, run'), done')
