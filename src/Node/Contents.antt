-- ===== src/Node/Contents.antt =====
-- The entries of a valid node ascend, and lie within its bounds.
use bplus_tree.Base.{ℕ, zero, suc, Option}
use bplus_tree.Order.{Ord}
use bplus_tree.Entries.{IsAscending, Within}
use bplus_tree.Node.{Caps, Node, entries, min_len}
use bplus_tree.Node.Spans.Entries.{Spans-Within, Spans-IsAscending}
use bplus_tree.Node.Valid.{IsValid}

module _ {ℓ κ} {K : Type ℓ} (V : Type κ) ⦃o : Ord K⦄ (c : Caps) where
  pub entries-Within :
      (h m : ℕ) (lo hi : Option K) (n : Node K V h)
      → IsValid V c h m lo hi n
      → Within lo hi (entries h n)
  unfolding entries
  entries-Within zero m lo hi n v = v.3
  entries-Within (suc h) m lo hi n v =
      Spans-Within (IsValid V c h (min_len c h)) (entries h) (entries-Within h (min_len c h)) hi lo
        n.keys n.children v.2

  pub entries-IsAscending :
      (h m : ℕ) (lo hi : Option K) (n : Node K V h)
      → IsValid V c h m lo hi n
      → IsAscending (entries h n)
  unfolding entries
  entries-IsAscending zero m lo hi n v = v.2
  entries-IsAscending (suc h) m lo hi n v =
      Spans-IsAscending (IsValid V c h (min_len c h)) (entries h) (entries-Within h (min_len c h))
        hi (entries-IsAscending h (min_len c h)) lo n.keys n.children v.2
