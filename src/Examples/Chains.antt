-- ===== src/Examples/Chains.antt =====
-- The sibling pointers of the sample map.
use bplus_tree.Base.{ℕ, ◌≡◌, ◌≢◌, refl, false, arith}
use bplus_tree.Siblings.{null, link_right, free_leaf_node}
use bplus_tree.Siblings.Unlink.{free_leaf_node-link_right}
use bplus_tree.Examples.Sample.{store}

free_leaf_node-link_right_example :
    (((link_right 1 3 store).next 1 ≡ 3)
      × ((link_right 1 3 store).prev 3 ≡ 1)
      × ((link_right 1 3 store).next 3 ≡ 2)
      × (2 ≢ null → (link_right 1 3 store).prev 2 ≡ 3))
    × ((a : ℕ)
        → a ≢ 3
        → ((free_leaf_node 3 (link_right 1 3 store)).next a ≡ store.next a)
          × ((free_leaf_node 3 (link_right 1 3 store)).prev a ≡ store.prev a))
    × ((free_leaf_node 3 (link_right 1 3 store)).next 3 ≡ null)
    × ((free_leaf_node 3 (link_right 1 3 store)).prev 3 ≡ null)
    × ((free_leaf_node 3 (link_right 1 3 store)).live 3 ≡ false)
free_leaf_node-link_right_example =
    free_leaf_node-link_right 1 3 store (omega arith) (omega arith) (omega arith) (omega arith)
      (omega arith) (λ _. refl)
