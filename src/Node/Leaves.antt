-- ===== src/Node/Leaves.antt =====
-- The leaves of a tree from left to right, their addresses, and their items.
use mathlib.Core.List.{append-nil}
use bplus_tree.Base.{ℕ, zero, suc, ◌≡◌, refl, sym, List, [], ◌∷◌, flat_map, flat_map-append}
use bplus_tree.Node.{Leaf, Node, entries}

module _ {ℓ κ} (K : Type ℓ) (V : Type κ) where
  unfoldable pub addrs : (h : ℕ) → Node K V h → List ℕ
  addrs zero leaf = leaf.addr ∷ []
  addrs (suc h) b = flat_map (addrs h) b.children

module _ {ℓ κ} {K : Type ℓ} {V : Type κ} where
  unfoldable pub leaves : (h : ℕ) → Node K V h → List (Leaf K V)
  leaves zero leaf = leaf ∷ []
  leaves (suc h) b = flat_map (leaves h) b.children

  -- What is listed of each leaf.
  pub over-leaves {μ} :
      {B : Type μ} (g : Leaf K V → List B) (h : ℕ) (f : Node K V h → List B)
      → ((n : Node K V h) → f n ≡ flat_map g (leaves h n))
      → (cs : List (Node K V h)) → flat_map f cs ≡ flat_map g (flat_map (leaves h) cs)
  unfolding flat_map
  over-leaves g h f same [] = refl
  over-leaves g h f same (c ∷ cs) =
      rw
        (flat_map-append g (leaves h c) (flat_map (leaves h) cs), same c, over-leaves g h f same cs)

  abbrev pub addr_of : Leaf K V → List ℕ
  addr_of leaf = leaf.addr ∷ []

  pub entries-leaves :
      (h : ℕ) (n : Node K V h) → entries h n ≡ flat_map (λ leaf. leaf.items) (leaves h n)
  unfolding entries leaves flat_map
  entries-leaves zero n = sym (append-nil n.items)
  entries-leaves (suc h) n =
      over-leaves (λ leaf. leaf.items) h (entries h) (entries-leaves h) n.children

module _ {ℓ κ} (K : Type ℓ) (V : Type κ) where
  pub addrs-leaves : (h : ℕ) (n : Node K V h) → addrs K V h n ≡ flat_map addr_of (leaves h n)
  unfolding addrs leaves flat_map
  addrs-leaves zero n = refl
  addrs-leaves (suc h) n = over-leaves addr_of h (addrs K V h) (addrs-leaves h) n.children
