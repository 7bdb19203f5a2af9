-- ===== src/Siblings/Unlink.antt =====
-- Linking a leaf and freeing it.
use bplus_tree.Base.{ℕ, ◌≡◌, ◌≢◌, inl, inr, arith, false, ◌==◌, Bool-cases, ==→ne, ==→eq}
use bplus_tree.Siblings.{Siblings, null, link_right, free_leaf_node, set_next, set_prev}

module _ (leaf right : ℕ) (s : Siblings) (apart : leaf ≢ right) (real : leaf ≢ null)
    (real' : right ≢ null) (unused : s.next leaf ≢ right) (loose : s.next leaf ≢ leaf)
    (back : s.next leaf ≢ null → s.prev (s.next leaf) ≡ leaf) where
  next-unlink :
      (a : ℕ) → a ≢ right → (free_leaf_node right (link_right leaf right s)).next a ≡ s.next a
  unfolding free_leaf_node link_right set_next set_prev
  next-unlink a h = elim (Bool-cases (s.next leaf == null)) [
    | inl e ↦ ground arith
    | inr e ↦ ground arith
  ]

  prev-unlink :
      (a : ℕ) → a ≢ right → (free_leaf_node right (link_right leaf right s)).prev a ≡ s.prev a
  unfolding free_leaf_node link_right set_next set_prev
  prev-unlink a h = elim (Bool-cases (s.next leaf == null)) [
    | inl e ↦ ground arith
    | inr e ↦ ground (arith, back (==→ne (s.next leaf) null e))
  ]

  -- The second leaf stands behind the first one, and before the old successor of the first.
  abbrev IsInserted : Siblings → Type 0
  IsInserted t =
      (t.next leaf ≡ right)
      × (t.prev right ≡ leaf)
      × (t.next right ≡ s.next leaf)
      × (s.next leaf ≢ null → t.prev (s.next leaf) ≡ right)

  link_right-IsInserted : IsInserted (link_right leaf right s)
  unfolding link_right set_next set_prev
  link_right-IsInserted = elim (Bool-cases (s.next leaf == null)) [
    | inl e ↦ (ground arith, ground arith, ground arith, λ ne. absurd (ne (==→eq _ _ e)))
    | inr e ↦ (ground arith, ground arith, ground arith, λ ne. ground arith)
  ]

  -- For a leaf and a second one that are two, neither of them null, when the second is not the
  -- successor of the first, the first is not its own, and the successor of the first points back
  -- to it: linking the second leaf behind the first puts it between the first and the successor, by
  -- both pointers of each. Freeing it then restores both pointers of every other leaf, clears its
  -- own, and leaves its block dead.
  pub free_leaf_node-link_right :
      IsInserted (link_right leaf right s)
      × ((a : ℕ)
          → a ≢ right
          → ((free_leaf_node right (link_right leaf right s)).next a ≡ s.next a)
            × ((free_leaf_node right (link_right leaf right s)).prev a ≡ s.prev a))
      × ((free_leaf_node right (link_right leaf right s)).next right ≡ null)
      × ((free_leaf_node right (link_right leaf right s)).prev right ≡ null)
      × ((free_leaf_node right (link_right leaf right s)).live right ≡ false)
  unfolding free_leaf_node set_next set_prev
  free_leaf_node-link_right = (
    link_right-IsInserted,
    λ a h. (next-unlink a h, prev-unlink a h),
    ground arith,
    ground arith,
    ground arith,
  )
