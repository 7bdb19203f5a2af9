-- ===== src/Descend/Lookup.antt =====
-- `get` reads what the entries of the node say.
use bplus_tree.Base.{ℕ, zero, suc, ◌≡◌, sym, ◌∙◌, inl, inr, Option, Result-cases}
use bplus_tree.Order.{Ord, AtLeast, Under}
use bplus_tree.Entries.{lookup}
use bplus_tree.Search.{binary_search_keys, child_idx}
use bplus_tree.Search.Items.{keys, search-IsHit, search-IsMiss}
use bplus_tree.Node.{Caps, Leaf, Node, entries, min_len}
use bplus_tree.Node.Spans.{lower_at, upper_at}
use bplus_tree.Node.Valid.{IsValid}
use bplus_tree.Node.Child.{search-IsHome, lookup_home}
use bplus_tree.Descend.{child_for_key-some, leaf_for_key, leaf_search, get}

module _ {ℓ κ} {K : Type ℓ} {V : Type κ} ⦃o : Ord K⦄ (c : Caps) (key : K) where
  get-leaf :
      (m : ℕ) (lo hi : Option K) (leaf : Leaf K V)
      → IsValid V c zero m lo hi leaf
      → get zero leaf key ≡ lookup key leaf.items
  unfolding get leaf_search leaf_for_key
  get-leaf m lo hi leaf v = elim (Result-cases (binary_search_keys (keys leaf.items) key)) [
    | inl (i, e) ↦
        rw (get, leaf_search, leaf_for_key, e) (sym (search-IsHit key leaf.items e).found)
    | inr (i, e) ↦
        rw (get, leaf_search, leaf_for_key, e) (sym ((search-IsMiss key leaf.items e).absent v.2))
  ]

  -- On a valid node whose bounds admit the key, `get` is a look-up among the entries.
  pub get-lookup :
      (h m : ℕ) (lo hi : Option K) (n : Node K V h)
      → IsValid V c h m lo hi n
      → AtLeast lo key
      → Under hi key
      → get h n key ≡ lookup key (entries h n)
  unfolding get leaf_search leaf_for_key entries
  get-lookup zero m lo hi n v a u = get-leaf m lo hi n v
  get-lookup (suc h) m lo hi n v a u =
      let (child, home) = search-IsHome V c h lo hi n key m v a u in
      let i = child_idx (binary_search_keys n.keys key) in
      rw (get, leaf_search, leaf_for_key, child_for_key-some n key home.there)
        (get-lookup h (min_len c h) (lower_at lo n.keys i) (upper_at hi n.keys i) child home.valid
            home.above home.below
          ∙ sym (lookup_home V c h lo hi n key home))
