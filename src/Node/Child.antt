-- ===== src/Node/Child.antt =====
-- The child of a valid branch that `child_for_key` chooses, with its bounds, and the entries of
-- the branch before it and behind it.
use bplus_tree.Base.{
  ℕ, suc, ◌≤◌, ◌≡◌, Option, some, List, ◌++◌, arith, length, get_elem?, get_elem?-some, take, drop,
  flat_map, flat_map-split,
}
use bplus_tree.Order.{Ord, AtLeast, Under}
use bplus_tree.Entries.{lookup, insert, remove, Before, After}
use bplus_tree.Entries.Append.{lookup_between, insert_between, remove_between}
use bplus_tree.Search.{binary_search_keys, child_idx}
use bplus_tree.Node.{Caps, Node, entries, min_len}
use bplus_tree.Node.Spans.{Spans-get, Spans-length, lower_at, upper_at}
use bplus_tree.Node.Spans.Covers.{search-Admits}
use bplus_tree.Node.Spans.Entries.{Before-take, After-drop}
use bplus_tree.Node.Valid.{IsValid}
use bplus_tree.Node.Contents.{entries-Within}

module _ {ℓ κ} {K : Type ℓ} (V : Type κ) ⦃o : Ord K⦄ (c : Caps) (h : ℕ) (lo hi : Option K)
    (b : Node K V (suc h)) (key : K) where
  abbrev pub before : ℕ → List (K × V)
  before i = flat_map (entries h) (take i b.children)

  abbrev pub after : ℕ → List (K × V)
  after i = flat_map (entries h) (drop (suc i) b.children)

  -- Child `i` is where the key belongs.
  pub record IsHome (i : ℕ) (child : Node K V h) : Type (ℓ ⊔ κ) where
    pub inside : i ≤ length b.keys
    pub there : get_elem? b.children i ≡ some child
    pub above : AtLeast (lower_at lo b.keys i) key
    pub below : Under (upper_at hi b.keys i) key
    pub valid : IsValid V c h (min_len c h) (lower_at lo b.keys i) (upper_at hi b.keys i) child
    pub parts : entries (suc h) b ≡ before i ++ entries h child ++ after i
    pub left : Before key (before i)
    pub right : After key (after i)

  module _ (m : ℕ) (v : IsValid V c (suc h) m lo hi b) (a : AtLeast lo key) (u : Under hi key) where
    -- In a valid branch whose bounds admit the key, the child that the binary search chooses is
    -- there, its bounds admit the key, and no other child holds an entry at the key.
    pub search-IsHome :
        (child : Node K V h) × IsHome (child_idx (binary_search_keys b.keys key)) child
    unfolding entries
    search-IsHome =
        let P = IsValid V c h (min_len c h) in
        let i = child_idx (binary_search_keys b.keys key) in
        let ad = search-Admits P hi key lo b.keys b.children v.2 a u in
        let (child, there) =
          get_elem?-some b.children i
            (omega (arith, Spans-length P hi lo b.keys b.children v.2, ad.inside)) in
        (
          child,
          record {
            inside = ad.inside;
            there = there;
            above = ad.above;
            below = ad.below;
            valid = Spans-get P hi lo b.keys b.children i v.2 there;
            parts = flat_map-split (entries h) b.children i there;
            left =
                Before-take P (entries h) (entries-Within V c h (min_len c h)) hi key lo b.keys
                  b.children i v.2 ad.inside ad.above;
            right =
                After-drop P (entries h) (entries-Within V c h (min_len c h)) hi key lo b.keys
                  b.children i v.2 ad.inside ad.below;
          },
        )

  module _ {i : ℕ} {child : Node K V h} (home : IsHome i child) where
    pub lookup_home : lookup key (entries (suc h) b) ≡ lookup key (entries h child)
    lookup_home =
        rw home.parts
          (lookup_between key (before i) (entries h child) (after i) home.left home.right)

    pub insert_home :
        (v : V)
        → insert key v (entries (suc h) b) ≡ before i ++ insert key v (entries h child) ++ after i
    insert_home v =
        rw home.parts
          (insert_between key v (before i) (entries h child) (after i) home.left home.right)

    pub remove_home :
        remove key (entries (suc h) b) ≡ before i ++ remove key (entries h child) ++ after i
    remove_home =
        rw home.parts
          (remove_between key (before i) (entries h child) (after i) home.left home.right)
