-- ===== src/Walk/Ends.antt =====
-- Where the leaves stand that the tree is entered by: the first, the last, and the one of a key.
use mathlib.Core.List.{append_assoc}
use bplus_tree.Base.{
  ℕ, zero, suc, ◌≤◌, ◌≡◌, refl, ap, ◌∙◌, Option, some, List, [], ◌∷◌, ◌++◌, arith, length,
  get_elem?-some, take, drop, flat_map, flat_map-append, flat_map-split, All-append,
}
use mathlib.Core.Path.{subst}
use bplus_tree.Order.{Ord, AtLeast, Under}
use bplus_tree.Entries.{Before, After, IsAscending}
use bplus_tree.Search.{binary_search_keys, child_idx}
use bplus_tree.Node.{Caps, Leaf, Node, entries, min_len}
use bplus_tree.Node.Leaves.{leaves, over-leaves, entries-leaves}
use bplus_tree.Node.Spans.{Spans-get, Spans-length, lower_at, upper_at}
use bplus_tree.Node.Valid.{IsValid}
use bplus_tree.Node.Child.{search-IsHome}
use bplus_tree.Descend.{child_for_key-some, leftmost_leaf, rightmost_leaf, leaf_for_key}

module _ {ℓ κ} {K : Type ℓ} {V : Type κ} where
  -- The entries of a run of leaves.
  abbrev pub items_of : List (Leaf K V) → List (K × V)
  items_of ls = flat_map (λ leaf. leaf.items) ls

pub drop-all {μ} : {A : Type μ} (n : ℕ) (xs : List A) → length xs ≤ n → drop n xs ≡ []
drop-all zero [] h = refl
drop-all (suc n) [] h = refl
drop-all zero (x ∷ xs) h = absurd (omega arith)
drop-all (suc n) (x ∷ xs) h = drop-all n xs (omega arith)

module _ {ℓ κ} {K : Type ℓ} (V : Type κ) ⦃o : Ord K⦄ (c : Caps) where
  pub leftmost_leaf-IsFirst :
      (h m : ℕ) (lo hi : Option K) (n : Node K V h)
      → IsValid V c h m lo hi n
      → (l : Leaf K V) × (ls : List (Leaf K V)) × (leftmost_leaf h n ≡ some l)
        × (leaves h n ≡ l ∷ ls)
  unfolding leftmost_leaf leaves flat_map
  leftmost_leaf-IsFirst zero m lo hi n v = (n, [], refl, refl)
  leftmost_leaf-IsFirst (suc h) m lo hi n v =
      let P = IsValid V c h (min_len c h) in
      let (child, there) =
        get_elem?-some n.children 0 (omega (arith, Spans-length P hi lo n.keys n.children v.2)) in
      let (l, ls, run, e) =
        leftmost_leaf-IsFirst h (min_len c h) (lower_at lo n.keys 0) (upper_at hi n.keys 0) child
          (Spans-get P hi lo n.keys n.children 0 v.2 there) in
      (
        l,
        ls ++ flat_map (leaves h) (drop 1 n.children),
        rw (leftmost_leaf, there) run,
        flat_map-split (leaves h) n.children 0 there
            ∙ ap (λ xs. xs ++ flat_map (leaves h) (drop 1 n.children)) e,
      )

  pub rightmost_leaf-IsLast :
      (h m : ℕ) (lo hi : Option K) (n : Node K V h)
      → IsValid V c h m lo hi n
      → (l : Leaf K V) × (ls : List (Leaf K V)) × (rightmost_leaf h n ≡ some l)
        × (leaves h n ≡ ls ++ l ∷ [])
  unfolding rightmost_leaf leaves flat_map
  rightmost_leaf-IsLast zero m lo hi n v = (n, [], refl, refl)
  rightmost_leaf-IsLast (suc h) m lo hi n v =
      let P = IsValid V c h (min_len c h) in
      let i = length n.keys in
      let len = Spans-length P hi lo n.keys n.children v.2 in
      let (child, there) = get_elem?-some n.children i (omega (arith, len)) in
      let (l, ls, run, e) =
        rightmost_leaf-IsLast h (min_len c h) (lower_at lo n.keys i) (upper_at hi n.keys i) child
          (Spans-get P hi lo n.keys n.children i v.2 there) in
      (
        l,
        flat_map (leaves h) (take i n.children) ++ ls,
        rw (rightmost_leaf, there) run,
        flat_map-split (leaves h) n.children i there
            ∙ rw (drop-all (suc i) n.children (omega (arith, len)), e) (simp append_assoc),
      )

  -- The leaf where a key belongs, among the leaves of the node.
  pub record IsPlace (h : ℕ) (n : Node K V h) (key : K) (l : Leaf K V) : Type (ℓ ⊔ κ) where
    pub found : leaf_for_key h n key ≡ some l
    pub left : List (Leaf K V)
    pub right : List (Leaf K V)
    pub parts : leaves h n ≡ left ++ (l ∷ right)
    pub before : Before key (items_of left)
    pub after : After key (items_of right)
    pub ascending : IsAscending l.items

  over_items :
      (h : ℕ) (cs : List (Node K V h)) → flat_map (entries h) cs ≡ items_of (flat_map (leaves h) cs)
  over_items h cs = over-leaves (λ leaf. leaf.items) h (entries h) (entries-leaves h) cs

  -- On a valid node whose bounds admit the key, `leaf_for_key` finds the one leaf where the key
  -- can be: the leaves before it hold smaller keys, the leaves behind it larger ones.
  pub leaf_for_key-IsPlace :
      (h m : ℕ) (lo hi : Option K) (n : Node K V h) (key : K)
      → IsValid V c h m lo hi n
      → AtLeast lo key
      → Under hi key
      → (l : Leaf K V) × IsPlace h n key l
  unfolding leaf_for_key leaves flat_map
  leaf_for_key-IsPlace zero m lo hi n key v a u = (
    n,
    record {
      found = refl;
      left = [];
      right = [];
      parts = refl;
      before = tt;
      after = tt;
      ascending = v.2;
    },
  )
  leaf_for_key-IsPlace (suc h) m lo hi n key v a u =
      let (child, home) = search-IsHome V c h lo hi n key m v a u in
      let i = child_idx (binary_search_keys n.keys key) in
      let (l, place) =
        leaf_for_key-IsPlace h (min_len c h) (lower_at lo n.keys i) (upper_at hi n.keys i) child key
          home.valid home.above home.below in
      let ls = flat_map (leaves h) (take i n.children) in
      let rs = flat_map (leaves h) (drop (suc i) n.children) in
      (
        l,
        record {
          found = rw (leaf_for_key, child_for_key-some n key home.there) place.found;
          left = ls ++ place.left;
          right = place.right ++ rs;
          parts =
              flat_map-split (leaves h) n.children i home.there
              ∙ rw place.parts (simp append_assoc);
          before = rw (flat_map-append (λ leaf. leaf.items) ls place.left) (
              All-append _ (items_of ls) (items_of place.left)
                (subst (Before key) (over_items h (take i n.children)) home.left) place.before);
          after = rw (flat_map-append (λ leaf. leaf.items) place.right rs) (
              All-append _ (items_of place.right) (items_of rs) place.after
                (subst (After key) (over_items h (drop (suc i) n.children)) home.right));
          ascending = place.ascending;
        },
      )
