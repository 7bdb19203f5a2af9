-- ===== src/Iterate/Starts.antt =====
-- Where a range starts: the first entry within its start bound.
use mathlib.Core.List.{append_assoc}
use mathlib.Core.Path.{subst}
use bplus_tree.Base.{
  ℕ, ◌<◌, ◌≡◌, refl, sym, ap, ◌∙◌, ◌⊎◌, inl, inr, Bool, true, false, Option, none, some, List, [],
  ◌∷◌, ◌++◌, All-append, arith, Bool-cases, leb, leb→le, length, length-append, take, drop,
  take-append-drop, flat_map, flat_map-append,
}
use bplus_tree.Order.{Ord}
use bplus_tree.Entries.{Before, After, IsAscending}
use bplus_tree.Search.{binary_search_keys}
use bplus_tree.Search.Items.{keys}
use bplus_tree.Node.{Caps, Leaf, Node}
use bplus_tree.Siblings.{Siblings}
use bplus_tree.Map.{BPlusTreeMap}
use bplus_tree.Map.Valid.{IsValidRoot, contents, root_min}
use bplus_tree.Map.Sound.{IsSound}
use bplus_tree.Walk.{leaf_at, root_leaves, tree_leaves, leaf_for_key}
use bplus_tree.Walk.Ends.{items_of, drop-all, leaf_for_key-IsPlace}
use bplus_tree.Walk.Links.{IsWalk, head_ptr, next-IsWalk}
use bplus_tree.Walk.Counts.{contents-leaves}
use bplus_tree.Iterate.{
  Bound, included, excluded, unbounded, within_start, start_idx, non_null, seek_front, start_front,
}
use bplus_tree.Iterate.Forward.{Walks, IsAt}
use bplus_tree.Iterate.Full.{end_leaves, first-IsAt}
use bplus_tree.Iterate.Bounds.{Passes, IsFrom, bound_at, Before-smaller, After-larger, search-Cut}

module _ {ℓ κ} {K : Type ℓ} {V : Type κ} where
  IsWalk-right :
      (read : ℕ → Option (Leaf K V)) (link : ℕ → ℕ) (xs ys : List (Leaf K V))
      → IsWalk read link (xs ++ ys)
      → IsWalk read link ys
  IsWalk-right read link [] ys w = w
  IsWalk-right read link (x ∷ xs) ys w = IsWalk-right read link xs ys w.3

module _ {ℓ κ} {K : Type ℓ} {V : Type κ} ⦃o : Ord K⦄ where
  all_pass : (es : List (K × V)) → Passes (within_start unbounded) true es
  unfolding within_start
  all_pass [] = tt
  all_pass (x ∷ es) = (refl, all_pass es)

  pub whole-IsFrom : (es : List (K × V)) → IsFrom unbounded es es
  whole-IsFrom es = record { front = []; parts = refl; before = tt; behind = all_pass es }

  -- The leaf of a map where a key belongs.
  pub record IsKeyLeaf (ls : List (Leaf K V)) (k : K) (l : Leaf K V) : Type (ℓ ⊔ κ) where
    pub left : List (Leaf K V)
    pub right : List (Leaf K V)
    pub parts : ls ≡ left ++ (l ∷ right)
    pub before : Before k (items_of left)
    pub after : After k (items_of right)
    pub ascending : IsAscending l.items

  key_leaf :
      (c : Caps) (s : Siblings) (r : Option ((h : ℕ) × Node K V h)) (k : K)
      → IsValidRoot c r
      → ((leaf_for_key (record { root = r; caps = c; store = s }) k ≡ none) × (root_leaves r ≡ []))
        ⊎ ((l : Leaf K V) × (leaf_for_key (record { root = r; caps = c; store = s }) k ≡ some l)
            × IsKeyLeaf (root_leaves r) k l)
  unfolding leaf_for_key
  key_leaf c s none k v = inl (refl, refl)
  key_leaf c s (some (h, n)) k v =
      let (l, place) = leaf_for_key-IsPlace V c h (root_min h) none none n k v tt tt in
      inr (
        l,
        place.found,
        record {
          left = place.left;
          right = place.right;
          parts = place.parts;
          before = place.before;
          after = place.after;
          ascending = place.ascending;
        },
      )

  pub find_leaf :
      (m : BPlusTreeMap K V) (k : K)
      → IsSound m
      → ((leaf_for_key m k ≡ none) × (tree_leaves m ≡ []))
        ⊎ ((l : Leaf K V) × (leaf_for_key m k ≡ some l) × IsKeyLeaf (tree_leaves m) k l)
  find_leaf m k sound = key_leaf m.caps m.store m.root k sound.valid

  module _ (m : BPlusTreeMap K V) (sound : IsSound m) where
    pub no_leaves : tree_leaves m ≡ [] → contents m ≡ []
    unfolding flat_map
    no_leaves e = contents-leaves m ∙ ap items_of e

    module _ (excl : Bool) (k : K) (l : Leaf K V) (place : IsKeyLeaf (tree_leaves m) k l) where
      abbrev idx : ℕ
      idx = start_idx excl (binary_search_keys (keys l.items) k)

      -- What is left of the entries from the index on that the search gives.
      pub place-IsFrom :
          IsFrom (bound_at excl k) (contents m) (drop idx l.items ++ items_of place.right)
      unfolding flat_map
      place-IsFrom =
          let cut = search-Cut excl k l.items place.ascending in
          record {
            front = items_of place.left ++ take idx l.items;
            parts =
                contents-leaves m
                ∙ ap items_of place.parts
                ∙ flat_map-append (λ leaf. leaf.items) place.left (l ∷ place.right)
                ∙ ap (λ xs. items_of place.left ++ (xs ++ items_of place.right))
                    (sym (take-append-drop idx l.items))
                ∙ simp append_assoc;
            before =
                All-append _ (items_of place.left) (take idx l.items)
                  (Before-smaller excl k (items_of place.left) place.before) cut.0;
            behind =
                All-append _ (drop idx l.items) (items_of place.right) cut.1
                  (After-larger excl k (items_of place.right) place.after);
          }

      pub place-Walks : Walks m (l ∷ place.right)
      place-Walks =
          IsWalk-right (leaf_at (tree_leaves m)) m.store.next place.left (l ∷ place.right)
            (subst (λ xs. Walks m xs) place.parts (next-IsWalk m sound))

      pub place-inside : length place.right < length (tree_leaves m)
      place-inside =
          omega (arith, ap length place.parts ∙ length-append place.left (l ∷ place.right))

    next_leaf-IsAt :
        (a : ℕ) (ls : List (Leaf K V))
        → m.store.next a ≡ head_ptr ls
        → Walks m ls
        → length ls < length (tree_leaves m)
        → IsAt m (non_null (m.store.next a)) 0 (items_of ls)
    unfolding flat_map
    next_leaf-IsAt a [] e w b = inl (rw e refl, refl)
    next_leaf-IsAt a (l ∷ ls) e w b = inr (l, ls, rw (e, w.1) refl, omega arith, w, refl)

    abbrev Starts : Bound K → Option ℕ × ℕ → Type (ℓ ⊔ κ)
    Starts start p = (es : List (K × V)) × IsAt m p.0 p.1 es × IsFrom start (contents m) es

    seek_front-Starts : (excl : Bool) (k : K) → Starts (bound_at excl k) (seek_front m k excl)
    unfolding seek_front
    seek_front-Starts excl k = elim (find_leaf m k sound) [
      | inl (run, e) ↦ (
        [],
        rw (seek_front, run) (inl (refl, refl)),
        record { front = []; parts = no_leaves e; before = tt; behind = tt },
      )
      | inr (l, run, place) ↦
          let i = start_idx excl (binary_search_keys (keys l.items) k) in
          let w = place-Walks excl k l place in
          let b = place-inside excl k l place in
          elim (Bool-cases (leb (length l.items) i)) [
            | inl past ↦ (
              items_of place.right,
              rw (seek_front, run, past) (next_leaf-IsAt l.addr place.right w.2 w.3 b),
              rw (drop-all i l.items (leb→le (length l.items) i past)) at
                  (place-IsFrom excl k l place),
            )
            | inr inside ↦ (
              drop i l.items ++ items_of place.right,
              rw (seek_front, run, inside) (inr (l, place.right, refl, b, w, refl)),
              place-IsFrom excl k l place,
            )
          ]
    ]

    start_unbounded-Starts : Starts unbounded (start_front m unbounded)
    unfolding start_front within_start
    start_unbounded-Starts = elim (end_leaves m.caps m.store m.root sound.valid) [
      | inl (run, e) ↦ (
        [],
        rw (start_front, run) (inl (refl, refl)),
        record { front = []; parts = no_leaves e; before = tt; behind = tt },
      )
      | inr ((l, ls, run, e), last) ↦
          (contents m, rw (start_front, run) (first-IsAt m sound l ls e), whole-IsFrom (contents m))
    ]

    -- On a sound map the first call of `next` on a range starts at the first entry within the
    -- start bound.
    pub start_front-Starts : (start : Bound K) → Starts start (start_front m start)
    unfolding start_front
    start_front-Starts unbounded = start_unbounded-Starts
    start_front-Starts (included k) = seek_front-Starts false k
    start_front-Starts (excluded k) = seek_front-Starts true k
