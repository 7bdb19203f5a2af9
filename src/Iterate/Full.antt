-- ===== src/Iterate/Full.antt =====
-- The iterator over a whole map.
use mathlib.Core.List.{append-nil, reverse, reverse_aux, reverse-append}
use mathlib.Core.Path.{subst}
use bplus_tree.Base.{
  ℕ, ◌+◌, ◌<◌, ◌≡◌, refl, sym, ap, ◌∙◌, ◌⊎◌, inl, inr, Bool, true, Option, none, some, List, [],
  ◌∷◌, ◌++◌, arith, ◌>>=◌, Ensures, Bool-cases, ◌==◌, ==→eq, length, flat_map, flat_map-append,
}
use bplus_tree.Order.{Ord}
use bplus_tree.Node.{Caps, Leaf, Node}
use bplus_tree.Siblings.{Siblings}
use bplus_tree.Map.{BPlusTreeMap}
use bplus_tree.Map.Valid.{IsValidRoot, contents, root_min}
use bplus_tree.Map.Sound.{IsSound}
use bplus_tree.Walk.{root_leaves, tree_leaves, leftmost_leaf, rightmost_leaf}
use bplus_tree.Walk.Ends.{items_of, leftmost_leaf-IsFirst, rightmost_leaf-IsLast}
use bplus_tree.Walk.Links.{next-IsWalk, prev-IsWalk}
use bplus_tree.Walk.Counts.{contents-leaves, len-contents}
use bplus_tree.Iterate.{unbounded, Lazy, lazy, within_end, within_start, next, next_back, collect}
use bplus_tree.Iterate.Queries.{items}
use bplus_tree.Iterate.Forward.{Walks, IsAt, take_within, collect-IsAt}
use bplus_tree.Iterate.Backward.{BackWalks, IsBackAt, back_items, collect-IsBackAt, take-all}

length-empty {ℓ} : {A : Type ℓ} (xs : List A) → length xs ≡ 0 → xs ≡ []
length-empty [] h = refl
length-empty (x ∷ xs) h = absurd (omega arith)

pub length-reverse_aux {ℓ} :
    {A : Type ℓ} (xs ys : List A) → length (reverse_aux xs ys) ≡ length xs + length ys
length-reverse_aux [] ys = omega arith
length-reverse_aux (x ∷ xs) ys = omega (arith, length-reverse_aux xs (x ∷ ys))

module _ {ℓ κ} {K : Type ℓ} {V : Type κ} where
  pub take_within-all :
      (inside : K → Bool) (es : List (K × V))
      → ((k : K) → inside k ≡ true)
      → take_within inside es ≡ es
  take_within-all inside [] h = refl
  take_within-all inside (x ∷ es) h = rw (h x.0, take_within-all inside es h)

  -- The entries of leaves, the last entry first.
  back_items-reverse : (ls : List (Leaf K V)) → back_items (reverse ls) ≡ reverse (items_of ls)
  unfolding flat_map
  back_items-reverse [] = refl
  back_items-reverse (l ∷ ls) =
      ap back_items (reverse-append (l ∷ []) ls)
      ∙ flat_map-append (λ l. reverse l.items) (reverse ls) (l ∷ [])
      ∙ rw (back_items-reverse ls, append-nil (reverse l.items))
          (sym (reverse-append l.items (items_of ls)))

module _ {ℓ κ} {K : Type ℓ} {V : Type κ} ⦃o : Ord K⦄ where
  -- An iterator with all entries to come, from both ends.
  pub record IsFull (m : BPlusTreeMap K V) (it : Lazy K V) : Type (ℓ ⊔ κ) where
    pub initialized : it.initialized ≡ true
    pub start_bound : it.start_bound ≡ unbounded
    pub end_bound : it.end_bound ≡ unbounded
    pub front : IsAt it.tree it.front_leaf it.front_idx (contents m)
    pub back : IsBackAt it.tree it.back_leaf it.back_idx (reverse (contents m))
    pub remaining : it.remaining ≡ length (contents m)

  pub end_leaves :
      (c : Caps) (s : Siblings) (r : Option ((h : ℕ) × Node K V h))
      → IsValidRoot c r
      → ((leftmost_leaf (record { root = r; caps = c; store = s }) ≡ none) × (root_leaves r ≡ []))
        ⊎ (((l : Leaf K V) × (ls : List (Leaf K V)) × (leftmost_leaf
                  (record { root = r; caps = c; store = s })
                ≡ some l)
              × (root_leaves r ≡ l ∷ ls))
            × ((l : Leaf K V) × (ls : List (Leaf K V)) × (rightmost_leaf
                    (record { root = r; caps = c; store = s })
                  ≡ some l)
                × (root_leaves r ≡ ls ++ l ∷ [])))
  unfolding leftmost_leaf rightmost_leaf
  end_leaves c s none v = inl (refl, refl)
  end_leaves c s (some (h, n)) v = inr (
    leftmost_leaf-IsFirst V c h (root_min h) none none n v,
    rightmost_leaf-IsLast V c h (root_min h) none none n v,
  )

  module _ (m : BPlusTreeMap K V) (sound : IsSound m) where
    pub first-IsAt :
        (l : Leaf K V) (ls : List (Leaf K V))
        → tree_leaves m ≡ l ∷ ls
        → IsAt m (some l.addr) 0 (contents m)
    unfolding flat_map
    first-IsAt l ls e = inr (
      l,
      ls,
      refl,
      rw e (omega arith),
      subst (λ xs. Walks m xs) e (next-IsWalk m sound),
      contents-leaves m ∙ ap items_of e,
    )

    last-IsBackAt :
        (l : Leaf K V) (ls : List (Leaf K V))
        → tree_leaves m ≡ ls ++ l ∷ []
        → IsBackAt m (some l.addr) (length l.items) (reverse (contents m))
    unfolding flat_map
    last-IsBackAt l ls e =
        let turned : reverse (tree_leaves m) ≡ l ∷ reverse ls =
          ap reverse e ∙ reverse-append ls (l ∷ []) in
        let count : length (reverse (tree_leaves m)) ≡ length (tree_leaves m) + 0 =
          length-reverse_aux (tree_leaves m) [] in
        inr (
          l,
          reverse ls,
          refl,
          omega (arith, sym count ∙ ap length turned),
          subst (λ xs. BackWalks m xs) turned (prev-IsWalk m sound),
          omega arith,
          ap reverse (contents-leaves m)
              ∙ sym (back_items-reverse (tree_leaves m))
              ∙ ap back_items turned
              ∙ ap (λ xs. reverse xs ++ back_items (reverse ls)) (sym (take-all l.items)),
        )

    abbrev iterator : Option ℕ → Option ℕ → ℕ → ℕ → Lazy K V
    iterator front_leaf back_leaf back_idx remaining = record {
      tree = m;
      front_leaf = front_leaf;
      front_idx = 0;
      back_leaf = back_leaf;
      back_idx = back_idx;
      remaining = remaining;
      start_bound = unbounded;
      end_bound = unbounded;
      initialized = true;
    }

    no_entries-IsFull :
        contents m ≡ [] → (it : Lazy K V) × (items m ≡ some (lazy it)) × (it.tree ≡ m) × IsFull m it
    unfolding items
    no_entries-IsFull e = (
      iterator none none 0 0,
      rw (items, len-contents m sound) (rw (◌>>=◌, e) refl),
      refl,
      record {
        initialized = refl;
        start_bound = refl;
        end_bound = refl;
        front = inl (refl, e);
        back = inl (refl, ap reverse e);
        remaining = ap length (sym e);
      },
    )

    -- On a sound map `items` returns an iterator with all entries to come, from both ends.
    pub items-IsFull : (it : Lazy K V) × (items m ≡ some (lazy it)) × (it.tree ≡ m) × IsFull m it
    unfolding items flat_map
    items-IsFull = elim (Bool-cases (length (contents m) == 0)) [
      | inl empty ↦
          no_entries-IsFull (length-empty (contents m) (==→eq (length (contents m)) 0 empty))
      | inr full ↦ elim (end_leaves m.caps m.store m.root sound.valid) [
        | inl (none_there, no_leaf) ↦ no_entries-IsFull (contents-leaves m ∙ ap items_of no_leaf)
        | inr ((l, ls, run, e), (l', ls', run', e')) ↦ (
          iterator (some l.addr) (some l'.addr) (length l'.items) (length (contents m)),
          rw (items, len-contents m sound) (rw (◌>>=◌, full, run, run') refl),
          refl,
          record {
            initialized = refl;
            start_bound = refl;
            end_bound = refl;
            front = first-IsAt l ls e;
            back = last-IsBackAt l' ls' e';
            remaining = refl;
          },
        )
      ]
    ]

  collect-IsFull :
      (m : BPlusTreeMap K V) (it : Lazy K V) (fuel : ℕ)
      → IsFull m it
      → length (contents m) < fuel
      → (collect next fuel (lazy it) ≡ some (contents m))
        × (collect next_back fuel (lazy it) ≡ some (reverse (contents m)))
  unfolding within_end within_start
  collect-IsFull m it fuel full b = (
    collect-IsAt fuel it (contents m) full.initialized full.front b
        ∙ ap some
            (rw full.end_bound (take_within-all (within_end unbounded) (contents m) (λ k. refl))),
    collect-IsBackAt fuel it (reverse (contents m)) full.back
          (omega (arith, length-reverse_aux (contents m) []))
        ∙ ap some (
            rw full.start_bound
              (take_within-all (within_start unbounded) (reverse (contents m)) (λ k. refl))),
  )

  -- On a sound map `items` returns an iterator. Calls of `next` on it, with any fuel above the
  -- number of entries, return the entries in ascending order and then end; calls of `next_back`
  -- return them in descending order and then end.
  pub items-contents :
      (m : BPlusTreeMap K V) (fuel : ℕ)
      → IsSound m
      → length (contents m) < fuel
      → Ensures (items m) (λ it.
        (collect next fuel it ≡ some (contents m))
        × (collect next_back fuel it ≡ some (reverse (contents m))))
  items-contents m fuel sound b =
      let (it, run, same, full) = items-IsFull m sound in
      (lazy it, run, collect-IsFull m it fuel full b)
