-- ===== src/Check/Accepts.antt =====
-- A valid leaf, linked as the state says, passes `validate_leaf`.
use bplus_tree.Base.{
  ℕ, zero, suc, ◌+◌, ◌-◌, ◌≤◌, ◌≡◌, refl, sym, ap, Bool, true, false, ◌||◌, Option, none, some,
  List, [], ◌∷◌, arith, Ensures, leb, le→ltb, eq→==, ne→==, length, get_elem?, get_elem?-some,
}
use bplus_tree.Order.{Ord, ◌≼◌, AtLeast, Under}
use bplus_tree.Order.Laws.{lt_of_lt_of_le}
use bplus_tree.Entries.{IsAscending, Within}
use bplus_tree.Search.Items.{keys}
use bplus_tree.Siblings.{Siblings}
use bplus_tree.Siblings.Chain.{Linked, head_or}
use bplus_tree.Node.{Caps, IsUsable, Leaf, min_leaf_len}
use bplus_tree.Node.Valid.{IsValid}
use bplus_tree.Check.{
  ValidationState, or_null, is_increasing, falls_below, reaches, is_behind, is_linked,
  validate_items, validate_leaf,
}

module _ {ℓ} {K : Type ℓ} ⦃o : Ord K⦄ where
  pub AtLeast-falls_below : (lo : Option K) (k : K) → AtLeast lo k → falls_below lo k ≡ false
  AtLeast-falls_below none k h = refl
  AtLeast-falls_below (some l) k h = ground (arith, o.cmp_swap l k)

  pub Under-reaches : (hi : Option K) (k : K) → Under hi k → reaches hi k ≡ false
  Under-reaches none k h = refl
  Under-reaches (some u) k h = rw h refl

  -- The keys from the upper bound on come behind what was visited.
  abbrev pub IsPassed : Option K → ValidationState K → Type ℓ
  IsPassed none st = Unit
  IsPassed (some u) st = (k : K) → u ≼ k → is_behind st.prev_key k ≡ true

  -- Before leaves are visited: they are linked, to the leaf before them too, and the keys from the
  -- lower bound on come behind what was visited.
  pub record IsReady (s : Siblings) (st : ValidationState K) (lo : Option K) (xs : List ℕ) (q : ℕ)
      : Type ℓ where
    pub linked : Linked s (or_null st.prev_leaf) xs q
    pub joined : is_linked s st.prev_leaf (head_or xs q) ≡ true
    pub behind : (k : K) → AtLeast lo k → is_behind st.prev_key k ≡ true

  pub record IsVisited (s : Siblings) (st : ValidationState K) (hi : Option K) (last q : ℕ)
      : Type ℓ where
    pub last_leaf : or_null st.prev_leaf ≡ last
    pub joined : is_linked s st.prev_leaf q ≡ true
    pub passed : IsPassed hi st

  last-IsPassed :
      (hi : Option K) (last : K) (st : ValidationState K)
      → Under hi last
      → st.prev_key ≡ some last
      → IsPassed hi st
  last-IsPassed none last st u e = tt
  last-IsPassed (some h) last st u e = λ k le. rw (e, lt_of_lt_of_le last h k u le) refl

module _ {ℓ κ} {K : Type ℓ} {V : Type κ} ⦃o : Ord K⦄ where
  IsAscending-increasing : (es : List (K × V)) → IsAscending es → is_increasing (keys es) ≡ true
  IsAscending-increasing [] a = refl
  IsAscending-increasing (x ∷ []) a = refl
  IsAscending-increasing (x ∷ y ∷ es) a = rw (a.0.0, IsAscending-increasing (y ∷ es) a.1) refl

  length-keys : (es : List (K × V)) → length (keys es) ≡ length es
  length-keys [] = refl
  length-keys (x ∷ es) = ap suc (length-keys es)

  Within-get :
      (lo hi : Option K) (es : List (K × V)) (i : ℕ) {k : K}
      → Within lo hi es
      → get_elem? (keys es) i ≡ some k
      → AtLeast lo k × Under hi k
  Within-get lo hi [] i h e = absurd (cc)
  Within-get lo hi (x ∷ es) zero {k} h e = let e' : x.0 ≡ k = cc in rw (sym e') h.0
  Within-get lo hi (x ∷ es) (suc i) h e = Within-get lo hi es i h.1 e

module _ {ℓ κ} {K : Type ℓ} {V : Type κ} ⦃o : Ord K⦄ (c : Caps) (usable : IsUsable c)
    (s : Siblings) where
  items-IsVisited :
      (leaf : Leaf K V) (lo hi : Option K) (st : ValidationState K) (q : ℕ)
      → 1 ≤ length leaf.items
      → IsAscending leaf.items
      → Within lo hi leaf.items
      → IsReady s st lo (leaf.addr ∷ []) q
      → Ensures (validate_items c s leaf lo hi st) (λ r. IsVisited s r.1 hi leaf.addr q)
  unfolding validate_items
  items-IsVisited leaf lo hi st q pos asc within ready =
      let n = length (keys leaf.items) in
      let len = length-keys leaf.items in
      let (first, e0) = get_elem?-some (keys leaf.items) 0 (omega arith) in
      let (last, e1) = get_elem?-some (keys leaf.items) (n - 1) (omega arith) in
      let low = Within-get lo hi leaf.items 0 within e0 in
      let high = Within-get lo hi leaf.items (n - 1) within e1 in
      (
        (
          some (first, last),
          record {
            total_items = st.total_items + length leaf.items;
            prev_leaf = some leaf.addr;
            prev_key = some last;
          },
        ),
        rw (IsAscending-increasing leaf.items asc, e0)
            (rw (e1, AtLeast-falls_below lo first low.0, Under-reaches hi last high.1, ready.joined)
              (rw
                (
                  eq→== (s.prev leaf.addr) (or_null st.prev_leaf) ready.linked.0,
                  ready.behind first low.0,
                )
                refl)),
        record {
          last_leaf = refl;
          joined = eq→== (s.next leaf.addr) q ready.linked.1;
          passed = last-IsPassed hi last _ high.1 refl;
        },
      )

  pub validate_leaf-IsVisited :
      (leaf : Leaf K V) (lo hi : Option K) (is_root : Bool) (m : ℕ) (st : ValidationState K) (q : ℕ)
      → 1 ≤ length leaf.items
      → (is_root || leb (min_leaf_len c) (length leaf.items)) ≡ true
      → IsValid V c zero m lo hi leaf
      → IsReady s st lo (leaf.addr ∷ []) q
      → Ensures (validate_leaf c s leaf lo hi is_root st) (λ r. IsVisited s r.1 hi leaf.addr q)
  unfolding validate_leaf
  validate_leaf-IsVisited leaf lo hi is_root m st q pos enough v ready =
      rw
        (
          le→ltb c.leaf_cap (length leaf.items) v.1,
          ne→== (length leaf.items) 0 (omega arith),
          enough,
        )
        (items-IsVisited leaf lo hi st q pos v.2 v.3 ready)
