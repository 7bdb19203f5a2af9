-- ===== src/Check/Nodes.antt =====
-- A tree that `check_invariants` accepts is valid.
use bplus_tree.Base.{
  ℕ, zero, suc, ◌≤◌, ◌≡◌, ◌⊎◌, inl, inr, Bool-cases, Bool, true, false, Option, none, some, List,
  [], ◌∷◌, arith, bind-some, leb, leb→le, ◌==◌, ◌||◌, Option-cases, length,
}
use bplus_tree.Order.{Ord}
use bplus_tree.Order.Laws.{Beyond-lt, Under-le, le_of_lt}
use bplus_tree.Siblings.{Siblings}
use bplus_tree.Node.{Caps, Node, min_len, min_branch_len}
use bplus_tree.Node.Valid.{IsValid}
use bplus_tree.Node.Spans.{Spans}
use bplus_tree.Check.{
  ValidationState, require, not, is_increasing, starts_in, ends_in, validate_children,
  validate_node, is_bare, check_invariants_detailed, check_invariants,
}
use bplus_tree.Check.Leaves.{
  IsInhabited, require-true, validate_leaf-IsValid, validate_root_leaf-IsValid,
}
use bplus_tree.Map.{BPlusTreeMap}

module _ {ℓ κ} {K : Type ℓ} {A : Type κ} ⦃o : Ord K⦄
    (validate : Option K
      → Option K
      → A
      → ValidationState K
      → Option (Option (K × K) × ValidationState K))
    (P : Option K → Option K → A → Type 0)
    (sound : (lo hi : Option K) (n : A) (st : ValidationState K)
        (r : Option (K × K) × ValidationState K)
      → validate lo hi n st ≡ some r
      → P lo hi n × IsInhabited lo hi) where
  validate_children-Spans :
      (lo hi : Option K) (ks : List K) (cs : List A) (st : ValidationState K)
      {r : Option (K × K) × ValidationState K}
      → validate_children validate lo hi ks cs st ≡ some r
      → Spans P lo hi ks cs × IsInhabited lo hi
  unfolding validate_children
  validate_children-Spans lo hi [] [] st e = absurd (cc)
  validate_children-Spans lo hi [] (c ∷ []) st {r} e = sound lo hi c st r e
  validate_children-Spans lo hi [] (c ∷ d ∷ cs) st e = absurd (cc)
  validate_children-Spans lo hi (k ∷ ks) [] st e = absurd (cc)
  validate_children-Spans lo hi (k ∷ ks) (c ∷ cs) st e =
      let (a, e1, e') = bind-some (validate lo (some k) c st) _ e in
      let (b, e2, _) = bind-some (validate_children validate (some k) hi ks cs a.1) _ e' in
      let (valid, (q, low, high)) = sound lo (some k) c st a e1 in
      let (rest, (q', low', high')) = validate_children-Spans (some k) hi ks cs a.1 e2 in
      let under = Under-le hi k q' low' high' in
      (
        (valid, Beyond-lt lo q k low high, under, rest),
        (q, low, Under-le hi q k (le_of_lt q k high) under),
      )

module _ {ℓ κ} (K : Type ℓ) (V : Type κ) where
  -- A branch without keys and without a child.
  abbrev pub IsBare : (h : ℕ) → Node K V h → Type 0
  IsBare zero n = ⊥
  IsBare (suc h) n = (length n.keys ≡ 0) × (length n.children ≡ 0)

module _ {ℓ κ} {K : Type ℓ} (V : Type κ) ⦃o : Ord K⦄ (c : Caps) (s : Siblings) where
  -- What the tests on a branch come to, when those on its children are right.
  branch-Spans :
      (h : ℕ)
      → ((lo hi : Option K) (n : Node K V h) (st : ValidationState K)
            (r : Option (K × K) × ValidationState K)
          → validate_node V c s h n lo hi false st ≡ some r
          → IsValid V c h (min_len c h) lo hi n × IsInhabited lo hi)
      → (n : Node K V (suc h)) (lo hi : Option K) (is_root : Bool) (st : ValidationState K)
        {r : Option (K × K) × ValidationState K}
      → validate_node V c s (suc h) n lo hi is_root st ≡ some r
      → is_bare n ≡ false
      → (length n.keys ≤ c.branch_cap)
        × ((is_root || leb (min_branch_len c) (length n.keys)) ≡ true)
        × Spans (IsValid V c h (min_len c h)) lo hi n.keys n.children
        × IsInhabited lo hi
  unfolding validate_node
  branch-Spans h sound n lo hi is_root st e full =
      let (_, e0, e) = bind-some (require (leb (length n.keys) c.branch_cap)) _ e in
      let (_, _, e) = bind-some (require (is_root || not (length n.keys == 0))) _ e in
      let e = rw full at e in
      let (_, e2, e) =
        bind-some (require (is_root || leb (min_branch_len c) (length n.keys))) _ e in
      let (_, _, e) = bind-some (require (is_increasing n.keys)) _ e in
      let (_, _, e) = bind-some (require (starts_in lo n.keys)) _ e in
      let (_, _, e) = bind-some (require (ends_in hi n.keys)) _ e in
      let (spans, key) =
        validate_children-Spans (λ lo' hi' child st'. validate_node V c s h child lo' hi' false st')
          (IsValid V c h (min_len c h)) sound lo hi n.keys n.children st e in
      (leb→le _ _ (require-true _ e0), require-true _ e2, spans, key)

  -- A node below the root that `validate_node` accepts between two bounds is valid, and there is a
  -- key between the bounds.
  pub validate_node-IsValid :
      (h : ℕ) (lo hi : Option K) (n : Node K V h) (st : ValidationState K)
      (r : Option (K × K) × ValidationState K)
      → validate_node V c s h n lo hi false st ≡ some r
      → IsValid V c h (min_len c h) lo hi n × IsInhabited lo hi
  unfolding validate_node
  validate_node-IsValid zero lo hi n st r e = validate_leaf-IsValid c s n lo hi st e
  validate_node-IsValid (suc h) lo hi n st r e =
      let (_, _, e') = bind-some (require (leb (length n.keys) c.branch_cap)) _ e in
      let (_, e1, _) = bind-some (require (false || not (length n.keys == 0))) _ e' in
      let full : is_bare n ≡ false = ground (arith, require-true _ e1) in
      let (room, least, spans, key) =
        branch-Spans h (validate_node-IsValid h) n lo hi false st e full in
      ((leb→le (min_branch_len c) (length n.keys) least, room, spans), key)

  -- A root that `validate_node` accepts is bare or valid, but that a branch may have no key.
  pub validate_root-IsValid :
      (h : ℕ) (n : Node K V h) (st : ValidationState K) {r : Option (K × K) × ValidationState K}
      → validate_node V c s h n none none true st ≡ some r
      → IsBare K V h n ⊎ IsValid V c h 0 none none n
  unfolding validate_node
  validate_root-IsValid zero n st e = inr (validate_root_leaf-IsValid c s n st e)
  validate_root-IsValid (suc h) n st e = elim (Bool-cases (is_bare n)) [
    | inl bare ↦ inl (ground arith, ground arith)
    | inr full ↦
        let (room, _, spans, _) =
          branch-Spans h (validate_node-IsValid h) n none none true st e full in
        inr (omega arith, room, spans)
  ]

module _ {ℓ κ} {K : Type ℓ} {V : Type κ} ⦃o : Ord K⦄ where
  -- What holds of a root that `check_invariants` accepts.
  abbrev pub IsCheckedRoot : Caps → Option ((h : ℕ) × Node K V h) → Type 0
  IsCheckedRoot c none = Unit
  IsCheckedRoot c (some (h, n)) = IsBare K V h n ⊎ IsValid V c h 0 none none n

  detailed-IsCheckedRoot :
      (c : Caps) (s : Siblings) (root : Option ((h : ℕ) × Node K V h)) {u : Unit {0}}
      → check_invariants_detailed V c s root ≡ some u
      → IsCheckedRoot c root
  unfolding check_invariants_detailed
  detailed-IsCheckedRoot c s none e = tt
  detailed-IsCheckedRoot c s (some (h, n)) e =
      let (r, e0, _) =
        bind-some
          (validate_node V c s h n none none true
            (record { total_items = 0; prev_leaf = none; prev_key = none }))
          _ e in
      validate_root-IsValid V c s h n _ e0

  -- The root of a map that `check_invariants` accepts is a branch without keys and without a child,
  -- or it is valid, but that a root branch may have no key: the nodes below the root have their
  -- minimum of keys, all nodes keep to their maximum, the keys ascend, and each subtree keeps to the
  -- bounds that the separators set.
  pub check_invariants-IsCheckedRoot :
      (m : BPlusTreeMap K V) → check_invariants m ≡ true → IsCheckedRoot m.caps m.root
  unfolding check_invariants
  check_invariants-IsCheckedRoot m e =
      elim (Option-cases (check_invariants_detailed V m.caps m.store m.root)) [
        | inl e0 ↦ let e' = rw (check_invariants, e0) at e in absurd (cc)
        | inr (u, e0) ↦ detailed-IsCheckedRoot m.caps m.store m.root e0
      ]
