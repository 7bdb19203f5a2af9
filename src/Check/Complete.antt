-- ===== src/Check/Complete.antt =====
-- A sound map passes `check_invariants`.
use mathlib.Core.List.{append-nil}
use mathlib.Core.Path.{subst}
use bplus_tree.Base.{
  ℕ, zero, suc, ◌-◌, ◌≡◌, refl, sym, ap, ◌∙◌, inl, inr, Bool, true, false, ◌&&◌, ◌||◌, Option, none,
  some, List, [], ◌∷◌, ◌++◌, arith, ◌>>=◌, Ensures, Bool-cases, leb, le→leb, le→ltb, ◌==◌, ==→ne,
  ne→==, length, get_elem?, flat_map,
}
use bplus_tree.Order.{Ord, Under}
use bplus_tree.Order.Laws.{AtLeast-Beyond}
use bplus_tree.Siblings.{Siblings, null}
use bplus_tree.Siblings.Chain.{Linked, head_or, last_or, Linked-left, Linked-right, IsChain}
use bplus_tree.Node.{Caps, IsUsable, Node, min_len, min_branch_len, min_len_pos}
use bplus_tree.Node.Leaves.{addrs}
use bplus_tree.Node.Spans.{Spans}
use bplus_tree.Node.Valid.{IsValid}
use bplus_tree.Map.{BPlusTreeMap}
use bplus_tree.Map.Valid.{IsValidRoot, root_min}
use bplus_tree.Map.Linked.{root_addrs}
use bplus_tree.Map.Sound.{IsSound}
use bplus_tree.Check.{
  ValidationState, not, is_bare, or_null, is_increasing, starts_in, ends_in, is_linked, span,
  validate_leaf, validate_children, validate_node, check_invariants_detailed, check_invariants,
}
use bplus_tree.Check.Accepts.{
  IsReady, IsVisited, AtLeast-falls_below, Under-reaches, validate_leaf-IsVisited,
}

last_or-append : (p : ℕ) (xs ys : List ℕ) → last_or p (xs ++ ys) ≡ last_or (last_or p xs) ys
last_or-append p [] ys = refl
last_or-append p (x ∷ xs) ys = last_or-append x xs ys

head_or-append : (xs ys : List ℕ) (q : ℕ) → head_or (xs ++ ys) q ≡ head_or xs (head_or ys q)
head_or-append [] ys q = refl
head_or-append (x ∷ xs) ys q = refl

module _ {ℓ κ} {K : Type ℓ} {A : Type κ} ⦃o : Ord K⦄ (P : Option K → Option K → A → Type 0) where
  Spans-increasing :
      (lo hi : Option K) (ks : List K) (cs : List A) → Spans P lo hi ks cs → is_increasing ks ≡ true
  Spans-increasing lo hi [] cs h = refl
  Spans-increasing lo hi (k ∷ ks) [] h = absurd h
  Spans-increasing lo hi (k ∷ []) (c ∷ cs) h = refl
  Spans-increasing lo hi (k ∷ k' ∷ ks) (c ∷ []) h = absurd h.3
  Spans-increasing lo hi (k ∷ k' ∷ ks) (c ∷ d ∷ cs) h =
      rw (h.3.1, Spans-increasing (some k) hi (k' ∷ ks) (d ∷ cs) h.3) refl

  Spans-starts_in :
      (lo hi : Option K) (ks : List K) (cs : List A) → Spans P lo hi ks cs → starts_in lo ks ≡ true
  Spans-starts_in lo hi [] cs h = refl
  Spans-starts_in lo hi (k ∷ ks) [] h = absurd h
  Spans-starts_in lo hi (k ∷ ks) (c ∷ cs) h =
      rw (AtLeast-falls_below lo k (AtLeast-Beyond lo k h.1)) refl

  -- Children that span an interval are there.
  Spans-full :
      (lo hi : Option K) (ks : List K) (cs : List A)
      → Spans P lo hi ks cs
      → (length ks == 0 && length cs == 0) ≡ false
  Spans-full lo hi [] [] h = absurd h
  Spans-full lo hi [] (c ∷ cs) h = ground arith
  Spans-full lo hi (k ∷ ks) cs h = ground arith

  Spans-under :
      (lo hi : Option K) (ks : List K) (cs : List A) (i : ℕ) {k : K}
      → Spans P lo hi ks cs
      → get_elem? ks i ≡ some k
      → Under hi k
  Spans-under lo hi [] cs i h e = absurd (cc)
  Spans-under lo hi (k ∷ ks) [] i h e = absurd h
  Spans-under lo hi (k' ∷ ks) (c ∷ cs) zero {k} h e =
      let e' : k' ≡ k = cc in subst (Under hi) e' h.2
  Spans-under lo hi (k ∷ ks) (c ∷ cs) (suc i) h e = Spans-under (some k) hi ks cs i h.3 e

  Spans-ends_in :
      (lo hi : Option K) (ks : List K) (cs : List A) → Spans P lo hi ks cs → ends_in hi ks ≡ true
  Spans-ends_in lo hi ks cs h = go (get_elem? ks (length ks - 1)) refl
    where
      go : (r : Option K) → get_elem? ks (length ks - 1) ≡ r → ends_in hi ks ≡ true
      go none e = rw (ends_in, e) refl
      go (some k) e =
          rw (ends_in, e)
            (rw (Under-reaches hi k (Spans-under lo hi ks cs (length ks - 1) h e)) refl)

module _ {ℓ κ} {K : Type ℓ} {A : Type κ} ⦃o : Ord K⦄ (s : Siblings)
    (validate : Option K
      → Option K
      → A
      → ValidationState K
      → Option (Option (K × K) × ValidationState K))
    (P : Option K → Option K → A → Type 0) (f : A → List ℕ)
    (accepts : (lo hi : Option K) (n : A) (st : ValidationState K) (q : ℕ)
      → P lo hi n
      → IsReady s st lo (f n) q
      → Ensures
          (validate lo hi n st)
          (λ r. IsVisited s r.1 hi (last_or (or_null st.prev_leaf) (f n)) q)) where
  -- The loop over the children passes when each child does.
  validate_children-IsVisited :
      (lo hi : Option K) (ks : List K) (cs : List A) (st : ValidationState K) (q : ℕ)
      → Spans P lo hi ks cs
      → IsReady s st lo (flat_map f cs) q
      → Ensures
          (validate_children validate lo hi ks cs st)
          (λ r. IsVisited s r.1 hi (last_or (or_null st.prev_leaf) (flat_map f cs)) q)
  unfolding validate_children flat_map
  validate_children-IsVisited lo hi [] [] st q h ready = absurd h
  validate_children-IsVisited lo hi [] (c ∷ []) st q h ready =
      let e : f c ++ [] ≡ f c = append-nil (f c) in rw e (accepts lo hi c st q h (rw e at ready))
  validate_children-IsVisited lo hi [] (c ∷ d ∷ cs) st q h ready = absurd h
  validate_children-IsVisited lo hi (k ∷ ks) [] st q h ready = absurd h
  validate_children-IsVisited lo hi (k ∷ ks) (c ∷ cs) st q h ready =
      let rest : List ℕ = flat_map f cs in
      let (r, run, done) = accepts lo (some k) c st (head_or rest q) h.0 (record {
        linked = Linked-left s (or_null st.prev_leaf) q (f c) rest ready.linked;
        joined = ap (is_linked s st.prev_leaf) (sym (head_or-append (f c) rest q)) ∙ ready.joined;
        behind = ready.behind;
      }) in
      let (r', run', done') = validate_children-IsVisited (some k) hi ks cs r.1 q h.3 (record {
        linked =
            subst (λ p. Linked s p rest q) (sym done.last_leaf)
              (Linked-right s (or_null st.prev_leaf) q (f c) rest ready.linked);
        joined = done.joined;
        behind = done.passed;
      }) in
      (
        (span r.0 r'.0, r'.1),
        rw run (rw (◌>>=◌, run') refl),
        subst (λ p. IsVisited s r'.1 hi p q)
            (ap (λ p. last_or p rest) done.last_leaf
              ∙ sym (last_or-append (or_null st.prev_leaf) (f c) rest))
            done',
      )

module _ {ℓ κ} {K : Type ℓ} (V : Type κ) ⦃o : Ord K⦄ (c : Caps) (usable : IsUsable c)
    (s : Siblings) where
  branch-IsVisited :
      (h m : ℕ) (is_root : Bool) (n : Node K V (suc h)) (lo hi : Option K) (st : ValidationState K)
      (q : ℕ)
      → ((lo hi : Option K) (n : Node K V h) (st : ValidationState K) (q : ℕ)
          → IsValid V c h (min_len c h) lo hi n
          → IsReady s st lo (addrs K V h n) q
          → Ensures
              (validate_node V c s h n lo hi false st)
              (λ r. IsVisited s r.1 hi (last_or (or_null st.prev_leaf) (addrs K V h n)) q))
      → IsValid V c (suc h) m lo hi n
      → (is_root || leb (min_branch_len c) (length n.keys)) ≡ true
      → (is_root || not (length n.keys == 0)) ≡ true
      → IsReady s st lo (addrs K V (suc h) n) q
      → Ensures
          (validate_node V c s (suc h) n lo hi is_root st)
          (λ r. IsVisited s r.1 hi (last_or (or_null st.prev_leaf) (addrs K V (suc h) n)) q)
  unfolding validate_node addrs
  branch-IsVisited h m is_root n lo hi st q accepts v enough some_key ready =
      let P = IsValid V c h (min_len c h) in
      let full : is_bare n ≡ false = Spans-full P lo hi n.keys n.children v.2 in
      let rising : is_increasing n.keys ≡ true = Spans-increasing P lo hi n.keys n.children v.2 in
      let starts : starts_in lo n.keys ≡ true = Spans-starts_in P lo hi n.keys n.children v.2 in
      let ends : ends_in hi n.keys ≡ true = Spans-ends_in P lo hi n.keys n.children v.2 in
      rw (le→leb (length n.keys) c.branch_cap v.1, some_key, full, enough, rising, starts, ends)
        (validate_children-IsVisited s
          (λ lo' hi' child st'. validate_node V c s h child lo' hi' false st') P (addrs K V h)
          accepts lo hi n.keys n.children st q v.2 ready)

  -- A node below the root that is valid between its bounds passes, when its leaves are linked.
  validate_node-IsVisited :
      (h : ℕ) (lo hi : Option K) (n : Node K V h) (st : ValidationState K) (q : ℕ)
      → IsValid V c h (min_len c h) lo hi n
      → IsReady s st lo (addrs K V h n) q
      → Ensures
          (validate_node V c s h n lo hi false st)
          (λ r. IsVisited s r.1 hi (last_or (or_null st.prev_leaf) (addrs K V h n)) q)
  unfolding validate_node addrs
  validate_node-IsVisited zero lo hi n st q v ready =
      validate_leaf-IsVisited c usable s n lo hi false (min_len c zero) st q
        (omega (arith, v.0, min_len_pos c zero usable))
        (le→leb (min_len c zero) (length n.items) v.0) v ready
  validate_node-IsVisited (suc h) lo hi n st q v ready =
      branch-IsVisited h (min_len c (suc h)) false n lo hi st q (validate_node-IsVisited h) v
        (le→leb (min_branch_len c) (length n.keys) v.0)
        (rw (ne→== (length n.keys) 0 (omega (arith, v.0, min_len_pos c (suc h) usable))) refl) ready

-- The last test, on the pointer behind the last leaf.
tail_test :
    (s : Siblings) (prev : Option ℕ)
    → is_linked s prev null ≡ true
    → (elim prev as (λ _. Bool) [ none ↦ true | some last ↦ s.next last == null ]) ≡ true
tail_test s none h = refl
tail_test s (some last) h = h

module _ {ℓ} {K : Type ℓ} ⦃o : Ord K⦄ where
  abbrev start : ValidationState K
  start = record { total_items = 0; prev_leaf = none; prev_key = none }

  root-IsReady : (s : Siblings) (xs : List ℕ) → IsChain s xs → IsReady s start none xs null
  root-IsReady s xs chain = record { linked = chain.linked; joined = refl; behind = λ k h. refl }

module _ {ℓ κ} (K : Type ℓ) (V : Type κ) ⦃o : Ord K⦄ (c : Caps) (usable : IsUsable c)
    (s : Siblings) where
  -- What is left of the state when the root was visited.
  abbrev Ends : (h : ℕ) → Node K V h → Type ℓ
  Ends h n =
      Ensures (validate_node V c s h n none none true start)
        (λ r. is_linked s r.1.prev_leaf null ≡ true)

  root-Ends :
      (h : ℕ) (n : Node K V h)
      → IsValid V c h (root_min h) none none n
      → IsChain s (addrs K V h n)
      → Ends h n
  unfolding validate_node validate_leaf addrs
  root-Ends zero n v chain = elim (Bool-cases (length n.items == 0)) [
    | inl empty ↦ (
      (none, start),
      rw (validate_leaf, le→ltb c.leaf_cap (length n.items) v.1, empty) refl,
      refl,
    )
    | inr full ↦
        let (r, run, done) =
          validate_leaf-IsVisited c usable s n none none true 0 start null
            (omega (arith, ==→ne (length n.items) 0 full)) refl v
            (root-IsReady s (n.addr ∷ []) chain) in
        (r, run, done.joined)
  ]
  root-Ends (suc h) n v chain =
      let (r, run, done) =
        branch-IsVisited V c usable s h 1 true n none none start null
          (validate_node-IsVisited V c usable s h) v refl refl
          (root-IsReady s (addrs K V (suc h) n) chain) in
      (r, run, done.joined)

module _ {ℓ κ} {K : Type ℓ} {V : Type κ} ⦃o : Ord K⦄ where
  detailed-accepts :
      (c : Caps) (s : Siblings) (root : Option ((h : ℕ) × Node K V h))
      → IsUsable c
      → IsValidRoot c root
      → IsChain s (root_addrs K V root)
      → check_invariants_detailed V c s root ≡ some tt
  unfolding check_invariants_detailed
  detailed-accepts c s none usable v chain = refl
  detailed-accepts c s (some (h, n)) usable v chain =
      let (r, run, joined) = root-Ends K V c usable s h n v chain in
      rw run (rw (◌>>=◌, tail_test s r.1.prev_leaf joined) refl)

  -- On a sound map `check_invariants` returns true: each test on nodes, keys and pointers passes.
  pub check_invariants-IsSound : (m : BPlusTreeMap K V) → IsSound m → check_invariants m ≡ true
  unfolding check_invariants
  check_invariants-IsSound m sound =
      rw
        (
          check_invariants,
          detailed-accepts m.caps m.store m.root sound.usable sound.valid sound.chain,
        )
        refl
