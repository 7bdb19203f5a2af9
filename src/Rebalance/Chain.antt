-- ===== src/Rebalance/Chain.antt =====
-- The chain of the leaves while a child is rebalanced.
use mathlib.Core.List.{append_assoc}
use bplus_tree.Base.{
  ℕ, zero, suc, ◌-◌, ◌≡◌, refl, sym, ap, ◌∙◌, Option, some, List, [], ◌∷◌, ◌++◌, ◌&&◌, ◌>>=◌,
  if◌then◌else◌, Yields, Yields->>=, Yields-each, Yields-if, ltb, leb, lt→leb, length, get_elem?,
  get_elem?-lt, set, take, drop, remove_at, flat_map,
}
use bplus_tree.Node.{Branch}
use bplus_tree.Siblings.{Siblings}
use bplus_tree.Siblings.Extends.{Extends, Extends-same, Extends-within}
use bplus_tree.Rebalance.{
  Kind, remove_branch_entry, change_pair, borrow_from_left, borrow_from_right, merge_pair, can_lend,
  rebalance_child,
}
use bplus_tree.Rebalance.Pairs.{flat_map-set_pair}

module _ {ℓ κ} {A : Type ℓ} {B : Type κ} (f : A → List B) where
  abbrev front : List A → ℕ → List B
  front xs j = flat_map f (take j xs)

  abbrev back : List A → ℕ → List B
  back xs j = flat_map f (drop (suc (suc j)) xs)

  pub flat_map-pair :
      (xs : List A) (j : ℕ) {l r : A}
      → get_elem? xs j ≡ some l
      → get_elem? xs (suc j) ≡ some r
      → flat_map f xs ≡ front xs j ++ (f l ++ f r) ++ back xs j
  unfolding flat_map
  flat_map-pair [] j p q = absurd (cc)
  flat_map-pair (x ∷ []) zero p q = absurd (cc)
  flat_map-pair (x ∷ y ∷ xs) zero {l} {r} p q =
      let p' : x ≡ l = cc in
      let q' : y ≡ r = cc in rw (p', q') (sym (append_assoc (f l) (f r) (flat_map f xs)))
  flat_map-pair (x ∷ xs) (suc j) {l} {r} p q =
      ap (λ zs. f x ++ zs) (flat_map-pair xs j p q) ∙ simp append_assoc

  pub flat_map-joined :
      (xs : List A) (j : ℕ) (m : A) {r : A}
      → get_elem? xs (suc j) ≡ some r
      → flat_map f (remove_at (set xs j m) (suc j)) ≡ front xs j ++ f m ++ back xs j
  unfolding flat_map
  flat_map-joined [] j m q = absurd (cc)
  flat_map-joined (x ∷ []) zero m q = absurd (cc)
  flat_map-joined (x ∷ y ∷ xs) zero m q = refl
  flat_map-joined (x ∷ xs) (suc j) m q =
      ap (λ zs. f x ++ zs) (flat_map-joined xs j m q) ∙ simp append_assoc

module _ {ℓ κ} {K : Type ℓ} {A : Type κ} where
  -- What the operations of a kind of child do to the leaves below two neighbours: an entry that
  -- moves takes its leaves along, and the leaf that a merge empties leaves the chain.
  pub record IsChained (Formed : A → Type 0) (f : A → List ℕ) (kind : Kind K A) : Type (ℓ ⊔ κ) where
    pub to_right :
        (l : A) (s : K) (r : A)
        → Formed l
        → Formed r
        → Yields (kind.lend_to_right l s r) (λ t. f t.0 ++ f t.2 ≡ f l ++ f r)
    pub to_left :
        (l : A) (s : K) (r : A)
        → Formed l
        → Formed r
        → Yields (kind.lend_to_left l s r) (λ t. f t.0 ++ f t.2 ≡ f l ++ f r)
    pub merged :
        (l : A) (s : K) (r : A) (st : Siblings)
        → Yields (kind.merge l s r) (λ m. Extends st (kind.free r st) (f l ++ f r) (f m))

  module _ (Formed : A → Type 0) (f : A → List ℕ) (kind : Kind K A)
      (chained : IsChained Formed f kind) (b : Branch K A) (st : Siblings)
      (formed : (j : ℕ) (n : A) → get_elem? b.children j ≡ some n → Formed n) where
    abbrev pub ExtendsBranch : Branch K A × Siblings → Type 0
    ExtendsBranch r = Extends st r.1 (flat_map f b.children) (flat_map f r.0.children)

    change_pair-Extends :
        (change : A → K → A → Option (A × K × A)) (j : ℕ)
        → ((l : A) (s : K) (r : A)
            → Formed l
            → Formed r
            → Yields (change l s r) (λ t. f t.0 ++ f t.2 ≡ f l ++ f r))
        → Yields (do b' ← change_pair change b j; some (b', st)) ExtendsBranch
    unfolding change_pair
    change_pair-Extends change j keeps =
        Yields->>= (change_pair change b j) _ (λ b'. flat_map f b'.children ≡ flat_map f b.children)
          ExtendsBranch
          (Yields-each (get_elem? b.children j) _ _ (λ l p.
            Yields-each (get_elem? b.children (suc j)) _ _ (λ r q.
              Yields-each (get_elem? b.keys j) _ _ (λ s e.
                Yields->>= (change l s r) _ (λ t. f t.0 ++ f t.2 ≡ f l ++ f r) _
                  (keeps l s r (formed j l p) (formed (suc j) r q))
                  (λ t e' same. flat_map-set_pair f b.children j t.0 t.2 p q same)))))
          (λ b' e same. Extends-same st _ _ (sym same))

    merge_pair-Extends : (j : ℕ) → Yields (merge_pair kind b j st) ExtendsBranch
    unfolding merge_pair remove_branch_entry
    merge_pair-Extends j = Yields-each (get_elem? b.children j) _ ExtendsBranch (λ l p.
        Yields-each (get_elem? b.children (suc j)) _ ExtendsBranch (λ r q.
          Yields-each (get_elem? b.keys j) _ ExtendsBranch (λ s e.
            Yields->>= (kind.merge l s r) _ (λ m. Extends st (kind.free r st) (f l ++ f r) (f m))
              ExtendsBranch (chained.merged l s r st)
              (λ m e' ext.
                rw
                  (
                    lt→leb (length b.keys) j (get_elem?-lt b.keys j e),
                    flat_map-pair f b.children j p q,
                    flat_map-joined f b.children j m q,
                  )
                  (Extends-within st (kind.free r st) (front f b.children j) (f l ++ f r) (f m)
                    (back f b.children j) ext)))))

    pub rebalance_child-Extends :
        (i len : ℕ) → Yields (rebalance_child kind b i len st) ExtendsBranch
    unfolding rebalance_child borrow_from_left borrow_from_right
    rebalance_child-Extends i len =
        let E = ExtendsBranch in
        let stay : Option (Branch K A × Siblings) = some (b, st) in
        let keep = Extends-same st (flat_map f b.children) _ refl in
        let t1 = ltb i len in
        let t2 = ltb 0 i in
        let t3 = ltb i len && can_lend kind b (suc i) in
        let t4 = ltb 0 i && can_lend kind b (i - 1) in
        let mr = merge_pair kind b i st in
        let ml = merge_pair kind b (i - 1) st in
        let br = borrow_from_right kind b i st in
        let bl = borrow_from_left kind b i st in
        let m1 = if t1 then mr else stay in
        let m2 = if t2 then ml else m1 in
        let m3 = if t3 then br else m2 in
        let m4 = if t4 then bl else m3 in
        let y1 = Yields-if t1 mr stay E (merge_pair-Extends i) keep in
        let y2 = Yields-if t2 ml m1 E (merge_pair-Extends (i - 1)) y1 in
        let y3 =
          Yields-if t3 br m2 E (change_pair-Extends kind.lend_to_left i chained.to_left) y2 in
        let y4 =
          Yields-if t4 bl m3 E (change_pair-Extends kind.lend_to_right (i - 1) chained.to_right)
            y3 in
        Yields-each (get_elem? b.children i) _ E
          (λ n e. Yields-if (leb kind.min_size (kind.size n)) stay m4 E keep y4)
