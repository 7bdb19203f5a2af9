-- ===== src/Insert/BranchSplit.antt =====
-- `branch_insert_and_split`: its three ways to move keys and children against one insertion and
-- one cut.
use bplus_tree.Base.{
  ℕ, suc, ◌+◌, ◌-◌, ◌/◌, ◌≤◌, ◌<◌, ◌≡◌, refl, sym, ap, ◌∙◌, inl, inr, Option, some, arith, tests,
  ltb, lt→ltb, le→ltb, ◌==◌, eq→==, ne→==, ==→eq, ==→ne, Bool-cases, length, get_elem?, take, drop,
  insert_at, length-insert_at, length-take, length-drop, get_elem?-some, take-insert_at_le,
  drop-insert_at_le, take-insert_at_ge, drop-insert_at_ge, get_elem?-insert_at_self,
  get_elem?-insert_at_lt, get_elem?-insert_at_gt, insert_at-take-drop, drop-drop,
}
use bplus_tree.Node.{Caps, Branch, fits-some}
use bplus_tree.Insert.{split, insert_into_branch_slot, branch_insert_and_split}

module _ {ℓ κ μ} {K : Type ℓ} {V : Type κ} {A : Type μ} (c : Caps) (b : Branch K A) (i : ℕ)
    (key : K) (right : A) (old : Option V) (inside : i ≤ length b.keys)
    (children : length b.children ≡ suc (length b.keys)) (full : length b.keys ≤ c.branch_cap) where
  -- The arrays with the new key and child, cut at key `m`, which moves up.
  abbrev pub IsCutAt : ℕ → Type (ℓ ⊔ κ ⊔ μ)
  IsCutAt m =
      (p : K) × (get_elem? (insert_at b.keys i key) m ≡ some p)
      × (branch_insert_and_split c b i key right old
          ≡ some (
              split
                (record {
                  keys = take m (insert_at b.keys i key);
                  children = take (suc m) (insert_at b.children (suc i) right);
                })
                p
                (record {
                  keys = drop (suc m) (insert_at b.keys i key);
                  children = drop (suc m) (insert_at b.children (suc i) right);
                })
                old))

  before-IsCutAt :
      (m : ℕ) {p : K}
      → (length b.keys + 1) / 2 ≡ suc m
      → i ≤ m
      → get_elem? b.keys m ≡ some p
      → IsCutAt (suc m)
  unfolding branch_insert_and_split insert_into_branch_slot
  before-IsCutAt m {p} e h there =
      let back : suc m - 1 ≡ m = omega arith in
      (
        p,
        get_elem?-insert_at_gt b.keys i m key h ∙ there,
        rw (
          e,
          lt→ltb i (suc m) (omega arith),
          back,
          there,
          fits-some c.branch_cap (insert_at (take m b.keys) i key)
              (omega (arith, length-insert_at (take m b.keys) i key, length-take m b.keys)),
          take-insert_at_le m b.keys i key h,
          take-insert_at_le (suc m) b.children (suc i) right (omega arith),
          drop-insert_at_le (suc m) b.keys i key (omega arith),
          drop-insert_at_le (suc m) b.children (suc i) right (omega arith),
        ),
      )

  at-IsCutAt : (m : ℕ) → (length b.keys + 1) / 2 ≡ m → i ≡ m → IsCutAt m
  unfolding branch_insert_and_split
  at-IsCutAt m e h =
      let next : m + 1 ≡ suc m = omega arith in
      let zero' : suc i - suc m ≡ 0 = omega arith in
      (
        key,
        ap (get_elem? (insert_at b.keys i key)) (sym h)
            ∙ get_elem?-insert_at_self b.keys i key inside,
        rw (
          e,
          le→ltb i m (omega arith),
          eq→== i m h,
          next,
          take-insert_at_ge m b.keys i key (omega arith) inside,
          take-insert_at_ge (suc m) b.children (suc i) right (omega arith) (omega arith),
          drop-insert_at_le m b.keys i key (omega arith),
          drop-insert_at_ge (suc m) b.children (suc i) right (omega arith) (omega arith),
          zero',
        ),
      )

  behind-IsCutAt :
      (m : ℕ) {p : K}
      → (length b.keys + 1) / 2 ≡ m
      → m < i
      → get_elem? b.keys m ≡ some p
      → IsCutAt m
  unfolding branch_insert_and_split
  behind-IsCutAt m {p} e h there =
      let next : m + 1 ≡ suc m = omega arith in
      let count : suc i - suc m ≡ i - m = omega arith in
      (
        p,
        get_elem?-insert_at_lt b.keys i m key h inside ∙ there,
        rw (
          e,
          le→ltb i m (omega arith),
          ne→== i m (omega arith),
          there,
          next,
          fits-some c.branch_cap (insert_at (drop (suc m) b.keys) (i - suc m) key) (
              omega (
                arith,
                length-insert_at (drop (suc m) b.keys) (i - suc m) key,
                length-drop (suc m) b.keys,
              )),
          take-insert_at_ge m b.keys i key (omega arith) inside,
          take-insert_at_ge (suc m) b.children (suc i) right (omega arith) (omega arith),
          drop-insert_at_ge (suc m) b.keys i key (omega arith) inside,
          drop-insert_at_ge (suc m) b.children (suc i) right (omega arith) (omega arith),
          count,
          insert_at-take-drop (drop (suc m) b.children) (i - m) right
              (omega (arith, length-drop (suc m) b.children)),
          drop-drop (suc m) (i - m) (i + 1) b.children (omega arith),
        ),
      )

  -- For a branch with one child more than keys, between one key and the capacity, and a position
  -- among its keys: on whichever side of the middle the new key falls, `branch_insert_and_split`
  -- is one insertion into both arrays and one cut at `(len + 1) / 2`.
  pub branch_insert_and_split-IsCutAt : 1 ≤ length b.keys → IsCutAt ((length b.keys + 1) / 2)
  branch_insert_and_split-IsCutAt pos = elim (Bool-cases (ltb i ((length b.keys + 1) / 2))) [
    | inl e ↦
        let m : ℕ = (length b.keys + 1) / 2 - 1 in
        let e' : (length b.keys + 1) / 2 ≡ suc m = omega arith in
        rw e' (before-IsCutAt m e' (omega tests) (get_elem?-some b.keys m (omega arith)).1)
    | inr e ↦ elim (Bool-cases (i == (length b.keys + 1) / 2)) [
      | inl same ↦ at-IsCutAt _ refl (==→eq i _ same)
      | inr other ↦
          let m : ℕ = (length b.keys + 1) / 2 in
          let behind : m < i = omega (tests, ==→ne i m other) in
          behind-IsCutAt m refl behind (get_elem?-some b.keys m (omega arith)).1
    ]
  ]
