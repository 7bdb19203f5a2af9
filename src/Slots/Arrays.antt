-- ===== src/Slots/Arrays.antt =====
-- What the copies of `Slots` do to an array that begins with given cells.
use bplus_tree.Base.{
  ℕ, zero, suc, ◌+◌, ◌-◌, ◌≤◌, ◌<◌, ◌≡◌, refl, sym, ap, ◌∙◌, some, List, [], ◌∷◌, ◌++◌, arith,
  lt→ltb, le→leb, length, length-append, length-set, length-drop, length-take, get_elem?,
  get_elem?-append_lt, set, take, drop, insert_at, remove_at, drop-append_suc, take-append-drop,
}
use bplus_tree.Slots.{ptr_copy, ptr_write}

module _ {ℓ} {A : Type ℓ} where
  -- The array has `size` cells, and begins with `xs`.
  abbrev pub Keeps : ℕ → List A → List A → Type ℓ
  Keeps size zs xs = (rest : List A) × (zs ≡ xs ++ rest) × (length zs ≡ size)

  take-append_all : (xs ys : List A) → take (length xs) (xs ++ ys) ≡ xs
  take-append_all [] ys = refl
  take-append_all (x ∷ xs) ys = ap (◌∷◌ x) (take-append_all xs ys)

  up :
      (xs : List A) (y : A) (ys : List A) (i : ℕ) (v : A)
      → i ≤ length xs
      → set
          (take (suc i) (xs ++ y ∷ ys)
            ++ (take (length (drop i xs)) (drop i (xs ++ y ∷ ys))
                ++ drop (suc (length xs)) (xs ++ y ∷ ys)))
          i
          v
        ≡ insert_at xs i v ++ ys
  up [] y ys zero v h = refl
  up (x ∷ xs) y ys zero v h = rw (take-append_all xs (y ∷ ys), drop-append_suc xs (y ∷ ys))
  up [] y ys (suc i) v h = absurd (omega arith)
  up (x ∷ xs) y ys (suc i) v h = ap (◌∷◌ x) (up xs y ys i v (omega arith))

  down :
      (xs ys : List A) (i d : ℕ)
      → i < length xs
      → suc d ≡ length xs
      → take i (xs ++ ys)
          ++ (take (length (drop (suc i) xs)) (drop (suc i) (xs ++ ys)) ++ drop d (xs ++ ys))
        ≡ remove_at xs i ++ drop d (xs ++ ys)
  down [] ys i d h e = absurd (omega arith)
  down (x ∷ xs) ys zero d h e = ap (λ zs. zs ++ drop d (x ∷ xs ++ ys)) (take-append_all xs ys)
  down (x ∷ xs) ys (suc i) zero h e = absurd (omega arith)
  down (x ∷ xs) ys (suc i) (suc d) h e = ap (◌∷◌ x) (down xs ys i d (omega arith) (omega arith))

  at_end :
      (xs : List A) (y : A) (ys : List A) (v : A)
      → set (xs ++ y ∷ ys) (length xs) v ≡ insert_at xs (length xs) v ++ ys
  at_end [] y ys v = refl
  at_end (x ∷ xs) y ys v = ap (◌∷◌ x) (at_end xs y ys v)

  -- An array longer than what it begins with has a cell behind that.
  room :
      (size : ℕ) (zs xs : List A)
      → Keeps size zs xs
      → length xs < size
      → (y : A) × (ys : List A) × (zs ≡ xs ++ y ∷ ys)
  room size zs xs ([], e, l) h = absurd (omega (arith, length-append xs [], ap length e))
  room size zs xs (y ∷ ys, e, l) h = (y, ys, e)

  abbrev copied : List A → ℕ → ℕ → ℕ → ℕ → List A
  copied zs src dst count back = take dst zs ++ (take count (drop src zs) ++ drop back zs)

  copied-same :
      {zs zs' : List A} (src dst count back src' dst' count' back' : ℕ)
      → zs ≡ zs'
      → src ≡ src'
      → dst ≡ dst'
      → count ≡ count'
      → back ≡ back'
      → copied zs src dst count back ≡ copied zs' src' dst' count' back'
  copied-same {zs} {zs'} src dst count back src' dst' count' back' e a b c d =
      ap (λ cells. copied cells src dst count back) e
      ∙ ap (λ (n : ℕ). copied zs' n dst count back) a
      ∙ ap (λ (n : ℕ). copied zs' src' n count back) b
      ∙ ap (λ (n : ℕ). copied zs' src' dst' n back) c
      ∙ ap (λ (n : ℕ). copied zs' src' dst' count' n) d

  length-copied :
      (zs : List A) (src dst count : ℕ)
      → src + count ≤ length zs
      → dst + count ≤ length zs
      → length (copied zs src dst count (dst + count)) ≡ length zs
  length-copied zs src dst count h k = omega (
    arith,
    length-append (take dst zs) (take count (drop src zs) ++ drop (dst + count) zs),
    length-append (take count (drop src zs)) (drop (dst + count) zs),
    length-take dst zs (omega arith),
    length-drop src zs,
    length-take count (drop src zs) (omega (arith, length-drop src zs)),
    length-drop (dst + count) zs,
  )

  -- A copy within the array succeeds.
  ptr_copy-copied :
      (zs : List A) (src dst count : ℕ)
      → src + count ≤ length zs
      → dst + count ≤ length zs
      → ptr_copy zs src dst count ≡ some (copied zs src dst count (dst + count))
  unfolding ptr_copy
  ptr_copy-copied zs src dst count h k =
      rw (le→leb (src + count) (length zs) h, le→leb (dst + count) (length zs) k)

  ptr_write-set :
      (zs : List A) (i : ℕ) (v : A) → i < length zs → ptr_write zs i v ≡ some (set zs i v)
  unfolding ptr_write
  ptr_write-set zs i v h = rw (lt→ltb i (length zs) h)

  -- The cells from `i` on move up by one, then cell `i` is written.
  pub copy_up-insert_at :
      (size : ℕ) (zs xs : List A) (i : ℕ) (v : A)
      → Keeps size zs xs
      → length xs < size
      → i ≤ length xs
      → (ws : List A) × (ptr_copy zs i (i + 1) (length xs - i) ≡ some ws)
        × ((us : List A) × (ptr_write ws i v ≡ some us) × Keeps size us (insert_at xs i v))
  copy_up-insert_at size zs xs i v (rest, e0, l) h inside =
      let (y, ys, e) = room size zs xs (rest, e0, l) h in
      let n = length xs - i in
      let ws = copied zs i (i + 1) n (i + 1 + n) in
      let same : length ws ≡ length zs = length-copied zs i (i + 1) n (omega arith) (omega arith) in
      let moved : ws ≡ copied (xs ++ y ∷ ys) i (suc i) (length (drop i xs)) (suc (length xs)) =
        copied-same i (i + 1) n (i + 1 + n) i (suc i) (length (drop i xs)) (suc (length xs)) e refl
          (omega arith) (omega (arith, length-drop i xs)) (omega arith) in
      (
        ws,
        ptr_copy-copied zs i (i + 1) n (omega arith) (omega arith),
        (
          set ws i v,
          ptr_write-set ws i v (omega arith),
          (
            ys,
            ap (λ cells. set cells i v) moved ∙ up xs y ys i v inside,
            length-set ws i v ∙ same ∙ l,
          ),
        ),
      )

  -- The cell behind the last is written.
  pub ptr_write-insert_at :
      (size : ℕ) (zs xs : List A) (v : A)
      → Keeps size zs xs
      → length xs < size
      → (us : List A) × (ptr_write zs (length xs) v ≡ some us)
        × Keeps size us (insert_at xs (length xs) v)
  ptr_write-insert_at size zs xs v (rest, e0, l) h =
      let (y, ys, e) = room size zs xs (rest, e0, l) h in
      (
        set zs (length xs) v,
        ptr_write-set zs (length xs) v (omega arith),
        (
          ys,
          ap (λ cells. set cells (length xs) v) e ∙ at_end xs y ys v,
          length-set zs (length xs) v ∙ l,
        ),
      )

  -- The cells behind `i` move down by one.
  pub copy_down-remove_at :
      (size : ℕ) (zs xs : List A) (i : ℕ)
      → Keeps size zs xs
      → i < length xs
      → (ws : List A) × (ptr_copy zs (i + 1) i (length xs - i - 1) ≡ some ws)
        × Keeps size ws (remove_at xs i)
  copy_down-remove_at size zs xs i (rest, e, l) inside =
      let n = length xs - i - 1 in
      let last = length xs - 1 in
      let long = length-append xs rest in
      let fit : length xs ≤ length zs = omega (arith, ap length e) in
      let ws = copied zs (i + 1) i n (i + n) in
      (
        ws,
        ptr_copy-copied zs (i + 1) i n (omega arith) (omega arith),
        (
          drop last (xs ++ rest),
          copied-same (i + 1) i n (i + n) (suc i) i (length (drop (suc i) xs)) last e (omega arith)
                refl (omega (arith, length-drop (suc i) xs)) (omega arith)
              ∙ down xs rest i last inside (omega arith),
          length-copied zs (i + 1) i n (omega arith) (omega arith) ∙ l,
        ),
      )

  -- The last cell is left behind.
  pub Keeps-remove_at :
      (size : ℕ) (zs xs : List A) (i : ℕ)
      → Keeps size zs xs
      → suc i ≡ length xs
      → Keeps size zs (remove_at xs i)
  Keeps-remove_at size zs xs i (rest, e, l) h = (
    drop i (xs ++ rest),
    e
        ∙ sym (take-append-drop i (xs ++ rest))
        ∙ copied-same (suc i) i 0 i (suc i) i (length (drop (suc i) xs)) i refl refl refl
            (omega (arith, length-drop (suc i) xs)) refl
        ∙ down xs rest i i (omega arith) h,
    l,
  )

  pub get_elem?-Keeps :
      (size : ℕ) (zs xs : List A) (i : ℕ)
      → Keeps size zs xs
      → i < length xs
      → get_elem? zs i ≡ get_elem? xs i
  get_elem?-Keeps size zs xs i (rest, e, l) h =
      ap (λ cells. get_elem? cells i) e ∙ get_elem?-append_lt i xs rest h
