-- ===== src/Slots/Items.antt =====
-- The slots of a leaf against the list of its items.
use bplus_tree.Base.{
  ℕ, zero, suc, ◌+◌, ◌-◌, ◌%◌, ◌^◌, ◌≤◌, ◌<◌, ◌≡◌, refl, sym, ap, ◌∙◌, inl, inr, Option, some, List,
  [], ◌∷◌, arith, if◌then◌else◌, map, Ensures, ltb, lt→ltb, ltb→lt, ltb→le, Bool-cases, length,
  length-map, length-append, length-insert_at, length-remove_at, get_elem?, get_elem?-lt, insert_at,
  remove_at,
}
use bplus_tree.Slots.{
  ptr_copy, ptr_write, ptr_read, Slots, LeafParts, shift_right, write_kv_at, shift_left_kv,
  insert_into_leaf_slot, remove_slot,
}
use bplus_tree.Slots.Arrays.{
  Keeps, copy_up-insert_at, ptr_write-insert_at, copy_down-remove_at, Keeps-remove_at,
  get_elem?-Keeps,
}

module _ {ℓ κ} {A : Type ℓ} {B : Type κ} (f : A → B) where
  map-insert_at :
      (xs : List A) (i : ℕ) (v : A) → map f (insert_at xs i v) ≡ insert_at (map f xs) i (f v)
  map-insert_at xs zero v = refl
  map-insert_at [] (suc i) v = refl
  map-insert_at (x ∷ xs) (suc i) v = ap (◌∷◌ (f x)) (map-insert_at xs i v)

  map-remove_at : (xs : List A) (i : ℕ) → map f (remove_at xs i) ≡ remove_at (map f xs) i
  map-remove_at [] i = refl
  map-remove_at (x ∷ xs) zero = refl
  map-remove_at (x ∷ xs) (suc i) = ap (◌∷◌ (f x)) (map-remove_at xs i)

  get_elem?-map :
      (xs : List A) (i : ℕ) {v : A} → get_elem? xs i ≡ some v → get_elem? (map f xs) i ≡ some (f v)
  get_elem?-map [] i e = absurd (cc)
  get_elem?-map (x ∷ xs) zero e = let e' : x ≡ _ = cc in ap (λ a. some (f a)) e'
  get_elem?-map (x ∷ xs) (suc i) e = get_elem?-map xs i e

  -- The lemmas on arrays, for the cells of a list of items.
  cells_up :
      (size : ℕ) (zs : List B) (xs : List A) (i : ℕ) (v : A)
      → Keeps size zs (map f xs)
      → length xs < size
      → i ≤ length xs
      → (ws : List B) × (ptr_copy zs i (i + 1) (length xs - i) ≡ some ws)
        × ((us : List B) × (ptr_write ws i (f v) ≡ some us)
            × Keeps size us (map f (insert_at xs i v)))
  cells_up size zs xs i v k room inside =
      let same = length-map xs f in
      rw (map-insert_at xs i v, sym same)
        (copy_up-insert_at size zs (map f xs) i (f v) k (omega arith) (omega arith))

  pub cells_end :
      (size : ℕ) (zs : List B) (xs : List A) (v : A)
      → Keeps size zs (map f xs)
      → length xs < size
      → (us : List B) × (ptr_write zs (length xs) (f v) ≡ some us)
        × Keeps size us (map f (insert_at xs (length xs) v))
  cells_end size zs xs v k room =
      let same = length-map xs f in
      rw (map-insert_at xs (length xs) v, sym same)
        (ptr_write-insert_at size zs (map f xs) (f v) k (omega arith))

  cells_down :
      (size : ℕ) (zs : List B) (xs : List A) (i : ℕ)
      → Keeps size zs (map f xs)
      → i < length xs
      → (ws : List B) × (ptr_copy zs (i + 1) i (length xs - i - 1) ≡ some ws)
        × Keeps size ws (map f (remove_at xs i))
  cells_down size zs xs i k inside =
      let same = length-map xs f in
      rw (map-remove_at xs i, sym same) (copy_down-remove_at size zs (map f xs) i k (omega arith))

  cells_last :
      (size : ℕ) (zs : List B) (xs : List A) (i : ℕ)
      → Keeps size zs (map f xs)
      → suc i ≡ length xs
      → Keeps size zs (map f (remove_at xs i))
  cells_last size zs xs i k last =
      rw (map-remove_at xs i)
        (Keeps-remove_at size zs (map f xs) i k (last ∙ sym (length-map xs f)))

  pub read_cell :
      (size : ℕ) (zs : List B) (xs : List A) (i : ℕ) {v : A}
      → Keeps size zs (map f xs)
      → get_elem? xs i ≡ some v
      → get_elem? zs i ≡ some (f v)
  read_cell size zs xs i k e =
      get_elem?-Keeps size zs (map f xs) i k (omega (arith, length-map xs f, get_elem?-lt xs i e))
      ∙ get_elem?-map xs i e

module _ {ℓ κ} {K : Type ℓ} {V : Type κ} where
  abbrev pub key_cell : K × V → Option K
  key_cell e = some e.0

  abbrev pub val_cell : K × V → Option V
  val_cell e = some e.1

  -- Both arrays have room for `size` slots and begin with the items.
  pub record AreIn (size : ℕ) (s : Slots K V) (items : List (K × V)) : Type (ℓ ⊔ κ) where
    pub keys : Keeps size s.keys (map key_cell items)
    pub vals : Keeps size s.vals (map val_cell items)

  -- The header counts them, in 16 bits.
  pub record Holds (size : ℕ) (p : LeafParts K V) (items : List (K × V)) : Type (ℓ ⊔ κ) where
    pub len : p.len ≡ length items
    pub slots : AreIn size p.slots items
    pub narrow : size < 2 ^ 16

  pub AreIn-length :
      (size : ℕ) (s : Slots K V) (items : List (K × V)) → AreIn size s items → length items ≤ size
  AreIn-length size s items h =
      let (rest, e, l) = h.keys in
      omega
        (arith, ap length e, length-append (map key_cell items) rest, length-map items key_cell, l)

  -- A slot is written, behind a shift where it is in use.
  pub shift_right-write_kv_at :
      (size : ℕ) (s : Slots K V) (items : List (K × V)) (i : ℕ) (k : K) (v : V)
      → AreIn size s items
      → length items < size
      → i ≤ length items
      → (s' : Slots K V) × (shift_right s i (length items) ≡ some s')
        × Ensures (write_kv_at s' i k v) (λ s''. AreIn size s'' (insert_at items i (k, v)))
  unfolding shift_right write_kv_at
  shift_right-write_kv_at size s items i k v h room inside =
      elim (Bool-cases (ltb i (length items))) [
        | inl inner ↦
            let (keys, a, (keys', b, kept)) =
              cells_up key_cell size s.keys items i (k, v) h.keys room inside in
            let (vals, c, (vals', d, kept')) =
              cells_up val_cell size s.vals items i (k, v) h.vals room inside in
            (
              record { keys = keys; vals = vals },
              rw (inner, a, c),
              (
                record { keys = keys'; vals = vals' },
                rw (b, d),
                record { keys = kept; vals = kept' },
              ),
            )
        | inr outer ↦
            let last : i ≡ length items = omega (arith, ltb→le i (length items) outer) in
            let (keys', b, kept) = cells_end key_cell size s.keys items (k, v) h.keys room in
            let (vals', d, kept') = cells_end val_cell size s.vals items (k, v) h.vals room in
            (
              s,
              rw outer,
              (
                record { keys = keys'; vals = vals' },
                rw (last, b, d),
                rw last (record { keys = kept; vals = kept' }),
              ),
            )
      ]

  -- When a leaf holds fewer items than it has slots, and the count fits 16 bits: inserting an item
  -- into the slots succeeds, and the leaf then holds the list with the item inserted there.
  pub insert_into_leaf_slot-insert_at :
      (size : ℕ) (p : LeafParts K V) (items : List (K × V)) (i : ℕ) (k : K) (v : V)
      → Holds size p items
      → length items < size
      → i ≤ length items
      → Ensures (insert_into_leaf_slot p i p.len k v) (λ q. Holds size q (insert_at items i (k, v)))
  unfolding insert_into_leaf_slot
  insert_into_leaf_slot-insert_at size p items i k v h room inside =
      let (s, run, (s', run', now)) =
        shift_right-write_kv_at size p.slots items i k v h.slots room inside in
      (
        record { len = (p.len + 1) % 2 ^ 16; slots = s' },
        rw (h.len, run, run'),
        record {
          len = omega (arith, h.len, h.narrow, length-insert_at items i (k, v));
          slots = now;
          narrow = h.narrow;
        },
      )

  -- The slots behind the removed one move, where there are any.
  shift_left_kv-remove_at :
      (size : ℕ) (s : Slots K V) (items : List (K × V)) (i : ℕ)
      → AreIn size s items
      → i < length items
      → Ensures
          (if ltb i (length items - 1) then shift_left_kv s i (length items - i - 1) else some s)
          (λ s'. AreIn size s' (remove_at items i))
  unfolding shift_left_kv
  shift_left_kv-remove_at size s items i h inside = elim (Bool-cases (ltb i (length items - 1))) [
    | inl inner ↦
        let (keys, a, kept) = cells_down key_cell size s.keys items i h.keys inside in
        let (vals, c, kept') = cells_down val_cell size s.vals items i h.vals inside in
        let some_left : 0 < length items - i - 1 =
          omega (arith, ltb→lt i (length items - 1) inner) in
        (
          record { keys = keys; vals = vals },
          rw (inner, lt→ltb 0 (length items - i - 1) some_left, a, c),
          record { keys = kept; vals = kept' },
        )
    | inr outer ↦
        let last : suc i ≡ length items = omega (arith, ltb→le i (length items - 1) outer) in
        (
          s,
          rw outer,
          record {
            keys = cells_last key_cell size s.keys items i h.keys last;
            vals = cells_last val_cell size s.vals items i h.vals last;
          },
        )
  ]

  -- When a leaf holds the items, and `e` is the item at slot `i`: removing the slot succeeds and
  -- returns the value of `e`, and the leaf then holds the list without the item.
  pub remove_slot-remove_at :
      (size : ℕ) (p : LeafParts K V) (items : List (K × V)) (i : ℕ) (e : K × V)
      → Holds size p items
      → get_elem? items i ≡ some e
      → Ensures (remove_slot p i) (λ r. Holds size r.0 (remove_at items i) × (r.1 ≡ e.1))
  unfolding remove_slot ptr_read
  remove_slot-remove_at size p items i e h there =
      let inside = get_elem?-lt items i there in
      let bound = AreIn-length size p.slots items h.slots in
      let (s, run, now) = shift_left_kv-remove_at size p.slots items i h.slots inside in
      let key = read_cell key_cell size p.slots.keys items i h.slots.keys there in
      let val = read_cell val_cell size p.slots.vals items i h.slots.vals there in
      (
        (record { len = (p.len - 1) % 2 ^ 16; slots = s }, e.1),
        rw (key, val, h.len, run),
        (
          record {
            len = omega (arith, h.len, h.narrow, length-remove_at items i inside, bound);
            slots = now;
            narrow = h.narrow;
          },
          refl,
        ),
      )
