-- ===== src/Slots/Loans.antt =====
-- The loan of the first item of the right leaf.
use bplus_tree.Base.{
  ℕ, suc, ◌+◌, ◌-◌, ◌%◌, ◌^◌, ◌<◌, ◌≡◌, refl, sym, ap, ◌∙◌, Option, none, some, List, [], ◌∷◌, ◌++◌,
  arith, map, Ensures, lt→ltb, length, length-map, length-append, length-set, set,
}
use bplus_tree.Slots.{
  ptr_copy, ptr_write, Slots, LeafParts, move_kv_at, close_gap, borrow_right_slots,
}
use bplus_tree.Slots.Arrays.{Keeps, copy_down-remove_at}
use bplus_tree.Slots.Items.{key_cell, val_cell, AreIn, AreIn-length, Holds}
use bplus_tree.Slots.Transfers.{read_kv_at-some, write_kv_at-append}

module _ {ℓ} {A : Type ℓ} where
  set_beyond : (xs rest : List A) (x : A) → set (xs ++ rest) (length xs) x ≡ xs ++ set rest 0 x
  set_beyond [] rest x = refl
  set_beyond (y ∷ xs) rest x = ap (◌∷◌ y) (set_beyond xs rest x)

  -- A write behind the cells that the array begins with.
  clear_behind :
      (size : ℕ) (zs xs : List A) (x : A)
      → Keeps size zs xs
      → length xs < size
      → (us : List A) × (ptr_write zs (length xs) x ≡ some us) × Keeps size us xs
  unfolding ptr_write
  clear_behind size zs xs x (rest, e, l) room = (
    set zs (length xs) x,
    rw (lt→ltb (length xs) (length zs) (omega arith)),
    (
      set rest 0 x,
      ap (λ cells. set cells (length xs) x) e ∙ set_beyond xs rest x,
      length-set zs (length xs) x ∙ l,
    ),
  )

  clear_first :
      (size : ℕ) (zs xs : List A) (y x : A)
      → Keeps size zs (y ∷ xs)
      → (us : List A) × (ptr_write zs 0 x ≡ some us) × Keeps size us (x ∷ xs)
  unfolding ptr_write
  clear_first size zs xs y x (rest, e, l) =
      let inside : 0 < length zs = omega (arith, ap length e) in
      (
        set zs 0 x,
        rw (lt→ltb 0 (length zs) inside),
        (rest, ap (λ cells. set cells 0 x) e, length-set zs 0 x ∙ l),
      )

  -- The first cell is gone: the others move to its place, and the last is cleared.
  close :
      (size : ℕ) (zs xs : List A) (y x : A)
      → Keeps size zs (y ∷ xs)
      → length xs < size
      → (ws : List A) × (ptr_copy zs 1 0 (length xs) ≡ some ws)
        × ((us : List A) × (ptr_write ws (length xs) x ≡ some us) × Keeps size us xs)
  close size zs xs y x k room =
      let (ws, run, kept) = copy_down-remove_at size zs (y ∷ xs) 0 k (omega arith) in
      let count : length xs ≡ length (y ∷ xs) - 0 - 1 = omega arith in
      (ws, ap (λ (n : ℕ). ptr_copy zs 1 0 n) count ∙ run, clear_behind size ws xs x kept room)

module _ {ℓ κ} {A : Type ℓ} {B : Type κ} (f : A → Option B) where
  close_cells :
      (size : ℕ) (zs : List (Option B)) (xs : List A)
      → Keeps size zs (none ∷ map f xs)
      → length xs < size
      → (ws : List (Option B)) × (ptr_copy zs 1 0 (length xs) ≡ some ws)
        × ((us : List (Option B)) × (ptr_write ws (length xs) none ≡ some us)
            × Keeps size us (map f xs))
  close_cells size zs xs k room =
      let same = length-map xs f in
      rw (sym same) (close size zs (map f xs) none none k (omega arith))

  drop_first : (size : ℕ) (zs : List B) (y : B) → Keeps size zs (y ∷ []) → Keeps size zs []
  drop_first size zs y (rest, e, l) = (y ∷ rest, e, l)

module _ {ℓ κ} {K : Type ℓ} {V : Type κ} where
  close_gap-AreIn :
      (size : ℕ) (s : Slots K V) (items : List (K × V))
      → Keeps size s.keys (none ∷ map key_cell items)
      → Keeps size s.vals (none ∷ map val_cell items)
      → length items < size
      → Ensures (close_gap s (suc (length items))) (λ s'. AreIn size s' items)
  unfolding close_gap
  close_gap-AreIn size s [] k v room =
      let (ks, e, l) = k in
      let (vs, e', l') = v in
      (s, refl, record { keys = (none ∷ ks, e, l); vals = (none ∷ vs, e', l') })
  close_gap-AreIn size s (x ∷ xs) k v room =
      let back : suc (length (x ∷ xs)) - 1 ≡ length (x ∷ xs) = omega arith in
      let (keys, a, (keys', b, kept)) = close_cells key_cell size s.keys (x ∷ xs) k room in
      let (vals, c, (vals', d, kept')) = close_cells val_cell size s.vals (x ∷ xs) v room in
      (
        record { keys = keys'; vals = vals' },
        rw (lt→ltb 1 (suc (length (x ∷ xs))) (omega arith), back, a, c, b, d),
        record { keys = kept; vals = kept' },
      )

  -- When the child holds `xs`, the right leaf holds `e` and then `ys`, and the child has a slot
  -- left: the copies of `borrow_from_right_leaf` succeed, the child then holds `xs` and then `e`,
  -- and the right leaf `ys`.
  pub borrow_right_slots-append :
      (size : ℕ) (c r : LeafParts K V) (xs ys : List (K × V)) (e : K × V)
      → Holds size c xs
      → Holds size r (e ∷ ys)
      → length xs < size
      → Ensures (borrow_right_slots c r) (λ q. Holds size q.0 (xs ++ e ∷ []) × Holds size q.1 ys)
  unfolding borrow_right_slots move_kv_at
  borrow_right_slots-append size c r xs ys e h k room =
      let (s, run, now) = write_kv_at-append size c.slots xs e h.slots room in
      let read = read_kv_at-some size r.slots (e ∷ ys) 0 k.slots refl in
      let (keys, a, kept) =
        clear_first size r.slots.keys (map key_cell ys) (some e.0) none k.slots.keys in
      let (vals, b, kept') =
        clear_first size r.slots.vals (map val_cell ys) (some e.1) none k.slots.vals in
      let bound = AreIn-length size r.slots (e ∷ ys) k.slots in
      let (s', run', now') =
        close_gap-AreIn size (record { keys = keys; vals = vals }) ys kept kept' (omega arith) in
      let long = length-append xs (e ∷ []) in
      (
        (
          record { len = (c.len + 1) % 2 ^ 16; slots = s },
          record { len = (r.len - 1) % 2 ^ 16; slots = s' },
        ),
        rw (read, h.len, run, a, b, k.len, run'),
        (
          record { len = omega (arith, h.len, h.narrow); slots = now; narrow = h.narrow },
          record { len = omega (arith, k.len, k.narrow); slots = now'; narrow = k.narrow },
        ),
      )
