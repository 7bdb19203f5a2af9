-- ===== src/Slots/Transfers.antt =====
-- Items that go from the slots of one leaf to those of another.
use mathlib.Core.List.{append_assoc, append-nil, map-append}
use bplus_tree.Base.{
  ℕ, zero, suc, ◌+◌, ◌-◌, ◌%◌, ◌^◌, ◌≤◌, ◌<◌, ◌≡◌, refl, sym, ap, ◌∙◌, Option, none, some, List, [],
  ◌∷◌, ◌++◌, arith, map, Ensures, lt→ltb, le→ltb, length, length-map, length-append, length-set,
  get_elem?, drop, set, insert_at,
}
use bplus_tree.Slots.{
  ptr_write, ptr_read, Slots, LeafParts, write_kv_at, read_kv_at, move_kv_at, move_items,
  merge_slots, borrow_slots,
}
use bplus_tree.Slots.Arrays.{Keeps}
use bplus_tree.Slots.Items.{
  cells_end, read_cell, key_cell, val_cell, AreIn, AreIn-length, Holds, shift_right-write_kv_at,
}

module _ {ℓ} {A : Type ℓ} where
  insert_at-length : (xs : List A) (v : A) → insert_at xs (length xs) v ≡ xs ++ v ∷ []
  insert_at-length [] v = refl
  insert_at-length (x ∷ xs) v = ap (◌∷◌ x) (insert_at-length xs v)

  get_elem?-drop :
      (xs : List A) (i : ℕ) {r : A} {rs : List A} → drop i xs ≡ r ∷ rs → get_elem? xs i ≡ some r
  get_elem?-drop [] zero e = absurd (cc)
  get_elem?-drop [] (suc i) e = absurd (cc)
  get_elem?-drop (x ∷ xs) zero e = cc
  get_elem?-drop (x ∷ xs) (suc i) e = get_elem?-drop xs i e

  get_elem?-last : (xs : List A) (x : A) → get_elem? (xs ++ x ∷ []) (length xs) ≡ some x
  get_elem?-last [] x = refl
  get_elem?-last (y ∷ xs) x = get_elem?-last xs x

  drop_next :
      (xs : List A) (i : ℕ) {r : A} {rs : List A} → drop i xs ≡ r ∷ rs → drop (suc i) xs ≡ rs
  drop_next [] zero e = absurd (cc)
  drop_next [] (suc i) e = absurd (cc)
  drop_next (x ∷ xs) zero e = cc
  drop_next (x ∷ xs) (suc i) e = drop_next xs i e

  -- Writing behind the items changes none of them.
  set_behind :
      (xs : List A) (y x : A) (rest : List A)
      → set ((xs ++ y ∷ []) ++ rest) (length xs) x ≡ xs ++ x ∷ rest
  set_behind [] y x rest = refl
  set_behind (z ∷ xs) y x rest = ap (◌∷◌ z) (set_behind xs y x rest)

  -- The last of the cells is cleared: the array still begins with the others.
  ptr_write-Keeps :
      (size : ℕ) (zs xs : List A) (y x : A)
      → Keeps size zs (xs ++ y ∷ [])
      → (us : List A) × (ptr_write zs (length xs) x ≡ some us) × Keeps size us xs
  unfolding ptr_write
  ptr_write-Keeps size zs xs y x (rest, e, l) =
      let inside : length xs < length zs =
        omega (arith, ap length e, length-append (xs ++ y ∷ []) rest, length-append xs (y ∷ [])) in
      (
        set zs (length xs) x,
        rw (lt→ltb (length xs) (length zs) inside),
        (
          x ∷ rest,
          ap (λ cells. set cells (length xs) x) e ∙ set_behind xs y x rest,
          length-set zs (length xs) x ∙ l,
        ),
      )

module _ {ℓ κ} {A : Type ℓ} {B : Type κ} (f : A → Option B) where
  clear_last :
      (size : ℕ) (zs : List (Option B)) (xs : List A) (e : A)
      → Keeps size zs (map f (xs ++ e ∷ []))
      → (us : List (Option B)) × (ptr_write zs (length xs) none ≡ some us)
        × Keeps size us (map f xs)
  clear_last size zs xs e k =
      rw (sym (length-map xs f))
        (ptr_write-Keeps size zs (map f xs) (f e) none (rw (sym (map-append f xs (e ∷ []))) k))

module _ {ℓ κ} {K : Type ℓ} {V : Type κ} where
  pub read_kv_at-some :
      (size : ℕ) (s : Slots K V) (items : List (K × V)) (i : ℕ) {e : K × V}
      → AreIn size s items
      → get_elem? items i ≡ some e
      → read_kv_at s i ≡ some e
  unfolding read_kv_at ptr_read
  read_kv_at-some size s items i h there = rw (
    read_cell key_cell size s.keys items i h.keys there,
    read_cell val_cell size s.vals items i h.vals there,
  )

  pub write_kv_at-append :
      (size : ℕ) (s : Slots K V) (items : List (K × V)) (e : K × V)
      → AreIn size s items
      → length items < size
      → Ensures (write_kv_at s (length items) e.0 e.1) (λ s'. AreIn size s' (items ++ e ∷ []))
  unfolding write_kv_at
  write_kv_at-append size s items e h room =
      let (keys, b, kept) = cells_end key_cell size s.keys items e h.keys room in
      let (vals, d, kept') = cells_end val_cell size s.vals items e h.vals room in
      (
        record { keys = keys; vals = vals },
        rw (b, d),
        rw (sym (insert_at-length items e)) (record { keys = kept; vals = kept' }),
      )

  -- The loop from slot `i` on, where `rs` is left to move.
  move_items-append :
      (size : ℕ) (t s : Slots K V) (xs ys rs : List (K × V)) (target_len i : ℕ)
      → AreIn size t xs
      → AreIn size s ys
      → drop i ys ≡ rs
      → target_len + i ≡ length xs
      → length xs + length rs ≤ size
      → Ensures (move_items t s target_len i (length rs)) (λ t'. AreIn size t' (xs ++ rs))
  unfolding move_items
  move_items-append size t s xs ys [] target_len i h k e here room = (t, refl, rw (append-nil xs) h)
  move_items-append size t s xs ys (r ∷ rs) target_len i h k e here room =
      let (t', run, now) = write_kv_at-append size t xs r h (omega arith) in
      let (t'', run', now') =
        move_items-append size t' s (xs ++ r ∷ []) ys rs target_len (suc i) now k (drop_next ys i e)
          (omega (arith, length-append xs (r ∷ []))) (omega (arith, length-append xs (r ∷ []))) in
      (
        t'',
        rw (read_kv_at-some size s ys i k (get_elem?-drop ys i e), here, run, run'),
        rw (sym (append_assoc xs (r ∷ []) rs)) now',
      )

  -- When two leaves hold their items, and these fit into one leaf: the loop that merges them
  -- succeeds, the target then holds the items of both, and the source holds none.
  pub merge_slots-append :
      (size : ℕ) (t s : LeafParts K V) (xs ys : List (K × V))
      → Holds size t xs
      → Holds size s ys
      → length xs + length ys ≤ size
      → Ensures (merge_slots size t s) (λ r. Holds size r.0 (xs ++ ys) × Holds size r.1 [])
  unfolding merge_slots
  merge_slots-append size t s xs ys h k room =
      let (slots, run, now) =
        move_items-append size t.slots s.slots xs ys ys (length xs) 0 h.slots k.slots refl
          (omega arith) room in
      (
        (record { len = (t.len + s.len) % 2 ^ 16; slots = slots }, record s { len = 0 }),
        rw (h.len, k.len, le→ltb size (length xs + length ys) room, run),
        (
          record {
            len = omega (arith, h.len, k.len, h.narrow, length-append xs ys);
            slots = now;
            narrow = h.narrow;
          },
          record {
            len = refl;
            slots = record {
              keys = (s.slots.keys, refl, k.slots.keys.2);
              vals = (s.slots.vals, refl, k.slots.vals.2);
            };
            narrow = h.narrow;
          },
        ),
      )

  -- When the left leaf holds `xs` and then `e`, the child holds `ys`, and the child has a slot
  -- left: the copies of `borrow_from_left_leaf` succeed, the left leaf then holds `xs`, and the
  -- child `e` and then `ys`.
  pub borrow_slots-cons :
      (size : ℕ) (l c : LeafParts K V) (xs ys : List (K × V)) (e : K × V)
      → Holds size l (xs ++ e ∷ [])
      → Holds size c ys
      → length ys < size
      → Ensures (borrow_slots l c) (λ r. Holds size r.0 xs × Holds size r.1 (e ∷ ys))
  unfolding borrow_slots move_kv_at
  borrow_slots-cons size l c xs ys e h k room =
      let (s, run, (s', run', now)) =
        shift_right-write_kv_at size c.slots ys 0 e.0 e.1 k.slots room (omega arith) in
      let long = length-append xs (e ∷ []) in
      let bound = AreIn-length size l.slots (xs ++ e ∷ []) h.slots in
      let at : l.len - 1 ≡ length xs = omega (arith, h.len) in
      let read =
        read_kv_at-some size l.slots (xs ++ e ∷ []) (length xs) h.slots (get_elem?-last xs e) in
      let (keys, a, kept) = clear_last key_cell size l.slots.keys xs e h.slots.keys in
      let (vals, b, kept') = clear_last val_cell size l.slots.vals xs e h.slots.vals in
      (
        (
          record { len = (l.len - 1) % 2 ^ 16; slots = record { keys = keys; vals = vals } },
          record { len = (c.len + 1) % 2 ^ 16; slots = s' },
        ),
        rw (k.len, run, at, read, run', a, b),
        (
          record {
            len = omega (arith, h.len, h.narrow);
            slots = record { keys = kept; vals = kept' };
            narrow = h.narrow;
          },
          record { len = omega (arith, k.len, k.narrow); slots = now; narrow = k.narrow },
        ),
      )
