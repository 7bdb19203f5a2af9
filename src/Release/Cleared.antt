-- ===== src/Release/Cleared.antt =====
-- Freeing a sound map: no block is freed twice, and none stays.
use bplus_tree.Base.{
  ℕ, zero, suc, ◌+◌, ◌≡◌, refl, ap, ◌∙◌, true, false, Option, none, some, List, [], ◌∷◌, ◌++◌, All,
  arith, ◌>>=◌, Ensures, ◌==◌, eq→==, if◌then◌else◌, length, take, flat_map,
}
use bplus_tree.Order.{Ord}
use bplus_tree.Node.{Caps, Node, entries, min_len}
use bplus_tree.Node.Leaves.{addrs}
use bplus_tree.Node.Spans.{Spans, Spans-length}
use bplus_tree.Node.Valid.{IsValid}
use bplus_tree.Siblings.{Siblings}
use bplus_tree.Siblings.Chain.{
  has, Distinct, Distinct-left, Distinct-right, Distinct-apart, has-append,
}
use bplus_tree.Map.{BPlusTreeMap}
use bplus_tree.Map.Valid.{contents, root_min}
use bplus_tree.Map.Sound.{IsSound}
use bplus_tree.Iterate.Backward.{take-all}
use bplus_tree.Release.{dealloc_raw, free_children, free_tree_no_drop, clear}

-- The blocks are allocated, and none comes twice.
pub record IsOwned (s : Siblings) (blocks : List ℕ) : Type 0 where
  pub distinct : Distinct blocks
  pub live : (b : ℕ) → has b blocks ≡ true → s.live b ≡ true

-- The store without the blocks.
pub record IsFreed (s t : Siblings) (blocks : List ℕ) : Type 0 where
  pub live : (b : ℕ) → t.live b ≡ (if has b blocks then false else s.live b)
  pub fresh : t.fresh ≡ s.fresh
  pub fault : t.fault ≡ s.fault

Owned-left : (s : Siblings) (xs ys : List ℕ) → IsOwned s (xs ++ ys) → IsOwned s xs
Owned-left s xs ys own = record {
  distinct = Distinct-left xs ys own.distinct;
  live = λ b h. own.live b (has-append b xs ys ∙ rw h refl);
}

Owned-right :
    (s t : Siblings) (xs ys : List ℕ) → IsOwned s (xs ++ ys) → IsFreed s t xs → IsOwned t ys
Owned-right s t xs ys own gone = record {
  distinct = Distinct-right xs ys own.distinct;
  live = λ b h. ground (
    arith,
    gone.live b,
    own.live b (has-append b xs ys ∙ ground arith),
    Distinct-apart xs ys own.distinct b,
  );
}

Freed-append :
    (s t u : Siblings) (xs ys : List ℕ) → IsFreed s t xs → IsFreed t u ys → IsFreed s u (xs ++ ys)
Freed-append s t u xs ys f g = record {
  live = λ b. g.live b ∙ rw (has-append b xs ys) (ground (arith, f.live b));
  fresh = g.fresh ∙ f.fresh;
  fault = g.fault ∙ f.fault;
}

module _ {ℓ κ μ} {A : Type ℓ} {B : Type κ} (free : A → Siblings → Option (List B × Siblings))
    (blocks : A → List ℕ) (held : A → List B) (Good : A → Type μ) where
  -- What freeing a node does: its blocks go, and what it holds is dropped.
  abbrev pub Frees : Type (ℓ ⊔ κ ⊔ μ)
  Frees =
      (a : A) (s : Siblings)
      → Good a
      → IsOwned s (blocks a)
      → Ensures (free a s) (λ r. (r.0 ≡ held a) × IsFreed s r.1 (blocks a))

  free_children-Frees :
      Frees
      → (cs : List A) (s : Siblings) → All Good cs
      → IsOwned s (flat_map blocks cs)
      → Ensures
          (free_children free cs s)
          (λ r. (r.0 ≡ flat_map held cs) × IsFreed s r.1 (flat_map blocks cs))
  unfolding free_children flat_map
  free_children-Frees frees [] s good own =
      (([], s), refl, (refl, record { live = λ b. refl; fresh = refl; fault = refl }))
  free_children-Frees frees (c ∷ cs) s good own =
      let (r, run, done) = frees c s good.0 (Owned-left s (blocks c) (flat_map blocks cs) own) in
      let (r', run', done') =
        free_children-Frees frees cs r.1 good.1
          (Owned-right s r.1 (blocks c) (flat_map blocks cs) own done.1) in
      (
        (r.0 ++ r'.0, r'.1),
        rw (free_children, run) (rw (◌>>=◌, run') refl),
        (
          rw (done.0, done'.0) refl,
          Freed-append s r.1 r'.1 (blocks c) (flat_map blocks cs) done.1 done'.1,
        ),
      )

module _ {ℓ κ} (K : Type ℓ) (V : Type κ) where
  -- Every branch below has one child more than keys.
  abbrev Full : (h : ℕ) → Node K V h → Type (ℓ ⊔ κ)
  Full zero leaf = Unit
  Full (suc h) b = (length b.children ≡ suc (length b.keys)) × All (Full h) b.children

module _ {ℓ κ μ} {K : Type ℓ} {A : Type κ} ⦃o : Ord K⦄ (P : Option K → Option K → A → Type 0)
    (Q : A → Type μ) (weaken : (lo hi : Option K) (a : A) → P lo hi a → Q a) where
  Spans-All : (lo hi : Option K) (ks : List K) (cs : List A) → Spans P lo hi ks cs → All Q cs
  Spans-All lo hi [] [] h = tt
  Spans-All lo hi [] (c ∷ []) h = (weaken lo hi c h, tt)
  Spans-All lo hi [] (c ∷ d ∷ cs) h = absurd h
  Spans-All lo hi (k ∷ ks) [] h = absurd h
  Spans-All lo hi (k ∷ ks) (c ∷ cs) h = (weaken lo (some k) c h.0, Spans-All (some k) hi ks cs h.3)

module _ {ℓ κ} {K : Type ℓ} (V : Type κ) ⦃o : Ord K⦄ (c : Caps) where
  IsValid-Full :
      (h m : ℕ) (lo hi : Option K) (n : Node K V h) → IsValid V c h m lo hi n → Full K V h n
  IsValid-Full zero m lo hi n v = tt
  IsValid-Full (suc h) m lo hi n v = (
    Spans-length (IsValid V c h (min_len c h)) hi lo n.keys n.children v.2,
    Spans-All (IsValid V c h (min_len c h)) (Full K V h)
        (λ lo hi a. IsValid-Full h (min_len c h) lo hi a) lo hi n.keys n.children v.2,
  )

module _ {ℓ κ} (K : Type ℓ) (V : Type κ) where
  -- Freeing a node drops its entries, each of them once, and frees the blocks of its leaves.
  free_tree_no_drop-Frees :
      (h : ℕ) → Frees (free_tree_no_drop h) (addrs K V h) (entries h) (Full K V h)
  unfolding free_tree_no_drop dealloc_raw addrs entries
  free_tree_no_drop-Frees zero leaf s good own = (
    (leaf.items, record s { live = λ b. if b == leaf.addr then false else s.live b }),
    rw (own.live leaf.addr (rw (eq→== leaf.addr leaf.addr refl) refl)) refl,
    (refl, record { live = λ b. ground arith; fresh = refl; fault = refl }),
  )
  free_tree_no_drop-Frees (suc h) b s good own =
      let all_children : take (length b.keys + 1) b.children ≡ b.children =
        ap (λ n. take n b.children) (omega (arith, good.0)) ∙ take-all b.children in
      rw all_children (
        free_children-Frees (free_tree_no_drop h) (addrs K V h) (entries h) (Full K V h)
          (free_tree_no_drop-Frees h) b.children s good.1 own)

module _ {ℓ κ} {K : Type ℓ} {V : Type κ} ⦃o : Ord K⦄ where
  -- A map that was cleared, and the entries that were dropped.
  pub record IsCleared (m m' : BPlusTreeMap K V) (dropped : List (K × V)) : Type (ℓ ⊔ κ) where
    pub sound : IsSound m'
    pub empty : contents m' ≡ []
    -- Each entry is dropped once.
    pub dropped_all : dropped ≡ contents m
    -- No block stays allocated.
    pub released : (b : ℕ) → m'.store.live b ≡ false

  clear_parts :
      (c : Caps) (s : Siblings) (r : Option ((h : ℕ) × Node K V h))
      → IsSound (record { root = r; caps = c; store = s })
      → Ensures
          (clear (record { root = r; caps = c; store = s }))
          (λ p. IsCleared (record { root = r; caps = c; store = s }) p.0 p.1)
  unfolding clear
  clear_parts c s none sound = (
    (record { root = none; caps = c; store = s }, []),
    refl,
    record { sound = sound; empty = refl; dropped_all = refl; released = sound.chain.live },
  )
  clear_parts c s (some (h, n)) sound =
      let (r, run, done) =
        free_tree_no_drop-Frees K V h n s (IsValid-Full V c h (root_min h) none none n sound.valid)
          (record { distinct = sound.chain.distinct; live = λ b e. sound.chain.live b ∙ e }) in
      let gone : (b : ℕ) → r.1.live b ≡ false =
        λ b. ground (arith, done.1.live b, sound.chain.live b) in
      (
        (record { root = none; caps = c; store = r.1 }, r.0),
        rw run refl,
        record {
          sound = record {
            usable = sound.usable;
            valid = tt;
            chain = record {
              linked = tt;
              distinct = tt;
              live = gone;
              unused = λ b h. refl;
              real = refl;
              started = omega (arith, done.1.fresh, sound.chain.started);
              clean = done.1.fault ∙ sound.chain.clean;
            };
          };
          empty = refl;
          dropped_all = done.0;
          released = gone;
        },
      )

  -- On a sound map `clear` frees each leaf block once: no block that is free already is freed, and
  -- none stays allocated. Each entry is dropped once, in the order of the keys, and the map that
  -- is left is sound and empty.
  pub clear-IsCleared :
      (m : BPlusTreeMap K V) → IsSound m → Ensures (clear m) (λ p. IsCleared m p.0 p.1)
  clear-IsCleared m sound = clear_parts m.caps m.store m.root sound
