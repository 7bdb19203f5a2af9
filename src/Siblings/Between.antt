-- ===== src/Siblings/Between.antt =====
-- A leaf of a chain: what stands around it, and what is live.
use bplus_tree.Base.{ℕ, ◌≡◌, ◌≢◌, refl, sym, ◌∙◌, true, false, List, [], ◌∷◌, ◌++◌, arith, eq→==}
use bplus_tree.Siblings.{Siblings, null}
use bplus_tree.Siblings.Chain.{
  has, head_or, Distinct, Linked, IsChain, has-append, Distinct-left, Distinct-right,
  Distinct-apart, Linked-right, Linked-same,
}

pub has-ne : (b : ℕ) (x : ℕ) (xs : List ℕ) → has b xs ≡ true → has x xs ≡ false → b ≢ x
has-ne b x xs h k e = cc

pub not-head_or : (b : ℕ) (ys : List ℕ) → has b ys ≡ false → b ≢ null → b ≢ head_or ys null
not-head_or b [] h k e = k e
not-head_or b (y ∷ ys) h k e = absurd (cc (eq→== b y e))

-- The part of a chain behind a place that was changed: only its first leaf points back elsewhere.
pub Linked-moved :
    (s t : Siblings) (p p' : ℕ) (ys : List ℕ)
    → ((b : ℕ) → has b ys ≡ true → t.next b ≡ s.next b)
    → ((b : ℕ) → has b ys ≡ true → b ≢ head_or ys null → t.prev b ≡ s.prev b)
    → (head_or ys null ≢ null → t.prev (head_or ys null) ≡ p')
    → Distinct ys
    → has null ys ≡ false
    → Linked s p ys null
    → Linked t p' ys null
Linked-moved s t p p' [] n v first d real h = tt
Linked-moved s t p p' (y ∷ ys) n v first d real h =
    let y_real : y ≢ null = λ e. cc (eq→== null y (sym e), real) in
    (
      first y_real,
      n y (rw (eq→== y y refl)) ∙ h.1,
      Linked-same s t y null ys
          (λ b k. (n b (ground arith), v b (ground arith) (has-ne b y ys k d.0))) h.2,
    )

-- An element of a chain, and the rest.
pub record IsBetween (xs : List ℕ) (a : ℕ) (ys : List ℕ) : Type 0 where
  pub left : has a xs ≡ false
  pub right : has a ys ≡ false
  pub apart : (b : ℕ) → has b xs ≡ true → has b ys ≡ false
  pub before : Distinct xs
  pub behind : Distinct ys
  pub real_left : has null xs ≡ false
  pub real : a ≢ null
  pub real_right : has null ys ≡ false

pub between :
    (s : Siblings) (xs : List ℕ) (a : ℕ) (ys : List ℕ)
    → IsChain s (xs ++ a ∷ ys)
    → IsBetween xs a ys
between s xs a ys h =
    let d = Distinct-right xs (a ∷ ys) h.distinct in
    let r = rw (has-append null xs (a ∷ ys)) at h.real in
    record {
      left = ground (arith, Distinct-apart xs (a ∷ ys) h.distinct a, eq→== a a refl);
      right = d.0;
      apart = λ b k. ground (arith, Distinct-apart xs (a ∷ ys) h.distinct b k);
      before = Distinct-left xs (a ∷ ys) h.distinct;
      behind = d.1;
      real_left = ground arith;
      real = λ e. ground (arith, eq→== null a (sym e));
      real_right = ground arith;
    }

has-head_or : (ys : List ℕ) → head_or ys null ≢ null → has (head_or ys null) ys ≡ true
has-head_or [] ne = absurd (ne refl)
has-head_or (y ∷ ys) ne = rw (eq→== y y refl) refl

module _ (s : Siblings) (xs : List ℕ) (a : ℕ) (ys : List ℕ) (h : IsChain s (xs ++ a ∷ ys)) where
  -- A leaf of the chain is live, and so is the one behind it.
  pub live-mid : s.live a ≡ true
  live-mid = h.live a ∙ rw (has-append a xs (a ∷ ys)) (ground (arith, eq→== a a refl))

  pub live-next : s.next a ≢ null → s.live (s.next a) ≡ true
  live-next ne =
      let next_a : s.next a ≡ head_or ys null = (Linked-right s null null xs (a ∷ ys) h.linked).1 in
      let in_ys = has-head_or ys (λ e. ne (next_a ∙ e)) in
      h.live (s.next a) ∙ rw (has-append (s.next a) xs (a ∷ ys), next_a) (ground (arith, in_ys))
