-- ===== src/Siblings/Chain.antt =====
-- The leaves of a tree as a chain: the pointers of the store follow a list of addresses.
use bplus_tree.Base.{
  ℕ, ◌≤◌, ◌≡◌, refl, ◌∙◌, inl, inr, Bool, true, false, ◌||◌, List, [], ◌∷◌, ◌++◌, arith, ◌==◌,
  Bool-cases, ==→eq, eq→==,
}
use bplus_tree.Siblings.{Siblings, null}

abbrev pub has : ℕ → List ℕ → Bool
has b [] = false
has b (a ∷ rest) = (b == a) || has b rest

-- The address at the head of a list, the one that follows an empty list.
abbrev pub head_or : List ℕ → ℕ → ℕ
head_or [] q = q
head_or (a ∷ rest) q = a

abbrev pub last_or : ℕ → List ℕ → ℕ
last_or p [] = p
last_or p (a ∷ rest) = last_or a rest

abbrev pub Distinct : List ℕ → Type 0
Distinct [] = Unit
Distinct (a ∷ rest) = (has a rest ≡ false) × Distinct rest

-- Leaves linked both ways, between the leaf `p` and the leaf `q`.
abbrev pub Linked : Siblings → ℕ → List ℕ → ℕ → Type 0
Linked s p [] q = Unit
Linked s p (a ∷ rest) q = (s.prev a ≡ p) × (s.next a ≡ head_or rest q) × Linked s a rest q

-- The whole chain: no leaf twice, the blocks that are live are those of the chain, the allocator
-- gives out none of them, and no block was written or freed while it was not allocated.
pub record IsChain (s : Siblings) (chain : List ℕ) : Type 0 where
  pub linked : Linked s null chain null
  pub distinct : Distinct chain
  pub live : (b : ℕ) → s.live b ≡ has b chain
  pub unused : (b : ℕ) → s.fresh ≤ b → has b chain ≡ false
  pub real : has null chain ≡ false
  pub started : 1 ≤ s.fresh
  pub clean : s.fault ≡ false

pub has-append : (b : ℕ) (xs ys : List ℕ) → has b (xs ++ ys) ≡ (has b xs || has b ys)
has-append b [] ys = refl
has-append b (x ∷ xs) ys = ground (arith, has-append b xs ys)

pub Distinct-append :
    (xs ys : List ℕ)
    → Distinct xs
    → Distinct ys
    → ((b : ℕ) → has b xs ≡ true → has b ys ≡ false)
    → Distinct (xs ++ ys)
Distinct-append [] ys dx dy apart = dy
Distinct-append (x ∷ xs) ys dx dy apart = (
  rw (has-append x xs ys) (ground (arith, dx.0, apart x)),
  Distinct-append xs ys dx.1 dy (λ b h. apart b (ground arith)),
)

pub Distinct-left : (xs ys : List ℕ) → Distinct (xs ++ ys) → Distinct xs
Distinct-left [] ys d = tt
Distinct-left (x ∷ xs) ys d =
    (ground (arith, rw (has-append x xs ys) at d.0), Distinct-left xs ys d.1)

pub Distinct-right : (xs ys : List ℕ) → Distinct (xs ++ ys) → Distinct ys
Distinct-right [] ys d = d
Distinct-right (x ∷ xs) ys d = Distinct-right xs ys d.1

pub Distinct-apart :
    (xs ys : List ℕ) → Distinct (xs ++ ys) → (b : ℕ) → has b xs ≡ true → has b ys ≡ false
Distinct-apart [] ys d b h = absurd (cc)
Distinct-apart (x ∷ xs) ys d b h = elim (Bool-cases (b == x)) [
  | inl e ↦ let e' : b ≡ x = ==→eq b x e in rw e' (ground (arith, rw (has-append x xs ys) at d.0))
  | inr e ↦ Distinct-apart xs ys d.1 b (rw e at h)
]

pub Linked-append :
    (s : Siblings) (p q : ℕ) (xs ys : List ℕ)
    → Linked s p xs (head_or ys q)
    → Linked s (last_or p xs) ys q
    → Linked s p (xs ++ ys) q
Linked-append s p q [] ys hx hy = hy
Linked-append s p q (x ∷ []) [] hx hy = hx
Linked-append s p q (x ∷ []) (y ∷ ys) hx hy = (hx.0, hx.1, hy)
Linked-append s p q (x ∷ x' ∷ xs) ys hx hy = (hx.0, hx.1, Linked-append s x q (x' ∷ xs) ys hx.2 hy)

pub Linked-left :
    (s : Siblings) (p q : ℕ) (xs ys : List ℕ)
    → Linked s p (xs ++ ys) q
    → Linked s p xs (head_or ys q)
Linked-left s p q [] ys h = tt
Linked-left s p q (x ∷ []) [] h = h
Linked-left s p q (x ∷ []) (y ∷ ys) h = (h.0, h.1, tt)
Linked-left s p q (x ∷ x' ∷ xs) ys h = (h.0, h.1, Linked-left s x q (x' ∷ xs) ys h.2)

pub Linked-right :
    (s : Siblings) (p q : ℕ) (xs ys : List ℕ)
    → Linked s p (xs ++ ys) q
    → Linked s (last_or p xs) ys q
Linked-right s p q [] ys h = h
Linked-right s p q (x ∷ xs) ys h = Linked-right s x q xs ys h.2

-- A part of the chain whose pointers are not written stays linked.
pub Linked-same :
    (s t : Siblings) (p q : ℕ) (xs : List ℕ)
    → ((b : ℕ) → has b xs ≡ true → (t.next b ≡ s.next b) × (t.prev b ≡ s.prev b))
    → Linked s p xs q
    → Linked t p xs q
Linked-same s t p q [] same h = tt
Linked-same s t p q (x ∷ xs) same h =
    let (n, v) = same x (rw (eq→== x x refl)) in
    (v ∙ h.0, n ∙ h.1, Linked-same s t x q xs (λ b k. same b (ground arith)) h.2)
