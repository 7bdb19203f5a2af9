-- ===== src/Base/Run.antt =====
-- Runs that may fail: `none` is a panic, or an access that the program must not make.
use mathlib.Core.Path.{◌≡◌, refl, subst}
use mathlib.Core.Logic.{◌⊎◌, inl, inr}
use mathlib.Core.Option.{Option, none, some}
use mathlib.Core.Bool.{Bool, true, false}
use bplus_tree.Base.Tests.{if◌then◌else◌}

infixl 5 ◌>>=◌
abbrev pub ◌>>=◌ {ℓ κ} : {A : Type ℓ} {B : Type κ} → Option A → (A → Option B) → Option B
none >>= f = none
some a >>= f = f a

-- The run succeeds, and its result satisfies `P`.
abbrev pub Ensures {ℓ κ} : {A : Type ℓ} → Option A → (A → Type κ) → Type (ℓ ⊔ κ)
Ensures {A} m P = (a : A) × (m ≡ some a) × P a

-- `Result<T, E>` of the standard library.
pub data Result {ℓ κ} (A : Type ℓ) (E : Type κ) : Type (ℓ ⊔ κ) where
  ok : A → Result A E
  err : E → Result A E

-- `Result::ok` and `Option::ok_or`
abbrev pub to_option {ℓ κ} : {A : Type ℓ} {E : Type κ} → Result A E → Option A
to_option (ok a) = some a
to_option (err e) = none

abbrev pub ok_or {ℓ κ} : {A : Type ℓ} {E : Type κ} → Option A → E → Result A E
ok_or none e = err e
ok_or (some a) e = ok a

pub Result-cases {ℓ κ} :
    {A : Type ℓ} {E : Type κ} (r : Result A E) → ((a : A) × (r ≡ ok a)) ⊎ ((e : E) × (r ≡ err e))
Result-cases (ok a) = inl (a, refl)
Result-cases (err e) = inr (e, refl)

-- A chain that succeeds has succeeded at each step.
pub bind-some {ℓ κ} :
    {A : Type ℓ} {B : Type κ} (m : Option A) (f : A → Option B) {b : B}
    → (m >>= f) ≡ some b
    → (a : A) × (m ≡ some a) × (f a ≡ some b)
bind-some none f e = absurd (cc)
bind-some (some a) f e = (a, refl, e)

-- What the run returns, when it returns, satisfies `P`.
abbrev pub Yields {ℓ κ} : {A : Type ℓ} → Option A → (A → Type κ) → Type κ
Yields none P = Unit
Yields (some a) P = P a

pub Yields-some {ℓ κ} :
    {A : Type ℓ} (m : Option A) (P : A → Type κ) {a : A} → Yields m P → m ≡ some a → P a
Yields-some none P y e = absurd (cc)
Yields-some (some b) P y e = let e' : b ≡ _ = cc in subst P e' y

-- The rule for a chain: what the first step yields is what the second starts from.
pub Yields->>= {ℓ κ μ ν} :
    {A : Type ℓ} {B : Type κ} (m : Option A) (f : A → Option B) (P : A → Type μ) (Q : B → Type ν)
    → Yields m P
    → ((a : A) → m ≡ some a → P a → Yields (f a) Q)
    → Yields (m >>= f) Q
Yields->>= none f P Q y k = tt
Yields->>= (some a) f P Q y k = k a refl y

-- The rule for a chain whose first step says only that it returned.
pub Yields-each {ℓ κ μ} :
    {A : Type ℓ} {B : Type κ} (m : Option A) (f : A → Option B) (Q : B → Type μ)
    → ((a : A) → m ≡ some a → Yields (f a) Q)
    → Yields (m >>= f) Q
Yields-each none f Q k = tt
Yields-each (some a) f Q k = k a refl

pub Yields-if {ℓ κ} :
    {A : Type ℓ} (t : Bool) (m n : Option A) (P : A → Type κ)
    → Yields m P
    → Yields n P
    → Yields (if t then m else n) P
Yields-if true m n P x y = x
Yields-if false m n P x y = y
