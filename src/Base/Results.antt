-- ===== src/Base/Results.antt =====
-- The outcome of a call: a value, an error that the code returns, or a panic (an arithmetic
-- overflow under `overflow-checks`, or a library call that panics).
use mathlib.Core.Path.{◌≡◌, refl}
use mathlib.Core.Logic.{◌⊎◌, inl, inr}
use mathlib.Core.Bool.{Bool, true, false}
use mathlib.Core.Option.{Option, none, some}

pub data Result {ℓ} (E A : Type ℓ) : Type ℓ where
  ok : A → Result E A
  err : E → Result E A
  panic : Result E A

infixl 5 ◌>>=◌ ◌>>◌
abbrev pub ◌>>=◌ {ℓ} : {E A B : Type ℓ} → Result E A → (A → Result E B) → Result E B
ok a >>= f = f a
err e >>= f = err e
panic >>= f = panic

abbrev pub ◌>>◌ {ℓ} : {E B : Type ℓ} → Result E (Unit {ℓ}) → Result E B → Result E B
m >> k = m >>= λ _. k

-- `if c { return Err(e) }`
abbrev pub fail_if {ℓ} : {E : Type ℓ} → Bool → E → Result E (Unit {ℓ})
fail_if true e = err e
fail_if false e = ok tt

-- `.map_err(|_| e)?` and `.ok_or(e)?`
abbrev pub or_err {ℓ} : {E A : Type ℓ} → E → Option A → Result E A
or_err e none = err e
or_err e (some a) = ok a

abbrev pub or_panic {ℓ} : {E A : Type ℓ} → Option A → Result E A
or_panic none = panic
or_panic (some a) = ok a

-- `unwrap_or`
abbrev pub unwrap_or {ℓ} : {A : Type ℓ} → A → Option A → A
unwrap_or d none = d
unwrap_or d (some a) = a

abbrev pub is_some {ℓ} : {A : Type ℓ} → Option A → Bool
is_some none = false
is_some (some a) = true

module _ {ℓ} {E A B : Type ℓ} where
  -- What a successful chain of two steps went through.
  pub >>=-eq-ok :
      (m : Result E A) (f : A → Result E B) (b : B)
      → (m >>= f) ≡ ok b
      → (a : A) × (m ≡ ok a) × (f a ≡ ok b)
  >>=-eq-ok (ok a) f b h = (a, refl, h)
  >>=-eq-ok (err e) f b h = cc
  >>=-eq-ok panic f b h = cc

-- What holds of the value of an option, if there is one.
abbrev pub Every {ℓ} : {A : Type ℓ} → (A → Type 0) → Option A → Type 0
Every P none = Unit
Every P (some a) = P a

-- There is a value, and this holds of it.
abbrev pub Has {ℓ} : {A : Type ℓ} → (A → Type 0) → Option A → Type 0
Has P none = ⊥
Has P (some a) = P a

-- What holds of the value of a call that succeeds.
abbrev pub OnOk {ℓ} : {E A : Type ℓ} → (A → Type 0) → Result E A → Type 0
OnOk P (ok a) = P a
OnOk P (err e) = Unit
OnOk P panic = Unit

module _ {ℓ} {E A B : Type ℓ} where
  pub OnOk-bind :
      (P : A → Type 0) (Q : B → Type 0) (m : Result E A) (f : A → Result E B)
      → OnOk P m
      → ((a : A) → P a → OnOk Q (f a))
      → OnOk Q (m >>= f)
  OnOk-bind P Q (ok a) f h k = k a h
  OnOk-bind P Q (err e) f h k = tt
  OnOk-bind P Q panic f h k = tt

module _ {ℓ} {E A : Type ℓ} where
  pub OnOk-map : (P Q : A → Type 0) (m : Result E A) → OnOk P m → ((a : A) → P a → Q a) → OnOk Q m
  OnOk-map P Q (ok a) h k = k a h
  OnOk-map P Q (err e) h k = tt
  OnOk-map P Q panic h k = tt

  pub OnOk-intro : (P : A → Type 0) (m : Result E A) → ((a : A) → m ≡ ok a → P a) → OnOk P m
  OnOk-intro P (ok a) k = k a refl
  OnOk-intro P (err e) k = tt
  OnOk-intro P panic k = tt

  -- The postcondition of a call that succeeded.
  pub OnOk-apply : (P : A → Type 0) {m : Result E A} {a : A} → OnOk P m → m ≡ ok a → P a
  OnOk-apply P h e = rw e at h

abbrev pub is_ok {ℓ} : {E A : Type ℓ} → Result E A → Bool
is_ok (ok a) = true
is_ok (err e) = false
is_ok panic = false

-- Whether a call succeeded, with the equation.
pub Result-cases {ℓ} : {E A : Type ℓ} (m : Result E A) → ((a : A) × (m ≡ ok a)) ⊎ (is_ok m ≡ false)
Result-cases (ok a) = inl (a, refl)
Result-cases (err e) = inr refl
Result-cases panic = inr refl

module _ {ℓ} {E A B : Type ℓ} where
  -- A postcondition that holds whatever the first step returns.
  pub OnOk-then :
      (Q : B → Type 0) (m : Result E A) (f : A → Result E B)
      → ((a : A) → OnOk Q (f a))
      → OnOk Q (m >>= f)
  OnOk-then Q (ok a) f k = k a
  OnOk-then Q (err e) f k = tt
  OnOk-then Q panic f k = tt
