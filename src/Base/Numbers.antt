-- ===== src/Base/Numbers.antt =====
-- Boolean tests on the native numbers, the conditional, and the checked arithmetic of the
-- unsigned integers that the contracts use (`u32`, `u64`, `Uint128`; `Timestamp` is a number of
-- nanoseconds in 64 bits). A value is a plain number; what leaves the range is an empty option.
use Prim.Native.Nat.{ℕ, ◌+◌, ◌-◌, ◌*◌, ◌/◌, ◌%◌, ◌^◌, ◌≤◌, ◌<◌, compare, Ordering}
use mathlib.Core.Path.{◌≡◌, refl}
use mathlib.Core.Logic.{◌↔◌, ◌⊎◌, inl, inr}
use mathlib.Core.Bool.{Bool, true, false}
use mathlib.Core.Option.{Option, none, some}
use native.Mathlib.Omega.{arith}

abbrev pub ltb : ℕ → ℕ → Bool
ltb a b = elim (compare a b) [ Ordering.lt ↦ true | _ ↦ false ]

abbrev pub leb : ℕ → ℕ → Bool
leb a b = elim (compare a b) [ Ordering.gt ↦ false | _ ↦ true ]

abbrev pub eqb : ℕ → ℕ → Bool
eqb a b = elim (compare a b) [ Ordering.eq ↦ true | _ ↦ false ]

abbrev pub is_zero : ℕ → Bool
is_zero a = eqb a 0

infix 1 if◌then◌else◌
abbrev pub if◌then◌else◌ {ℓ} : {A : Type ℓ} → Bool → A → A → A
if true then x else y = x
if false then x else y = y

pub ltb→lt : (a b : ℕ) → ltb a b ≡ true → a < b
ltb→lt a b h = ground arith

pub leb→le : (a b : ℕ) → leb a b ≡ true → a ≤ b
leb→le a b h = ground arith

pub eqb_iff : (a b : ℕ) → (eqb a b ≡ true) ↔ (a ≡ b)
eqb_iff a b = ground arith

pub eqb_refl : (a : ℕ) → eqb a a ≡ true
eqb_refl a = ground arith

pub Bool-cases : (b : Bool) → (b ≡ true) ⊎ (b ≡ false)
Bool-cases true = inl refl
Bool-cases false = inr refl

pub Option-cases {ℓ} : {A : Type ℓ} (o : Option A) → (o ≡ none) ⊎ ((a : A) × (o ≡ some a))
Option-cases none = inl refl
Option-cases (some a) = inr (a, refl)

abbrev pub u32_max : ℕ
u32_max = 2 ^ 32 - 1

abbrev pub u64_max : ℕ
u64_max = 2 ^ 64 - 1

abbrev pub u128_max : ℕ
u128_max = 2 ^ 128 - 1

-- A result that fits below `top`, and nothing otherwise.
abbrev pub fits : ℕ → ℕ → Option ℕ
fits top n = if leb n top then some n else none

abbrev pub checked_add : ℕ → ℕ → Option ℕ
checked_add a b = fits u128_max (a + b)

abbrev pub checked_mul : ℕ → ℕ → Option ℕ
checked_mul a b = fits u128_max (a * b)

abbrev pub checked_sub : ℕ → ℕ → Option ℕ
checked_sub a b = if ltb a b then none else some (a - b)

abbrev pub checked_div : ℕ → ℕ → Option ℕ
checked_div a b = if is_zero b then none else some (a / b)

abbrev pub checked_rem : ℕ → ℕ → Option ℕ
checked_rem a b = if is_zero b then none else some (a % b)

abbrev pub saturating_add : ℕ → ℕ → ℕ
saturating_add a b = if leb (a + b) u128_max then a + b else u128_max

-- The truncated subtraction of ℕ.
abbrev pub saturating_sub : ℕ → ℕ → ℕ
saturating_sub a b = a - b

abbrev pub nanos_per_second : ℕ
nanos_per_second = 1_000_000_000

-- `Timestamp::seconds`
abbrev pub seconds : ℕ → ℕ
seconds t = t / nanos_per_second

-- `Timestamp::from_seconds`, `plus_seconds` and `minus_seconds`; they panic out of range.
abbrev pub from_seconds : ℕ → Option ℕ
from_seconds s = fits u64_max (s * nanos_per_second)

abbrev pub plus_seconds : ℕ → ℕ → Option ℕ
plus_seconds t s = fits u64_max (t + s * nanos_per_second)

abbrev pub minus_seconds : ℕ → ℕ → Option ℕ
minus_seconds t s = checked_sub t (s * nanos_per_second)
