-- ===== src/Base/Numerals.antt =====
-- The decimal texts of numbers of 128 bits: different numbers have different texts, of digits only.
use Prim.Native.Nat.{ℕ, zero, suc, ◌+◌, ◌-◌, ◌*◌, ◌/◌, ◌%◌, ◌^◌, ◌<◌}
use mathlib.Core.Path.{◌≡◌, refl, sym, ap, ◌∙◌}
use mathlib.Core.Logic.{inl, inr}
use mathlib.Core.List.{[], ◌∷◌}
use native.Mathlib.Omega.{arith}
use native.Mathlib.Nat.{pow-suc}
use sysbreak_trust.Base.Numbers.{ltb, ltb→lt, Bool-cases}
use sysbreak_trust.Base.Texts.{Text}
use sysbreak_trust.Base.Decimal.{digits_before, to_string}
use sysbreak_trust.Base.Separators.{count}

-- The number that digits stand for, after `acc`.
abbrev value : ℕ → Text → ℕ
value acc [] = acc
value acc (c ∷ cs) = value (acc * 10 + (c - b'0')) cs

value-digits_before :
    (fuel n : ℕ) (rest : Text) → n < 2 ^ fuel → value 0 (digits_before fuel n rest) ≡ value n rest
unfolding digits_before
value-digits_before zero n rest small = let e : n ≡ 0 = omega arith in rw e refl
value-digits_before (suc fuel) n rest small =
    let last : (n / 10) * 10 + ((b'0' + n % 10) - b'0') ≡ n = omega arith in
    elim (Bool-cases (ltb n 10)) [
      | inl one ↦
          let single : 0 * 10 + ((b'0' + n % 10) - b'0') ≡ n = omega (arith, ltb→lt n 10 one) in
          rw one (ap (λ k. value k rest) single)
      | inr more ↦ rw more (
          value-digits_before fuel (n / 10) ((b'0' + n % 10) ∷ rest) (omega (arith, pow-suc 2 fuel))
          ∙ ap (λ k. value k rest) last)
    ]

-- Different numbers of 128 bits are printed differently.
pub to_string-injective : (a b : ℕ) → a < 2 ^ 128 → b < 2 ^ 128 → to_string a ≡ to_string b → a ≡ b
unfolding to_string
to_string-injective a b p q e =
    sym (value-digits_before 128 a [] p) ∙ ap (value 0) e ∙ value-digits_before 128 b [] q

count-digits_before :
    (b fuel n : ℕ) (rest : Text) → b'9' < b → count b (digits_before fuel n rest) ≡ count b rest
unfolding digits_before
count-digits_before b zero n rest h = refl
count-digits_before b (suc fuel) n rest h =
    ground (arith, count-digits_before b fuel (n / 10) ((b'0' + n % 10) ∷ rest) h)

-- No byte after the digits stands in what is printed.
pub count-to_string : (b n : ℕ) → b'9' < b → count b (to_string n) ≡ 0
unfolding to_string
count-to_string b n h = count-digits_before b 128 n [] h
