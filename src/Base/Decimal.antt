-- ===== src/Base/Decimal.antt =====
-- Numbers in decimal: `to_string` of the unsigned integers, and `str::parse::<u64>`.
use Prim.Native.Nat.{ℕ, zero, suc, ◌+◌, ◌-◌, ◌*◌, ◌/◌, ◌%◌}
use mathlib.Core.Bool.{Bool, ◌&&◌}
use mathlib.Core.Option.{Option, none, some}
use mathlib.Core.List.{[], ◌∷◌}
use sysbreak_trust.Base.Numbers.{ltb, leb, eqb, if◌then◌else◌, u64_max}
use sysbreak_trust.Base.Texts.{Text}

-- The digits of a number below `2 ^ fuel`, most significant first, before `rest`.
unfoldable pub digits_before : ℕ → ℕ → Text → Text
digits_before zero n rest = rest
digits_before (suc fuel) n rest =
    let d = b'0' + n % 10 in
    let more = digits_before fuel (n / 10) (d ∷ rest) in if ltb n 10 then d ∷ rest else more

-- 128 digits are enough for every `Uint128`.
unfoldable pub to_string : ℕ → Text
unfolding digits_before
to_string n = digits_before 128 n []

abbrev pub is_digit : ℕ → Bool
is_digit c = leb b'0' c && leb c b'9'

-- The digits that are left, after `acc`; an error on any other byte and past 64 bits.
unfoldable pub parse_digits : ℕ → Text → Option ℕ
parse_digits acc [] = some acc
parse_digits acc (c ∷ cs) =
    let acc' = acc * 10 + (c - b'0') in
    let rest = parse_digits acc' cs in
    if is_digit c then (if leb acc' u64_max then rest else none) else none

-- One leading `+` is allowed; an empty text and a lone `+` are not numbers.
unfoldable pub parse_u64 : Text → Option ℕ
unfolding parse_digits
parse_u64 [] = none
parse_u64 (c ∷ []) = parse_digits 0 (c ∷ [])
parse_u64 (c ∷ d ∷ cs) = if eqb c b'+' then parse_digits 0 (d ∷ cs) else parse_digits 0 (c ∷ d ∷ cs)
