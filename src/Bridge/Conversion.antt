-- ===== src/Bridge/Conversion.antt =====
-- The conversions between credits and tokens, and the split of a withdrawal into net and fee.
use sysbreak_trust.Base.{
  ℕ, ◌+◌, ◌*◌, ◌/◌, ◌≤◌, ◌<◌, ◌≡◌, arith, eqb, ◌-◌, if◌then◌else◌, err, ok, >>=-eq-ok, u128_max,
}
use native.Mathlib.Nat.{div-add-mod}
use sysbreak_trust.Bridge.State.{Config, amount_mismatch}
use sysbreak_trust.Bridge.Helpers.{mul_div, credits_to_tokens, tokens_to_credits, calculate_fee}
use sysbreak_trust.Bridge.Withdraw.{check_amounts}

div_bounds : (n c : ℕ) → 0 < c → (n / c * c ≤ n) × (n < (n / c + 1) * c)
div_bounds n c pos = omega (arith, div-add-mod n c)

pub mul_div-eq_ok :
    (a b c q : ℕ) → mul_div a b c ≡ ok q → (q ≡ a * b / c) × (0 < c) × (a * b ≤ u128_max)
unfolding mul_div
mul_div-eq_ok a b c q h = ground arith

-- A successful `mul_div` is the quotient rounded down.
pub mul_div_bounds :
    (a b c q : ℕ)
    → mul_div a b c ≡ ok q
    → (q * c ≤ a * b) × (a * b < (q + 1) * c) × (0 < c) × (a * b ≤ u128_max)
mul_div_bounds a b c q h =
    let (e, pos, fit) = mul_div-eq_ok a b c q h in
    let (low, high) = div_bounds (a * b) c pos in rw e (low, high, pos, fit)

pub mul_div_total : (a b c : ℕ) → 0 < c → a * b ≤ u128_max → mul_div a b c ≡ ok (a * b / c)
unfolding mul_div
mul_div_total a b c pos fit = ground arith

-- Dividing back loses: from `q = a * b / c` and `r = q * c / b` follows `r ≤ a`.
mul_div-back : (a b c q r : ℕ) → mul_div a b c ≡ ok q → mul_div q c b ≡ ok r → r ≤ a
mul_div-back a b c q r h k =
    let (low, _, _, _) = mul_div_bounds a b c q h in
    let (low', _, pos, _) = mul_div_bounds q c b r k in grind arith

-- A share of at most the whole.
pub mul_div-le : (a b c q : ℕ) → b ≤ c → mul_div a b c ≡ ok q → q ≤ a
mul_div-le a b c q le h = let (low, _, pos, _) = mul_div_bounds a b c q h in grind arith

-- Tokens that are converted to credits and back at the same rate never grow.
pub credits_to_tokens-tokens_to_credits :
    (config : Config) (tokens credits back : ℕ)
    → tokens_to_credits tokens config ≡ ok credits
    → credits_to_tokens credits config ≡ ok back
    → back ≤ tokens
unfolding credits_to_tokens tokens_to_credits
credits_to_tokens-tokens_to_credits config tokens credits back h k =
    mul_div-back tokens config.rate_credits config.rate_tokens credits back h k

-- The amounts that pass: net and fee are the whole gross amount, and the fee is its share.
pub check_amounts_split :
    (config : Config) (credits tokens fee : ℕ)
    → check_amounts config credits tokens ≡ ok fee
    → (credits_to_tokens credits config ≡ ok (tokens + fee))
      × (calculate_fee (tokens + fee) config.fee_bps ≡ ok fee)
unfolding check_amounts
check_amounts_split config credits tokens fee h =
    let (gross, e, h') = >>=-eq-ok (credits_to_tokens credits config) _ fee h in
    let (fee', e', h'') = >>=-eq-ok (calculate_fee gross config.fee_bps) _ fee h' in
    let same : (tokens + fee ≡ gross) × (fee' ≡ fee) = ground arith in
    rw (same.0) (e, rw (← same.1) e')

-- A player who deposits and withdraws the credits at the same settings gets back, with the fee
-- that the treasury gets, at most what was deposited.
pub deposit-withdraw-le :
    (config : Config) (deposited credits tokens fee : ℕ)
    → tokens_to_credits deposited config ≡ ok credits
    → check_amounts config credits tokens ≡ ok fee
    → tokens + fee ≤ deposited
deposit-withdraw-le config deposited credits tokens fee h k =
    credits_to_tokens-tokens_to_credits config deposited credits (tokens + fee) h
      (check_amounts_split config credits tokens fee k).0

-- With valid settings and products within 128 bits, an amount passes exactly when it is the gross
-- value less the fee, each rounded down; the error names the amount that was expected.
pub check_amounts_exact :
    (config : Config) (credits tokens : ℕ)
    → 0 < config.rate_credits
    → config.fee_bps ≤ 10_000
    → credits * config.rate_tokens ≤ u128_max
    → credits * config.rate_tokens / config.rate_credits * config.fee_bps ≤ u128_max
    → let gross = credits * config.rate_tokens / config.rate_credits in
      let fee = gross * config.fee_bps / 10_000 in
      (fee ≤ gross)
      × (check_amounts config credits tokens ≡ (
          if eqb tokens (gross - fee)
          then ok fee
          else err (amount_mismatch credits (gross - fee) tokens)))
unfolding check_amounts credits_to_tokens calculate_fee
check_amounts_exact config credits tokens pos le fit fit' =
    let gross = credits * config.rate_tokens / config.rate_credits in
    let one = mul_div_total credits config.rate_tokens config.rate_credits pos fit in
    let two = mul_div_total gross config.fee_bps 10_000 (omega arith) fit' in
    let share = mul_div-le gross config.fee_bps 10_000 (gross * config.fee_bps / 10_000) le two in
    (share, rw (one, two) (ground arith))
