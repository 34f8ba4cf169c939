-- ===== src/Bridge/Quotes.antt =====
-- What the bridge's queries promise about its calls.
use sysbreak_trust.Base.{ℕ, ◌≤◌, ◌≡◌, arith, ok, some, text_key, Text, List, inl, inr, Result-cases}
use sysbreak_trust.Bridge.State.{Config, Storage}
use sysbreak_trust.Bridge.Helpers.{credits_to_tokens, calculate_fee}
use sysbreak_trust.Bridge.Withdraw.{check_amounts}
use sysbreak_trust.Bridge.Query.{
  ConversionResponse, query_convert_credits_to_tokens, query_nonce_used,
}
use sysbreak_trust.Bridge.Conversion.{mul_div-le}
use sysbreak_trust.Bridge.Trace.{Withdrawal, Reach}
use sysbreak_trust.Bridge.Replay.{was_used, Reach-IsMarked}

calculate_fee-le :
    (amount fee_bps fee : ℕ)
    → fee_bps ≤ 10_000
    → calculate_fee amount fee_bps ≡ ok fee
    → fee ≤ amount
unfolding calculate_fee
calculate_fee-le amount fee_bps fee le h = mul_div-le amount fee_bps 10_000 fee le h

-- With a fee of at most the whole, a withdrawal of the tokens that the conversion query quotes for
-- some credits passes the check of the amounts, with the fee that was quoted.
pub quote_accepted :
    (s : Storage) (config : Config) (credits : ℕ) {quote : ConversionResponse}
    → s.config ≡ some config
    → config.fee_bps ≤ 10_000
    → query_convert_credits_to_tokens credits s ≡ ok quote
    → check_amounts config credits quote.token_amount ≡ ok quote.fee_amount
unfolding query_convert_credits_to_tokens check_amounts
quote_accepted s config credits e le h = elim (Result-cases (credits_to_tokens credits config)) [
  | inl (gross, g) ↦ elim (Result-cases (calculate_fee gross config.fee_bps)) [
    | inl (fee, f) ↦ ground (arith, calculate_fee-le gross config.fee_bps fee le f)
    | inr no_fee ↦ ground arith
  ]
  | inr no_gross ↦ ground arith
]

-- In every history the nonce query answers whether a withdrawal had that nonce.
pub query_nonce_used-eq :
    (n : Text) {s : Storage} {h : List Withdrawal} {now : ℕ}
    → Reach s h now
    → query_nonce_used n s ≡ was_used n h
unfolding query_nonce_used
query_nonce_used-eq n reached = (Reach-IsMarked reached).marks n
