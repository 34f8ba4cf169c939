-- ===== src/Bridge/Treasury.antt =====
-- The handlers of the credit bridge that take deposits and that the owner funds and draws the
-- treasury with (`execute_deposit`, `execute_fund_treasury`, `execute_withdraw_treasury`).
use sysbreak_trust.Base.{
  ℕ, some, List, [], ◌∷◌, not, Text, ltb, if◌then◌else◌, Result, ok, err, ◌>>=◌, ◌>>◌, fail_if,
  or_err, checked_sub, ◌==◌, text_key, is_zero,
}
use sysbreak_trust.Host.{Env, MessageInfo, Deps, Coin, not_found, bank_send, word, number, address}
use sysbreak_trust.Bridge.State.{
  Storage, ContractError, std, deposit_below_minimum, no_funds_sent, multiple_denoms_sent,
  wrong_denom, reserve_breached, zero_amount, Outcome,
}
use sysbreak_trust.Bridge.Helpers.{
  load_config, contract_balance, assert_owner, assert_not_paused, tokens_to_credits, reject_funds,
}

-- The guards on `info.funds` that `execute_deposit` and `execute_fund_treasury` share.
unfoldable pub one_coin : List Coin → Text → Result ContractError Coin
one_coin [] denom = err no_funds_sent
one_coin (sent ∷ more) denom = do
  elim more [ [] ↦ ok tt | _ ∷ _ ↦ err multiple_denoms_sent ]
  fail_if (not (sent.denom == denom)) (wrong_denom denom sent.denom)
  ok sent

-- The peak is written only when the balance is above it.
unfoldable pub update_peak : ℕ → Storage → Result ContractError Storage
update_peak balance s = do
  peak ← or_err (std not_found) s.peak_balance
  ok (if ltb peak balance then record s { peak_balance = some balance } else s)

unfoldable pub execute_deposit : Deps → Env → MessageInfo → Storage → Outcome
unfolding assert_not_paused one_coin tokens_to_credits update_peak
execute_deposit d env info s = do
  assert_not_paused s
  config ← load_config s
  sent ← one_coin info.funds config.denom
  fail_if (ltb sent.amount config.min_deposit) (deposit_below_minimum config.min_deposit)
  credit_amount ← tokens_to_credits sent.amount config
  balance ← contract_balance d env config
  s' ← update_peak balance s
  ok (
    s',
    record {
      messages = [];
      attributes =
          ("action", word "deposit")
          ∷ ("sender", address info.sender)
          ∷ ("token_amount", number sent.amount)
          ∷ ("credit_amount", number credit_amount)
          ∷ [];
    },
  )

unfoldable pub execute_fund_treasury : Deps → Env → MessageInfo → Storage → Outcome
unfolding assert_owner one_coin update_peak
execute_fund_treasury d env info s = do
  assert_owner s info.sender
  config ← load_config s
  sent ← one_coin info.funds config.denom
  balance ← contract_balance d env config
  s' ← update_peak balance s
  ok (
    s',
    record {
      messages = [];
      attributes =
          ("action", word "fund_treasury")
          ∷ ("amount", number sent.amount)
          ∷ ("new_balance", number balance)
          ∷ [];
    },
  )

unfoldable pub execute_withdraw_treasury : Deps → Env → MessageInfo → ℕ → Storage → Outcome
unfolding reject_funds assert_owner
execute_withdraw_treasury d env info amount s = do
  reject_funds info
  assert_owner s info.sender
  fail_if (is_zero amount) zero_amount
  config ← load_config s
  balance ← contract_balance d env config
  remaining ← or_err (reserve_breached config.min_reserve) (checked_sub balance amount)
  fail_if (ltb remaining config.min_reserve) (reserve_breached config.min_reserve)
  ok (
    s,
    record {
      messages = bank_send info.sender (record { denom = config.denom; amount = amount }) ∷ [];
      attributes =
          ("action", word "withdraw_treasury")
          ∷ ("amount", number amount)
          ∷ ("remaining", number remaining)
          ∷ [];
    },
  )
