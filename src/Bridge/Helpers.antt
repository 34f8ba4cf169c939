-- ===== src/Bridge/Helpers.antt =====
-- The helpers of the credit bridge (sysbreak-credit-bridge/src/helpers.rs): guards, conversion of
-- amounts, the signed message, and the sums over the rolling window.
use mathlib.Core.Option
use sysbreak_trust.Base.{
  ℕ, zero, suc, ◌+◌, ◌-◌, Option, none, some, List, [], ◌∷◌, ◌++◌, not, Text, bytes, eqb, ltb, leb,
  if◌then◌else◌, ◌&&◌, Result, ok, err, ◌>>=◌, ◌>>◌, fail_if, or_err, or_panic, unwrap_or,
  checked_add, checked_mul, checked_div, saturating_add, saturating_sub, seconds, plus_seconds,
  minus_seconds, Map, find, to_string, parse_u64, number_key,
}
use sysbreak_trust.Base.{length}
use sysbreak_trust.Host.{Addr, Env, MessageInfo, Deps, not_found, generic_err}
use sysbreak_trust.Bridge.State.{
  Config, WithdrawalRecord, Storage, ContractError, std, unauthorized, contract_paused,
  player_daily_limit_exceeded, global_daily_limit_exceeded, cooldown_active, overflow,
  invalid_pubkey_length, nonce_expired, invalid_nonce_format, unexpected_funds, nonce_expiry_window,
  day,
}

-- `CONFIG.load(deps.storage)?`
abbrev pub load_config : Storage → Result ContractError Config
load_config s = or_err (std not_found) s.config

-- `deps.api.addr_validate(&text)?`
abbrev pub validate_addr : Deps → Text → Result ContractError Addr
validate_addr d t = or_err (std generic_err) (d.addr_validate t)

-- `query_balance(&env.contract.address, &config.denom)?`
abbrev pub contract_balance : Deps → Env → Config → Result ContractError ℕ
contract_balance d env config = or_err (std generic_err) (d.query_balance env.contract config.denom)

unfoldable pub assert_owner : Storage → Addr → Result ContractError (Unit {0})
assert_owner s sender = do
  config ← load_config s
  fail_if (not (eqb sender config.owner)) (unauthorized "owner")

unfoldable pub assert_not_paused : Storage → Result ContractError (Unit {0})
assert_not_paused s = do config ← load_config s; fail_if config.paused contract_paused

-- `a.checked_mul(b)?.checked_div(c)`, each error mapped to `Overflow`.
unfoldable pub mul_div : ℕ → ℕ → ℕ → Result ContractError ℕ
mul_div a b c = do
  product ← or_err overflow (checked_mul a b)
  or_err overflow (checked_div product c)

unfoldable pub credits_to_tokens : ℕ → Config → Result ContractError ℕ
unfolding mul_div
credits_to_tokens credits config = mul_div credits config.rate_tokens config.rate_credits

unfoldable pub tokens_to_credits : ℕ → Config → Result ContractError ℕ
unfolding mul_div
tokens_to_credits tokens config = mul_div tokens config.rate_credits config.rate_tokens

unfoldable pub calculate_fee : ℕ → ℕ → Result ContractError ℕ
unfolding mul_div
calculate_fee amount fee_bps = mul_div amount fee_bps 10_000

-- The text that is hashed.
unfoldable pub withdrawal_payload : Text → Text → Text → Text → ℕ → ℕ → Text
withdrawal_payload chain_id contract_addr nonce player credit_amount token_amount =
    bytes "withdraw:"
    ++ (chain_id
        ++ (b':'
            ∷ (contract_addr
                ++ (b':'
                    ∷ (nonce
                        ++ (b':'
                            ∷ (player
                                ++ (b':'
                                    ∷ (to_string credit_amount
                                        ++ (b':' ∷ to_string token_amount))))))))))

unfoldable pub build_withdrawal_message : Deps → Text → Text → Text → Text → ℕ → ℕ → Text
unfolding withdrawal_payload
build_withdrawal_message d chain_id contract_addr nonce player credit_amount token_amount =
    d.sha256 (withdrawal_payload chain_id contract_addr nonce player credit_amount token_amount)

-- The loop of `sum_rolling_window`, with its two accumulators.
unfoldable pub window_loop :
    ℕ → List WithdrawalRecord → List WithdrawalRecord → ℕ → List WithdrawalRecord × ℕ
window_loop cutoff [] active total = (active, total)
window_loop cutoff (r ∷ rs) active total =
    window_loop cutoff rs (if leb cutoff r.timestamp then active ++ (r ∷ []) else active)
      (if leb cutoff r.timestamp then saturating_add total r.amount_credits else total)

unfoldable pub sum_rolling_window :
    List WithdrawalRecord → ℕ → ℕ → Result ContractError (List WithdrawalRecord × ℕ)
sum_rolling_window records now window_seconds = do
  cutoff ← or_panic (minus_seconds now window_seconds)
  ok (window_loop cutoff records [] 0)

-- The cooldown part of `check_player_limits`, for the last withdrawal that the storage holds.
unfoldable pub check_cooldown : ℕ → ℕ → Option ℕ → Result ContractError (Unit {0})
check_cooldown now cooldown none = ok tt
check_cooldown now cooldown (some last) = do
  cooldown_until ← or_panic (plus_seconds last cooldown)
  fail_if (ltb now cooldown_until) (cooldown_active (seconds cooldown_until))

unfoldable pub check_player_limits : Storage → Env → Addr → ℕ → Config → Result ContractError ℕ
unfolding check_cooldown sum_rolling_window
check_player_limits s env player credit_amount config = do
  check_cooldown env.time config.cooldown_seconds (find player s.player_last_withdrawal)
  (active, used) ← sum_rolling_window (unwrap_or [] (find player s.player_withdrawals)) env.time day
  new_total ← or_err overflow (checked_add used credit_amount)
  fail_if (ltb config.player_daily_limit new_total)
      (player_daily_limit_exceeded used credit_amount config.player_daily_limit)
  ok used

-- What one index of the global records adds to the sum.
unfoldable pub add_in_window : ℕ → Option WithdrawalRecord → ℕ → ℕ
add_in_window cutoff none used = used
add_in_window cutoff (some r) used =
    if leb cutoff r.timestamp then saturating_add used r.amount_credits else used

-- The loop over `rounds` indices from `idx`; `oldest..=counter` has `counter + 1 - oldest`.
unfoldable pub global_loop : ℕ → Map ℕ WithdrawalRecord → ℕ → ℕ → ℕ → ℕ
unfolding add_in_window
global_loop cutoff m zero idx used = used
global_loop cutoff m (suc rounds) idx used =
    global_loop cutoff m rounds (idx + 1) (add_in_window cutoff (find idx m) used)

unfoldable pub check_global_limit : Storage → Env → ℕ → Config → Result ContractError ℕ
unfolding global_loop
check_global_limit s env credit_amount config = do
  cutoff ← or_panic (minus_seconds env.time day)
  let oldest = unwrap_or 0 s.global_wd_oldest
  let counter = unwrap_or 0 s.global_wd_counter
  let used = global_loop cutoff s.global_withdrawal_records (counter + 1 - oldest) oldest 0
  new_total ← or_err overflow (checked_add used credit_amount)
  fail_if (ltb config.global_daily_limit new_total)
      (global_daily_limit_exceeded used credit_amount config.global_daily_limit)
  ok used

unfoldable pub reject_funds : MessageInfo → Result ContractError (Unit {0})
reject_funds info = elim info.funds [ [] ↦ ok tt | c ∷ cs ↦ err unexpected_funds ]

unfoldable pub validate_pubkey : Text → Result ContractError (Unit {0})
validate_pubkey pubkey =
    let size = length pubkey in
    fail_if (not (eqb size 33) && not (eqb size 65)) (invalid_pubkey_length size)

-- `nonce.splitn(2, ':')`: what stands before the first colon, if there is one.
unfoldable pub before_colon : Text → Option Text
before_colon [] = none
before_colon (c ∷ cs) = if eqb c b':' then some [] else Option.map (λ t. c ∷ t) (before_colon cs)

unfoldable pub validate_nonce_timestamp : Text → ℕ → Result ContractError (Unit {0})
unfolding before_colon
validate_nonce_timestamp nonce now = do
  stamp ← or_err invalid_nonce_format (before_colon nonce)
  nonce_ts ← or_err invalid_nonce_format (parse_u64 stamp)
  fail_if (ltb nonce_ts (saturating_sub (seconds now) nonce_expiry_window))
      (nonce_expired nonce_expiry_window)
