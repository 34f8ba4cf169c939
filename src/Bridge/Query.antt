-- ===== src/Bridge/Query.antt =====
-- The queries of the credit bridge (contract.rs and the dispatch in lib.rs). The answer is the value
-- that the source writes as JSON; an error is a `StdError`.
use sysbreak_trust.Base.{
  ℕ, Bool, false, Option, some, none, [], Text, Result, ok, err, panic, ◌>>=◌, or_err, or_panic,
  unwrap_or, find, number_key, text_key, saturating_sub, seconds, plus_seconds,
}
use sysbreak_trust.Host.{Addr, Deps, Env, StdError, not_found, generic_err}
use sysbreak_trust.Bridge.State.{
  Config, Storage, ContractError, PendingOracleTransfer, PendingOwnerTransfer, day,
}
use sysbreak_trust.Bridge.Helpers.{
  sum_rolling_window, credits_to_tokens, tokens_to_credits, calculate_fee,
}

pub record TreasuryInfoResponse : Type 0 where
  pub balance : ℕ
  pub min_reserve : ℕ
  pub peak_balance : ℕ
  pub available_for_withdrawal : ℕ

pub record PlayerInfoResponse : Type 0 where
  pub withdrawals_24h : ℕ
  pub daily_limit : ℕ
  pub remaining_limit : ℕ
  pub cooldown_until : Option ℕ

pub record ConversionResponse : Type 0 where
  pub credit_amount : ℕ
  pub token_amount : ℕ
  pub fee_amount : ℕ

-- `.map_err(|e| StdError::generic_err(e.to_string()))`
abbrev pub to_std : {A : Type 0} → Result ContractError A → Result StdError A
to_std (ok a) = ok a
to_std (err e) = err generic_err
to_std panic = panic

abbrev load : {A : Type 0} → Option A → Result StdError A
load = or_err not_found

abbrev validate : Deps → Text → Result StdError Addr
validate d t = or_err generic_err (d.addr_validate t)

unfoldable pub query_treasury_info : Deps → Env → Storage → Result StdError TreasuryInfoResponse
query_treasury_info d env s = do
  config ← load s.config
  balance ← or_err generic_err (d.query_balance env.contract config.denom)
  peak ← load s.peak_balance
  ok (record {
    balance = balance;
    min_reserve = config.min_reserve;
    peak_balance = peak;
    available_for_withdrawal = saturating_sub balance config.min_reserve;
  })

-- The time to which a player's cooldown lasts, in seconds.
abbrev cooldown_end : ℕ → Option ℕ → Result StdError (Option ℕ)
cooldown_end cooldown none = ok none
cooldown_end cooldown (some last) = do
  t ← or_panic (plus_seconds last cooldown)
  ok (some (seconds t))

unfoldable pub query_player_info : Deps → Env → Text → Storage → Result StdError PlayerInfoResponse
unfolding sum_rolling_window
query_player_info d env player s = do
  addr ← validate d player
  config ← load s.config
  (active, used) ←
      to_std (sum_rolling_window (unwrap_or [] (find addr s.player_withdrawals)) env.time day)
  until ← cooldown_end config.cooldown_seconds (find addr s.player_last_withdrawal)
  ok (record {
    withdrawals_24h = used;
    daily_limit = config.player_daily_limit;
    remaining_limit = saturating_sub config.player_daily_limit used;
    cooldown_until = until;
  })

unfoldable pub query_nonce_used : Text → Storage → Bool
query_nonce_used nonce s = unwrap_or false (find nonce s.used_nonces)

unfoldable pub query_convert_credits_to_tokens : ℕ → Storage → Result StdError ConversionResponse
unfolding credits_to_tokens calculate_fee
query_convert_credits_to_tokens credit_amount s = do
  config ← load s.config
  gross ← to_std (credits_to_tokens credit_amount config)
  fee ← to_std (calculate_fee gross config.fee_bps)
  ok (record {
    credit_amount = credit_amount;
    token_amount = saturating_sub gross fee;
    fee_amount = fee;
  })

unfoldable pub query_convert_tokens_to_credits : ℕ → Storage → Result StdError ConversionResponse
unfolding tokens_to_credits
query_convert_tokens_to_credits token_amount s = do
  config ← load s.config
  credits ← to_std (tokens_to_credits token_amount config)
  ok (record { credit_amount = credits; token_amount = token_amount; fee_amount = 0 })

unfoldable pub query_config : Storage → Result StdError Config
query_config s = load s.config

unfoldable pub query_pending_oracle : Storage → Option PendingOracleTransfer
query_pending_oracle s = s.pending_oracle

unfoldable pub query_pending_owner : Storage → Option PendingOwnerTransfer
query_pending_owner s = s.pending_owner
