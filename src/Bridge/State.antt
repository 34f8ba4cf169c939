-- ===== src/Bridge/State.antt =====
-- The storage of the credit bridge (sysbreak-credit-bridge/src/state.rs), its errors (error.rs) and
-- its messages (msg.rs). An error keeps the numbers that the source writes into its text.
use sysbreak_trust.Base.{ℕ, Bool, Option, List, String, Text, Map, Result}
use sysbreak_trust.Host.{Addr, StdError, Response}

pub record Config : Type 0 where
  pub owner : Addr
  pub oracle : Addr
  pub paused : Bool
  pub denom : Text
  pub rate_credits : ℕ
  pub rate_tokens : ℕ
  pub fee_bps : ℕ
  pub treasury : Addr
  pub min_deposit : ℕ
  pub player_daily_limit : ℕ
  pub global_daily_limit : ℕ
  pub cooldown_seconds : ℕ
  pub min_reserve : ℕ
  pub oracle_pubkey : Text
  pub chain_id : Text

pub record PendingOracleTransfer : Type 0 where
  pub proposed_oracle : Addr
  pub proposed_pubkey : Text

pub record PendingOwnerTransfer : Type 0 where
  pub proposed_owner : Addr

pub record WithdrawalRecord : Type 0 where
  pub amount_credits : ℕ
  pub timestamp : ℕ

-- A field for each `Item` and `Map`; `contract_info` is the item that cw2 keeps.
pub record Storage : Type 0 where
  pub contract_info : Option (String × String)
  pub config : Option Config
  pub pending_oracle : Option PendingOracleTransfer
  pub used_nonces : Map Text Bool
  pub player_withdrawals : Map Addr (List WithdrawalRecord)
  pub player_last_withdrawal : Map Addr ℕ
  pub global_withdrawals : Option (List WithdrawalRecord)
  pub peak_balance : Option ℕ
  pub pending_owner : Option PendingOwnerTransfer
  pub global_withdrawal_records : Map ℕ WithdrawalRecord
  pub global_wd_counter : Option ℕ
  pub global_wd_oldest : Option ℕ

pub data ContractError : Type 0 where
  std : StdError → ContractError
  unauthorized : (role : String) → ContractError
  contract_paused : ContractError
  not_paused : ContractError
  no_oracle_transfer_pending : ContractError
  not_pending_oracle : ContractError
  oracle_transfer_already_pending : ContractError
  deposit_below_minimum : (least : ℕ) → ContractError
  no_funds_sent : ContractError
  multiple_denoms_sent : ContractError
  wrong_denom : (expected got : Text) → ContractError
  nonce_already_used : (nonce : Text) → ContractError
  invalid_signature : ContractError
  signature_verification_failed : ContractError
  amount_mismatch : (credits expected_tokens provided_tokens : ℕ) → ContractError
  player_daily_limit_exceeded : (used requested limit : ℕ) → ContractError
  global_daily_limit_exceeded : (used requested limit : ℕ) → ContractError
  cooldown_active : (available_at : ℕ) → ContractError
  insufficient_treasury : (needed available reserve_min : ℕ) → ContractError
  reserve_breached : (reserve_min : ℕ) → ContractError
  zero_amount : ContractError
  overflow : ContractError
  no_owner_transfer_pending : ContractError
  not_pending_owner : ContractError
  owner_transfer_already_pending : ContractError
  invalid_pubkey_length : (size : ℕ) → ContractError
  nonce_expired : (window : ℕ) → ContractError
  invalid_nonce_format : ContractError
  unexpected_funds : ContractError

pub record InstantiateMsg : Type 0 where
  pub owner : Text
  pub oracle : Text
  pub oracle_pubkey : Text
  pub denom : Text
  pub rate_credits : ℕ
  pub rate_tokens : ℕ
  pub fee_bps : ℕ
  pub treasury : Text
  pub min_deposit : ℕ
  pub player_daily_limit : ℕ
  pub global_daily_limit : ℕ
  pub cooldown_seconds : ℕ
  pub min_reserve : ℕ
  pub chain_id : Text

pub data ExecuteMsg : Type 0 where
  deposit : ExecuteMsg
  withdraw : (nonce : Text) (credit_amount token_amount : ℕ) (signature : Text) → ExecuteMsg
  fund_treasury : ExecuteMsg
  withdraw_treasury : (amount : ℕ) → ExecuteMsg
  propose_oracle : (new_oracle new_pubkey : Text) → ExecuteMsg
  accept_oracle : ExecuteMsg
  cancel_oracle_transfer : ExecuteMsg
  update_rate : (rate_credits rate_tokens : ℕ) → ExecuteMsg
  update_fee : (fee_bps : ℕ) → ExecuteMsg
  update_limits :
      (player_daily_limit global_daily_limit cooldown_seconds min_deposit min_reserve : Option ℕ)
      → ExecuteMsg
  pause : ExecuteMsg
  unpause : ExecuteMsg
  propose_owner : (new_owner : Text) → ExecuteMsg
  accept_owner : ExecuteMsg
  cancel_owner_transfer : ExecuteMsg

-- What a handler answers: the new storage with the response. The host drops the writes of a call
-- that ends in an error or a panic, so there is no storage beside those.
abbrev pub Outcome : Type 0
Outcome = Result ContractError (Storage × Response)

-- `NONCE_EXPIRY_WINDOW`
abbrev pub nonce_expiry_window : ℕ
nonce_expiry_window = 604_800

-- The window of the daily limits.
abbrev pub day : ℕ
day = 86_400
