-- ===== src/Bridge/Admin.antt =====
-- The handlers of the credit bridge that change its settings: the two-step transfers of the oracle
-- and of the owner, the rate, the fee, the limits, and the pause.
use sysbreak_trust.Base.{
  ℕ, true, false, Option, none, some, List, [], ◌∷◌, not, Text, String, ltb, eqb, ◌||◌, is_some,
  Result, ok, ◌>>=◌, ◌>>◌, fail_if, or_err, unwrap_or, is_zero,
}
use sysbreak_trust.Host.{MessageInfo, Deps, word, number, address, Value, Response}
use sysbreak_trust.Bridge.State.{
  Config, Storage, ContractError, PendingOracleTransfer, PendingOwnerTransfer, not_paused,
  no_oracle_transfer_pending, not_pending_oracle, oracle_transfer_already_pending, zero_amount,
  overflow, no_owner_transfer_pending, not_pending_owner, owner_transfer_already_pending, Outcome,
}
use sysbreak_trust.Bridge.Helpers.{
  load_config, validate_addr, assert_owner, reject_funds, validate_pubkey,
}

-- A response with no message.
abbrev pub attributes_only : List (String × Value) → Response
attributes_only attributes = record { messages = []; attributes = attributes }

-- `CONFIG.update(deps.storage, |mut c| …)?`
abbrev pub update_config : (Config → Config) → Storage → Result ContractError Storage
update_config change s = do config ← load_config s; ok (record s { config = some (change config) })

-- The guards with which the handlers of the owner begin.
unfoldable pub owner_only : MessageInfo → Storage → Result ContractError (Unit {0})
unfolding reject_funds assert_owner
owner_only info s = do reject_funds info; assert_owner s info.sender

unfoldable pub execute_propose_oracle : Deps → MessageInfo → Text → Text → Storage → Outcome
unfolding owner_only validate_pubkey
execute_propose_oracle d info new_oracle new_pubkey s = do
  owner_only info s
  validate_pubkey new_pubkey
  fail_if (is_some s.pending_oracle) oracle_transfer_already_pending
  proposed ← validate_addr d new_oracle
  let pending : PendingOracleTransfer = record {
    proposed_oracle = proposed;
    proposed_pubkey = new_pubkey;
  }
  ok (
    record s { pending_oracle = some pending },
    attributes_only
        (("action", word "propose_oracle") ∷ ("proposed_oracle", address proposed) ∷ []),
  )

unfoldable pub execute_accept_oracle : MessageInfo → Storage → Outcome
unfolding reject_funds
execute_accept_oracle info s = do
  reject_funds info
  pending ← or_err no_oracle_transfer_pending s.pending_oracle
  fail_if (not (eqb info.sender pending.proposed_oracle)) not_pending_oracle
  s' ←
      update_config
        (λ c. record c {
          oracle = pending.proposed_oracle;
          oracle_pubkey = pending.proposed_pubkey;
        })
        s
  ok (
    record s' { pending_oracle = none },
    attributes_only
        (("action", word "accept_oracle") ∷ ("new_oracle", address pending.proposed_oracle) ∷ []),
  )

unfoldable pub execute_cancel_oracle_transfer : MessageInfo → Storage → Outcome
unfolding owner_only
execute_cancel_oracle_transfer info s = do
  owner_only info s
  fail_if (not (is_some s.pending_oracle)) no_oracle_transfer_pending
  ok (
    record s { pending_oracle = none },
    attributes_only (("action", word "cancel_oracle_transfer") ∷ []),
  )

unfoldable pub execute_update_rate : MessageInfo → ℕ → ℕ → Storage → Outcome
unfolding owner_only
execute_update_rate info rate_credits rate_tokens s = do
  owner_only info s
  fail_if (is_zero rate_credits || is_zero rate_tokens) zero_amount
  s' ← update_config (λ c. record c { rate_credits = rate_credits; rate_tokens = rate_tokens }) s
  ok (
    s',
    attributes_only (
        ("action", word "update_rate")
        ∷ ("rate_credits", number rate_credits)
        ∷ ("rate_tokens", number rate_tokens)
        ∷ []),
  )

unfoldable pub execute_update_fee : MessageInfo → ℕ → Storage → Outcome
unfolding owner_only
execute_update_fee info fee_bps s = do
  owner_only info s
  fail_if (ltb 10_000 fee_bps) overflow
  s' ← update_config (λ c. record c { fee_bps = fee_bps }) s
  ok (s', attributes_only (("action", word "update_fee") ∷ ("fee_bps", number fee_bps) ∷ []))

unfoldable pub execute_update_limits :
    MessageInfo → Option ℕ → Option ℕ → Option ℕ → Option ℕ → Option ℕ → Storage → Outcome
unfolding owner_only
execute_update_limits info player_limit global_limit cooldown min_deposit min_reserve s = do
  owner_only info s
  s' ←
      update_config
        (λ c. record c {
          player_daily_limit = unwrap_or c.player_daily_limit player_limit;
          global_daily_limit = unwrap_or c.global_daily_limit global_limit;
          cooldown_seconds = unwrap_or c.cooldown_seconds cooldown;
          min_deposit = unwrap_or c.min_deposit min_deposit;
          min_reserve = unwrap_or c.min_reserve min_reserve;
        })
        s
  ok (s', attributes_only (("action", word "update_limits") ∷ []))

unfoldable pub execute_pause : MessageInfo → Storage → Outcome
unfolding owner_only
execute_pause info s = do
  owner_only info s
  s' ← update_config (λ c. record c { paused = true }) s
  ok (s', attributes_only (("action", word "pause") ∷ []))

unfoldable pub execute_unpause : MessageInfo → Storage → Outcome
unfolding owner_only
execute_unpause info s = do
  owner_only info s
  config ← load_config s
  fail_if (not config.paused) not_paused
  s' ← update_config (λ c. record c { paused = false }) s
  ok (s', attributes_only (("action", word "unpause") ∷ []))

unfoldable pub execute_propose_owner : Deps → MessageInfo → Text → Storage → Outcome
unfolding owner_only
execute_propose_owner d info new_owner s = do
  owner_only info s
  fail_if (is_some s.pending_owner) owner_transfer_already_pending
  proposed ← validate_addr d new_owner
  let pending : PendingOwnerTransfer = record { proposed_owner = proposed }
  ok (
    record s { pending_owner = some pending },
    attributes_only (("action", word "propose_owner") ∷ ("proposed_owner", address proposed) ∷ []),
  )

unfoldable pub execute_accept_owner : MessageInfo → Storage → Outcome
unfolding reject_funds
execute_accept_owner info s = do
  reject_funds info
  pending ← or_err no_owner_transfer_pending s.pending_owner
  fail_if (not (eqb info.sender pending.proposed_owner)) not_pending_owner
  s' ← update_config (λ c. record c { owner = pending.proposed_owner }) s
  ok (
    record s' { pending_owner = none },
    attributes_only
        (("action", word "accept_owner") ∷ ("new_owner", address pending.proposed_owner) ∷ []),
  )

unfoldable pub execute_cancel_owner_transfer : MessageInfo → Storage → Outcome
unfolding owner_only
execute_cancel_owner_transfer info s = do
  owner_only info s
  fail_if (not (is_some s.pending_owner)) no_owner_transfer_pending
  ok (
    record s { pending_owner = none },
    attributes_only (("action", word "cancel_owner_transfer") ∷ []),
  )
