-- ===== src/Bridge/Contract.antt =====
-- The entry points of the credit bridge: `instantiate` and `migrate` of contract.rs, and the
-- dispatch of `execute` in lib.rs.
use sysbreak_trust.Base.{
  ℕ, ◌+◌, false, none, some, List, [], ◌∷◌, String, ltb, ◌||◌, Result, ok, ◌>>=◌, ◌>>◌, fail_if,
  or_panic, unwrap_or, fits, u64_max, is_zero, Map, save, number_key,
}
use sysbreak_trust.Host.{Env, MessageInfo, Deps, word}
use sysbreak_trust.Bridge.State.{
  Config, WithdrawalRecord, Storage, ContractError, InstantiateMsg, ExecuteMsg, zero_amount,
  overflow, Outcome,
}
use sysbreak_trust.Bridge.Helpers.{validate_addr, validate_pubkey}
use sysbreak_trust.Bridge.Treasury.{
  execute_deposit, execute_fund_treasury, execute_withdraw_treasury,
}
use sysbreak_trust.Bridge.Withdraw.{execute_withdraw}
use sysbreak_trust.Bridge.Admin.{
  attributes_only, execute_propose_oracle, execute_accept_oracle, execute_cancel_oracle_transfer,
  execute_update_rate, execute_update_fee, execute_update_limits, execute_pause, execute_unpause,
  execute_propose_owner, execute_accept_owner, execute_cancel_owner_transfer,
}

-- `CONTRACT_NAME`, and `CONTRACT_VERSION` from the package's Cargo.toml.
abbrev pub contract_name : String
contract_name = "crates.io:sysbreak-credit-bridge"

abbrev pub contract_version : String
contract_version = "0.1.0"

-- The storage before any call.
abbrev pub fresh : Storage
fresh = record {
  contract_info = none;
  config = none;
  pending_oracle = none;
  used_nonces = [];
  player_withdrawals = [];
  player_last_withdrawal = [];
  global_withdrawals = none;
  peak_balance = none;
  pending_owner = none;
  global_withdrawal_records = [];
  global_wd_counter = none;
  global_wd_oldest = none;
}

unfoldable pub instantiate : Deps → InstantiateMsg → Storage → Outcome
unfolding validate_pubkey
instantiate d msg s = do
  fail_if (is_zero msg.rate_credits || is_zero msg.rate_tokens) zero_amount
  fail_if (ltb 10_000 msg.fee_bps) overflow
  validate_pubkey msg.oracle_pubkey
  owner ← validate_addr d msg.owner
  oracle ← validate_addr d msg.oracle
  treasury ← validate_addr d msg.treasury
  let config : Config = record {
    owner = owner;
    oracle = oracle;
    paused = false;
    denom = msg.denom;
    rate_credits = msg.rate_credits;
    rate_tokens = msg.rate_tokens;
    fee_bps = msg.fee_bps;
    treasury = treasury;
    min_deposit = msg.min_deposit;
    player_daily_limit = msg.player_daily_limit;
    global_daily_limit = msg.global_daily_limit;
    cooldown_seconds = msg.cooldown_seconds;
    min_reserve = msg.min_reserve;
    oracle_pubkey = msg.oracle_pubkey;
    chain_id = msg.chain_id;
  }
  ok (
    record s {
      contract_info = some (contract_name, contract_version);
      config = some config;
      peak_balance = some 0;
      global_wd_counter = some 0;
      global_wd_oldest = some 0;
    },
    attributes_only (("action", word "instantiate") ∷ ("contract", word contract_name) ∷ []),
  )

unfoldable pub execute : Deps → Env → MessageInfo → ExecuteMsg → Storage → Outcome
execute d env info ExecuteMsg.deposit s = execute_deposit d env info s
execute d env info (ExecuteMsg.withdraw nonce credit_amount token_amount signature) s =
    execute_withdraw d env info nonce credit_amount token_amount signature s
execute d env info ExecuteMsg.fund_treasury s = execute_fund_treasury d env info s
execute d env info (ExecuteMsg.withdraw_treasury amount) s =
    execute_withdraw_treasury d env info amount s
execute d env info (ExecuteMsg.propose_oracle new_oracle new_pubkey) s =
    execute_propose_oracle d info new_oracle new_pubkey s
execute d env info ExecuteMsg.accept_oracle s = execute_accept_oracle info s
execute d env info ExecuteMsg.cancel_oracle_transfer s = execute_cancel_oracle_transfer info s
execute d env info (ExecuteMsg.update_rate rate_credits rate_tokens) s =
    execute_update_rate info rate_credits rate_tokens s
execute d env info (ExecuteMsg.update_fee fee_bps) s = execute_update_fee info fee_bps s
execute d env info (ExecuteMsg.update_limits pl gl cd md mr) s =
    execute_update_limits info pl gl cd md mr s
execute d env info ExecuteMsg.pause s = execute_pause info s
execute d env info ExecuteMsg.unpause s = execute_unpause info s
execute d env info (ExecuteMsg.propose_owner new_owner) s = execute_propose_owner d info new_owner s
execute d env info ExecuteMsg.accept_owner s = execute_accept_owner info s
execute d env info ExecuteMsg.cancel_owner_transfer s = execute_cancel_owner_transfer info s

-- The loop of `migrate` over the old records.
unfoldable pub migrate_records :
    ℕ
    → List WithdrawalRecord
    → Map ℕ WithdrawalRecord
    → Result ContractError (ℕ × Map ℕ WithdrawalRecord)
migrate_records counter [] m = ok (counter, m)
migrate_records counter (r ∷ rs) m = do
  next ← or_panic (fits u64_max (counter + 1))
  migrate_records next rs (save next r m)

unfoldable pub migrate : Storage → Outcome
unfolding migrate_records
migrate s = do
  s' ← elim s.global_withdrawals [
    | some old_records ↦ (do
      (counter, m) ← migrate_records 0 old_records s.global_withdrawal_records
      ok (record s {
        global_withdrawal_records = m;
        global_wd_counter = some counter;
        global_wd_oldest = some 1;
        global_withdrawals = none;
      }))
    | none ↦ ok (record s {
      global_wd_counter = some (unwrap_or 0 s.global_wd_counter);
      global_wd_oldest = some (unwrap_or 0 s.global_wd_oldest);
    })
  ]
  ok (
    record s' { contract_info = some (contract_name, contract_version) },
    attributes_only (("action", word "migrate") ∷ ("version", word contract_version) ∷ []),
  )
