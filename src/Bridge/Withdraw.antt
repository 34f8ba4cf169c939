-- ===== src/Bridge/Withdraw.antt =====
-- `execute_withdraw` of the credit bridge, in the three parts of its numbered comments: the checks
-- (1 to 6), the writes (7) and the messages (8).
use sysbreak_trust.Base.{
  ℕ, zero, suc, ◌+◌, true, false, none, some, List, [], ◌∷◌, ◌++◌, not, Text, ltb, eqb, ◌||◌,
  if◌then◌else◌, Result, ok, ◌>>=◌, ◌>>◌, fail_if, or_err, or_panic, unwrap_or, checked_add,
  checked_sub, fits, u64_max, minus_seconds, Map, find, save, remove, number_key, text_key, is_zero,
}
use sysbreak_trust.Host.{
  Addr, Env, MessageInfo, Deps, not_found, Message, bank_send, word, text, number, address,
}
use sysbreak_trust.Bridge.State.{
  Config, WithdrawalRecord, Storage, ContractError, std, nonce_already_used, invalid_signature,
  signature_verification_failed, amount_mismatch, insufficient_treasury, zero_amount, overflow,
  Outcome, day,
}
use sysbreak_trust.Bridge.Helpers.{
  load_config, contract_balance, assert_not_paused, reject_funds, validate_nonce_timestamp,
  credits_to_tokens, calculate_fee, build_withdrawal_message, check_player_limits,
  check_global_limit, sum_rolling_window,
}

-- Part 2: the fee, if `token_amount` is what the rate and the fee leave of `credit_amount`.
unfoldable pub check_amounts : Config → ℕ → ℕ → Result ContractError ℕ
unfolding credits_to_tokens calculate_fee
check_amounts config credit_amount token_amount = do
  gross_tokens ← credits_to_tokens credit_amount config
  fee ← calculate_fee gross_tokens config.fee_bps
  net_tokens ← or_err overflow (checked_sub gross_tokens fee)
  fail_if (not (eqb token_amount net_tokens))
      (amount_mismatch credit_amount net_tokens token_amount)
  ok fee

-- Part 3.
unfoldable pub check_signature :
    Deps → Env → Config → Addr → Text → ℕ → ℕ → Text → Result ContractError (Unit {0})
unfolding build_withdrawal_message
check_signature d env config player nonce credit_amount token_amount signature = do
  let message_hash =
      build_withdrawal_message d config.chain_id (d.as_str env.contract) nonce (d.as_str player)
        credit_amount token_amount
  valid ←
      or_err signature_verification_failed
        (d.secp256k1_verify message_hash signature config.oracle_pubkey)
  fail_if (not valid) invalid_signature

-- Part 6.
unfoldable pub check_treasury : Deps → Env → Config → ℕ → ℕ → Result ContractError (Unit {0})
check_treasury d env config token_amount fee = do
  balance ← contract_balance d env config
  total_outgoing ← or_err overflow (checked_add token_amount fee)
  let short = insufficient_treasury total_outgoing balance config.min_reserve
  remaining ← or_err short (checked_sub balance total_outgoing)
  fail_if (ltb remaining config.min_reserve) short

-- All checks; the result is the fee.
unfoldable pub authorize :
    Deps → Env → MessageInfo → Config → Text → ℕ → ℕ → Text → Storage → Result ContractError ℕ
authorize d env info config nonce credit_amount token_amount signature s = do
  validate_nonce_timestamp nonce env.time
  fail_if (unwrap_or false (find nonce s.used_nonces)) (nonce_already_used nonce)
  fee ← check_amounts config credit_amount token_amount
  check_signature d env config info.sender nonce credit_amount token_amount signature
  player_used ← check_player_limits s env info.sender credit_amount config
  global_used ← check_global_limit s env credit_amount config
  check_treasury d env config token_amount fee
  ok fee

-- The pruning loop, for the rounds that are left of its ten.
unfoldable pub prune : ℕ → ℕ → ℕ → Map ℕ WithdrawalRecord → ℕ → Map ℕ WithdrawalRecord × ℕ
prune cutoff counter zero m oldest = (m, oldest)
prune cutoff counter (suc rounds) m oldest =
    let skip = prune cutoff counter rounds m (oldest + 1) in
    let drop = prune cutoff counter rounds (remove oldest m) (oldest + 1) in
    if ltb oldest counter
    then elim (find oldest m) [
      | none ↦ skip
      | some old_record ↦ if ltb old_record.timestamp cutoff then drop else (m, oldest)
    ]
    else (m, oldest)

unfoldable pub record_player : ℕ → Addr → ℕ → Storage → Result ContractError Storage
unfolding sum_rolling_window
record_player now player credit_amount s = do
  (pruned, total) ← sum_rolling_window (unwrap_or [] (find player s.player_withdrawals)) now day
  let entry : WithdrawalRecord = record { amount_credits = credit_amount; timestamp = now }
  ok (record s {
    player_withdrawals = save player (pruned ++ (entry ∷ [])) s.player_withdrawals;
    player_last_withdrawal = save player now s.player_last_withdrawal;
  })

unfoldable pub record_global : ℕ → ℕ → Storage → Result ContractError Storage
record_global now credit_amount s = do
  last ← or_err (std not_found) s.global_wd_counter
  counter ← or_panic (fits u64_max (last + 1))
  let entry : WithdrawalRecord = record { amount_credits = credit_amount; timestamp = now }
  cutoff ← or_panic (minus_seconds now day)
  first ← or_err (std not_found) s.global_wd_oldest
  let (records, oldest) =
      prune cutoff counter 10 (save counter entry s.global_withdrawal_records) first
  ok (record s {
    global_withdrawal_records = records;
    global_wd_counter = some counter;
    global_wd_oldest = some oldest;
  })

-- Part 7.
unfoldable pub record_withdrawal :
    Env → MessageInfo → Text → ℕ → Storage → Result ContractError Storage
record_withdrawal env info nonce credit_amount s = do
  let marked = record s { used_nonces = save nonce true s.used_nonces }
  s' ← record_player env.time info.sender credit_amount marked
  record_global env.time credit_amount s'

-- Part 8.
unfoldable pub withdrawal_messages : Config → Addr → ℕ → ℕ → List Message
withdrawal_messages config player token_amount fee =
    bank_send player (record { denom = config.denom; amount = token_amount })
    ∷ (if is_zero fee
        then []
        else bank_send config.treasury (record { denom = config.denom; amount = fee }) ∷ [])

unfoldable pub execute_withdraw : Deps → Env → MessageInfo → Text → ℕ → ℕ → Text → Storage → Outcome
execute_withdraw d env info nonce credit_amount token_amount signature s = do
  reject_funds info
  assert_not_paused s
  fail_if (is_zero credit_amount || is_zero token_amount) zero_amount
  config ← load_config s
  fee ← authorize d env info config nonce credit_amount token_amount signature s
  s' ← record_withdrawal env info nonce credit_amount s
  ok (
    s',
    record {
      messages = withdrawal_messages config info.sender token_amount fee;
      attributes =
          ("action", word "withdraw")
          ∷ ("player", address info.sender)
          ∷ ("nonce", text nonce)
          ∷ ("credit_amount", number credit_amount)
          ∷ ("token_amount", number token_amount)
          ∷ ("fee_amount", number fee)
          ∷ [];
    },
  )
