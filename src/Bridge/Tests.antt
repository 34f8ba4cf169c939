-- ===== src/Bridge/Tests.antt =====
-- Runs of the credit bridge at concrete inputs, and the theorems at these inputs.
use sysbreak_trust.Base.{
  ℕ, ◌+◌, ◌≤◌, ◌≡◌, refl, arith, ok, some, false, List, [], ◌∷◌, ◌++◌, Text, bytes, String,
  same_text, length, ◌*◌, nanos_per_second, Has, if◌then◌else◌, to_string, parse_u64, find, save,
  remove, eqb, err,
}
use sysbreak_trust.Host.{Env, MessageInfo, Deps, Response, bank_send}
use sysbreak_trust.Bridge.State.{
  Config, Storage, InstantiateMsg, ExecuteMsg, Outcome, amount_mismatch, nonce_already_used,
  cooldown_active, player_daily_limit_exceeded,
}
use sysbreak_trust.Bridge.Helpers.{
  tokens_to_credits, reject_funds, assert_not_paused, validate_nonce_timestamp, check_player_limits,
  window_loop, check_global_limit,
}
use sysbreak_trust.Bridge.Treasury.{execute_deposit, execute_withdraw_treasury}
use sysbreak_trust.Bridge.Admin.{execute_pause}
use sysbreak_trust.Bridge.Withdraw.{
  execute_withdraw, authorize, check_amounts, check_signature, check_treasury, record_withdrawal,
  record_player, record_global, withdrawal_messages, prune,
}
use sysbreak_trust.Bridge.Contract.{fresh, instantiate, execute}
use sysbreak_trust.Bridge.Query.{ConversionResponse, query_convert_credits_to_tokens}
use sysbreak_trust.Bridge.Trace.{Withdrawal, logged, Reach, start, call}
use sysbreak_trust.Bridge.Frame.{cutoff_of}
use sysbreak_trust.Bridge.GlobalLimit.{in_window, global_limit_kept}
use sysbreak_trust.Bridge.PlayerLimit.{player_window, player_limit_kept, cooldown_kept}
use sysbreak_trust.Bridge.Replay.{IsMarked, Reach-IsMarked}
use sysbreak_trust.Bridge.Validity.{IsValid, Reach-IsValid}
use sysbreak_trust.Bridge.Solvency.{withdraw_treasury_keeps_reserve}
use sysbreak_trust.Bridge.Authority.{IsAllowed, execute_authority}
use sysbreak_trust.Bridge.Conversion.{deposit-withdraw-le, check_amounts_exact}
use sysbreak_trust.Bridge.Quotes.{quote_accepted}

-- A host whose addresses are the lengths of their texts, whose hash is the text itself, and whose
-- signature of a hash is that hash.
abbrev host : Deps
host = record {
  addr_validate = λ t. some (length t);
  as_str = to_string;
  secp256k1_verify = λ hash signature key. some (same_text hash signature);
  sha256 = λ t. t;
  query_balance = λ a denom. some 1_000_000;
}

abbrev key33 : Text
key33 = bytes "abcdefghijklmnopqrstuvwxyz0123456"

-- 100 credits are 1000 ushido; the fee is 0.5%.
abbrev setup : InstantiateMsg
setup = record {
  owner = bytes "o";
  oracle = bytes "or";
  oracle_pubkey = key33;
  denom = bytes "ushido";
  rate_credits = 100;
  rate_tokens = 1000;
  fee_bps = 50;
  treasury = bytes "tre";
  min_deposit = 10;
  player_daily_limit = 5000;
  global_daily_limit = 20_000;
  cooldown_seconds = 60;
  min_reserve = 1000;
  chain_id = bytes "shido-1";
}

abbrev state_of : Outcome → Storage
state_of (ok p) = p.0
state_of _ = fresh

abbrev response_of : Outcome → Response
response_of (ok p) = p.1
response_of _ = record { messages = []; attributes = [] }

-- `execute`, with all that it runs in these tests opened by one name.
run : Deps → Env → MessageInfo → ExecuteMsg → Storage → Outcome
unfolding execute instantiate execute_deposit execute_withdraw reject_funds assert_not_paused
    authorize validate_nonce_timestamp parse_u64 find save remove check_amounts check_signature
    to_string check_player_limits window_loop check_global_limit check_treasury record_withdrawal
    record_player record_global withdrawal_messages prune execute_pause execute_withdraw_treasury
run = execute

abbrev s1 : Storage
s1 = state_of (instantiate host setup fresh)

-- 200 000 seconds, and 100 seconds more.
abbrev at_first : Env
at_first = record { time = 200_000_000_000_000; contract = 9 }

abbrev at_second : Env
at_second = record { time = 200_100_000_000_000; contract = 9 }

abbrev player : MessageInfo
player = record { sender = 7; funds = [] }

abbrev signed : String → Text
signed nonce = bytes "withdraw:shido-1:9:" ++ (bytes nonce ++ bytes ":7:2000:19900")

abbrev withdrawal : String → ExecuteMsg
withdrawal nonce = ExecuteMsg.withdraw (bytes nonce) 2000 19_900 (signed nonce)

abbrev s2 : Storage
s2 = state_of (execute host at_first player (withdrawal "200000:a") s1)

abbrev s3 : Storage
s3 = state_of (execute host at_second player (withdrawal "200000:b") s2)

first_messages :
    (response_of (execute host at_first player (withdrawal "200000:a") s1)).messages
    ≡ bank_send 7 (record { denom = bytes "ushido"; amount = 19_900 })
      ∷ bank_send 3 (record { denom = bytes "ushido"; amount = 100 })
      ∷ []
unfolding run
first_messages = refl

replayed :
    execute host at_second player (withdrawal "200000:a") s2
    ≡ err (nonce_already_used (bytes "200000:a"))
unfolding run
replayed = refl

too_soon : execute host at_first player (withdrawal "200000:b") s2 ≡ err (cooldown_active 200_060)
unfolding run
too_soon = refl

-- The third withdrawal of 2000 credits would pass the player's limit of 5000.
over_limit :
    execute host
      (record { time = 200_200_000_000_000; contract = 9 })
      player
      (withdrawal "200000:c")
      s3
    ≡ err (player_daily_limit_exceeded 4000 2000 5000)
unfolding run
over_limit = refl

abbrev answer : Env → ExecuteMsg → Storage → Response
answer env msg s = response_of (execute host env player msg s)

instantiated : instantiate host setup fresh ≡ ok (s1, response_of (instantiate host setup fresh))
unfolding instantiate
instantiated = refl

first_ran :
    execute_withdraw host at_first player (bytes "200000:a") 2000 19_900 (signed "200000:a") s1
    ≡ ok (s2, answer at_first (withdrawal "200000:a") s1)
unfolding run
first_ran = refl

second_ran :
    execute_withdraw host at_second player (bytes "200000:b") 2000 19_900 (signed "200000:b") s2
    ≡ ok (s3, answer at_second (withdrawal "200000:b") s2)
unfolding run
second_ran = refl

abbrev history : List Withdrawal
history = logged at_first player (withdrawal "200000:a") []

start_reached : Reach s1 [] 0
start_reached = start host setup 0 instantiated

first_reached : Reach s2 history 200_000_000_000_000
unfolding execute
first_reached =
    call host at_first player (withdrawal "200000:a") start_reached (omega arith) first_ran refl

-- The settings after the instantiation; no call of these tests changes them.
abbrev config1 : Config
config1 = record {
  owner = 1;
  oracle = 2;
  paused = false;
  denom = bytes "ushido";
  rate_credits = 100;
  rate_tokens = 1000;
  fee_bps = 50;
  treasury = 3;
  min_deposit = 10;
  player_daily_limit = 5000;
  global_daily_limit = 20_000;
  cooldown_seconds = 60;
  min_reserve = 1000;
  oracle_pubkey = key33;
  chain_id = bytes "shido-1";
}

config_at_s2 : s2.config ≡ some config1
unfolding run
config_at_s2 = refl

config_at_s1 : s1.config ≡ some config1
unfolding run
config_at_s1 = refl

-- 2000 and 2000 credits within a day, of 20 000 in all and of 5000 for the player.
global_limit_kept_example :
    in_window
      (cutoff_of 200_100_000_000_000)
      (logged at_second player (withdrawal "200000:b") history)
    ≤ 20_000
global_limit_kept_example =
    global_limit_kept host at_second player (bytes "200000:b") 2000 19_900 (signed "200000:b")
      first_reached (omega arith) config_at_s2 second_ran

player_limit_kept_example :
    player_window 7
      (cutoff_of 200_100_000_000_000)
      (logged at_second player (withdrawal "200000:b") history)
    ≤ 5000
player_limit_kept_example =
    player_limit_kept host at_second player (bytes "200000:b") 2000 19_900 (signed "200000:b")
      first_reached (omega arith) config_at_s2 second_ran

cooldown_kept_example : 200_000_000_000_000 + 60 * nanos_per_second ≤ 200_100_000_000_000
cooldown_kept_example =
    cooldown_kept host at_second player (bytes "200000:b") 2000 19_900 (signed "200000:b")
      first_reached (omega arith) config_at_s2 second_ran 200_000_000_000_000 refl

Reach-IsMarked_example : IsMarked s2 history 200_000_000_000_000
Reach-IsMarked_example = Reach-IsMarked first_reached

Reach-IsValid_example : IsValid s2
Reach-IsValid_example = Reach-IsValid first_reached

abbrev owner_call : MessageInfo
owner_call = record { sender = 1; funds = [] }

abbrev drawn : Outcome
drawn = execute_withdraw_treasury host at_second owner_call 5000 s1

drawing_ran : drawn ≡ ok (state_of drawn, response_of drawn)
unfolding run
drawing_ran = refl

withdraw_treasury_keeps_reserve_example :
    (balance : ℕ) × (1 ≡ config1.owner)
    × (state_of drawn ≡ s1)
    × ((response_of drawn).messages
        ≡ bank_send 1 (record { denom = config1.denom; amount = 5000 }) ∷ [])
    × (host.query_balance 9 config1.denom ≡ some balance)
    × (5000 + 1000 ≤ balance)
withdraw_treasury_keeps_reserve_example =
    withdraw_treasury_keeps_reserve host at_second owner_call 5000 s1 config_at_s1 drawing_ran

abbrev paused_by_owner : Outcome
paused_by_owner = execute host at_second owner_call ExecuteMsg.pause s1

pause_ran : paused_by_owner ≡ ok (state_of paused_by_owner, response_of paused_by_owner)
unfolding run
pause_ran = refl

execute_authority_example :
    Has (IsAllowed 1 s1 (state_of paused_by_owner) config1) (state_of paused_by_owner).config
execute_authority_example =
    execute_authority host at_second owner_call ExecuteMsg.pause s1 config_at_s1 pause_ran

-- 19 ushido make 1 credit, which is worth 10 ushido.
one_credit : tokens_to_credits 19 config1 ≡ ok 1
unfolding tokens_to_credits
one_credit = refl

one_credit_back : check_amounts config1 1 10 ≡ ok 0
unfolding run
one_credit_back = refl

deposit-withdraw-le_example : 10 + 0 ≤ 19
deposit-withdraw-le_example = deposit-withdraw-le config1 19 1 10 0 one_credit one_credit_back

check_amounts_exact_example :
    (100 ≤ 20_000)
    × (check_amounts config1 2000 19_000
        ≡ (if eqb 19_000 19_900 then ok 100 else err (amount_mismatch 2000 19_900 19_000)))
check_amounts_exact_example =
    check_amounts_exact config1 2000 19_000 (omega arith) (omega arith) (omega arith) (omega arith)

abbrev quote : ConversionResponse
quote = record { credit_amount = 2000; token_amount = 19_900; fee_amount = 100 }

quoted : query_convert_credits_to_tokens 2000 s1 ≡ ok quote
unfolding run query_convert_credits_to_tokens
quoted = refl

quote_accepted_example : check_amounts config1 2000 19_900 ≡ ok 100
quote_accepted_example = quote_accepted s1 config1 2000 config_at_s1 (omega arith) quoted
