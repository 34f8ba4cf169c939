-- ===== src/Achievements/Runs.antt =====
-- Achievements at concrete inputs: soulbound and free tokens, and transfers of the free one.
use sysbreak_trust.Base.{
  ◌≡◌, arith, ok, some, none, Bool, true, false, [], Text, bytes, length, is_ok, Result-cases, inl,
  inr, find, save, remove, number_key, text_key, pair_key, to_string,
}
use sysbreak_trust.Host.{Addr, MessageInfo, Deps, Response}
use sysbreak_trust.Achievements.State.{
  Config, Storage, InstantiateMsg, MintRequest, ExecuteMsg, Outcome,
}
use sysbreak_trust.Achievements.Helpers.{is_authorized, assert_not_soulbound}
use sysbreak_trust.Achievements.Mint.{
  mint_single, execute_mint, execute_batch_mint, execute_burn, mint_all, validate_all,
}
use sysbreak_trust.Achievements.Transfer.{may_transfer, execute_transfer_nft, execute_approve}
use sysbreak_trust.Achievements.Admin.{execute_pause, owner_only}
use sysbreak_trust.Achievements.Contract.{fresh, instantiate, execute}
use sysbreak_trust.Achievements.Trace.{Reach, call}

-- A host whose addresses are the lengths of their texts.
abbrev pub host : Deps
host = record {
  addr_validate = λ t. some (length t);
  as_str = to_string;
  secp256k1_verify = λ hash signature key. some false;
  sha256 = λ t. t;
  query_balance = λ a denom. some 1000;
}

abbrev pub setup : InstantiateMsg
setup = record {
  owner = bytes "o";
  minter = bytes "mm";
  name = bytes "Deeds";
  symbol = bytes "DEE";
}

abbrev pub config1 : Config
config1 = record {
  owner = 1;
  minter = 2;
  paused = false;
  name = bytes "Deeds";
  symbol = bytes "DEE";
}

-- The same achievement for each recipient, soulbound or not.
abbrev pub deed : Text → Bool → MintRequest
deed to soulbound = record {
  to = to;
  achievement_id = bytes "first_boss";
  category = bytes "combat";
  earned_at = 1_700_000_000;
  description = bytes "Beat it";
  rarity = bytes "rare";
  token_uri = none;
  soulbound = soulbound;
}

abbrev pub state_of : Outcome → Storage
state_of (ok p) = p.0
state_of _ = fresh

abbrev pub response_of : Outcome → Response
response_of (ok p) = p.1
response_of _ = record { messages = []; attributes = [] }

abbrev pub by : Addr → MessageInfo
by a = record { sender = a; funds = [] }

-- `execute`, with all that it runs in these tests opened by one name.
unfoldable pub run : Deps → MessageInfo → ExecuteMsg → Storage → Outcome
unfolding execute instantiate mint_single execute_mint execute_batch_mint execute_burn mint_all
    validate_all may_transfer execute_transfer_nft execute_approve execute_pause owner_only
    is_authorized assert_not_soulbound find save remove to_string
run = execute

-- A call that succeeds goes on with a history.
pub play :
    {lets : ExecuteMsg → Bool} (info : MessageInfo) (msg : ExecuteMsg) {s : Storage}
    → Reach lets s
    → lets msg ≡ true
    → is_ok (execute host info msg s) ≡ true
    → Reach lets (state_of (execute host info msg s))
play info msg {s} h let_through good = elim (Result-cases (execute host info msg s)) [
  | inl ((s', r), e) ↦ rw e (call host info msg h let_through e)
  | inr e ↦ absurd (ground arith)
]

abbrev pub mint_to : Text → Bool → ExecuteMsg
mint_to to soulbound = ExecuteMsg.mint (deed to soulbound)

abbrev pub s0 : Storage
s0 = state_of (instantiate host setup fresh)

-- Address 3 has the achievement for good, address 4 can give it away.
abbrev pub s1 : Storage
s1 = state_of (execute host (by 2) (mint_to (bytes "abc") true) s0)

abbrev pub s2 : Storage
s2 = state_of (execute host (by 2) (mint_to (bytes "abcd") false) s1)

-- Address 4 gives the second token to address 3, and address 3 gives it to address 5.
abbrev pub giving : ExecuteMsg
giving = ExecuteMsg.transfer_nft (bytes "abc") (bytes "2")

abbrev pub s3 : Storage
s3 = state_of (execute host (by 4) giving s2)

abbrev pub giving_on : ExecuteMsg
giving_on = ExecuteMsg.transfer_nft (bytes "abcde") (bytes "2")

abbrev pub s4 : Storage
s4 = state_of (execute host (by 3) giving_on s3)
