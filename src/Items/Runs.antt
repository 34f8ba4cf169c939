-- ===== src/Items/Runs.antt =====
-- Items at concrete inputs: two mints, a transfer, and a burn.
use sysbreak_trust.Base.{
  ◌≡◌, arith, ok, some, none, Bool, true, false, [], ◌∷◌, Text, bytes, length, is_ok, Result-cases,
  inl, inr, find, save, remove, number_key, text_key, pair_key, to_string,
}
use sysbreak_trust.Host.{Addr, MessageInfo, Deps, Response}
use sysbreak_trust.Items.State.{Config, Storage, InstantiateMsg, MintRequest, ExecuteMsg, Outcome}
use sysbreak_trust.Items.Helpers.{is_authorized, validate_royalty_bps}
use sysbreak_trust.Items.Mint.{
  mint_single, execute_mint, execute_batch_mint, execute_burn, mint_all, validate_all,
}
use sysbreak_trust.Items.Transfer.{may_transfer, execute_transfer_nft, execute_approve}
use sysbreak_trust.Items.Admin.{execute_pause, owner_only}
use sysbreak_trust.Items.Contract.{fresh, instantiate, execute}
use sysbreak_trust.Items.Trace.{Reach, call}

-- A host whose addresses are the lengths of their texts.
abbrev pub host : Deps
host = record {
  addr_validate = λ t. some (length t);
  as_str = to_string;
  secp256k1_verify = λ hash signature key. some false;
  sha256 = λ t. t;
  query_balance = λ a denom. some 1000;
}

abbrev pub setup : InstantiateMsg
setup = record {
  owner = bytes "o";
  minter = bytes "mm";
  royalty_bps = 250;
  royalty_recipient = bytes "o";
  name = bytes "Items";
  symbol = bytes "ITM";
}

abbrev pub config1 : Config
config1 = record {
  owner = 1;
  minter = 2;
  paused = false;
  royalty_bps = 250;
  royalty_recipient = 1;
  name = bytes "Items";
  symbol = bytes "ITM";
}

abbrev pub sword : Text → MintRequest
sword to = record {
  to = to;
  item_type = bytes "sword";
  rarity = bytes "rare";
  level = 7;
  stats = (bytes "power", 12) ∷ [];
  origin = bytes "forge";
  token_uri = none;
}

abbrev pub state_of : Outcome → Storage
state_of (ok p) = p.0
state_of _ = fresh

abbrev pub response_of : Outcome → Response
response_of (ok p) = p.1
response_of _ = record { messages = []; attributes = [] }

abbrev pub by : Addr → MessageInfo
by a = record { sender = a; funds = [] }

-- `execute`, with all that it runs in these tests opened by one name.
unfoldable pub run : Deps → MessageInfo → ExecuteMsg → Storage → Outcome
unfolding execute instantiate mint_single execute_mint execute_batch_mint execute_burn mint_all
    validate_all may_transfer execute_transfer_nft execute_approve execute_pause owner_only
    is_authorized validate_royalty_bps find save remove to_string
run = execute

-- A call that succeeds goes on with a history.
pub play :
    {lets : ExecuteMsg → Bool} (info : MessageInfo) (msg : ExecuteMsg) {s : Storage}
    → Reach lets s
    → lets msg ≡ true
    → is_ok (execute host info msg s) ≡ true
    → Reach lets (state_of (execute host info msg s))
play info msg {s} h let_through good = elim (Result-cases (execute host info msg s)) [
  | inl ((s', r), e) ↦ rw e (call host info msg h let_through e)
  | inr e ↦ absurd (ground arith)
]

abbrev pub mint_to : Text → ExecuteMsg
mint_to to = ExecuteMsg.mint (sword to)

abbrev pub s0 : Storage
s0 = state_of (instantiate host setup fresh)

abbrev pub s1 : Storage
s1 = state_of (execute host (by 2) (mint_to (bytes "abc")) s0)

abbrev pub s2 : Storage
s2 = state_of (execute host (by 2) (mint_to (bytes "abcd")) s1)

-- The owner of the first token sends it to address 5.
abbrev pub sending : ExecuteMsg
sending = ExecuteMsg.transfer_nft (bytes "abcde") (bytes "1")

abbrev pub s3 : Storage
s3 = state_of (execute host (by 3) sending s2)

abbrev pub burned : Storage
burned = state_of (execute host (by 2) (ExecuteMsg.burn (bytes "1")) s2)

abbrev pub minted_again : Storage
minted_again = state_of (execute host (by 2) (mint_to (bytes "abcdef")) burned)
