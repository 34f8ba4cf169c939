-- ===== src/Achievements/Helpers.antt =====
-- The helpers of the achievement NFT (sysbreak-achievement-nft/src/helpers.rs).
use sysbreak_trust.Base.{
  Bool, false, not, ◌||◌, none, some, [], ◌∷◌, Text, eqb, unwrap_or, Result, ok, err, ◌>>=◌,
  fail_if, or_err, Option, find, number_key, text_key, pair_key,
}
use sysbreak_trust.Host.{Addr, MessageInfo, Deps, not_found, generic_err}
use sysbreak_trust.Achievements.State.{
  Config, Storage, ContractError, std, unauthorized, is_paused, is_soulbound, token_not_found,
  unexpected_funds,
}

-- `CONFIG.load(deps.storage)?`
abbrev pub load_config : Storage → Result ContractError Config
load_config s = or_err (std not_found) s.config

-- `deps.api.addr_validate(&text)?`
abbrev pub validate_addr : Deps → Text → Result ContractError Addr
validate_addr d t = or_err (std generic_err) (d.addr_validate t)

unfoldable pub assert_owner : Storage → Addr → Result ContractError (Unit {0})
assert_owner s sender = do
  config ← load_config s
  fail_if (not (eqb sender config.owner)) (unauthorized "owner")

unfoldable pub assert_minter : Storage → Addr → Result ContractError (Unit {0})
assert_minter s sender = do
  config ← load_config s
  fail_if (not (eqb sender config.minter)) (unauthorized "minter")

unfoldable pub assert_not_paused : Storage → Result ContractError (Unit {0})
assert_not_paused s = do config ← load_config s; fail_if config.paused is_paused

unfoldable pub assert_not_soulbound : Storage → Text → Result ContractError (Unit {0})
assert_not_soulbound s token_id = do
  token ← or_err (token_not_found token_id) (find token_id s.tokens)
  fail_if token.soulbound is_soulbound

-- Whether an approval is there and names the spender.
abbrev pub approves : Option Addr → Addr → Bool
approves none spender = false
approves (some approved) spender = eqb approved spender

-- The owner, the spender approved for the token, and the operators of the owner are authorized. A
-- token that is not there is an error.
unfoldable pub is_authorized : Storage → Text → Addr → Result ContractError Bool
is_authorized s token_id spender = do
  token ← or_err (std not_found) (find token_id s.tokens)
  ok (
      eqb spender token.owner
      || (approves (find token_id s.token_approvals) spender
          || unwrap_or false (find (token.owner, spender) s.operator_approvals)))

unfoldable pub reject_funds : MessageInfo → Result ContractError (Unit {0})
reject_funds info = elim info.funds [ [] ↦ ok tt | c ∷ cs ↦ err unexpected_funds ]
