-- ===== src/Achievements/Contract.antt =====
-- The entry points of the achievement NFT: `instantiate` and `migrate` of contract.rs, and the dispatch of
-- `execute` in lib.rs.
use sysbreak_trust.Base.{
  Bool, true, false, none, some, [], ◌∷◌, String, Text, ok, ◌>>=◌, Map, save, number_key, text_key,
  pair_key,
}
use sysbreak_trust.Host.{Addr, MessageInfo, Deps, word, address}
use sysbreak_trust.Achievements.State.{
  Config, TokenData, Storage, InstantiateMsg, ExecuteMsg, Outcome,
}
use sysbreak_trust.Achievements.Helpers.{validate_addr}
use sysbreak_trust.Achievements.Mint.{
  attributes_only, execute_mint, execute_batch_mint, execute_burn,
}
use sysbreak_trust.Achievements.Transfer.{
  execute_transfer_nft, execute_send_nft, execute_approve, execute_revoke, execute_approve_all,
  execute_revoke_all,
}
use sysbreak_trust.Achievements.Admin.{
  execute_propose_minter, execute_accept_minter, execute_cancel_minter_transfer, execute_pause,
  execute_unpause, execute_propose_owner, execute_accept_owner, execute_cancel_owner_transfer,
  execute_sweep_funds,
}

-- `CONTRACT_NAME`, and `CONTRACT_VERSION` from the package's Cargo.toml.
abbrev pub contract_name : String
contract_name = "crates.io:sysbreak-achievement-nft"

abbrev pub contract_version : String
contract_version = "0.1.0"

-- The storage before any call.
abbrev pub fresh : Storage
fresh = record {
  contract_info = none;
  config = none;
  token_count = none;
  pending_minter = none;
  tokens = [];
  token_approvals = [];
  operator_approvals = [];
  achievement_index = [];
  pending_owner = none;
  owner_tokens = [];
}

unfoldable pub instantiate : Deps → InstantiateMsg → Storage → Outcome
instantiate d msg s = do
  owner ← validate_addr d msg.owner
  minter ← validate_addr d msg.minter
  let config : Config = record {
    owner = owner;
    minter = minter;
    paused = false;
    name = msg.name;
    symbol = msg.symbol;
  }
  ok (
    record s {
      contract_info = some (contract_name, contract_version);
      config = some config;
      token_count = some 0;
    },
    attributes_only (
        ("action", word "instantiate")
        ∷ ("contract", word contract_name)
        ∷ ("owner", address owner)
        ∷ ("minter", address minter)
        ∷ []),
  )

unfoldable pub execute : Deps → MessageInfo → ExecuteMsg → Storage → Outcome
execute d info (ExecuteMsg.mint m) s = execute_mint d info m s
execute d info (ExecuteMsg.batch_mint mints) s = execute_batch_mint d info mints s
execute d info (ExecuteMsg.transfer_nft recipient token_id) s =
    execute_transfer_nft d info recipient token_id s
execute d info (ExecuteMsg.send_nft contract token_id msg) s =
    execute_send_nft d info contract token_id msg s
execute d info (ExecuteMsg.approve spender token_id) s = execute_approve d info spender token_id s
execute d info (ExecuteMsg.revoke token_id) s = execute_revoke info token_id s
execute d info (ExecuteMsg.approve_all operator) s = execute_approve_all d info operator s
execute d info (ExecuteMsg.revoke_all operator) s = execute_revoke_all d info operator s
execute d info (ExecuteMsg.propose_minter new_minter) s = execute_propose_minter d info new_minter s
execute d info ExecuteMsg.accept_minter s = execute_accept_minter info s
execute d info ExecuteMsg.cancel_minter_transfer s = execute_cancel_minter_transfer info s
execute d info ExecuteMsg.pause s = execute_pause info s
execute d info ExecuteMsg.unpause s = execute_unpause info s
execute d info (ExecuteMsg.burn token_id) s = execute_burn info token_id s
execute d info (ExecuteMsg.propose_owner new_owner) s = execute_propose_owner d info new_owner s
execute d info ExecuteMsg.accept_owner s = execute_accept_owner info s
execute d info ExecuteMsg.cancel_owner_transfer s = execute_cancel_owner_transfer info s
execute d info (ExecuteMsg.sweep_funds denom amount recipient) s =
    execute_sweep_funds d info denom amount recipient s

-- The loop of `migrate`: an index entry for each token's owner.
unfoldable pub index_owners : Map Text TokenData → Map (Addr × Text) Bool → Map (Addr × Text) Bool
index_owners [] index = index
index_owners ((token_id, token) ∷ rest) index =
    index_owners rest (save (token.owner, token_id) true index)

unfoldable pub migrate : Storage → Outcome
unfolding index_owners
migrate s = ok (
  record s {
    contract_info = some (contract_name, contract_version);
    owner_tokens = index_owners s.tokens s.owner_tokens;
  },
  attributes_only (("action", word "migrate") ∷ ("version", word contract_version) ∷ []),
)
