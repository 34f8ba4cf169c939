-- ===== src/Dao/Contract.antt =====
-- The entry points of the corporation DAO (contract.rs): `instantiate`, the dispatch of `execute`, and
-- `migrate`.
use sysbreak_trust.Base.{
  ℕ, some, none, [], ◌∷◌, String, is_zero, if◌then◌else◌, ok, ◌>>=◌, ◌>>◌, Map, find, save,
  number_key, pair_key,
}
use sysbreak_trust.Host.{Deps, Env, MessageInfo, word}
use sysbreak_trust.Dao.State.{Config, Proposal, Storage, InstantiateMsg, ExecuteMsg, Outcome}
use sysbreak_trust.Dao.Helpers.{validate_addr, validate_quorum_bps, validate_voting_period}
use sysbreak_trust.Dao.Members.{
  attributes_only, execute_create_corporation, execute_join_corporation, execute_invite_member,
  execute_accept_invite, execute_leave_corporation, execute_donate_treasury,
  execute_update_description,
}
use sysbreak_trust.Dao.Proposals.{execute_create_proposal, execute_vote}
use sysbreak_trust.Dao.Execution.{execute_execute_proposal}
use sysbreak_trust.Dao.Payouts.{
  execute_claim_dissolution, execute_withdraw_fees, execute_propose_owner, execute_accept_owner,
  execute_cancel_owner_transfer,
}

-- `CONTRACT_NAME`, and `CONTRACT_VERSION` from the package's Cargo.toml.
abbrev pub contract_name : String
contract_name = "crates.io:sysbreak-corporation-dao"

abbrev pub contract_version : String
contract_version = "0.1.0"

-- The storage before any call.
abbrev pub fresh : Storage
fresh = record {
  contract_info = none;
  config = none;
  corp_count = none;
  proposal_count = none;
  corporations = [];
  members = [];
  invites = [];
  proposals = [];
  votes = [];
  dissolution_claims = [];
  pending_owner = none;
  corp_proposals = [];
}

unfoldable pub instantiate : Deps → InstantiateMsg → Storage → Outcome
unfolding validate_quorum_bps validate_voting_period
instantiate d msg s = do
  validate_quorum_bps msg.default_quorum_bps
  validate_voting_period msg.default_voting_period
  owner ← validate_addr d msg.owner
  let config : Config = record {
    owner = owner;
    denom = msg.denom;
    creation_fee = msg.creation_fee;
    proposal_deposit = msg.proposal_deposit;
    default_max_members = msg.default_max_members;
    default_quorum_bps = msg.default_quorum_bps;
    default_voting_period = msg.default_voting_period;
  }
  ok (
    record s {
      contract_info = some (contract_name, contract_version);
      config = some config;
      corp_count = some 0;
      proposal_count = some 0;
    },
    attributes_only (("action", word "instantiate") ∷ []),
  )

unfoldable pub execute : Deps → Env → MessageInfo → ExecuteMsg → Storage → Outcome
execute d env info (ExecuteMsg.create_corporation name description join_policy) s =
    execute_create_corporation env info name description join_policy s
execute d env info (ExecuteMsg.join_corporation corp_id) s =
    execute_join_corporation env info corp_id s
execute d env info (ExecuteMsg.invite_member corp_id invitee) s =
    execute_invite_member d info corp_id invitee s
execute d env info (ExecuteMsg.accept_invite corp_id) s = execute_accept_invite env info corp_id s
execute d env info (ExecuteMsg.leave_corporation corp_id) s =
    execute_leave_corporation info corp_id s
execute d env info (ExecuteMsg.donate_treasury corp_id) s = execute_donate_treasury info corp_id s
execute d env info (ExecuteMsg.create_proposal corp_id proposal_type) s =
    execute_create_proposal d env info corp_id proposal_type s
execute d env info (ExecuteMsg.vote proposal_id choice) s =
    execute_vote env info proposal_id choice s
execute d env info (ExecuteMsg.execute_proposal proposal_id) s =
    execute_execute_proposal env info proposal_id s
execute d env info (ExecuteMsg.claim_dissolution corp_id) s =
    execute_claim_dissolution info corp_id s
execute d env info (ExecuteMsg.update_description corp_id description) s =
    execute_update_description info corp_id description s
execute d env info (ExecuteMsg.withdraw_fees amount) s = execute_withdraw_fees d env info amount s
execute d env info (ExecuteMsg.propose_owner new_owner) s = execute_propose_owner d info new_owner s
execute d env info ExecuteMsg.accept_owner s = execute_accept_owner info s
execute d env info ExecuteMsg.cancel_owner_transfer s = execute_cancel_owner_transfer info s

-- One proposal of the loop of `migrate`: the snapshot is filled in where it is zero and the
-- corporation is there, and the index gets its entry.
unfoldable pub migrate_proposal : ℕ → Proposal → Storage → Storage
migrate_proposal id p s =
    let s' : Storage = elim (find p.corp_id s.corporations) [
      | none ↦ s
      | some corp ↦ record s {
        proposals = save id (record p { member_count_snapshot = corp.member_count }) s.proposals;
      }
    ] in
    let filled = if is_zero p.member_count_snapshot then s' else s in
    record filled { corp_proposals = save (p.corp_id, id) tt filled.corp_proposals }

unfoldable pub migrate_proposals : Map ℕ Proposal → Storage → Storage
unfolding migrate_proposal
migrate_proposals [] s = s
migrate_proposals ((id, p) ∷ rest) s = migrate_proposals rest (migrate_proposal id p s)

unfoldable pub migrate : Storage → Outcome
unfolding migrate_proposals
migrate s =
    let s' = migrate_proposals s.proposals s in
    ok (
      record s' { contract_info = some (contract_name, contract_version) },
      attributes_only (("action", word "migrate") ∷ []),
    )
