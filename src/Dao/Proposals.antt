-- ===== src/Dao/Proposals.antt =====
-- The handlers of the corporation DAO that create proposals and take votes (contract.rs).
use sysbreak_trust.Base.{
  ℕ, ◌+◌, Bool, true, false, some, [], ◌∷◌, leb, Result, ok, ◌>>=◌, ◌>>◌, fail_if, or_err, or_panic,
  fits, u32_max, u64_max, seconds, from_seconds, find, has, save, number_key, pair_key,
}
use sysbreak_trust.Host.{Addr, Deps, Env, MessageInfo, word, number, address, flag, not_found}
use sysbreak_trust.Dao.State.{
  Config, Corporation, Proposal, ProposalType, ProposalTypeMsg, ProposalStatus, Storage,
  ContractError, std, proposal_not_found, already_voted, joined_after_proposal,
  insufficient_proposal_deposit, Outcome,
}
use sysbreak_trust.Dao.Helpers.{
  load_config, validate_addr, load_corporation, assert_active, assert_member, validate_funds,
  reject_funds, assert_voting_active,
}
use sysbreak_trust.Dao.Members.{attributes_only}

-- The addresses of a proposal are validated.
unfoldable pub to_proposal_type : Deps → ProposalTypeMsg → Result ContractError ProposalType
to_proposal_type d (ProposalTypeMsg.treasury_spend recipient amount) = do
  addr ← validate_addr d recipient
  ok (ProposalType.treasury_spend addr amount)
to_proposal_type d (ProposalTypeMsg.change_settings n t j q v) =
    ok (ProposalType.change_settings n t j q v)
to_proposal_type d (ProposalTypeMsg.kick_member target) = do
  addr ← validate_addr d target
  ok (ProposalType.kick_member addr)
to_proposal_type d (ProposalTypeMsg.promote_member target new_role) = do
  addr ← validate_addr d target
  ok (ProposalType.promote_member addr new_role)
to_proposal_type d ProposalTypeMsg.dissolution = ok ProposalType.dissolution
to_proposal_type d (ProposalTypeMsg.custom title description) =
    ok (ProposalType.custom title description)

abbrev pub new_proposal : Env → Addr → ℕ → Corporation → Config → ProposalType → ℕ → ℕ → Proposal
new_proposal env proposer corp_id corp config proposal_type proposal_id voting_ends_at = record {
  id = proposal_id;
  corp_id = corp_id;
  proposer = proposer;
  proposal_type = proposal_type;
  status = ProposalStatus.active;
  yes_votes = 0;
  no_votes = 0;
  created_at = env.time;
  voting_ends_at = voting_ends_at;
  deposit = config.proposal_deposit;
  member_count_snapshot = corp.member_count;
}

-- What is stored once all guards are passed.
unfoldable pub open_proposal :
    Env → Addr → ℕ → Corporation → Config → ProposalType → Storage → Outcome
open_proposal env proposer corp_id corp config proposal_type s = do
  count ← or_err (std not_found) s.proposal_count
  proposal_id ← or_panic (fits u64_max (count + 1))
  end_seconds ← or_panic (fits u64_max (seconds env.time + corp.voting_period))
  voting_ends_at ← or_panic (from_seconds end_seconds)
  let proposal =
      new_proposal env proposer corp_id corp config proposal_type proposal_id voting_ends_at
  ok (
    record s {
      proposal_count = some proposal_id;
      proposals = save proposal_id proposal s.proposals;
      corp_proposals = save (corp_id, proposal_id) tt s.corp_proposals;
    },
    attributes_only (
        ("action", word "create_proposal")
        ∷ ("proposal_id", number proposal_id)
        ∷ ("corp_id", number corp_id)
        ∷ ("proposer", address proposer)
        ∷ []),
  )

unfoldable pub execute_create_proposal :
    Deps → Env → MessageInfo → ℕ → ProposalTypeMsg → Storage → Outcome
unfolding load_corporation assert_active assert_member validate_funds to_proposal_type
execute_create_proposal d env info corp_id proposal_type_msg s = do
  corp ← load_corporation s corp_id
  assert_active corp
  caller ← assert_member s corp_id info.sender
  config ← load_config s
  paid ← validate_funds info config.denom config.proposal_deposit insufficient_proposal_deposit
  proposal_type ← to_proposal_type d proposal_type_msg
  open_proposal env info.sender corp_id corp config proposal_type s

-- `PROPOSALS.load(..).map_err(|_| ProposalNotFound)`
unfoldable pub load_proposal : Storage → ℕ → Result ContractError Proposal
load_proposal s id = or_err (proposal_not_found id) (find id s.proposals)

-- The proposal with one vote more, in 32 bits.
unfoldable pub count_vote : Bool → Proposal → Result ContractError Proposal
count_vote true p = do
  n ← or_panic (fits u32_max (p.yes_votes + 1))
  ok (record p { yes_votes = n })
count_vote false p = do n ← or_panic (fits u32_max (p.no_votes + 1)); ok (record p { no_votes = n })

unfoldable pub execute_vote : Env → MessageInfo → ℕ → Bool → Storage → Outcome
unfolding reject_funds load_proposal assert_voting_active assert_member count_vote
execute_vote env info proposal_id choice s = do
  reject_funds info
  proposal ← load_proposal s proposal_id
  assert_voting_active proposal env
  voter ← assert_member s proposal.corp_id info.sender
  fail_if (leb proposal.created_at voter.joined_at) joined_after_proposal
  fail_if (has (proposal_id, info.sender) s.votes) (already_voted proposal_id)
  counted ← count_vote choice proposal
  ok (
    record s {
      votes = save (proposal_id, info.sender) choice s.votes;
      proposals = save proposal_id counted s.proposals;
    },
    attributes_only (
        ("action", word "vote")
        ∷ ("proposal_id", number proposal_id)
        ∷ ("voter", address info.sender)
        ∷ ("vote", flag choice)
        ∷ []),
  )
