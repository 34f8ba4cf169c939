-- ===== src/Dao/Votes.antt =====
-- The votes of the corporation DAO: what each handler does to the votes and to the proposals.
use sysbreak_trust.Base.{ℕ, ◌≡◌, arith, Bool, true, false, OnOk, number_key, pair_key}
use sysbreak_trust.Host.{Deps, Env, MessageInfo}
use sysbreak_trust.Dao.State.{Storage, Proposal, ExecuteMsg, ProposalType, Config, Corporation}
use sysbreak_trust.Dao.Members.{
  execute_create_corporation, execute_join_corporation, execute_invite_member,
  execute_accept_invite, execute_leave_corporation, execute_donate_treasury,
  execute_update_description,
}
use sysbreak_trust.Dao.Execution.{
  apply_proposal, apply_spend, apply_settings, apply_kick, apply_promote, apply_dissolution,
  distribute, Effect,
}
use sysbreak_trust.Dao.Payouts.{
  execute_claim_dissolution, execute_withdraw_fees, execute_propose_owner, execute_accept_owner,
  execute_cancel_owner_transfer,
}
use sysbreak_trust.Dao.Contract.{execute}

-- Nothing of the votes has changed.
pub record SameVotes (s s' : Storage) : Type 0 where
  pub proposal_count : s'.proposal_count ≡ s.proposal_count
  pub proposals : s'.proposals ≡ s.proposals
  pub votes : s'.votes ≡ s.votes

-- The messages that neither create, count nor close a proposal.
abbrev pub leaves_votes : ExecuteMsg → Bool
leaves_votes (ExecuteMsg.create_proposal c t) = false
leaves_votes (ExecuteMsg.vote p c) = false
leaves_votes (ExecuteMsg.execute_proposal p) = false
leaves_votes _ = true

distribute-SameVotes :
    (id : ℕ) (corp : Corporation) (s : Storage) → OnOk (SameVotes s) (distribute id corp s)
unfolding distribute
distribute-SameVotes id corp s = ground arith

-- Carrying out a proposal leaves all proposals and votes alone.
pub apply_proposal-SameVotes :
    (config : Config) (p : Proposal) (corp : Corporation) (t : ProposalType) (s : Storage)
    → OnOk (λ (e : Effect). SameVotes s e.state) (apply_proposal config p corp t s)
unfolding apply_proposal apply_spend apply_settings apply_kick apply_promote apply_dissolution
apply_proposal-SameVotes config p corp ProposalType.dissolution s =
    ground (arith, distribute-SameVotes p.corp_id corp s)
apply_proposal-SameVotes config p corp t s = ground arith

pub execute-SameVotes :
    (d : Deps) (env : Env) (info : MessageInfo) (msg : ExecuteMsg) (s : Storage)
    → leaves_votes msg ≡ true
    → OnOk (λ p. SameVotes s p.0) (execute d env info msg s)
unfolding execute execute_create_corporation execute_join_corporation execute_invite_member
    execute_accept_invite execute_leave_corporation execute_donate_treasury
    execute_update_description execute_claim_dissolution execute_withdraw_fees execute_propose_owner
    execute_accept_owner execute_cancel_owner_transfer
execute-SameVotes d env info (ExecuteMsg.create_proposal c t) s h = cc
execute-SameVotes d env info (ExecuteMsg.vote p c) s h = cc
execute-SameVotes d env info (ExecuteMsg.execute_proposal p) s h = cc
execute-SameVotes d env info _ s h = ground arith
