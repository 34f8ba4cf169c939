-- ===== src/Dao/Voting.antt =====
-- Who may vote on a proposal of the corporation DAO, and when.
use sysbreak_trust.Base.{
  ℕ, ◌<◌, ◌≡◌, some, none, true, false, Bool, find, number_key, pair_key, [], u32_max,
}
use sysbreak_trust.Host.{Env, MessageInfo}
use sysbreak_trust.Dao.State.{Storage, Proposal, MemberInfo}
use sysbreak_trust.Dao.Helpers.{is_open}

-- The counter that a vote raises.
abbrev pub counter : Bool → Proposal → ℕ
counter true p = p.yes_votes
counter false p = p.no_votes

-- The caller sends no coins, the proposal is active and in time, the caller was a member before it
-- was created and has not voted on it, and the counter has room.
pub record CanVote (env : Env) (info : MessageInfo) (id : ℕ) (choice : Bool) (s : Storage)
    : Type 0 where
  pub proposal : Proposal
  pub voter : MemberInfo
  pub no_funds : info.funds ≡ []
  pub stored : find id s.proposals ≡ some proposal
  pub is_active : is_open proposal.status ≡ true
  pub in_time : env.time < proposal.voting_ends_at
  pub is_member : find (proposal.corp_id, info.sender) s.members ≡ some voter
  pub joined_before : voter.joined_at < proposal.created_at
  pub first_vote : find (id, info.sender) s.votes ≡ none
  pub room : counter choice proposal < u32_max
