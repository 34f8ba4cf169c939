-- ===== src/Dao/Steps.antt =====
-- What a call has done that created, counted or closed a proposal of the corporation DAO.
use sysbreak_trust.Base.{
  ℕ, ◌+◌, ◌≤◌, ◌<◌, ◌≡◌, refl, ap, arith, ok, some, none, Bool, true, false, OnOk, OnOk-then,
  Result-cases, Option-cases, inl, inr, fits, u64_max, seconds, from_seconds, find, save,
  number_key, pair_key,
}
use sysbreak_trust.Host.{Addr, Deps, Env, MessageInfo, Response}
use sysbreak_trust.Dao.State.{
  Storage, Proposal, ProposalStatus, ProposalTypeMsg, ProposalType, Config, Corporation, MemberInfo,
  failed, executed,
}
use sysbreak_trust.Dao.Helpers.{
  load_corporation, assert_active, assert_member, load_config, validate_funds, is_open,
  check_proposal_passed,
}
use sysbreak_trust.Dao.Proposals.{
  to_proposal_type, new_proposal, open_proposal, execute_create_proposal, execute_vote, count_vote,
}
use sysbreak_trust.Dao.Execution.{execute_execute_proposal, carry_out, save_status}
use sysbreak_trust.Dao.Votes.{SameVotes, apply_proposal-SameVotes}

-- A proposal was created under the next number, open and without votes.
pub record Created (env : Env) (s s' : Storage) : Type 0 where
  pub count : ℕ
  pub proposal : Proposal
  pub old_count : s.proposal_count ≡ some count
  pub new_count : s'.proposal_count ≡ some (count + 1)
  pub proposals : s'.proposals ≡ save (count + 1) proposal s.proposals
  pub votes : s'.votes ≡ s.votes
  pub is_active : is_open proposal.status ≡ true
  pub at_now : proposal.created_at ≡ env.time
  pub no_yes : proposal.yes_votes ≡ 0
  pub no_no : proposal.no_votes ≡ 0

open_proposal-Created :
    (env : Env) (proposer : Addr) (corp_id : ℕ) (corp : Corporation) (config : Config)
    (t : ProposalType) (s : Storage)
    → OnOk (λ p. Created env s p.0) (open_proposal env proposer corp_id corp config t s)
unfolding open_proposal
open_proposal-Created env proposer corp_id corp config t s = elim (Option-cases s.proposal_count) [
  | inl e ↦ ground arith
  | inr (n, e) ↦ elim (Option-cases (fits u64_max (n + 1))) [
    | inl f ↦ ground arith
    | inr (id, f) ↦ elim (Option-cases (fits u64_max (seconds env.time + corp.voting_period))) [
      | inl g ↦ ground arith
      | inr (end, g) ↦ elim (Option-cases (from_seconds end)) [
        | inl k ↦ ground arith
        | inr (ends, k) ↦
            let is_id : id ≡ n + 1 = ground arith in
            let p = new_proposal env proposer corp_id corp config t id ends in
            simp (e, f, g, k)
              (record {
                count = n;
                proposal = p;
                old_count = e;
                new_count = ap some is_id;
                proposals = ap (λ i. save i p s.proposals) is_id;
                votes = refl;
                is_active = refl;
                at_now = refl;
                no_yes = refl;
                no_no = refl;
              })
      ]
    ]
  ]
]

pub execute_create_proposal-Created :
    (d : Deps) (env : Env) (info : MessageInfo) (corp_id : ℕ) (t : ProposalTypeMsg) (s : Storage)
    → OnOk (λ p. Created env s p.0) (execute_create_proposal d env info corp_id t s)
unfolding execute_create_proposal
execute_create_proposal-Created d env info corp_id t s =
    let P = λ (p : Storage × Response). Created env s p.0 in
    OnOk-then P (load_corporation s corp_id) _ λ corp. OnOk-then P (assert_active corp) _ λ u.
      OnOk-then P (assert_member s corp_id info.sender) _ λ caller.
        OnOk-then P (load_config s) _ λ config.
          OnOk-then P (validate_funds info config.denom config.proposal_deposit _) _ λ paid.
            OnOk-then P (to_proposal_type d t) _
              λ kind. open_proposal-Created env info.sender corp_id corp config kind s

-- A vote was counted, of a member who joined before the proposal and had not voted on it.
pub record Voted (env : Env) (info : MessageInfo) (id : ℕ) (choice : Bool) (s s' : Storage)
    : Type 0 where
  pub proposal : Proposal
  pub counted : Proposal
  pub voter : MemberInfo
  pub stored : find id s.proposals ≡ some proposal
  pub is_active : is_open proposal.status ≡ true
  pub in_time : env.time < proposal.voting_ends_at
  pub is_member : find (proposal.corp_id, info.sender) s.members ≡ some voter
  pub joined_before : voter.joined_at < proposal.created_at
  pub first_vote : find (id, info.sender) s.votes ≡ none
  pub count : count_vote choice proposal ≡ ok counted
  pub proposals : s'.proposals ≡ save id counted s.proposals
  pub votes : s'.votes ≡ save (id, info.sender) choice s.votes
  pub same_count : s'.proposal_count ≡ s.proposal_count

pub execute_vote-Voted :
    (env : Env) (info : MessageInfo) (id : ℕ) (choice : Bool) (s s' : Storage) (r : Response)
    → execute_vote env info id choice s ≡ ok (s', r)
    → Voted env info id choice s s'
unfolding execute_vote
execute_vote-Voted env info id choice s s' r h = elim (Option-cases (find id s.proposals)) [
  | inl e ↦ absurd (ground arith)
  | inr (p, e) ↦ elim (Option-cases (find (p.corp_id, info.sender) s.members)) [
    | inl f ↦ absurd (ground arith)
    | inr (m, f) ↦ elim (Result-cases (count_vote choice p)) [
      | inl (c, g) ↦ record {
        proposal = p;
        counted = c;
        voter = m;
        stored = e;
        is_active = ground arith;
        in_time = ground arith;
        is_member = f;
        joined_before = ground arith;
        first_vote = ground arith;
        count = g;
        proposals = ground arith;
        votes = ground arith;
        same_count = ground arith;
      }
      | inr g ↦ absurd (ground arith)
    ]
  ]
]

-- A proposal was closed: it failed, or it passed and was carried out.
pub record Closed (env : Env) (id : ℕ) (s s' : Storage) (r : Response) : Type 0 where
  pub proposal : Proposal
  pub corp : Corporation
  pub config : Config
  pub verdict : Bool
  pub stored : find id s.proposals ≡ some proposal
  pub is_active : is_open proposal.status ≡ true
  pub over : proposal.voting_ends_at ≤ env.time
  pub has_corp : find proposal.corp_id s.corporations ≡ some corp
  pub has_config : s.config ≡ some config
  pub judged :
      check_proposal_passed proposal proposal.member_count_snapshot corp.quorum_bps ≡ ok verdict
  pub done : carry_out config id proposal corp verdict s ≡ ok (s', r)

pub execute_execute_proposal-Closed :
    (env : Env) (info : MessageInfo) (id : ℕ) (s s' : Storage) (r : Response)
    → execute_execute_proposal env info id s ≡ ok (s', r)
    → Closed env id s s' r
unfolding execute_execute_proposal
execute_execute_proposal-Closed env info id s s' r h = elim (Option-cases (find id s.proposals)) [
  | inl e ↦ absurd (ground arith)
  | inr (p, e) ↦ elim (Option-cases (find p.corp_id s.corporations)) [
    | inl f ↦ absurd (ground arith)
    | inr (c, f) ↦ elim (Option-cases s.config) [
      | inl g ↦ absurd (ground arith)
      | inr (config, g) ↦
          elim (Result-cases (check_proposal_passed p p.member_count_snapshot c.quorum_bps)) [
            | inl (verdict, k) ↦ record {
              proposal = p;
              corp = c;
              config = config;
              verdict = verdict;
              stored = e;
              is_active = ground arith;
              over = ground arith;
              has_corp = f;
              has_config = g;
              judged = k;
              done = ground arith;
            }
            | inr k ↦ absurd (ground arith)
          ]
    ]
  ]
]

-- The status under which a proposal is closed.
abbrev pub closing : Bool → ProposalStatus
closing true = executed
closing false = failed

-- Closing a proposal sets its status, and changes no vote and no other proposal.
pub carry_out-closes :
    (config : Config) (id : ℕ) (p : Proposal) (corp : Corporation) (verdict : Bool) (s : Storage)
    → OnOk
        (λ q. SameVotes (save_status id (closing verdict) p s) q.0)
        (carry_out config id p corp verdict s)
unfolding carry_out
carry_out-closes config id p corp true s =
    ground
      (arith, apply_proposal-SameVotes config p corp p.proposal_type (save_status id executed p s))
carry_out-closes config id p corp false s = ground arith
