-- ===== src/Dao/Query.antt =====
-- The queries of the corporation DAO (contract.rs). The answer is the value that the source writes
-- as JSON; a response of one field is the value of that field.
use sysbreak_trust.Base.{
  take, beyond, ℕ, ◌+◌, ◌*◌, Bool, Option, some, none, List, [], ◌∷◌, Text, Result, ok, err, panic,
  ◌>>=◌, or_err, or_panic, unwrap_or, is_some, find, prefix, Map, number_key, pair_key, fits,
  u32_max, leb, min, map,
}
use sysbreak_trust.Host.{Addr, Deps, Env, StdError, not_found, generic_err}
use sysbreak_trust.Dao.State.{
  Config, Storage, Corporation, MemberInfo, MemberRole, Proposal, PendingOwnerTransfer,
  ContractError,
}
use sysbreak_trust.Dao.Helpers.{check_proposal_passed}

pub record MemberEntry : Type 0 where
  pub address : Addr
  pub role : MemberRole
  pub joined_at : ℕ

pub record MemberInfoResponse : Type 0 where
  pub is_member : Bool
  pub info : Option MemberInfo

pub record VoteStatusResponse : Type 0 where
  pub yes_votes : ℕ
  pub no_votes : ℕ
  pub total_members : ℕ
  pub quorum_bps : ℕ
  pub quorum_reached : Bool
  pub passed : Bool
  pub voting_ended : Bool

abbrev load : {A : Type 0} → Option A → Result StdError A
load = or_err not_found

-- `limit.unwrap_or(30).min(100)`
abbrev pub page_size : Option ℕ → ℕ
page_size limit = min (unwrap_or 30 limit) 100

-- One page of a map: the entries beyond the bound, as many as the limit allows.
unfoldable pub page : {V : Type 0} → Option ℕ → Option ℕ → Map ℕ V → Map ℕ V
page start_after limit m = take (page_size limit) (beyond start_after m)

unfoldable pub query_config : Storage → Result StdError Config
query_config s = load s.config

unfoldable pub query_corporation : ℕ → Storage → Result StdError Corporation
query_corporation corp_id s = load (find corp_id s.corporations)

unfoldable pub query_list_corporations : Option ℕ → Option ℕ → Storage → List Corporation
unfolding page
query_list_corporations start_after limit s = map (λ e. e.1) (page start_after limit s.corporations)

-- The bound of `query_members`, validated if there is one.
abbrev pub validated : Deps → Option Text → Result StdError (Option Addr)
validated d none = ok none
validated d (some t) = do a ← or_err generic_err (d.addr_validate t); ok (some a)

abbrev pub entry : Addr × MemberInfo → MemberEntry
entry (a, info) = record { address = a; role = info.role; joined_at = info.joined_at }

unfoldable pub query_members :
    Deps → ℕ → Option Text → Option ℕ → Storage → Result StdError (List MemberEntry)
unfolding page
query_members d corp_id start_after limit s = do
  start ← validated d start_after
  ok (map entry (page start limit (prefix corp_id s.members)))

unfoldable pub query_member_info : Deps → ℕ → Text → Storage → Result StdError MemberInfoResponse
query_member_info d corp_id address s = do
  addr ← or_err generic_err (d.addr_validate address)
  let info = find (corp_id, addr) s.members
  ok (record { is_member = is_some info; info = info })

unfoldable pub query_proposal : ℕ → Storage → Result StdError Proposal
query_proposal proposal_id s = load (find proposal_id s.proposals)

-- The proposals of some index entries; an entry without its proposal is an error.
unfoldable pub load_all : Map ℕ (Unit {0}) → Map ℕ Proposal → Result StdError (List Proposal)
load_all [] proposals = ok []
load_all ((id, u) ∷ ids) proposals = do
  p ← load (find id proposals)
  ps ← load_all ids proposals
  ok (p ∷ ps)

unfoldable pub query_proposals : ℕ → Option ℕ → Option ℕ → Storage → Result StdError (List Proposal)
unfolding page load_all
query_proposals corp_id start_after limit s =
    load_all (page start_after limit (prefix corp_id s.corp_proposals)) s.proposals

-- `check_proposal_passed` has no error of its own.
abbrev pub verdict_of : Result ContractError Bool → Result StdError Bool
verdict_of (ok b) = ok b
verdict_of (err e) = panic
verdict_of panic = panic

unfoldable pub query_vote_status : Env → ℕ → Storage → Result StdError VoteStatusResponse
query_vote_status env proposal_id s = do
  proposal ← load (find proposal_id s.proposals)
  corp ← load (find proposal.corp_id s.corporations)
  let snapshot = proposal.member_count_snapshot
  total_votes ← or_panic (fits u32_max (proposal.yes_votes + proposal.no_votes))
  passed ← verdict_of (check_proposal_passed proposal snapshot corp.quorum_bps)
  ok (record {
    yes_votes = proposal.yes_votes;
    no_votes = proposal.no_votes;
    total_members = snapshot;
    quorum_bps = corp.quorum_bps;
    quorum_reached = leb (snapshot * corp.quorum_bps) (total_votes * 10_000);
    passed = passed;
    voting_ended = leb proposal.voting_ends_at env.time;
  })

unfoldable pub query_pending_owner : Storage → Option PendingOwnerTransfer
query_pending_owner s = s.pending_owner
