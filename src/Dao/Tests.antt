-- ===== src/Dao/Tests.antt =====
-- The theorems about the corporation DAO at concrete inputs.
use sysbreak_trust.Base.{
  save, ◌*◌, ◌≤◌, ◌≡◌, refl, ok, err, some, true, false, [], ◌∷◌, bytes, is_ok, find, number_key,
  pair_key,
}
use sysbreak_trust.Host.{bank_send}
use sysbreak_trust.Dao.State.{
  Outcome, executed, MemberRole, ExecuteMsg, ProposalType, ProposalTypeMsg, joined_after_proposal,
  already_voted,
}
use sysbreak_trust.Dao.Proposals.{execute_vote}
use sysbreak_trust.Dao.Outcomes.{IsRepaid}
use sysbreak_trust.Dao.Contract.{fresh, instantiate, execute}
use sysbreak_trust.Dao.Trace.{Reach, Later, start, now, next}
use sysbreak_trust.Dao.Tally.{IsTallied, Reach-IsTallied}
use sysbreak_trust.Dao.Finality.{HasNext, proposals_follow, votes_final}
use sysbreak_trust.Dao.Spending.{spending_limited}
use sysbreak_trust.Dao.Query.{VoteStatusResponse, query_vote_status, query_members, page}
use sysbreak_trust.Dao.Status.{closed_as, status_foretells}
use sysbreak_trust.Dao.Runs.{
  proposal_with, corp1, spending, carried, host, setup, config1, state_of, response_of, at, by,
  by_paying, run, play, play_on, spend, create, s0, s3, proposed, voted_once, voted_twice, closed,
}

started : instantiate host setup fresh ≡ ok (s0, response_of (instantiate host setup fresh))
unfolding instantiate
started = refl

reached_proposed :
    (kind : ProposalTypeMsg)
    → is_ok (execute host (at 1200) (by_paying 7 10) (ExecuteMsg.create_proposal 1 kind) s3) ≡ true
    → Reach (proposed kind)
unfolding run
reached_proposed kind e =
    play 1200 (by_paying 7 10) (ExecuteMsg.create_proposal 1 kind)
      (play 1150 (by_paying 8 101) (ExecuteMsg.donate_treasury 1)
        (play 1100 (by 8) (ExecuteMsg.join_corporation 1)
          (play 1000 (by_paying 7 100) create (start host setup started) refl) refl)
        refl)
      e

reached_spend : Reach (proposed spend)
unfolding run
reached_spend = reached_proposed spend refl

reached_vote : Reach (voted_once spend)
unfolding run
reached_vote = play 1300 (by 7) (ExecuteMsg.vote 1 true) reached_spend refl

Reach-IsTallied_example : IsTallied (voted_once spend)
Reach-IsTallied_example = Reach-IsTallied reached_vote

second_vote :
    execute_vote (at 1400) (by 8) 1 true (voted_once spend)
    ≡ ok (voted_twice spend, response_of (execute_vote (at 1400) (by 8) 1 true (voted_once spend)))
unfolding run
second_vote = refl

second_step : Later (voted_once spend) (voted_twice spend)
unfolding execute
second_step = next host (at 1400) (by 8) (ExecuteMsg.vote 1 true) now second_vote

stored_once :
    find 1 (voted_once spend).proposals ≡ some (proposal_with (ProposalType.treasury_spend 3 25) 1)
unfolding run
stored_once = refl

vote_stored : find (1, 7) (voted_once spend).votes ≡ some true
unfolding run
vote_stored = refl

proposals_follow_example :
    HasNext 1 (proposal_with (ProposalType.treasury_spend 3 25) 1) (voted_twice spend)
proposals_follow_example =
    proposals_follow reached_vote second_step 1 (proposal_with (ProposalType.treasury_spend 3 25) 1)
      stored_once

votes_final_example : find (1, 7) (voted_twice spend).votes ≡ some true
votes_final_example = votes_final reached_vote second_step 1 7 true vote_stored

spend_ran : closed spend ≡ ok (state_of (closed spend), response_of (closed spend))
unfolding run
spend_ran = refl

config_at_end : (voted_twice spend).config ≡ some config1
unfolding run
config_at_end = refl

spending_stored : find 1 (voted_twice spend).proposals ≡ some spending
unfolding run
spending_stored = refl

corp_stored : find 1 (voted_twice spend).corporations ≡ some corp1
unfolding run
corp_stored = refl

reached_end : Reach (voted_twice spend)
unfolding run
reached_end = play 1400 (by 8) (ExecuteMsg.vote 1 true) reached_vote refl

spend_executed :
    execute host (at 5000) (by 7) (ExecuteMsg.execute_proposal 1) (voted_twice spend)
    ≡ ok (state_of (closed spend), response_of (closed spend))
unfolding run
spend_executed = refl

-- A donation after the proposal was executed.
abbrev donated : Outcome
donated =
    execute host (at 5100) (by_paying 8 400) (ExecuteMsg.donate_treasury 1)
      (state_of (closed spend))

after_donation : Later (state_of (closed spend)) (state_of donated)
unfolding run
after_donation = play_on 5100 (by_paying 8 400) (ExecuteMsg.donate_treasury 1) now refl

spending_limited_example :
    (25 * 4 ≤ 101)
    × (state_of (closed spend) ≡ record (voted_twice spend) {
      proposals = save 1 (record spending { status = executed }) (voted_twice spend).proposals;
      corporations =
          save 1 (record corp1 { treasury_balance = 76 }) (voted_twice spend).corporations;
    })
    × IsRepaid config1 spending
        (bank_send 3 (record { denom = bytes "ushido"; amount = 25 }) ∷ [])
        (response_of (closed spend)).messages
    × (is_ok (execute host (at 5200) (by 8) (ExecuteMsg.execute_proposal 1) (state_of donated))
        ≡ false)
spending_limited_example =
    spending_limited host (at 5000) (by 7) 1 config1 spending corp1 3 25 host (at 5200) (by 8)
      reached_end spend_executed config_at_end spending_stored corp_stored refl
      (carried spending.proposal_type) after_donation

-- Address 6 joins after the proposal and has no vote; nobody votes twice.
joined_late :
    execute host
      (at 1300)
      (by 6)
      (ExecuteMsg.vote 1 true)
      (state_of (execute host (at 1250) (by 6) (ExecuteMsg.join_corporation 1) (proposed spend)))
    ≡ err joined_after_proposal
unfolding run
joined_late = refl

voted_again :
    execute host (at 1400) (by 7) (ExecuteMsg.vote 1 false) (voted_once spend)
    ≡ err (already_voted 1)
unfolding run
voted_again = refl

abbrev reported : VoteStatusResponse
reported = record {
  yes_votes = 2;
  no_votes = 0;
  total_members = 2;
  quorum_bps = 5000;
  quorum_reached = true;
  passed = true;
  voting_ended = true;
}

status_ran : query_vote_status (at 5000) 1 (voted_twice spend) ≡ ok reported
unfolding run query_vote_status
status_ran = refl

status_foretells_example :
    (true ≡ true) × (find 1 (state_of (closed spend)).proposals ≡ some (closed_as true spending))
status_foretells_example =
    status_foretells (at 5000) (by 7) 1 (voted_twice spend) (state_of (closed spend))
      (response_of (closed spend)) reported spending spending_stored status_ran spend_ran

-- The second page of one entry.
paged :
    query_members host 1 (some (bytes "seven77")) (some 1) (voted_twice spend)
    ≡ ok (record { address = 8; role = MemberRole.member; joined_at = 1_100_000_000_000 } ∷ [])
unfolding run query_members page
paged = refl
