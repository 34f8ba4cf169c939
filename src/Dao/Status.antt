-- ===== src/Dao/Status.antt =====
-- What the vote status of the corporation DAO reports is what closing the proposal does.
use sysbreak_trust.Base.{
  ℕ, Bool, ◌≡◌, sym, arith, ok, some, true, find, find-save_self, number_key, OnOk-apply, ◌∙◌, ap,
}
use sysbreak_trust.Host.{Env, MessageInfo, Response}
use sysbreak_trust.Dao.State.{Storage, Proposal}
use sysbreak_trust.Dao.Execution.{execute_execute_proposal}
use sysbreak_trust.Dao.Query.{VoteStatusResponse, query_vote_status}
use sysbreak_trust.Dao.Steps.{Closed, execute_execute_proposal-Closed, closing, carry_out-closes}

-- The proposal under the status with which it is closed.
abbrev pub closed_as : Bool → Proposal → Proposal
closed_as verdict p = record p { status = closing verdict }

some-inj : {p q : Proposal} → some p ≡ some q → p ≡ q
some-inj e = cc

query-verdict :
    (env : Env) (id : ℕ) (s s' : Storage) (r : Response) (v : VoteStatusResponse)
    → (c : Closed env id s s' r) → query_vote_status env id s ≡ ok v
    → (v.passed ≡ c.verdict) × (v.voting_ended ≡ true)
unfolding query_vote_status
query-verdict env id s s' r v c q = ground (arith, c.stored, c.has_corp, c.judged, c.over)

-- Where closing a proposal succeeds, the vote status that was reported before, in the same block,
-- said that the voting had ended, and the proposal is then executed if it was reported as passed,
-- and failed if not; its votes and its terms stay as they were.
pub status_foretells :
    (env : Env) (info : MessageInfo) (id : ℕ) (s s' : Storage) (r : Response)
    (v : VoteStatusResponse) (p : Proposal)
    → find id s.proposals ≡ some p
    → query_vote_status env id s ≡ ok v
    → execute_execute_proposal env info id s ≡ ok (s', r)
    → (v.voting_ended ≡ true) × (find id s'.proposals ≡ some (closed_as v.passed p))
status_foretells env info id s s' r v p stored q h =
    let c = execute_execute_proposal-Closed env info id s s' r h in
    let (passed, ended) = query-verdict env id s s' r v c q in
    let same : c.proposal ≡ p = some-inj (sym c.stored ∙ stored) in
    let closes = OnOk-apply _ (carry_out-closes c.config id c.proposal c.corp c.verdict s) c.done in
    (
      ended,
      ap (find id) (closes.proposals)
          ∙ find-save_self id (closed_as c.verdict c.proposal) s.proposals
          ∙ ap some (ap (closed_as c.verdict) same)
          ∙ ap (λ b. some (closed_as b p)) (sym passed),
    )
