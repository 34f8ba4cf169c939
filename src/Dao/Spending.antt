-- ===== src/Dao/Spending.antt =====
-- How a proposal of the corporation DAO is decided and carried out: the quorum and the majority, the
-- limit on spending, the supermajority of a dissolution, and the kicking of a member.
use sysbreak_trust.Base.{
  ℕ, ◌+◌, ◌-◌, ◌*◌, ◌≤◌, ◌<◌, ◌≡◌, refl, sym, arith, ok, some, true, false, [], ◌∷◌, ◌++◌, find,
  save, List, is_ok, find-save_self, number_key, pair_key, inl, inr, ◌⊎◌, Result-cases,
}
use mathlib.Core.Path.{subst}
use sysbreak_trust.Host.{Addr, Deps, Env, MessageInfo, Message, Response, bank_send}
use sysbreak_trust.Dao.State.{
  Config, Corporation, Proposal, ProposalStatus, ProposalType, Storage, ExecuteMsg, failed,
  executed,
}
use sysbreak_trust.Dao.Helpers.{is_open, check_proposal_passed}
use sysbreak_trust.Dao.Execution.{
  Effect, execute_execute_proposal, carry_out, apply_proposal, save_status, refund,
}
use sysbreak_trust.Dao.Contract.{execute}
use sysbreak_trust.Dao.Trace.{Reach, Later, call}
use sysbreak_trust.Dao.Finality.{proposals_follow}
use sysbreak_trust.Dao.Outcomes.{marked, Does, IsRepaid, refund-IsRepaid, apply_proposal-Does}

-- The votes that carry a proposal: the quorum of the members at its creation, and a majority.
pub record IsCarried (p : Proposal) (corp : Corporation) : Type 0 where
  pub somebody : 0 < p.member_count_snapshot
  pub quorum : p.member_count_snapshot * corp.quorum_bps ≤ (p.yes_votes + p.no_votes) * 10_000
  pub majority : p.no_votes < p.yes_votes

not_passed :
    (p : Proposal) (corp : Corporation)
    → check_proposal_passed p p.member_count_snapshot corp.quorum_bps ≡ ok false
    → ¬ IsCarried p corp
unfolding check_proposal_passed
not_passed p corp h c = ground (arith, c.somebody, c.quorum, c.majority)

-- The proposal failed and nothing else happened, or it was carried and does what its kind does.
abbrev pub Verdict : Config → ℕ → Proposal → Corporation → Storage → Storage → Response → Type 0
Verdict config id p corp s s' r =
    ((¬ IsCarried p corp) × (s' ≡ marked id failed p s) × (r.messages ≡ []))
    ⊎ (IsCarried p corp
        × ((sends : List Message) × Does config p corp p.proposal_type (marked id executed p s) s'
              sends
            × IsRepaid config p sends r.messages))

-- What closing a proposal comes to.
pub record Decided (env : Env) (id : ℕ) (s s' : Storage) (r : Response) : Type 0 where
  pub proposal : Proposal
  pub corp : Corporation
  pub config : Config
  pub stored : find id s.proposals ≡ some proposal
  pub is_active : proposal.status ≡ ProposalStatus.active
  pub over : proposal.voting_ends_at ≤ env.time
  pub has_corp : find proposal.corp_id s.corporations ≡ some corp
  pub has_config : s.config ≡ some config
  pub verdict : Verdict config id proposal corp s s' r

pub carry_out-true :
    (config : Config) (id : ℕ) (p : Proposal) (corp : Corporation) (s s' : Storage) (r : Response)
    → carry_out config id p corp true s ≡ ok (s', r)
    → (effect : Effect) × (apply_proposal config p corp p.proposal_type
          (save_status id executed p s)
        ≡ ok effect)
      × (s' ≡ effect.state)
      × (r.messages ≡ refund config p ++ effect.sends)
unfolding carry_out
carry_out-true config id p corp s s' r h =
    elim (Result-cases
      (apply_proposal config p corp p.proposal_type (save_status id executed p s))) [
        | inl (e, f) ↦ (e, f, ground arith, ground arith)
        | inr f ↦ absurd (ground arith)
      ]

carried_out :
    (config : Config) (id : ℕ) (p : Proposal) (corp : Corporation) (s s' : Storage) (r : Response)
    → carry_out config id p corp true s ≡ ok (s', r)
    → (sends : List Message) × Does config p corp p.proposal_type (marked id executed p s) s' sends
      × IsRepaid config p sends r.messages
carried_out config id p corp s s' r h =
    let (effect, applied, state, messages) = carry_out-true config id p corp s s' r h in
    (
      effect.sends,
      subst (λ x. Does config p corp p.proposal_type (marked id executed p s) x effect.sends)
          (sym state)
          (apply_proposal-Does config p corp p.proposal_type (marked id executed p s) effect
            applied),
      subst (IsRepaid config p effect.sends) (sym messages) (refund-IsRepaid config p effect.sends),
    )

-- A carried proposal is carried out.
pub carried-carry_out :
    (env : Env) (info : MessageInfo) (id : ℕ) (s s' : Storage) (r : Response) (config : Config)
    (p : Proposal) (corp : Corporation)
    → execute_execute_proposal env info id s ≡ ok (s', r)
    → s.config ≡ some config
    → find id s.proposals ≡ some p
    → find p.corp_id s.corporations ≡ some corp
    → IsCarried p corp
    → carry_out config id p corp true s ≡ ok (s', r)
unfolding execute_execute_proposal
carried-carry_out env info id s s' r config p corp h has_config stored has_corp carried =
    elim (Result-cases (check_proposal_passed p p.member_count_snapshot corp.quorum_bps)) [
      | inl (true, e) ↦ ground arith
      | inl (false, e) ↦ absurd (not_passed p corp e carried)
      | inr e ↦ absurd (ground arith)
    ]

-- A proposal that is not active is not executed.
closed_stays :
    (env : Env) (info : MessageInfo) (id : ℕ) (s : Storage) (p : Proposal)
    → find id s.proposals ≡ some p
    → is_open p.status ≡ false
    → is_ok (execute_execute_proposal env info id s) ≡ false
unfolding execute_execute_proposal
closed_stays env info id s p stored done = ground arith

once_executed :
    (d : Deps) (env : Env) (info : MessageInfo) (id : ℕ) {s s' : Storage} (p : Proposal)
    → Reach s
    → Later s s'
    → find id s.proposals ≡ some p
    → is_open p.status ≡ false
    → is_ok (execute d env info (ExecuteMsg.execute_proposal id) s') ≡ false
unfolding execute
once_executed d env info id {s} {s'} p h l stored done =
    let (q, stored', follows) = proposals_follow h l id p stored in
    closed_stays env info id s' q stored' (rw (follows.final done) done)

-- From any storage that a history reaches, a carried spending proposal pays its amount to its
-- recipient, after the deposit, which goes back to the proposer, and pays nothing else. The amount is
-- at most a quarter of the treasury, which falls by exactly that amount; the proposal is marked as
-- executed, and nothing else changes. After any further calls of
-- `execute`, it cannot be executed again.
pub spending_limited :
    (d : Deps) (env : Env) (info : MessageInfo) (id : ℕ) {s s' s'' : Storage} {r : Response}
    (config : Config) (p : Proposal) (corp : Corporation) (recipient : Addr) (amount : ℕ)
    (d' : Deps) (again : Env) (someone : MessageInfo)
    → Reach s
    → execute d env info (ExecuteMsg.execute_proposal id) s ≡ ok (s', r)
    → s.config ≡ some config
    → find id s.proposals ≡ some p
    → find p.corp_id s.corporations ≡ some corp
    → p.proposal_type ≡ ProposalType.treasury_spend recipient amount
    → IsCarried p corp
    → Later s' s''
    → (amount * 4 ≤ corp.treasury_balance)
      × (s' ≡ record s {
        proposals = save id (record p { status = executed }) s.proposals;
        corporations =
            save p.corp_id
              (record corp { treasury_balance = corp.treasury_balance - amount })
              s.corporations;
      })
      × IsRepaid config p
          (bank_send recipient (record { denom = config.denom; amount = amount }) ∷ [])
          r.messages
      × (is_ok (execute d' again someone (ExecuteMsg.execute_proposal id) s'') ≡ false)
unfolding execute
spending_limited d env info id {s} {s'} {s''} {r} config p corp recipient amount d' again someone
      reached h has_config stored has_corp kind carried later =
    let done =
      carried-carry_out env info id s s' r config p corp h has_config stored has_corp carried in
    let (sends, does, repaid) = carried_out config id p corp s s' r done in
    let spent = subst (λ k. Does config p corp k (marked id executed p s) s' sends) kind does in
    let (limit, state, payment) = spent in
    let marked_now : find id s'.proposals ≡ some (record p { status = executed }) =
      rw state (find-save_self id _ s.proposals) in
    (
      limit,
      state,
      subst (λ x. IsRepaid config p x r.messages) payment repaid,
      once_executed d' again someone id (record p { status = executed })
          (call d env info (ExecuteMsg.execute_proposal id) reached h) later marked_now refl,
    )
