-- ===== src/Dao/Outcomes.antt =====
-- What a proposal of the corporation DAO is meant to do, kind by kind, and that the code does it.
use sysbreak_trust.Base.{
  ℕ, ◌-◌, ◌*◌, ◌≤◌, ◌<◌, ◌≡◌, ◌≢◌, arith, ok, none, some, false, List, [], ◌∷◌, ◌++◌, find, save,
  remove, Option, Map, Text, number_key, pair_key, inl, inr, ◌⊎◌, Result-cases, unwrap_or, Has,
}
use sysbreak_trust.Host.{Addr, Message, bank_send}
use sysbreak_trust.Dao.State.{
  Config, Corporation, MemberRole, founder, Proposal, ProposalStatus, ProposalType, Storage,
  dissolving, JoinPolicy,
}
use sysbreak_trust.Dao.Helpers.{
  is_founder, validate_quorum_bps, validate_voting_period, check_dissolution_supermajority,
}
use sysbreak_trust.Dao.Execution.{
  Effect, apply_proposal, apply_spend, apply_settings, apply_kick, apply_promote, apply_dissolution,
  distribute, refund,
}

-- The deposit of a proposal, where there is one, goes back to the proposer before the other payments.
abbrev pub IsRepaid : Config → Proposal → List Message → List Message → Type 0
IsRepaid config p others messages =
    ((p.deposit ≡ 0) × (messages ≡ others))
    ⊎ ((0 < p.deposit)
        × (messages
            ≡ bank_send p.proposer (record { denom = config.denom; amount = p.deposit }) ∷ others))

pub refund-IsRepaid :
    (config : Config) (p : Proposal) (others : List Message)
    → IsRepaid config p others (refund config p ++ others)
unfolding refund
refund-IsRepaid config p others = ground arith

-- The storage with the proposal marked.
abbrev pub marked : ℕ → ProposalStatus → Proposal → Storage → Storage
marked id status p s = record s { proposals = save id (record p { status = status }) s.proposals }

-- A number that may be given is within bounds.
abbrev pub Within : ℕ → ℕ → Option ℕ → Type 0
Within low high none = Unit
Within low high (some n) = (low ≤ n) × (n ≤ high)

-- The corporation after a change of its settings.
abbrev pub resettled :
    Corporation → Option Text → Option Text → Option JoinPolicy → Option ℕ → Option ℕ → Corporation
resettled corp name description join_policy quorum_bps voting_period = record corp {
  name = unwrap_or corp.name name;
  description = unwrap_or corp.description description;
  join_policy = unwrap_or corp.join_policy join_policy;
  quorum_bps = unwrap_or corp.quorum_bps quorum_bps;
  voting_period = unwrap_or corp.voting_period voting_period;
}

-- What a carried proposal does, by its kind: the new storage, from the storage in which it is marked
-- as executed, and the payments.
abbrev pub Does :
    Config → Proposal → Corporation → ProposalType → Storage → Storage → List Message → Type 0
Does config p corp (ProposalType.treasury_spend recipient amount) s s' sends =
    (amount * 4 ≤ corp.treasury_balance)
    × (s' ≡ record s {
      corporations =
          save p.corp_id (record corp { treasury_balance = corp.treasury_balance - amount })
            s.corporations;
    })
    × (sends ≡ bank_send recipient (record { denom = config.denom; amount = amount }) ∷ [])
Does config p corp (ProposalType.change_settings n t j q v) s s' sends =
    Within 1 10_000 q
    × Within 3600 2_592_000 v
    × (s' ≡ record s { corporations = save p.corp_id (resettled corp n t j q v) s.corporations })
    × (sends ≡ [])
Does config p corp (ProposalType.kick_member target) s s' sends =
    (1 < corp.member_count)
    × (s' ≡ record s {
      members = remove (p.corp_id, target) s.members;
      corporations =
          save p.corp_id (record corp { member_count = corp.member_count - 1 }) s.corporations;
    })
    × (sends ≡ [])
Does config p corp (ProposalType.promote_member target new_role) s s' sends =
    (new_role ≢ founder)
    × Has
        (λ info. s' ≡ record s {
          members = save (p.corp_id, target) (record info { role = new_role }) s.members;
        })
        (find (p.corp_id, target) s.members)
    × (sends ≡ [])
Does config p corp ProposalType.dissolution s s' sends =
    (0 < p.member_count_snapshot)
    × (p.member_count_snapshot * 75 ≤ p.yes_votes * 100)
    × ((claims : Map (ℕ × Addr) ℕ) × ((claims ≡ s.dissolution_claims) ⊎ (0 < corp.treasury_balance))
        × (s' ≡ record s {
          dissolution_claims = claims;
          corporations = save p.corp_id (record corp { status = dissolving }) s.corporations;
        }))
    × (sends ≡ [])
Does config p corp (ProposalType.custom title description) s s' sends = (s' ≡ s) × (sends ≡ [])

is_founder-founder : (role : MemberRole) → is_founder role ≡ false → role ≢ founder
is_founder-founder role h e = ground arith

distribute-claims :
    (id : ℕ) (corp : Corporation) (s s' : Storage)
    → distribute id corp s ≡ ok s'
    → (claims : Map (ℕ × Addr) ℕ) × ((claims ≡ s.dissolution_claims) ⊎ (0 < corp.treasury_balance))
      × (s' ≡ record s { dissolution_claims = claims })
unfolding distribute
distribute-claims id corp s s' h = (s'.dissolution_claims, ground arith, ground arith)

pub apply_proposal-Does :
    (config : Config) (p : Proposal) (corp : Corporation) (kind : ProposalType) (s : Storage)
    (e : Effect)
    → apply_proposal config p corp kind s ≡ ok e
    → Does config p corp kind s e.state e.sends
unfolding apply_proposal apply_spend apply_settings apply_kick apply_promote apply_dissolution
    validate_quorum_bps validate_voting_period check_dissolution_supermajority
apply_proposal-Does config p corp (ProposalType.treasury_spend a n) s e h =
    (ground arith, ground arith, ground arith)
apply_proposal-Does config p corp (ProposalType.change_settings n t j q v) s e h =
    (ground arith, ground arith, ground arith, ground arith)
apply_proposal-Does config p corp (ProposalType.kick_member target) s e h =
    (ground arith, ground arith, ground arith)
apply_proposal-Does config p corp (ProposalType.promote_member target role) s e h =
    (is_founder-founder role (ground arith), ground arith, ground arith)
apply_proposal-Does config p corp ProposalType.dissolution s e h =
    elim (Result-cases (distribute p.corp_id corp s)) [
      | inl (s2, f) ↦
          let (claims, when, state) = distribute-claims p.corp_id corp s s2 f in
          (ground arith, ground arith, (claims, when, ground (arith, state)), ground arith)
      | inr f ↦ absurd (ground arith)
    ]
apply_proposal-Does config p corp (ProposalType.custom t d) s e h = (ground arith, ground arith)
