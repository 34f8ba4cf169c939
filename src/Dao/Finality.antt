-- ===== src/Dao/Finality.antt =====
-- What is final in the corporation DAO: a vote that was cast, the terms of a proposal, and a proposal
-- that was closed.
use sysbreak_trust.Base.{
  ℕ, ◌+◌, ◌≤◌, ◌≡◌, refl, arith, ok, some, Bool, true, false, find, save, find-save, number_key,
  pair_key, eqb, inl, inr, OnOk-apply, same_pair_iff, ◌∙◌, Bool-cases,
}
use mathlib.Core.Path.{subst}
use sysbreak_trust.Host.{Addr, Deps, Env, MessageInfo, Response}
use sysbreak_trust.Dao.State.{Storage, Proposal, ProposalStatus, ExecuteMsg}
use sysbreak_trust.Dao.Helpers.{is_open}
use sysbreak_trust.Dao.Proposals.{count_vote}
use sysbreak_trust.Dao.Execution.{save_status}
use sysbreak_trust.Dao.Contract.{execute}
use sysbreak_trust.Dao.Votes.{SameVotes}
use sysbreak_trust.Dao.Steps.{Created, Voted, Closed, closing, carry_out-closes}
use sysbreak_trust.Dao.Trace.{Reach, Later, now, next, Reach-Later}
use sysbreak_trust.Dao.Induction.{execute-cases}
use sysbreak_trust.Dao.Tally.{IsTallied, Reach-IsTallied}

-- How a stored proposal may look later.
pub record Follows (p p' : Proposal) : Type 0 where
  pub id : p'.id ≡ p.id
  pub corp_id : p'.corp_id ≡ p.corp_id
  pub proposer : p'.proposer ≡ p.proposer
  pub proposal_type : p'.proposal_type ≡ p.proposal_type
  pub created_at : p'.created_at ≡ p.created_at
  pub voting_ends_at : p'.voting_ends_at ≡ p.voting_ends_at
  pub deposit : p'.deposit ≡ p.deposit
  pub snapshot : p'.member_count_snapshot ≡ p.member_count_snapshot
  pub more_yes : p.yes_votes ≤ p'.yes_votes
  pub more_no : p.no_votes ≤ p'.no_votes
  pub final : is_open p.status ≡ false → p' ≡ p

Follows-refl : (p : Proposal) → Follows p p
Follows-refl p = record {
  id = refl;
  corp_id = refl;
  proposer = refl;
  proposal_type = refl;
  created_at = refl;
  voting_ends_at = refl;
  deposit = refl;
  snapshot = refl;
  more_yes = omega arith;
  more_no = omega arith;
  final = λ c. refl;
}

Follows-trans : {p q r : Proposal} → Follows p q → Follows q r → Follows p r
Follows-trans f g = record {
  id = g.id ∙ f.id;
  corp_id = g.corp_id ∙ f.corp_id;
  proposer = g.proposer ∙ f.proposer;
  proposal_type = g.proposal_type ∙ f.proposal_type;
  created_at = g.created_at ∙ f.created_at;
  voting_ends_at = g.voting_ends_at ∙ f.voting_ends_at;
  deposit = g.deposit ∙ f.deposit;
  snapshot = g.snapshot ∙ f.snapshot;
  more_yes = omega (arith, f.more_yes, g.more_yes);
  more_no = omega (arith, f.more_no, g.more_no);
  final = λ c. g.final (rw (f.final c) c) ∙ f.final c;
}

-- A proposal that follows `p` is stored.
abbrev pub HasNext : ℕ → Proposal → Storage → Type 0
HasNext id p s = (q : Proposal) × (find id s.proposals ≡ some q) × Follows p q

-- Every proposal of `s` is there in `s'`, as one that follows it; every vote is there unchanged.
pub record Keeps (s s' : Storage) : Type 0 where
  pub proposals : (id : ℕ) (p : Proposal) → find id s.proposals ≡ some p → HasNext id p s'
  pub votes :
      (id : ℕ) (a : Addr) (v : Bool)
      → find (id, a) s.votes ≡ some v
      → find (id, a) s'.votes ≡ some v

Keeps-trans : {s s' s'' : Storage} → Keeps s s' → Keeps s' s'' → Keeps s s''
Keeps-trans k l = record {
  proposals = λ id p e.
      let (q, f, g) = k.proposals id p e in
      let (r, f', g') = l.proposals id q f in (r, f', Follows-trans g g');
  votes = λ id a v e. l.votes id a v (k.votes id a v e);
}

SameVotes-Keeps : {s s' : Storage} → SameVotes s s' → Keeps s s'
SameVotes-Keeps b = record {
  proposals = λ id p e. (p, rw (b.proposals) e, Follows-refl p);
  votes = λ id a v e. rw (b.votes) e;
}

-- Saving a proposal over one that it follows keeps the others.
save-Follows :
    (k : ℕ) (new : Proposal) (s s' : Storage)
    → s'.proposals ≡ save k new s.proposals
    → ((p : Proposal) → find k s.proposals ≡ some p → Follows p new)
    → (id : ℕ) (p : Proposal) → find id s.proposals ≡ some p
    → HasNext id p s'
save-Follows k new s s' saved f id p e = elim (Bool-cases (eqb k id)) [
  | inl same ↦ (new, rw saved (ground (arith, find-save k id new s.proposals)), f p (ground arith))
  | inr other ↦ (p, rw saved (ground (arith, find-save k id new s.proposals)), Follows-refl p)
]

Created-Keeps : {env : Env} {s s' : Storage} → IsTallied s → Created env s s' → Keeps s s'
Created-Keeps {s} {s'} t c = record {
  proposals =
      save-Follows (c.count + 1) c.proposal s s' c.proposals
        λ p e. absurd (ground (arith, (t.counted (c.count + 1) p e).numbered, c.old_count));
  votes = λ id a v e. rw (c.votes) e;
}

count_vote-Follows :
    (choice : Bool) (p q : Proposal)
    → is_open p.status ≡ true
    → count_vote choice p ≡ ok q
    → Follows p q
unfolding count_vote
count_vote-Follows true p q o h = record {
  id = ground arith;
  corp_id = ground arith;
  proposer = ground arith;
  proposal_type = ground arith;
  created_at = ground arith;
  voting_ends_at = ground arith;
  deposit = ground arith;
  snapshot = ground arith;
  more_yes = ground arith;
  more_no = ground arith;
  final = λ c. absurd cc;
}
count_vote-Follows false p q o h = record {
  id = ground arith;
  corp_id = ground arith;
  proposer = ground arith;
  proposal_type = ground arith;
  created_at = ground arith;
  voting_ends_at = ground arith;
  deposit = ground arith;
  snapshot = ground arith;
  more_yes = ground arith;
  more_no = ground arith;
  final = λ c. absurd cc;
}

Voted-Keeps :
    {env : Env} {info : MessageInfo} {id : ℕ} {choice : Bool} {s s' : Storage}
    → Voted env info id choice s s'
    → Keeps s s'
Voted-Keeps {info} {id} {choice} {s} {s'} v = record {
  proposals = save-Follows id v.counted s s' v.proposals λ p e.
      let same : v.proposal ≡ p = cc (v.stored) in
      rw same at (count_vote-Follows choice v.proposal v.counted v.is_active v.count);
  votes = λ i a w e. rw (v.votes) (
      ground (
        arith,
        find-save (id, info.sender) (i, a) choice s.votes,
        v.first_vote,
        same_pair_iff (id, info.sender) (i, a),
      ));
}

status-Follows :
    (status : ProposalStatus) (p : Proposal)
    → is_open p.status ≡ true
    → Follows p (record p { status = status })
status-Follows status p o = record {
  id = refl;
  corp_id = refl;
  proposer = refl;
  proposal_type = refl;
  created_at = refl;
  voting_ends_at = refl;
  deposit = refl;
  snapshot = refl;
  more_yes = omega arith;
  more_no = omega arith;
  final = λ c. absurd cc;
}

save_status-Keeps :
    (id : ℕ) (status : ProposalStatus) (p : Proposal) (s : Storage)
    → find id s.proposals ≡ some p
    → is_open p.status ≡ true
    → Keeps s (save_status id status p s)
save_status-Keeps id status p s stored o = record {
  proposals =
      save-Follows id (record p { status = status }) s (save_status id status p s) refl
        λ q e.
          let same : p ≡ q = cc in
          subst (λ x. Follows x (record p { status = status })) same (status-Follows status p o);
  votes = λ i a w e. e;
}

Closed-Keeps :
    {env : Env} {id : ℕ} {s s' : Storage} {r : Response} → Closed env id s s' r → Keeps s s'
Closed-Keeps {id} {s} c =
    Keeps-trans (save_status-Keeps id (closing c.verdict) c.proposal s c.stored c.is_active) (
      SameVotes-Keeps
        (OnOk-apply _ (carry_out-closes c.config id c.proposal c.corp c.verdict s) c.done))

execute-Keeps :
    (d : Deps) (env : Env) (info : MessageInfo) (msg : ExecuteMsg) (s s' : Storage) (r : Response)
    → execute d env info msg s ≡ ok (s', r)
    → IsTallied s
    → Keeps s s'
execute-Keeps =
    execute-cases (λ s s'. IsTallied s → Keeps s s') (λ s s' b t. SameVotes-Keeps b)
      (λ env s s' c t. Created-Keeps t c) (λ env info id choice s s' v t. Voted-Keeps v)
      (λ env id s s' r c t. Closed-Keeps c)

Later-Keeps : {s s' : Storage} → Reach s → Later s s' → Keeps s s'
Later-Keeps h now = record { proposals = λ id p e. (p, e, Follows-refl p); votes = λ id a v e. e }
Later-Keeps h (next d env info msg l e) =
    Keeps-trans (Later-Keeps h l)
      (execute-Keeps d env info msg _ _ _ e (Reach-IsTallied (Reach-Later h l)))

-- From any storage that a history reaches, through any calls: a proposal keeps its terms (its number,
-- corporation, proposer, kind, times, deposit and member count), its counters never fall, and once
-- it is not active any more it never changes.
pub proposals_follow :
    {s s' : Storage}
    → Reach s
    → Later s s'
    → (id : ℕ) (p : Proposal) → find id s.proposals ≡ some p
    → HasNext id p s'
proposals_follow h l = (Later-Keeps h l).proposals

-- From any storage that a history reaches, through any calls, a vote that was cast is never changed
-- or removed, also when its voter leaves or is kicked.
pub votes_final :
    {s s' : Storage}
    → Reach s
    → Later s s'
    → (id : ℕ) (voter : Addr) (choice : Bool) → find (id, voter) s.votes ≡ some choice
    → find (id, voter) s'.votes ≡ some choice
votes_final h l = (Later-Keeps h l).votes
