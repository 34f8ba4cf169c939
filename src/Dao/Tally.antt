-- ===== src/Dao/Tally.antt =====
-- The votes of the corporation DAO are counted right: in every history the counters of a proposal
-- are the numbers of the votes stored for it.
use sysbreak_trust.Base.{
  ℕ, ◌+◌, ◌≤◌, ◌<◌, ◌≡◌, arith, ok, some, none, Bool, true, false, [], ◌∷◌, Map, find, save,
  find-save, number_key, pair_key, eqb, ◌&&◌, if◌then◌else◌, unwrap_or, inl, inr, ◌⊎◌, OnOk-apply,
  IsAscending, IsAscending-save, number_order,
}
use sysbreak_trust.Host.{Addr, Env, MessageInfo, Response}
use sysbreak_trust.Dao.State.{Storage, Proposal, ProposalStatus}
use sysbreak_trust.Dao.Proposals.{count_vote}
use sysbreak_trust.Dao.Execution.{save_status}
use sysbreak_trust.Dao.Votes.{SameVotes}
use sysbreak_trust.Dao.Steps.{Created, Voted, Closed, closing, carry_out-closes}
use sysbreak_trust.Dao.Trace.{Reach}
use sysbreak_trust.Dao.Migration.{Migrated}
use sysbreak_trust.Dao.Induction.{Blank, execute-cases, Reach-induction}

-- Whether two votes are the same.
abbrev pub same_vote : Bool → Bool → Bool
same_vote true b = b
same_vote false true = false
same_vote false false = true

-- The number of votes `choice` stored for a proposal.
unfoldable pub tally : Bool → ℕ → Map (ℕ × Addr) Bool → ℕ
tally choice id [] = 0
tally choice id (((i, a), v) ∷ m) =
    let rest = tally choice id m in if eqb i id && same_vote choice v then rest + 1 else rest

-- A first vote adds one to its side of its proposal.
pub tally-save :
    (choice : Bool) (id i : ℕ) (a : Addr) (v : Bool) (m : Map (ℕ × Addr) Bool)
    → find (i, a) m ≡ none
    → tally choice id (save (i, a) v m)
      ≡ tally choice id m + (if eqb i id && same_vote choice v then 1 else 0)
unfolding tally find save
tally-save choice id i a v [] h = ground arith
tally-save choice id i a v (((j, b), w) ∷ m) h = ground (arith, tally-save choice id i a v m)

-- The counters of a proposal are the numbers of its votes, and its number has been given out.
pub record IsCounted (s : Storage) (id : ℕ) (p : Proposal) : Type 0 where
  pub yes : p.yes_votes ≡ tally true id s.votes
  pub no : p.no_votes ≡ tally false id s.votes
  pub numbered : id ≤ unwrap_or 0 s.proposal_count

-- Every stored proposal is counted, the proposals are in the order of their numbers, and there are no
-- votes for the numbers to come.
pub record IsTallied (s : Storage) : Type 0 where
  pub ordered : IsAscending s.proposals
  pub counted : (id : ℕ) (p : Proposal) → find id s.proposals ≡ some p → IsCounted s id p
  pub unborn :
      (choice : Bool) (id : ℕ) → unwrap_or 0 s.proposal_count < id → tally choice id s.votes ≡ 0

Blank-IsTallied : (s : Storage) → Blank s → IsTallied s
unfolding find tally
Blank-IsTallied s b = record {
  ordered = rw (b.proposals) tt;
  counted = λ id p e. absurd (ground (arith, b.proposals));
  unborn = λ choice id l. rw (b.votes);
}

SameVotes-IsTallied : {s s' : Storage} → SameVotes s s' → IsTallied s → IsTallied s'
SameVotes-IsTallied b t = record {
  ordered = rw (b.proposals) (t.ordered);
  counted = λ id p e.
      let c = t.counted id p (rw (b.proposals) at e) in
      record {
        yes = rw (b.votes) (c.yes);
        no = rw (b.votes) (c.no);
        numbered = rw (b.proposal_count) (c.numbered);
      };
  unborn = λ choice id l. rw (b.votes) (t.unborn choice id (rw (b.proposal_count) at l));
}

-- What is found after an entry was saved: that entry, or one that was there.
pub find-save-cases :
    (k id : ℕ) (v p : Proposal) (m : Map ℕ Proposal)
    → find id (save k v m) ≡ some p
    → ((k ≡ id) × (v ≡ p)) ⊎ ((eqb k id ≡ false) × (find id m ≡ some p))
find-save-cases k id v p m e = ground (arith, find-save k id v m)

Created-IsTallied : {env : Env} {s s' : Storage} → Created env s s' → IsTallied s → IsTallied s'
Created-IsTallied {s} {s'} c t = record {
  ordered = rw (c.proposals) (IsAscending-save (c.count + 1) c.proposal s.proposals t.ordered);
  counted = λ id p e.
      elim (find-save-cases (c.count + 1) id c.proposal p s.proposals (rw (c.proposals) at e)) [
        | inl (i, q) ↦ record {
          yes = ground (arith, c.no_yes, c.votes, c.old_count, t.unborn true id);
          no = ground (arith, c.no_no, c.votes, c.old_count, t.unborn false id);
          numbered = ground (arith, c.new_count);
        }
        | inr (_, f) ↦
            let o = t.counted id p f in
            record {
              yes = rw (c.votes) (o.yes);
              no = rw (c.votes) (o.no);
              numbered = ground (arith, c.new_count, c.old_count, o.numbered);
            }
      ];
  unborn = λ choice id l. ground (arith, c.votes, c.new_count, c.old_count, t.unborn choice id);
}

count_vote-counts :
    (choice : Bool) (p q : Proposal)
    → count_vote choice p ≡ ok q
    → (q.yes_votes ≡ p.yes_votes + (if same_vote true choice then 1 else 0))
      × (q.no_votes ≡ p.no_votes + (if same_vote false choice then 1 else 0))
unfolding count_vote
count_vote-counts true p q h = ground arith
count_vote-counts false p q h = ground arith

Voted-IsTallied :
    {env : Env} {info : MessageInfo} {id : ℕ} {choice : Bool} {s s' : Storage}
    → Voted env info id choice s s'
    → IsTallied s
    → IsTallied s'
Voted-IsTallied {info} {id} {choice} {s} v t =
    let old = t.counted id v.proposal v.stored in
    let (more_yes, more_no) = count_vote-counts choice v.proposal v.counted v.count in
    let moved = λ (c : Bool) (i : ℕ). tally-save c i id info.sender choice s.votes v.first_vote in
    record {
      ordered = rw (v.proposals) (IsAscending-save id v.counted s.proposals t.ordered);
      counted = λ i p e.
          elim (find-save-cases id i v.counted p s.proposals (rw (v.proposals) at e)) [
            | inl (same, q) ↦ record {
              yes = rw (v.votes) (ground (arith, old.yes, moved true i));
              no = rw (v.votes) (ground (arith, old.no, moved false i));
              numbered = rw (v.same_count) (ground (arith, old.numbered));
            }
            | inr (other, f) ↦
                let o = t.counted i p f in
                record {
                  yes = rw (v.votes) (ground (arith, o.yes, moved true i));
                  no = rw (v.votes) (ground (arith, o.no, moved false i));
                  numbered = rw (v.same_count) (o.numbered);
                }
          ];
      unborn = λ c i l.
          let l' = rw (v.same_count) at l in
          rw (v.votes) (ground (arith, old.numbered, moved c i, t.unborn c i l'));
    }

save_status-IsTallied :
    (id : ℕ) (status : ProposalStatus) (p : Proposal) (s : Storage)
    → find id s.proposals ≡ some p
    → IsTallied s
    → IsTallied (save_status id status p s)
save_status-IsTallied id status p s stored t = record {
  ordered = IsAscending-save id (record p { status = status }) s.proposals t.ordered;
  counted = λ i q e. elim (find-save-cases id i (record p { status = status }) q s.proposals e) [
    | inl (same, r) ↦
        let o = t.counted id p stored in
        record {
          yes = ground (arith, o.yes);
          no = ground (arith, o.no);
          numbered = ground (arith, o.numbered);
        }
    | inr (other, f) ↦
        let o = t.counted i q f in record { yes = o.yes; no = o.no; numbered = o.numbered }
  ];
  unborn = t.unborn;
}

Closed-IsTallied :
    {env : Env} {id : ℕ} {s s' : Storage} {r : Response}
    → Closed env id s s' r
    → IsTallied s
    → IsTallied s'
Closed-IsTallied {id} {s} c t =
    SameVotes-IsTallied
      (OnOk-apply _ (carry_out-closes c.config id c.proposal c.corp c.verdict s) c.done)
      (save_status-IsTallied id (closing c.verdict) c.proposal s c.stored t)

Migrated-IsTallied : (s s' : Storage) → Migrated s s' → IsTallied s → IsTallied s'
Migrated-IsTallied s s' m t = record {
  ordered = m.ordered;
  counted = λ id p e.
      let (q, f, filled) = m.filled id p e in
      let o = t.counted id q f in
      record {
        yes = rw (m.votes) (ground (arith, o.yes, filled));
        no = rw (m.votes) (ground (arith, o.no, filled));
        numbered = rw (m.proposal_count) (o.numbered);
      };
  unborn = λ choice id l. rw (m.votes) (t.unborn choice id (rw (m.proposal_count) at l));
}

-- In every history, migrations included, the two counters of each stored proposal are the numbers of
-- the votes of either kind that are stored for it, its number is one of those given out so far, and
-- the proposals are stored once each, in the order of their numbers.
pub Reach-IsTallied : {s : Storage} → Reach s → IsTallied s
Reach-IsTallied =
    Reach-induction IsTallied Blank-IsTallied
      (execute-cases (λ s s'. IsTallied s → IsTallied s') (λ s s' b. SameVotes-IsTallied b)
        (λ env s s' c. Created-IsTallied c) (λ env info id choice s s' v. Voted-IsTallied v)
        (λ env id s s' r c. Closed-IsTallied c))
      Migrated-IsTallied (λ s t. t.ordered)
