-- ===== src/Dao/Migration.antt =====
-- What `migrate` of the corporation DAO does to the proposals and the votes.
use sysbreak_trust.Base.{
  ℕ, ◌≡◌, ◌⊎◌, inl, inr, refl, sym, ◌∙◌, arith, some, Map, [], ◌∷◌, find, save, find-save,
  number_key, pair_key, eqb, eqb_iff, is_zero, OnOk, IsAscending, IsAscending-save,
  IsAscending-IsFound, IsFound, number_order, Option-cases, Bool-cases,
}
use mathlib.Core.Path.{subst}
use sysbreak_trust.Dao.State.{Storage, Proposal}
use sysbreak_trust.Dao.Contract.{migrate, migrate_proposal, migrate_proposals}

-- A proposal is as it was, or its count of members, which was zero, is filled in.
abbrev pub IsFilled : Proposal → Proposal → Type 0
IsFilled q p =
    (p ≡ q)
    ⊎ ((q.member_count_snapshot ≡ 0)
        × (p ≡ record q { member_count_snapshot = p.member_count_snapshot }))

-- The votes and the number of proposals are as they were, and each proposal is the old one, or filled.
pub record Migrated (s s' : Storage) : Type 0 where
  pub votes : s'.votes ≡ s.votes
  pub proposal_count : s'.proposal_count ≡ s.proposal_count
  pub ordered : IsAscending s'.proposals
  pub filled :
      (id : ℕ) (p : Proposal)
      → find id s'.proposals ≡ some p
      → (q : Proposal) × (find id s.proposals ≡ some q) × IsFilled q p

migrate_proposal-cases :
    (id : ℕ) (p : Proposal) (s : Storage)
    → ((migrate_proposal id p s).votes ≡ s.votes)
      × ((migrate_proposal id p s).proposal_count ≡ s.proposal_count)
      × (((migrate_proposal id p s).proposals ≡ s.proposals)
          ⊎ ((n : ℕ) × (p.member_count_snapshot ≡ 0)
              × ((migrate_proposal id p s).proposals
                  ≡ save id (record p { member_count_snapshot = n }) s.proposals)))
unfolding migrate_proposal
migrate_proposal-cases id p s = elim (Option-cases (find p.corp_id s.corporations)) [
  | inl e ↦ (ground arith, ground arith, inl (ground arith))
  | inr (corp, e) ↦ elim (Bool-cases (is_zero p.member_count_snapshot)) [
    | inl z ↦ (ground arith, ground arith, inr (corp.member_count, ground arith, ground arith))
    | inr z ↦ (ground arith, ground arith, inl (ground arith))
  ]
]

migrate_proposal-Migrated :
    (id : ℕ) (p : Proposal) (before s : Storage)
    → find id before.proposals ≡ some p
    → Migrated before s
    → Migrated before (migrate_proposal id p s)
migrate_proposal-Migrated id p before s stored m =
    let (votes, counts, change) = migrate_proposal-cases id p s in
    elim change [
      | inl same ↦ record {
        votes = votes ∙ m.votes;
        proposal_count = counts ∙ m.proposal_count;
        ordered = subst IsAscending (sym same) m.ordered;
        filled = λ i q e. m.filled i q (rw same at e);
      }
      | inr (n, zero_members, saved) ↦
          let new : Proposal = record p { member_count_snapshot = n } in
          record {
            votes = votes ∙ m.votes;
            proposal_count = counts ∙ m.proposal_count;
            ordered = subst IsAscending (sym saved) (IsAscending-save id new s.proposals m.ordered);
            filled = λ i q e.
                let e' = rw saved at e in
                elim (Bool-cases (eqb id i)) [
                  | inl same ↦
                      let is : new ≡ q = ground (arith, find-save id i new s.proposals) in
                      (
                        p,
                        ground (arith, eqb_iff id i),
                        inr (
                          zero_members,
                          subst
                              (λ x.
                                x ≡ record p { member_count_snapshot = x.member_count_snapshot })
                              is refl,
                        ),
                      )
                  | inr other ↦ m.filled i q (ground (arith, find-save id i new s.proposals))
                ];
          }
    ]

migrate_proposals-Migrated :
    (m : Map ℕ Proposal) (before s : Storage)
    → IsFound m before.proposals
    → Migrated before s
    → Migrated before (migrate_proposals m s)
unfolding migrate_proposals
migrate_proposals-Migrated [] before s f h = h
migrate_proposals-Migrated ((id, p) ∷ rest) before s f h =
    migrate_proposals-Migrated rest before (migrate_proposal id p s) f.1
      (migrate_proposal-Migrated id p before s f.0 h)

pub migrate-Migrated :
    (s : Storage) → IsAscending s.proposals → OnOk (λ p. Migrated s p.0) (migrate s)
unfolding migrate
migrate-Migrated s h =
    let m = migrate_proposals-Migrated s.proposals s s (IsAscending-IsFound s.proposals h) (record {
      votes = refl;
      proposal_count = refl;
      ordered = h;
      filled = λ id p e. (p, e, inl refl);
    }) in
    record {
      votes = m.votes;
      proposal_count = m.proposal_count;
      ordered = m.ordered;
      filled = m.filled;
    }
