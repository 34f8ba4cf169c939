-- ===== src/Dao/Roster.antt =====
-- How calls change the members of a corporation: joining, accepting an invitation, being kicked.
use sysbreak_trust.Base.{
  ℕ, ◌+◌, ◌-◌, [], ◌<◌, ◌≡◌, sym, ap, ◌∙◌, arith, ok, some, none, true, find, save, remove,
  find-remove, find-save_self, number_key, pair_key, ◌⊎◌, eqb, if◌then◌else◌, ◌&&◌, is_some,
}
use sysbreak_trust.Host.{Addr, Env, MessageInfo, Response}
use sysbreak_trust.Dao.State.{
  Config, Corporation, CorporationStatus, Proposal, ProposalType, Storage, MemberRole, executed,
  open_to_all,
}
use sysbreak_trust.Dao.Execution.{
  Effect, apply_proposal, apply_kick, execute_execute_proposal, save_status,
}
use sysbreak_trust.Dao.Spending.{IsCarried, carried-carry_out, carry_out-true}

-- A corporation with one member more: `sender`, with the lowest role, from now on.
pub record Admitted (env : Env) (sender : Addr) (id : ℕ) (s s' : Storage) : Type 0 where
  pub corp : Corporation
  pub stored : find id s.corporations ≡ some corp
  pub is_active : corp.status ≡ CorporationStatus.active
  pub had_room : corp.member_count < corp.max_members
  pub was_outside : find (id, sender) s.members ≡ none
  pub corporations :
      s'.corporations
      ≡ save id (record corp { member_count = corp.member_count + 1 }) s.corporations
  pub members :
      s'.members
      ≡ save (id, sender) (record { role = MemberRole.member; joined_at = env.time }) s.members

-- The corporation is open to all, or the caller had an invitation, which is used up.
abbrev pub IsLetIn : Addr → ℕ → Corporation → Storage → Storage → Type 0
IsLetIn sender id corp s s' =
    (corp.join_policy ≡ open_to_all)
    ⊎ ((is_some (find (id, sender) s.invites) ≡ true) × (find (id, sender) s'.invites ≡ none))

kick-lowers :
    (config : Config) (p : Proposal) (corp : Corporation) (target : Addr) (s : Storage) (e : Effect)
    → apply_proposal config p corp (ProposalType.kick_member target) s ≡ ok e
    → (1 < corp.member_count)
      × (e.sends ≡ [])
      × (e.state ≡ record s {
        members = remove (p.corp_id, target) s.members;
        corporations =
            save p.corp_id (record corp { member_count = corp.member_count - 1 }) s.corporations;
      })
unfolding apply_proposal apply_kick
kick-lowers config p corp target s e h = (ground arith, ground arith, ground arith)

-- A carried proposal to kick somebody takes that address off the members, leaves all others, and
-- lowers the count by one, which was above one; also where the address was not a member.
pub kick_lowers_count :
    (env : Env) (info : MessageInfo) (id : ℕ) (s s' : Storage) (r : Response) (config : Config)
    (p : Proposal) (corp : Corporation) (target : Addr)
    → execute_execute_proposal env info id s ≡ ok (s', r)
    → s.config ≡ some config
    → find id s.proposals ≡ some p
    → find p.corp_id s.corporations ≡ some corp
    → p.proposal_type ≡ ProposalType.kick_member target
    → IsCarried p corp
    → (1 < corp.member_count)
      × (find p.corp_id s'.corporations
          ≡ some (record corp { member_count = corp.member_count - 1 }))
      × ((c : ℕ) (a : Addr)
          → find (c, a) s'.members
            ≡ (if eqb p.corp_id c && eqb target a then none else find (c, a) s.members))
kick_lowers_count env info id s s' r config p corp target h has_config stored has_corp kind
      carried =
    let done =
      carried-carry_out env info id s s' r config p corp h has_config stored has_corp carried in
    let (effect, applied, state, sends) = carry_out-true config id p corp s s' r done in
    let opened = save_status id executed p s in
    let kicked = ap (λ t. apply_proposal config p corp t opened) (sym kind) ∙ applied in
    let (several, no_sends, state2) = kick-lowers config p corp target opened effect kicked in
    (
      several,
      rw state (rw state2 (find-save_self p.corp_id _ s.corporations)),
      λ c a. rw state (rw state2 (find-remove (p.corp_id, target) (c, a) s.members)),
    )
