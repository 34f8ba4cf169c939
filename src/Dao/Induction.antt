-- ===== src/Dao/Induction.antt =====
-- Induction over the histories of the corporation DAO: what holds of the proposals and the votes at
-- the start, through a call that leaves them alone, and through one that creates a proposal, counts
-- a vote or closes a proposal.
use sysbreak_trust.Base.{
  ℕ, ◌≡◌, ok, some, Bool, [], OnOk, OnOk-apply, arith, refl, IsAscending, number_key,
}
use sysbreak_trust.Host.{Deps, Env, MessageInfo, Response}
use sysbreak_trust.Dao.State.{Storage, ExecuteMsg, InstantiateMsg}
use sysbreak_trust.Dao.Contract.{fresh, instantiate, execute}
use sysbreak_trust.Dao.Votes.{SameVotes, execute-SameVotes}
use sysbreak_trust.Dao.Steps.{
  Created, Voted, Closed, execute_create_proposal-Created, execute_vote-Voted,
  execute_execute_proposal-Closed,
}
use sysbreak_trust.Dao.Migration.{Migrated, migrate-Migrated}
use sysbreak_trust.Dao.Trace.{Reach, start, call, upgrade}

-- A DAO without proposals.
pub record Blank (s : Storage) : Type 0 where
  pub proposal_count : s.proposal_count ≡ some 0
  pub proposals : s.proposals ≡ []
  pub votes : s.votes ≡ []

instantiate-Blank :
    (d : Deps) (msg : InstantiateMsg) → OnOk (λ p. Blank p.0) (instantiate d msg fresh)
unfolding instantiate
instantiate-Blank d msg = ground arith

module _ (P : Storage → Storage → Type 0) (at_same : (s s' : Storage) → SameVotes s s' → P s s')
    (at_create : (env : Env) (s s' : Storage) → Created env s s' → P s s')
    (at_vote : (env : Env) (info : MessageInfo) (id : ℕ) (choice : Bool) (s s' : Storage)
      → Voted env info id choice s s'
      → P s s')
    (at_close : (env : Env) (id : ℕ) (s s' : Storage) (r : Response)
      → Closed env id s s' r
      → P s s') where
  -- What every call of `execute` does, from what each kind of call does.
  pub execute-cases :
      (d : Deps) (env : Env) (info : MessageInfo) (msg : ExecuteMsg) (s s' : Storage) (r : Response)
      → execute d env info msg s ≡ ok (s', r)
      → P s s'
  unfolding execute
  execute-cases d env info (ExecuteMsg.create_proposal c t) s s' r h =
      at_create env s s' (OnOk-apply _ (execute_create_proposal-Created d env info c t s) h)
  execute-cases d env info (ExecuteMsg.vote id choice) s s' r h =
      at_vote env info id choice s s' (execute_vote-Voted env info id choice s s' r h)
  execute-cases d env info (ExecuteMsg.execute_proposal id) s s' r h =
      at_close env id s s' r (execute_execute_proposal-Closed env info id s s' r h)
  execute-cases d env info msg s s' r h =
      at_same s s' (OnOk-apply _ (execute-SameVotes d env info msg s refl) h)

module _ (I : Storage → Type 0) (at_start : (s : Storage) → Blank s → I s)
    (at_call : (d : Deps) (env : Env) (info : MessageInfo) (msg : ExecuteMsg) (s s' : Storage)
        (r : Response)
      → execute d env info msg s ≡ ok (s', r)
      → I s
      → I s')
    (at_migrate : (s s' : Storage) → Migrated s s' → I s → I s')
    (ordered : (s : Storage) → I s → IsAscending s.proposals) where
  pub Reach-induction : {s : Storage} → Reach s → I s
  Reach-induction (start d msg e) = at_start _ (OnOk-apply _ (instantiate-Blank d msg) e)
  Reach-induction (call d env info msg h e) = at_call d env info msg _ _ _ e (Reach-induction h)
  Reach-induction (upgrade {s} h e) =
      let i = Reach-induction h in
      at_migrate s _ (OnOk-apply _ (migrate-Migrated s (ordered s i)) e) i
