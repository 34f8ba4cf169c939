-- ===== src/Bridge/Induction.antt =====
-- Induction over the histories of the credit bridge: what the records of the withdrawals satisfy
-- at the start, through a call that keeps them, and through a withdrawal.
use sysbreak_trust.Base.{
  ℕ, ◌≤◌, ◌≡◌, arith, ok, some, none, true, List, [], Text, is_some, OnOk, OnOk-apply,
}
use native.Mathlib.Nat.{le_refl}
use sysbreak_trust.Host.{Addr, Env, MessageInfo, Deps, Response}
use sysbreak_trust.Bridge.State.{Storage, ExecuteMsg, InstantiateMsg}
use sysbreak_trust.Bridge.Contract.{fresh, instantiate, execute, migrate}
use sysbreak_trust.Bridge.Trace.{Withdrawal, logged, Reach, start, call, upgrade}
use sysbreak_trust.Bridge.Frame.{
  SameBooks, Recorded, Withdrawn, execute_withdraw-Withdrawn, execute-SameBooks,
}

-- The records of a new bridge.
pub record Blank (s : Storage) : Type 0 where
  pub used_nonces : s.used_nonces ≡ []
  pub player_withdrawals : s.player_withdrawals ≡ []
  pub player_last_withdrawal : s.player_last_withdrawal ≡ []
  pub global_records : s.global_withdrawal_records ≡ []
  pub global_wd_counter : s.global_wd_counter ≡ some 0
  pub global_wd_oldest : s.global_wd_oldest ≡ some 0

-- The storage has the layout of this version, so that `migrate` finds nothing to convert.
pub record IsCurrent (s : Storage) : Type 0 where
  pub no_vec : s.global_withdrawals ≡ none
  pub counted : is_some s.global_wd_counter ≡ true
  pub pointed : is_some s.global_wd_oldest ≡ true

instantiate-Blank :
    (d : Deps) (msg : InstantiateMsg)
    → OnOk (λ p. Blank p.0 × IsCurrent p.0) (instantiate d msg fresh)
unfolding instantiate
instantiate-Blank d msg = ground arith

migrate-SameBooks : (s : Storage) → IsCurrent s → OnOk (λ p. SameBooks s p.0) (migrate s)
unfolding migrate
migrate-SameBooks s c = ground arith

SameBooks-IsCurrent : {s s' : Storage} → SameBooks s s' → IsCurrent s → IsCurrent s'
SameBooks-IsCurrent b c = ground arith

Recorded-IsCurrent :
    {env : Env} {player : Addr} {nonce : Text} {credits : ℕ} {s s' : Storage}
    → Recorded env player nonce credits s s'
    → IsCurrent s
    → IsCurrent s'
Recorded-IsCurrent r c = record {
  no_vec = ground arith;
  counted = ground (arith, r.new_counter);
  pointed = ground (arith, r.new_oldest);
}

module _ (P : Storage → List Withdrawal → ℕ → Type 0)
    (at_start : (s : Storage) (now : ℕ) → Blank s → P s [] now)
    (at_same : (s s' : Storage) (h : List Withdrawal) (now now' : ℕ)
      → SameBooks s s'
      → now ≤ now'
      → P s h now
      → P s' h now')
    (at_withdrawal : (d : Deps) (env : Env) (info : MessageInfo) (nonce : Text) (credits tokens : ℕ)
        (signature : Text) (s s' : Storage) (r : Response) (h : List Withdrawal) (now : ℕ)
      → Withdrawn d env info nonce credits tokens signature s s' r
      → now ≤ env.time
      → P s h now
      → P s'
          (logged env info (ExecuteMsg.withdraw nonce credits tokens signature) h)
          env.time) where
  execute_step :
      (d : Deps) (env : Env) (info : MessageInfo) (msg : ExecuteMsg) (s s' : Storage) (r : Response)
      (h : List Withdrawal) (now : ℕ)
      → now ≤ env.time
      → execute d env info msg s ≡ ok (s', r)
      → IsCurrent s × P s h now
      → IsCurrent s' × P s' (logged env info msg h) env.time
  unfolding execute
  execute_step d env info (ExecuteMsg.withdraw n c t g) s s' r h now later e (current, p) =
      let w = execute_withdraw-Withdrawn d env info n c t g s s' r e in
      (
        Recorded-IsCurrent w.recorded current,
        at_withdrawal d env info n c t g s s' r h now w later p,
      )
  execute_step d env info ExecuteMsg.deposit s s' r h now later e (current, p) =
      let b =
        OnOk-apply _ (execute-SameBooks d env info ExecuteMsg.deposit s (λ n c t g k. cc)) e in
      (SameBooks-IsCurrent b current, at_same s s' h now env.time b later p)
  execute_step d env info msg s s' r h now later e (current, p) =
      let b = OnOk-apply _ (execute-SameBooks d env info msg s (λ n c t g k. cc)) e in
      (SameBooks-IsCurrent b current, at_same s s' h now env.time b later p)

  Reach-both :
      {s : Storage} {h : List Withdrawal} {now : ℕ} → Reach s h now → IsCurrent s × P s h now
  Reach-both (start d msg {s} {r} now e) =
      let (blank, current) = OnOk-apply _ (instantiate-Blank d msg) e in
      (current, at_start s now blank)
  Reach-both (call {s} {s'} {r} {h} {h'} {now} d env info msg reached later e logs) =
      rw logs (execute_step d env info msg s s' r h now later e (Reach-both reached))
  Reach-both (upgrade {s} {s'} {r} {h} {now} reached e) =
      let (current, p) = Reach-both reached in
      let b = OnOk-apply _ (migrate-SameBooks s current) e in
      (SameBooks-IsCurrent b current, at_same s s' h now now b (le_refl now) p)

  pub Reach-induction : {s : Storage} {h : List Withdrawal} {now : ℕ} → Reach s h now → P s h now
  Reach-induction reached = (Reach-both reached).1
