-- ===== src/Bridge/Trace.antt =====
-- The histories of the credit bridge: an instantiation, then calls of `execute` that succeed, at
-- times that do not fall. A call that fails or panics leaves no trace, since the host drops it.
use sysbreak_trust.Base.{ℕ, ◌≤◌, ◌≡◌, ok, List, [], ◌∷◌, Text}
use sysbreak_trust.Host.{Addr, Env, MessageInfo, Deps, Response}
use sysbreak_trust.Bridge.State.{Storage, InstantiateMsg, ExecuteMsg, WithdrawalRecord}
use sysbreak_trust.Bridge.Contract.{fresh, instantiate, execute, migrate}

-- What a history remembers of a withdrawal.
pub record Withdrawal : Type 0 where
  pub nonce : Text
  pub player : Addr
  pub credits : ℕ
  pub time : ℕ

abbrev pub as_record : Withdrawal → WithdrawalRecord
as_record w = record { amount_credits = w.credits; timestamp = w.time }

-- The history after one more successful call.
abbrev pub logged : Env → MessageInfo → ExecuteMsg → List Withdrawal → List Withdrawal
logged env info (ExecuteMsg.withdraw nonce credits tokens signature) h =
    record { nonce = nonce; player = info.sender; credits = credits; time = env.time } ∷ h
logged env info _ h = h

-- `Reach s h now`: the storage `s` is reached by a history with the withdrawals `h`, the latest
-- first, and the last call was at `now`.
pub data Reach : Storage → List Withdrawal → ℕ → Type 0 where
  start :
      (d : Deps) (msg : InstantiateMsg) {s : Storage} {r : Response} (now : ℕ)
      → instantiate d msg fresh ≡ ok (s, r)
      → Reach s [] now
  call :
      {s s' : Storage} {r : Response} {h h' : List Withdrawal} {now : ℕ} (d : Deps) (env : Env)
      (info : MessageInfo) (msg : ExecuteMsg)
      → Reach s h now
      → now ≤ env.time
      → execute d env info msg s ≡ ok (s', r)
      → h' ≡ logged env info msg h
      → Reach s' h' env.time
  upgrade :
      {s s' : Storage} {r : Response} {h : List Withdrawal} {now : ℕ}
      → Reach s h now
      → migrate s ≡ ok (s', r)
      → Reach s' h now
