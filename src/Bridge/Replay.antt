-- ===== src/Bridge/Replay.antt =====
-- Replay protection of the credit bridge: the nonces that the storage marks are those of the
-- withdrawals so far, and none of them passes again.
use sysbreak_trust.Base.{
  ℕ, ◌≤◌, ◌≡◌, arith, ok, true, false, Bool, List, [], ◌∷◌, Text, unwrap_or, find, find-save,
  text_key, same_text, if◌then◌else◌, sym, ◌∙◌,
}
use sysbreak_trust.Host.{Env, MessageInfo, Deps, Response}
use sysbreak_trust.Bridge.State.{Config, Storage, ExecuteMsg}
use sysbreak_trust.Bridge.Withdraw.{authorize}
use sysbreak_trust.Bridge.Trace.{Withdrawal, logged, Reach}
use sysbreak_trust.Bridge.Frame.{Withdrawn}
use sysbreak_trust.Bridge.Induction.{Blank, Reach-induction}

-- Whether a withdrawal of the history had this nonce.
abbrev pub was_used : Text → List Withdrawal → Bool
was_used n [] = false
was_used n (w ∷ h) = if same_text w.nonce n then true else was_used n h

-- No two withdrawals have the same nonce.
abbrev pub HasDistinctNonces : List Withdrawal → Type 0
HasDistinctNonces [] = Unit
HasDistinctNonces (w ∷ h) = (was_used w.nonce h ≡ false) × HasDistinctNonces h

-- What the storage marks as used, and that the history repeats no nonce.
pub record IsMarked (s : Storage) (h : List Withdrawal) (now : ℕ) : Type 0 where
  pub marks : (n : Text) → unwrap_or false (find n s.used_nonces) ≡ was_used n h
  pub distinct : HasDistinctNonces h

-- The replay check is among those that a withdrawal passes.
authorize-unused :
    (d : Deps) (env : Env) (info : MessageInfo) (config : Config) (nonce : Text)
    (credits tokens : ℕ) (signature : Text) (s : Storage) (fee : ℕ)
    → authorize d env info config nonce credits tokens signature s ≡ ok fee
    → unwrap_or false (find nonce s.used_nonces) ≡ false
unfolding authorize
authorize-unused d env info config nonce credits tokens signature s fee h = ground arith

Blank-IsMarked : (s : Storage) (now : ℕ) → Blank s → IsMarked s [] now
unfolding find
Blank-IsMarked s now b = record { marks = λ n. rw (b.used_nonces); distinct = tt }

Recorded-IsMarked :
    (d : Deps) (env : Env) (info : MessageInfo) (nonce : Text) (credits tokens : ℕ)
    (signature : Text) (s s' : Storage) (r : Response) (h : List Withdrawal) (now : ℕ)
    → Withdrawn d env info nonce credits tokens signature s s' r
    → now ≤ env.time
    → IsMarked s h now
    → IsMarked s' (logged env info (ExecuteMsg.withdraw nonce credits tokens signature) h) env.time
Recorded-IsMarked d env info nonce credits tokens signature s s' r h now w later m =
    let unused =
      authorize-unused d env info w.config nonce credits tokens signature s w.fee w.authorized in
    record {
      marks = λ n.
          rw (w.recorded.used_nonces)
            (rw (find-save nonce n true s.used_nonces) (ground (arith, m.marks n)));
      distinct = (sym (m.marks nonce) ∙ unused, m.distinct);
    }

-- In every history the storage marks exactly the nonces of the withdrawals, and these differ.
pub Reach-IsMarked :
    {s : Storage} {h : List Withdrawal} {now : ℕ} → Reach s h now → IsMarked s h now
Reach-IsMarked =
    Reach-induction IsMarked Blank-IsMarked
      (λ s s' h now now' b later m. record {
        marks = λ n. rw (b.used_nonces) (m.marks n);
        distinct = m.distinct;
      })
      Recorded-IsMarked
