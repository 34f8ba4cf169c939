-- ===== src/Bridge/Validity.antt =====
-- The settings of the credit bridge stay valid: no handler stores a zero rate, a fee above the
-- whole, or a key of a wrong length.
use sysbreak_trust.Base.{
  ℕ, ◌≤◌, ◌<◌, ◌≡◌, ◌⊎◌, arith, length, Text, Every, Has, OnOk, OnOk-intro, OnOk-apply, List,
}
use sysbreak_trust.Host.{Env, MessageInfo, Deps}
use sysbreak_trust.Bridge.State.{Config, Storage, InstantiateMsg, ExecuteMsg}
use sysbreak_trust.Bridge.Treasury.{
  execute_deposit, execute_fund_treasury, execute_withdraw_treasury,
}
use sysbreak_trust.Bridge.Withdraw.{execute_withdraw}
use sysbreak_trust.Bridge.Admin.{
  execute_propose_oracle, execute_accept_oracle, execute_cancel_oracle_transfer,
  execute_update_rate, execute_update_fee, execute_update_limits, execute_pause, execute_unpause,
  execute_propose_owner, execute_accept_owner, execute_cancel_owner_transfer,
}
use sysbreak_trust.Bridge.Contract.{instantiate, execute, migrate, fresh}
use sysbreak_trust.Bridge.Frame.{SameSettings, execute_withdraw-Withdrawn}
use sysbreak_trust.Bridge.Trace.{Withdrawal, Reach, start, call, upgrade}

abbrev pub IsKey : Text → Type 0
IsKey k = (length k ≡ 33) ⊎ (length k ≡ 65)

pub record IsValidConfig (c : Config) : Type 0 where
  pub credits_pos : 0 < c.rate_credits
  pub tokens_pos : 0 < c.rate_tokens
  pub fee_le : c.fee_bps ≤ 10_000
  pub key : IsKey c.oracle_pubkey

-- The settings that are stored, and the key that may be accepted next.
pub record IsValid (s : Storage) : Type 0 where
  pub config_valid : Has IsValidConfig s.config
  pub pending_valid : Every (λ p. IsKey p.proposed_pubkey) s.pending_oracle

SameSettings-IsValid : {s s' : Storage} → SameSettings s s' → IsValid s → IsValid s'
SameSettings-IsValid same v = record {
  config_valid = rw (same.config) (v.config_valid);
  pending_valid = rw (same.pending_oracle) (v.pending_valid);
}

execute-IsValid :
    (d : Deps) (env : Env) (info : MessageInfo) (msg : ExecuteMsg) (s : Storage)
    → IsValid s
    → OnOk (λ p. IsValid p.0) (execute d env info msg s)
unfolding execute execute_deposit execute_fund_treasury execute_withdraw_treasury
    execute_propose_oracle execute_accept_oracle execute_cancel_oracle_transfer execute_update_rate
    execute_update_fee execute_update_limits execute_pause execute_unpause execute_propose_owner
    execute_accept_owner execute_cancel_owner_transfer
execute-IsValid d env info (ExecuteMsg.withdraw n c t g) s v =
    OnOk-intro _ (execute_withdraw d env info n c t g s) λ p e.
      let w = execute_withdraw-Withdrawn d env info n c t g s p.0 p.1 e in
      SameSettings-IsValid w.recorded.settings v
execute-IsValid d env info _ s v = ground arith

instantiate-IsValid :
    (d : Deps) (msg : InstantiateMsg) → OnOk (λ p. IsValid p.0) (instantiate d msg fresh)
unfolding instantiate
instantiate-IsValid d msg = ground arith

migrate-IsValid : (s : Storage) → IsValid s → OnOk (λ p. IsValid p.0) (migrate s)
unfolding migrate
migrate-IsValid s v = ground arith

-- In every history the bridge has settings, with rates above zero, a fee of at most the whole and a
-- key of 33 or 65 bytes; a pending oracle has a key of such a length too.
pub Reach-IsValid : {s : Storage} {h : List Withdrawal} {now : ℕ} → Reach s h now → IsValid s
Reach-IsValid (start d msg now e) = OnOk-apply _ (instantiate-IsValid d msg) e
Reach-IsValid (call d env info msg reached later e logs) =
    OnOk-apply _ (execute-IsValid d env info msg _ (Reach-IsValid reached)) e
Reach-IsValid (upgrade reached e) = OnOk-apply _ (migrate-IsValid _ (Reach-IsValid reached)) e
