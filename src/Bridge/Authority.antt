-- ===== src/Bridge/Authority.antt =====
-- Who may change the settings of the credit bridge.
use sysbreak_trust.Base.{◌≡◌, ◌⊎◌, arith, ok, some, none, OnOk, OnOk-intro, OnOk-apply, Has}
use sysbreak_trust.Host.{Env, MessageInfo, Deps, Response, Addr}
use sysbreak_trust.Bridge.State.{Config, Storage, ExecuteMsg}
use sysbreak_trust.Bridge.Treasury.{
  execute_deposit, execute_fund_treasury, execute_withdraw_treasury,
}
use sysbreak_trust.Bridge.Withdraw.{execute_withdraw}
use sysbreak_trust.Bridge.Admin.{
  execute_propose_oracle, execute_accept_oracle, execute_cancel_oracle_transfer,
  execute_update_rate, execute_update_fee, execute_update_limits, execute_pause, execute_unpause,
  execute_propose_owner, execute_accept_owner, execute_cancel_owner_transfer,
}
use sysbreak_trust.Bridge.Contract.{execute}
use sysbreak_trust.Bridge.Frame.{execute_withdraw-Withdrawn}

-- The settings with another owner, oracle and key.
abbrev pub with_roles : Config → Config → Config
with_roles c roles = record c {
  owner = roles.owner;
  oracle = roles.oracle;
  oracle_pubkey = roles.oracle_pubkey;
}

-- What a call by `sender` may do to the storage, where `c` are the settings and `after` the new ones.
pub record IsAllowed (sender : Addr) (s s' : Storage) (c after : Config) : Type 0 where
  pub owner_change :
      (after.owner ≡ c.owner)
      ⊎ Has (λ p. (sender ≡ p.proposed_owner) × (after.owner ≡ p.proposed_owner)) s.pending_owner
  pub oracle_change :
      ((after.oracle ≡ c.oracle) × (after.oracle_pubkey ≡ c.oracle_pubkey))
      ⊎ Has
          (λ p.
            (sender ≡ p.proposed_oracle)
            × (after.oracle ≡ p.proposed_oracle)
            × (after.oracle_pubkey ≡ p.proposed_pubkey))
          s.pending_oracle
  pub other_change : (after ≡ with_roles c after) ⊎ (sender ≡ c.owner)
  pub pending_owner_change :
      (s'.pending_owner ≡ s.pending_owner)
      ⊎ ((s'.pending_owner ≡ none) × Has (λ p. sender ≡ p.proposed_owner) s.pending_owner)
      ⊎ (sender ≡ c.owner)
  pub pending_oracle_change :
      (s'.pending_oracle ≡ s.pending_oracle)
      ⊎ ((s'.pending_oracle ≡ none) × Has (λ p. sender ≡ p.proposed_oracle) s.pending_oracle)
      ⊎ (sender ≡ c.owner)

execute-IsAllowed :
    (d : Deps) (env : Env) (info : MessageInfo) (msg : ExecuteMsg) (s : Storage) (c : Config)
    → s.config ≡ some c
    → OnOk (λ p. Has (IsAllowed info.sender s p.0 c) p.0.config) (execute d env info msg s)
unfolding execute execute_deposit execute_fund_treasury execute_withdraw_treasury
    execute_propose_oracle execute_accept_oracle execute_cancel_oracle_transfer execute_update_rate
    execute_update_fee execute_update_limits execute_pause execute_unpause execute_propose_owner
    execute_accept_owner execute_cancel_owner_transfer
execute-IsAllowed d env info (ExecuteMsg.withdraw n c t g) s config e =
    OnOk-intro _ (execute_withdraw d env info n c t g s) λ p h.
      let w = execute_withdraw-Withdrawn d env info n c t g s p.0 p.1 h in
      let same = w.recorded.settings in
      rw (same.config) (ground (arith, same.pending_owner, same.pending_oracle))
execute-IsAllowed d env info _ s c e = ground arith

-- A call that succeeds changes the owner only to the proposed owner who makes it, the oracle and
-- its key only to the proposed ones, by the proposed oracle, and any other setting only for the
-- owner; proposals are
-- made by the owner alone, and are ended only by him or by the one who is proposed.
pub execute_authority :
    (d : Deps) (env : Env) (info : MessageInfo) (msg : ExecuteMsg) (s : Storage) {s' : Storage}
    {r : Response} {c : Config}
    → s.config ≡ some c
    → execute d env info msg s ≡ ok (s', r)
    → Has (IsAllowed info.sender s s' c) s'.config
execute_authority d env info msg s {c = c} e h =
    OnOk-apply _ (execute-IsAllowed d env info msg s c e) h
