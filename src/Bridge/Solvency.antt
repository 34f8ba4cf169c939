-- ===== src/Bridge/Solvency.antt =====
-- The coins that leave the credit bridge: what a withdrawal and the owner's drawing pay out, and
-- the reserve that they leave.
use sysbreak_trust.Base.{
  ℕ, ◌+◌, ◌*◌, ◌/◌, ◌≤◌, ◌<◌, ◌≡◌, ◌⊎◌, arith, ok, some, List, [], ◌∷◌, inl, inr, Option-cases,
}
use sysbreak_trust.Host.{Env, MessageInfo, Deps, Response, Addr, Message, bank_send}
use sysbreak_trust.Bridge.State.{Config, Storage}
use sysbreak_trust.Bridge.Treasury.{execute_withdraw_treasury}

-- The player gets one amount, and the treasury the other, where that is not zero; nobody else is paid.
abbrev pub IsPaidOut : Config → Addr → ℕ → ℕ → List Message → Type 0
IsPaidOut config player net fee messages =
    ((fee ≡ 0) × (messages ≡ bank_send player (record { denom = config.denom; amount = net }) ∷ []))
    ⊎ ((0 < fee)
        × (messages
            ≡ bank_send player (record { denom = config.denom; amount = net })
              ∷ bank_send config.treasury (record { denom = config.denom; amount = fee })
              ∷ []))

-- The gross value of some credits, and the fee of the treasury, each rounded down.
abbrev pub gross_of : Config → ℕ → ℕ
gross_of config credits = credits * config.rate_tokens / config.rate_credits

abbrev pub fee_of : Config → ℕ → ℕ
fee_of config credits = gross_of config credits * config.fee_bps / 10_000

-- Only the owner draws from the treasury. The draw has one payment, of exactly the amount asked for
-- and to the owner, changes nothing in the storage, and goes only down to the reserve.
pub withdraw_treasury_keeps_reserve :
    (d : Deps) (env : Env) (info : MessageInfo) (amount : ℕ) (s : Storage) {s' : Storage}
    {r : Response} {config : Config}
    → s.config ≡ some config
    → execute_withdraw_treasury d env info amount s ≡ ok (s', r)
    → (balance : ℕ) × (info.sender ≡ config.owner)
      × (s' ≡ s)
      × (r.messages
          ≡ bank_send config.owner (record { denom = config.denom; amount = amount }) ∷ [])
      × (d.query_balance env.contract config.denom ≡ some balance)
      × (amount + config.min_reserve ≤ balance)
unfolding execute_withdraw_treasury
withdraw_treasury_keeps_reserve d env info amount s {s'} {r} {config} e k =
    elim (Option-cases (d.query_balance env.contract config.denom)) [
      | inl x ↦ absurd (ground arith)
      | inr (b, x) ↦ (b, ground arith, ground arith, ground arith, x, ground arith)
    ]
