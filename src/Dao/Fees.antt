-- ===== src/Dao/Fees.antt =====
-- The fees that the owner of the corporation DAO takes out.
use sysbreak_trust.Base.{
  ℕ, ◌+◌, ◌≤◌, ◌<◌, ◌≡◌, arith, ok, some, [], ◌∷◌, Map, u128_max, inl, saturating_add, number_key,
  ◌⊎◌,
}
use sysbreak_trust.Host.{Deps, Env, MessageInfo, Response, bank_send}
use sysbreak_trust.Dao.State.{Config, Corporation, Storage}
use sysbreak_trust.Dao.Payouts.{total_tracked, execute_withdraw_fees}

-- The sum of the treasuries.
abbrev pub treasuries : Map ℕ Corporation → ℕ
treasuries [] = 0
treasuries ((id, corp) ∷ m) = corp.treasury_balance + treasuries m

total_tracked-treasuries :
    (m : Map ℕ Corporation) (acc : ℕ)
    → acc ≤ u128_max
    → ((total_tracked m acc ≡ acc + treasuries m) × (acc + treasuries m ≤ u128_max))
      ⊎ ((total_tracked m acc ≡ u128_max) × (u128_max < acc + treasuries m))
unfolding total_tracked
total_tracked-treasuries [] acc h = inl (omega arith, omega arith)
total_tracked-treasuries ((id, corp) ∷ m) acc h =
    ground (arith, total_tracked-treasuries m (saturating_add acc corp.treasury_balance))

-- Only the owner takes fees out, and gets exactly what he asked for. Where the balance that the bank
-- reports is a `Uint128`, it covers the amount together with the treasuries of all corporations.
pub fees_leave_treasuries :
    (d : Deps) (env : Env) (info : MessageInfo) (amount : ℕ) (s s' : Storage) (r : Response)
    (config : Config) (balance : ℕ)
    → s.config ≡ some config
    → d.query_balance env.contract config.denom ≡ some balance
    → balance ≤ u128_max
    → execute_withdraw_fees d env info amount s ≡ ok (s', r)
    → (info.sender ≡ config.owner)
      × (s' ≡ s)
      × (r.messages
          ≡ bank_send config.owner (record { denom = config.denom; amount = amount }) ∷ [])
      × (amount + treasuries s.corporations ≤ balance)
unfolding execute_withdraw_fees
fees_leave_treasuries d env info amount s s' r config balance has_config reported bound h =
    let t = total_tracked-treasuries s.corporations 0 (omega arith) in
    (ground arith, ground arith, ground arith, ground (arith, t))
