-- ===== src/Dao/Payouts.antt =====
-- The handlers of the corporation DAO that pay coins out besides proposals, and the transfer of its
-- ownership (contract.rs).
use sysbreak_trust.Base.{
  ℕ, Bool, true, false, not, some, none, [], ◌∷◌, Text, ltb, eqb, is_zero, is_some, Result, ok,
  ◌>>=◌, ◌>>◌, fail_if, or_err, unwrap_or, checked_sub, saturating_add, saturating_sub, Map, find,
  save, remove, number_key, pair_key,
}
use sysbreak_trust.Host.{Deps, Env, MessageInfo, bank_send, word, number, address, generic_err}
use sysbreak_trust.Dao.State.{
  Config, Corporation, CorporationStatus, dissolving, PendingOwnerTransfer, Storage, ContractError,
  std, unauthorized, zero_amount, nothing_to_claim, overflow, insufficient_surplus,
  no_owner_transfer_pending, not_pending_owner, owner_transfer_already_pending, Outcome,
}
use sysbreak_trust.Dao.Helpers.{load_config, validate_addr, load_corporation, reject_funds}
use sysbreak_trust.Dao.Members.{attributes_only, one_member_less}

abbrev pub is_dissolving_status : CorporationStatus → Bool
is_dissolving_status dissolving = true
is_dissolving_status _ = false

unfoldable pub execute_claim_dissolution : MessageInfo → ℕ → Storage → Outcome
unfolding reject_funds load_corporation one_member_less
execute_claim_dissolution info corp_id s = do
  reject_funds info
  corp ← load_corporation s corp_id
  fail_if (not (is_dissolving_status corp.status)) nothing_to_claim
  let share = unwrap_or 0 (find (corp_id, info.sender) s.dissolution_claims)
  fail_if (is_zero share) nothing_to_claim
  config ← load_config s
  corp' ← one_member_less corp
  balance ← or_err overflow (checked_sub corp.treasury_balance share)
  ok (
    record s {
      dissolution_claims = remove (corp_id, info.sender) s.dissolution_claims;
      members = remove (corp_id, info.sender) s.members;
      corporations = save corp_id (record corp' { treasury_balance = balance }) s.corporations;
    },
    record {
      messages = bank_send info.sender (record { denom = config.denom; amount = share }) ∷ [];
      attributes =
          ("action", word "claim_dissolution")
          ∷ ("corp_id", number corp_id)
          ∷ ("claimant", address info.sender)
          ∷ ("amount", number share)
          ∷ [];
    },
  )

-- The sum of the treasuries, cut off at the largest `Uint128`.
unfoldable pub total_tracked : Map ℕ Corporation → ℕ → ℕ
total_tracked [] acc = acc
total_tracked ((id, corp) ∷ rest) acc =
    total_tracked rest (saturating_add acc corp.treasury_balance)

abbrev pub owner_only : MessageInfo → Config → Result ContractError (Unit {0})
owner_only info config = fail_if (not (eqb info.sender config.owner)) (unauthorized "owner")

unfoldable pub execute_withdraw_fees : Deps → Env → MessageInfo → ℕ → Storage → Outcome
unfolding reject_funds
execute_withdraw_fees d env info amount s = do
  reject_funds info
  config ← load_config s
  owner_only info config
  fail_if (is_zero amount) zero_amount
  balance ← or_err (std generic_err) (d.query_balance env.contract config.denom)
  let surplus = saturating_sub balance (total_tracked s.corporations 0)
  fail_if (ltb surplus amount) (insufficient_surplus amount surplus)
  ok (
    s,
    record {
      messages = bank_send config.owner (record { denom = config.denom; amount = amount }) ∷ [];
      attributes =
          ("action", word "withdraw_fees")
          ∷ ("amount", number amount)
          ∷ ("surplus", number surplus)
          ∷ [];
    },
  )

unfoldable pub execute_propose_owner : Deps → MessageInfo → Text → Storage → Outcome
unfolding reject_funds
execute_propose_owner d info new_owner s = do
  reject_funds info
  config ← load_config s
  owner_only info config
  fail_if (is_some s.pending_owner) owner_transfer_already_pending
  proposed ← validate_addr d new_owner
  let pending : PendingOwnerTransfer = record { proposed_owner = proposed }
  ok (
    record s { pending_owner = some pending },
    attributes_only (("action", word "propose_owner") ∷ ("proposed_owner", address proposed) ∷ []),
  )

unfoldable pub execute_accept_owner : MessageInfo → Storage → Outcome
unfolding reject_funds
execute_accept_owner info s = do
  reject_funds info
  pending ← or_err no_owner_transfer_pending s.pending_owner
  fail_if (not (eqb info.sender pending.proposed_owner)) not_pending_owner
  config ← load_config s
  let config' : Config = record config { owner = pending.proposed_owner }
  ok (
    record s { config = some config'; pending_owner = none },
    attributes_only
        (("action", word "accept_owner") ∷ ("new_owner", address pending.proposed_owner) ∷ []),
  )

unfoldable pub execute_cancel_owner_transfer : MessageInfo → Storage → Outcome
unfolding reject_funds
execute_cancel_owner_transfer info s = do
  reject_funds info
  config ← load_config s
  owner_only info config
  fail_if (not (is_some s.pending_owner)) no_owner_transfer_pending
  ok (
    record s { pending_owner = none },
    attributes_only (("action", word "cancel_owner_transfer") ∷ []),
  )
