-- ===== src/Achievements/Admin.antt =====
-- The handlers of the achievement NFT that change its settings (contract.rs): the two-step transfers of
-- the minter and of the owner, the pause, and the sweep of coins.
use sysbreak_trust.Base.{
  ℕ, true, false, none, some, [], ◌∷◌, not, Text, eqb, is_some, Result, ok, ◌>>=◌, ◌>>◌, fail_if,
  or_err,
}
use sysbreak_trust.Host.{MessageInfo, Deps, bank_send, word, number, address}
use sysbreak_trust.Achievements.State.{
  Config, Storage, ContractError, PendingMinterTransfer, PendingOwnerTransfer, not_paused,
  no_minter_transfer_pending, not_pending_minter, minter_transfer_already_pending,
  no_owner_transfer_pending, not_pending_owner, owner_transfer_already_pending, Outcome,
}
use sysbreak_trust.Achievements.Helpers.{load_config, validate_addr, assert_owner, reject_funds}
use sysbreak_trust.Achievements.Mint.{attributes_only}

-- `CONFIG.update(deps.storage, |mut c| …)?`
abbrev pub update_config : (Config → Config) → Storage → Result ContractError Storage
update_config change s = do config ← load_config s; ok (record s { config = some (change config) })

-- The guards with which the handlers of the owner begin.
unfoldable pub owner_only : MessageInfo → Storage → Result ContractError (Unit {0})
unfolding reject_funds assert_owner
owner_only info s = do reject_funds info; assert_owner s info.sender

unfoldable pub execute_propose_minter : Deps → MessageInfo → Text → Storage → Outcome
unfolding owner_only
execute_propose_minter d info new_minter s = do
  owner_only info s
  fail_if (is_some s.pending_minter) minter_transfer_already_pending
  proposed ← validate_addr d new_minter
  let pending : PendingMinterTransfer = record { proposed_minter = proposed }
  ok (
    record s { pending_minter = some pending },
    attributes_only
        (("action", word "propose_minter") ∷ ("proposed_minter", address proposed) ∷ []),
  )

unfoldable pub execute_accept_minter : MessageInfo → Storage → Outcome
unfolding reject_funds
execute_accept_minter info s = do
  reject_funds info
  pending ← or_err no_minter_transfer_pending s.pending_minter
  fail_if (not (eqb info.sender pending.proposed_minter)) not_pending_minter
  s' ← update_config (λ c. record c { minter = pending.proposed_minter }) s
  ok (
    record s' { pending_minter = none },
    attributes_only
        (("action", word "accept_minter") ∷ ("new_minter", address pending.proposed_minter) ∷ []),
  )

unfoldable pub execute_cancel_minter_transfer : MessageInfo → Storage → Outcome
unfolding owner_only
execute_cancel_minter_transfer info s = do
  owner_only info s
  fail_if (not (is_some s.pending_minter)) no_minter_transfer_pending
  ok (
    record s { pending_minter = none },
    attributes_only (("action", word "cancel_minter_transfer") ∷ []),
  )

unfoldable pub execute_pause : MessageInfo → Storage → Outcome
unfolding owner_only
execute_pause info s = do
  owner_only info s
  s' ← update_config (λ c. record c { paused = true }) s
  ok (s', attributes_only (("action", word "pause") ∷ []))

unfoldable pub execute_unpause : MessageInfo → Storage → Outcome
unfolding owner_only
execute_unpause info s = do
  owner_only info s
  config ← load_config s
  fail_if (not config.paused) not_paused
  s' ← update_config (λ c. record c { paused = false }) s
  ok (s', attributes_only (("action", word "unpause") ∷ []))

unfoldable pub execute_propose_owner : Deps → MessageInfo → Text → Storage → Outcome
unfolding owner_only
execute_propose_owner d info new_owner s = do
  owner_only info s
  fail_if (is_some s.pending_owner) owner_transfer_already_pending
  proposed ← validate_addr d new_owner
  let pending : PendingOwnerTransfer = record { proposed_owner = proposed }
  ok (
    record s { pending_owner = some pending },
    attributes_only (("action", word "propose_owner") ∷ ("proposed_owner", address proposed) ∷ []),
  )

unfoldable pub execute_accept_owner : MessageInfo → Storage → Outcome
unfolding reject_funds
execute_accept_owner info s = do
  reject_funds info
  pending ← or_err no_owner_transfer_pending s.pending_owner
  fail_if (not (eqb info.sender pending.proposed_owner)) not_pending_owner
  s' ← update_config (λ c. record c { owner = pending.proposed_owner }) s
  ok (
    record s' { pending_owner = none },
    attributes_only
        (("action", word "accept_owner") ∷ ("new_owner", address pending.proposed_owner) ∷ []),
  )

unfoldable pub execute_cancel_owner_transfer : MessageInfo → Storage → Outcome
unfolding owner_only
execute_cancel_owner_transfer info s = do
  owner_only info s
  fail_if (not (is_some s.pending_owner)) no_owner_transfer_pending
  ok (
    record s { pending_owner = none },
    attributes_only (("action", word "cancel_owner_transfer") ∷ []),
  )

unfoldable pub execute_sweep_funds : Deps → MessageInfo → Text → ℕ → Text → Storage → Outcome
unfolding owner_only
execute_sweep_funds d info denom amount recipient s = do
  owner_only info s
  recipient_addr ← validate_addr d recipient
  ok (
    s,
    record {
      messages = bank_send recipient_addr (record { denom = denom; amount = amount }) ∷ [];
      attributes =
          ("action", word "sweep_funds")
          ∷ ("amount", number amount)
          ∷ ("recipient", address recipient_addr)
          ∷ [];
    },
  )
