-- ===== src/Items/Transfers.antt =====
-- When a transfer of an item succeeds, and what it does.
use sysbreak_trust.Base.{
  ◌≡◌, ◌↔◌, arith, true, false, [], Text, find, is_ok, Has, text_key, number_key, pair_key,
}
use sysbreak_trust.Host.{Deps, MessageInfo}
use sysbreak_trust.Items.State.{Storage}
use sysbreak_trust.Items.Transfer.{execute_transfer_nft}
use sysbreak_trust.Items.Ownership.{MayAct}

-- What a transfer asks for: no coins, a contract that is not paused, a token, an address that is
-- valid, and a sender who may act for the owner.
pub record CanTransfer (d : Deps) (info : MessageInfo) (recipient id : Text) (s : Storage)
    : Type 0 where
  pub unpaid : info.funds ≡ []
  pub running : Has (λ config. config.paused ≡ false) s.config
  pub owned : Has (λ owner. MayAct info.sender owner id s) (find id s.token_owners)
  pub valid : Has (λ a. Unit {0}) (d.addr_validate recipient)

can_transfer :
    (d : Deps) (info : MessageInfo) (recipient id : Text) (s : Storage)
    → is_ok (execute_transfer_nft d info recipient id s) ≡ true
    → CanTransfer d info recipient id s
unfolding execute_transfer_nft
can_transfer d info recipient id s h = record {
  unpaid = ground arith;
  running = ground arith;
  owned = ground arith;
  valid = ground arith;
}

transfer_runs :
    (d : Deps) (info : MessageInfo) (recipient id : Text) (s : Storage)
    → CanTransfer d info recipient id s
    → is_ok (execute_transfer_nft d info recipient id s) ≡ true
unfolding execute_transfer_nft
transfer_runs d info recipient id s h = ground (arith, h.unpaid, h.running, h.owned, h.valid)

-- A transfer succeeds exactly if no coins come with it, the contract is not paused, the token has an
-- owner for whom the sender may act, as the owner, the approved spender or an operator, and the
-- recipient's address is valid.
pub transfer_accepted_iff :
    (d : Deps) (info : MessageInfo) (recipient id : Text) (s : Storage)
    → (is_ok (execute_transfer_nft d info recipient id s) ≡ true)
      ↔ CanTransfer d info recipient id s
transfer_accepted_iff d info recipient id s =
    (can_transfer d info recipient id s, transfer_runs d info recipient id s)
