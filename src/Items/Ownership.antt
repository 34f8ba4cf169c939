-- ===== src/Items/Ownership.antt =====
-- Who can take an item out of its owner's hands.
use sysbreak_trust.Base.{
  ℕ, ◌+◌, ◌<◌, ◌≡◌, refl, sym, ◌∙◌, ap, arith, ok, some, none, true, false, Text, find, find-save,
  find-remove, OnOk-apply, u64_max, Bool-cases, inl, inr, ◌⊎◌, to_string, Result-cases,
  same_text_iff, text_key, number_key, pair_key, same_text, is_ok,
}
use sysbreak_trust.Host.{Addr, Deps, MessageInfo, Response}
use sysbreak_trust.Items.State.{Config, Storage, ExecuteMsg, MintRequest}
use sysbreak_trust.Items.Helpers.{is_authorized}
use sysbreak_trust.Items.Mint.{add_token, execute_burn}
use sysbreak_trust.Items.Transfer.{move_token, may_transfer, execute_transfer_nft, execute_send_nft}
use sysbreak_trust.Items.Contract.{execute}
use sysbreak_trust.Items.Steps.{
  execute_mint-mints, execute_batch_mint-mints, execute_transfer_nft-moves, execute_send_nft-moves,
  execute_approve-allows, execute_revoke-disallows, execute-SameBooks,
}
use sysbreak_trust.Items.Trace.{Reach, no_burn}
use sysbreak_trust.Items.Induction.{mint_single-keeps, mint_all-keeps}
use sysbreak_trust.Items.Exact.{IsExact, next_is_new}
use sysbreak_trust.Items.Numbering.{IsExact-IsKept, Reach-IsExact}

-- The sender may act for an owner on a token: it is the owner, the spender approved for the token,
-- or an operator of the owner.
abbrev pub MayAct : Addr → Addr → Text → Storage → Type 0
MayAct sender owner id s =
    (sender ≡ owner)
    ⊎ ((find id s.token_approvals ≡ some sender)
        ⊎ (find (owner, sender) s.operator_approvals ≡ some true))

-- A transfer by somebody who may act, while the contract is not paused; the approval is gone.
pub record MovedBy (info : MessageInfo) (config : Config) (id : Text) (owner : Addr)
    (s s' : Storage) : Type 0 where
  pub new_owner : Addr
  pub running : config.paused ≡ false
  pub may_act : MayAct info.sender owner id s
  pub moved : find id s'.token_owners ≡ some new_owner
  pub cleared : find id s'.token_approvals ≡ none

is_authorized-MayAct :
    (s : Storage) (id : Text) (sender owner : Addr)
    → find id s.token_owners ≡ some owner
    → is_authorized s id sender ≡ ok true
    → MayAct sender owner id s
unfolding is_authorized
is_authorized-MayAct s id sender owner e h = ground arith

may_transfer-guards :
    (info : MessageInfo) (id : Text) (s : Storage) (config : Config)
    → s.config ≡ some config
    → is_ok (may_transfer info id s) ≡ true
    → (config.paused ≡ false) × (is_authorized s id info.sender ≡ ok true)
unfolding may_transfer
may_transfer-guards info id s config e h = elim (Result-cases (is_authorized s id info.sender)) [
  | inl (true, f) ↦ (ground arith, f)
  | inl (false, f) ↦ absurd (ground arith)
  | inr f ↦ absurd (ground arith)
]

transfer-guarded :
    (d : Deps) (info : MessageInfo) (recipient id : Text) (s s' : Storage) (r : Response)
    → execute_transfer_nft d info recipient id s ≡ ok (s', r)
    → is_ok (may_transfer info id s) ≡ true
unfolding execute_transfer_nft
transfer-guarded d info recipient id s s' r h = ground arith

send-guarded :
    (d : Deps) (info : MessageInfo) (contract id msg : Text) (s s' : Storage) (r : Response)
    → execute_send_nft d info contract id msg s ≡ ok (s', r)
    → is_ok (may_transfer info id s) ≡ true
unfolding execute_send_nft
send-guarded d info contract id msg s s' r h = ground arith

-- After a move the token is as it was, or it is the token that was moved.
moved_cases :
    (info : MessageInfo) (config : Config) (t id : Text) (old new owner : Addr) (s s' : Storage)
    → s.config ≡ some config
    → is_ok (may_transfer info t s) ≡ true
    → find t s.token_owners ≡ some old
    → s' ≡ move_token t old new s
    → find id s.token_owners ≡ some owner
    → (find id s'.token_owners ≡ some owner) ⊎ MovedBy info config id owner s s'
moved_cases info config t id old new owner s s' c g e m f = elim (Bool-cases (same_text t id)) [
  | inl same ↦
      let it : t ≡ id = (same_text_iff t id).0 same in
      let (running, authorized) = may_transfer-guards info t s config c g in
      let authorized_id = ap (λ x. is_authorized s x info.sender) (sym it) ∙ authorized in
      inr (record {
        new_owner = new;
        running = running;
        may_act = is_authorized-MayAct s id info.sender owner f authorized_id;
        moved = rw m (ground (arith, find-save t id new s.token_owners));
        cleared = rw m (ground (arith, find-remove t id s.token_approvals));
      })
  | inr other ↦ inl (rw m (ground (arith, find-save t id new s.token_owners)))
]

-- A new token has a new number.
abbrev Holds : Text → Addr → Storage → Type 0
Holds id a s = IsExact s × (find id s.token_owners ≡ some a)

add_token-Holds :
    (id : Text) (owner a : Addr) (m : MintRequest) (n : ℕ) (s : Storage)
    → s.token_count ≡ some n
    → n < u64_max
    → Holds id owner s
    → Holds id owner (add_token a m (n + 1) s)
add_token-Holds id owner a m n s e room (x, f) = (
  IsExact-IsKept.at_add a m n s e room x,
  ground (
    arith,
    next_is_new n s e room x,
    find-save (to_string (n + 1)) id a s.token_owners,
    same_text_iff (to_string (n + 1)) id,
  ),
)

burn_cases :
    (info : MessageInfo) (config : Config) (t id : Text) (owner : Addr) (s s' : Storage)
    (r : Response)
    → s.config ≡ some config
    → execute_burn info t s ≡ ok (s', r)
    → find id s.token_owners ≡ some owner
    → (find id s'.token_owners ≡ some owner)
      ⊎ ((t ≡ id) × (info.sender ≡ config.minter) × (find id s'.token_owners ≡ none))
unfolding execute_burn
burn_cases info config t id owner s s' r c h f =
    ground (arith, find-remove t id s.token_owners, same_text_iff t id)

-- What can become of a token.
abbrev pub Fate : MessageInfo → Config → ExecuteMsg → Text → Addr → Storage → Storage → Type 0
Fate info config msg id owner s s' =
    (find id s'.token_owners ≡ some owner)
    ⊎ (MovedBy info config id owner s s'
        ⊎ ((msg ≡ ExecuteMsg.burn id)
            × (info.sender ≡ config.minter)
            × (find id s'.token_owners ≡ none)))

from_moved :
    {info : MessageInfo} {config : Config} {msg : ExecuteMsg} {id : Text} {owner : Addr}
    {s s' : Storage}
    → (find id s'.token_owners ≡ some owner) ⊎ MovedBy info config id owner s s'
    → Fate info config msg id owner s s'
from_moved (inl h) = inl h
from_moved (inr h) = inr (inl h)

-- After any history without burning, one more call of any message leaves a token with its owner, or
-- transfers it for its owner, its approved spender or an operator of its owner while the contract is
-- not paused, with its approval cleared, or burns it for the minter.
pub item_follows :
    (d : Deps) (info : MessageInfo) (msg : ExecuteMsg) {s s' : Storage} {r : Response}
    {config : Config} (id : Text) {owner : Addr}
    → Reach no_burn s
    → s.config ≡ some config
    → find id s.token_owners ≡ some owner
    → execute d info msg s ≡ ok (s', r)
    → Fate info config msg id owner s s'
unfolding execute
item_follows d info (ExecuteMsg.mint m) {s} {s'} {r} id {owner} h c f e =
    let (a, n, _, g) = execute_mint-mints d info m s s' r e in
    inl (
      (mint_single-keeps (Holds id owner) (add_token-Holds id owner) a m s s' n g
        (Reach-IsExact h, f)).1)
item_follows d info (ExecuteMsg.batch_mint ms) {s} {s'} {r} id {owner} h c f e =
    let (to, counts, _, g) = execute_batch_mint-mints d info ms s s' r e in
    inl (
      (mint_all-keeps (Holds id owner) (add_token-Holds id owner) to s s' counts g
        (Reach-IsExact h, f)).1)
item_follows d info (ExecuteMsg.transfer_nft a t) {s} {s'} {r} {config} id {owner} h c f e =
    let (old, new, g, m) = execute_transfer_nft-moves d info a t s s' r e in
    from_moved (
      moved_cases info config t id old new owner s s' c (transfer-guarded d info a t s s' r e) g m
        f)
item_follows d info (ExecuteMsg.send_nft a t msg) {s} {s'} {r} {config} id {owner} h c f e =
    let (old, new, g, m) = execute_send_nft-moves d info a t msg s s' r e in
    from_moved (
      moved_cases info config t id old new owner s s' c (send-guarded d info a t msg s s' r e) g m
        f)
item_follows d info (ExecuteMsg.approve b t) {s} {s'} {r} id h c f e =
    let (a, g, m) = execute_approve-allows d info b t s s' r e in inl (rw m f)
item_follows d info (ExecuteMsg.revoke t) {s} {s'} {r} id h c f e =
    let (g, m) = execute_revoke-disallows info t s s' r e in inl (rw m f)
item_follows d info (ExecuteMsg.burn t) {s} {s'} {r} {config} id {owner} h c f e =
    elim (burn_cases info config t id owner s s' r c e f) [
      | inl kept ↦ inl kept
      | inr (same, by, gone) ↦ inr (inr (ap ExecuteMsg.burn same, by, gone))
    ]
item_follows d info msg {s} id h c f e =
    let b = OnOk-apply _ (execute-SameBooks d info msg s refl) e in inl (rw (b.token_owners) f)
