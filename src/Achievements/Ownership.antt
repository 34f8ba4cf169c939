-- ===== src/Achievements/Ownership.antt =====
-- Who can take an achievement out of its owner's hands.
use sysbreak_trust.Base.{
  ℕ, ◌+◌, ◌<◌, ◌≡◌, refl, sym, ◌∙◌, ap, arith, ok, some, none, true, false, Text, find, find-save,
  find-remove, OnOk-apply, u64_max, Bool-cases, inl, inr, ◌⊎◌, to_string, Result-cases,
  same_text_iff, text_key, number_key, pair_key, same_text, is_ok,
}
use sysbreak_trust.Host.{Addr, Deps, MessageInfo, Response}
use sysbreak_trust.Achievements.State.{Config, TokenData, Storage, ExecuteMsg, MintRequest}
use sysbreak_trust.Achievements.Helpers.{is_authorized}
use sysbreak_trust.Achievements.Mint.{add_token, data_of, execute_burn}
use sysbreak_trust.Achievements.Transfer.{
  move_token, may_transfer, execute_transfer_nft, execute_send_nft,
}
use sysbreak_trust.Achievements.Contract.{execute}
use sysbreak_trust.Achievements.Steps.{
  execute_mint-mints, execute_batch_mint-mints, execute_transfer_nft-moves, execute_send_nft-moves,
  execute_approve-allows, execute_revoke-disallows, execute-SameBooks,
}
use sysbreak_trust.Achievements.Ledger.{moved}
use sysbreak_trust.Achievements.Trace.{Reach, no_burn}
use sysbreak_trust.Achievements.Induction.{mint_single-keeps, mint_all-keeps}
use sysbreak_trust.Achievements.Exact.{IsExact, next_is_new}
use sysbreak_trust.Achievements.Numbering.{IsExact-IsKept, achievement_numbering}

-- The sender may act for an owner on a token: it is the owner, the spender approved for the token,
-- or an operator of the owner.
abbrev pub MayAct : Addr → Addr → Text → Storage → Type 0
MayAct sender owner id s =
    (sender ≡ owner)
    ⊎ ((find id s.token_approvals ≡ some sender)
        ⊎ (find (owner, sender) s.operator_approvals ≡ some true))

-- A transfer by somebody who may act, while the contract is not paused; the approval is gone.
pub record MovedBy (info : MessageInfo) (config : Config) (id : Text) (token : TokenData)
    (s s' : Storage) : Type 0 where
  pub new_owner : Addr
  pub free : token.soulbound ≡ false
  pub running : config.paused ≡ false
  pub may_act : MayAct info.sender token.owner id s
  pub sent : find id s'.tokens ≡ some (moved token new_owner)
  pub cleared : find id s'.token_approvals ≡ none

is_authorized-MayAct :
    (s : Storage) (id : Text) (sender : Addr) (token : TokenData)
    → find id s.tokens ≡ some token
    → is_authorized s id sender ≡ ok true
    → MayAct sender token.owner id s
unfolding is_authorized
is_authorized-MayAct s id sender token e h = ground arith

may_transfer-guards :
    (info : MessageInfo) (id : Text) (s : Storage) (config : Config)
    → s.config ≡ some config
    → is_ok (may_transfer info id s) ≡ true
    → (config.paused ≡ false) × (is_authorized s id info.sender ≡ ok true)
unfolding may_transfer
may_transfer-guards info id s config e h = elim (Result-cases (is_authorized s id info.sender)) [
  | inl (true, f) ↦ (ground arith, f)
  | inl (false, f) ↦ absurd (ground arith)
  | inr f ↦ absurd (ground arith)
]

transfer-guarded :
    (d : Deps) (info : MessageInfo) (recipient id : Text) (s s' : Storage) (r : Response)
    → execute_transfer_nft d info recipient id s ≡ ok (s', r)
    → is_ok (may_transfer info id s) ≡ true
unfolding execute_transfer_nft
transfer-guarded d info recipient id s s' r h = ground arith

send-guarded :
    (d : Deps) (info : MessageInfo) (contract id msg : Text) (s s' : Storage) (r : Response)
    → execute_send_nft d info contract id msg s ≡ ok (s', r)
    → is_ok (may_transfer info id s) ≡ true
unfolding execute_send_nft
send-guarded d info contract id msg s s' r h = ground arith

-- After a move the token is as it was, or it is the token that was moved.
moved_cases :
    (info : MessageInfo) (config : Config) (t id : Text) (old token : TokenData) (new : Addr)
    (s s' : Storage)
    → s.config ≡ some config
    → is_ok (may_transfer info t s) ≡ true
    → find t s.tokens ≡ some old
    → old.soulbound ≡ false
    → s' ≡ move_token t old new s
    → find id s.tokens ≡ some token
    → (find id s'.tokens ≡ some token) ⊎ MovedBy info config id token s s'
moved_cases info config t id old token new s s' c g e free m f =
    elim (Bool-cases (same_text t id)) [
      | inl same ↦
          let it : t ≡ id = (same_text_iff t id).0 same in
          let (running, authorized) = may_transfer-guards info t s config c g in
          let authorized_id = ap (λ x. is_authorized s x info.sender) (sym it) ∙ authorized in
          let one : old ≡ token = ground (arith, e, f, it) in
          inr (record {
            new_owner = new;
            free = ground (arith, one);
            running = running;
            may_act = is_authorized-MayAct s id info.sender token f authorized_id;
            sent = rw m (ground (arith, one, find-save t id (moved old new) s.tokens));
            cleared = rw m (ground (arith, find-remove t id s.token_approvals));
          })
      | inr other ↦ inl (rw m (ground (arith, find-save t id (moved old new) s.tokens)))
    ]

-- A new token has a new number.
abbrev Holds : Text → TokenData → Storage → Type 0
Holds id token s = IsExact s × (find id s.tokens ≡ some token)

add_token-Holds :
    (id : Text) (token : TokenData) (a : Addr) (m : MintRequest) (n : ℕ) (s : Storage)
    → s.token_count ≡ some n
    → n < u64_max
    → find (a, m.achievement_id) s.achievement_index ≡ none
    → Holds id token s
    → Holds id token (add_token a m (n + 1) s)
add_token-Holds id token a m n s e room first (x, f) = (
  IsExact-IsKept.at_add a m n s e room first x,
  ground (
    arith,
    next_is_new n s e room x,
    find-save (to_string (n + 1)) id (data_of a m) s.tokens,
    same_text_iff (to_string (n + 1)) id,
  ),
)

burn_cases :
    (info : MessageInfo) (config : Config) (t id : Text) (token : TokenData) (s s' : Storage)
    (r : Response)
    → s.config ≡ some config
    → execute_burn info t s ≡ ok (s', r)
    → find id s.tokens ≡ some token
    → (find id s'.tokens ≡ some token)
      ⊎ ((t ≡ id) × (info.sender ≡ config.minter) × (find id s'.tokens ≡ none))
unfolding execute_burn
burn_cases info config t id token s s' r c h f =
    ground (arith, find-remove t id s.tokens, same_text_iff t id)

-- What can become of a token.
abbrev pub Fate : MessageInfo → Config → ExecuteMsg → Text → TokenData → Storage → Storage → Type 0
Fate info config msg id token s s' =
    (find id s'.tokens ≡ some token)
    ⊎ (MovedBy info config id token s s'
        ⊎ ((msg ≡ ExecuteMsg.burn id) × (info.sender ≡ config.minter) × (find id s'.tokens ≡ none)))

from_moved :
    {info : MessageInfo} {config : Config} {msg : ExecuteMsg} {id : Text} {token : TokenData}
    {s s' : Storage}
    → (find id s'.tokens ≡ some token) ⊎ MovedBy info config id token s s'
    → Fate info config msg id token s s'
from_moved (inl h) = inl h
from_moved (inr h) = inr (inl h)

-- After any history without burning, one more call of any message leaves a token as it is, or
-- transfers it, if it is not soulbound, for its owner, its approved spender or an operator of its
-- owner while the contract is not paused, with nothing changed but its owner and its approval
-- cleared, or burns it for the minter.
pub achievement_follows :
    (d : Deps) (info : MessageInfo) (msg : ExecuteMsg) {s s' : Storage} {r : Response}
    {config : Config} (id : Text) {token : TokenData}
    → Reach no_burn s
    → s.config ≡ some config
    → find id s.tokens ≡ some token
    → execute d info msg s ≡ ok (s', r)
    → Fate info config msg id token s s'
unfolding execute
achievement_follows d info (ExecuteMsg.mint m) {s} {s'} {r} id {token} h c f e =
    let (a, n, _, g) = execute_mint-mints d info m s s' r e in
    inl (
      (mint_single-keeps (Holds id token) (add_token-Holds id token) a m s s' n g
        (achievement_numbering h, f)).1)
achievement_follows d info (ExecuteMsg.batch_mint ms) {s} {s'} {r} id {token} h c f e =
    let (to, counts, _, g) = execute_batch_mint-mints d info ms s s' r e in
    inl (
      (mint_all-keeps (Holds id token) (add_token-Holds id token) to s s' counts g
        (achievement_numbering h, f)).1)
achievement_follows d info (ExecuteMsg.transfer_nft a t) {s} {s'} {r} {config} id {token} h c f e =
    let (old, new, g, free, _, m) = execute_transfer_nft-moves d info a t s s' r e in
    from_moved (
      moved_cases info config t id old token new s s' c (transfer-guarded d info a t s s' r e) g
        free m f)
achievement_follows d info (ExecuteMsg.send_nft a t msg) {s} {s'} {r} {config} id {token} h c f e =
    let (old, new, g, free, m) = execute_send_nft-moves d info a t msg s s' r e in
    from_moved (
      moved_cases info config t id old token new s s' c (send-guarded d info a t msg s s' r e) g
        free m f)
achievement_follows d info (ExecuteMsg.approve b t) {s} {s'} {r} id h c f e =
    let (a, k, g, free, m) = execute_approve-allows d info b t s s' r e in inl (rw m f)
achievement_follows d info (ExecuteMsg.revoke t) {s} {s'} {r} id h c f e =
    inl (rw (execute_revoke-disallows info t s s' r e) f)
achievement_follows d info (ExecuteMsg.burn t) {s} {s'} {r} {config} id {token} h c f e =
    elim (burn_cases info config t id token s s' r c e f) [
      | inl kept ↦ inl kept
      | inr (same, by, gone) ↦ inr (inr (ap ExecuteMsg.burn same, by, gone))
    ]
achievement_follows d info msg {s} id h c f e =
    let b = OnOk-apply _ (execute-SameBooks d info msg s refl) e in inl (rw (b.tokens) f)
