-- ===== src/Items/Steps.antt =====
-- What each call does to the books of the item NFT: the count, the tokens, their owners, the index
-- and the approvals.
use sysbreak_trust.Base.{
  ℕ, ◌+◌, ◌<◌, ◌≡◌, arith, ok, some, Bool, true, false, List, ◌∷◌, Text, OnOk, find, save, remove,
  saturating_sub, u64_max, Result-cases, Option-cases, inl, inr, text_key, pair_key, number_key,
}
use sysbreak_trust.Host.{Addr, Deps, MessageInfo, Response}
use sysbreak_trust.Items.State.{Storage, ExecuteMsg, MintRequest}
use sysbreak_trust.Items.Mint.{
  add_token, mint_single, mint_all, validate_all, execute_mint, execute_batch_mint, execute_burn,
}
use sysbreak_trust.Items.Transfer.{
  move_token, execute_transfer_nft, execute_send_nft, execute_approve, execute_revoke,
  execute_approve_all, execute_revoke_all,
}
use sysbreak_trust.Items.Admin.{
  execute_propose_minter, execute_accept_minter, execute_cancel_minter_transfer, execute_pause,
  execute_unpause, execute_update_royalty, execute_propose_owner, execute_accept_owner,
  execute_cancel_owner_transfer, execute_sweep_funds,
}
use sysbreak_trust.Items.Contract.{execute}

-- Nothing of the books has changed.
pub record SameBooks (s s' : Storage) : Type 0 where
  pub token_count : s'.token_count ≡ s.token_count
  pub tokens : s'.tokens ≡ s.tokens
  pub token_owners : s'.token_owners ≡ s.token_owners
  pub token_approvals : s'.token_approvals ≡ s.token_approvals
  pub owner_tokens : s'.owner_tokens ≡ s.owner_tokens

-- The storage without a token.
abbrev pub drop_token : Text → Addr → ℕ → Storage → Storage
drop_token token_id owner count s = record s {
  tokens = remove token_id s.tokens;
  token_owners = remove token_id s.token_owners;
  token_approvals = remove token_id s.token_approvals;
  owner_tokens = remove (owner, token_id) s.owner_tokens;
  token_count = some (saturating_sub count 1);
}

abbrev pub allow : Text → Addr → Storage → Storage
allow token_id spender s = record s { token_approvals = save token_id spender s.token_approvals }

abbrev pub disallow : Text → Storage → Storage
disallow token_id s = record s { token_approvals = remove token_id s.token_approvals }

pub mint_single-adds :
    (a : Addr) (m : MintRequest) (s s' : Storage) (c : ℕ)
    → mint_single a m s ≡ ok (s', c)
    → (n : ℕ) × (s.token_count ≡ some n)
      × (n < u64_max)
      × (c ≡ n + 1)
      × (s' ≡ add_token a m (n + 1) s)
unfolding mint_single
mint_single-adds a m s s' c h = elim (Option-cases s.token_count) [
  | inl e ↦ absurd (ground arith)
  | inr (n, e) ↦ (n, e, ground arith, ground arith, ground arith)
]

pub execute_mint-mints :
    (d : Deps) (info : MessageInfo) (m : MintRequest) (s s' : Storage) (r : Response)
    → execute_mint d info m s ≡ ok (s', r)
    → (a : Addr) × (c : ℕ) × (d.addr_validate m.to ≡ some a) × (mint_single a m s ≡ ok (s', c))
unfolding execute_mint
execute_mint-mints d info m s s' r h = elim (Option-cases (d.addr_validate m.to)) [
  | inl e ↦ absurd (ground arith)
  | inr (a, e) ↦ elim (Result-cases (mint_single a m s)) [
    | inl ((t, c), f) ↦ (a, c, e, ground arith)
    | inr f ↦ absurd (ground arith)
  ]
]

pub execute_batch_mint-mints :
    (d : Deps) (info : MessageInfo) (mints : List MintRequest) (s s' : Storage) (r : Response)
    → execute_batch_mint d info mints s ≡ ok (s', r)
    → (to : List (Addr × MintRequest)) × (counts : List ℕ) × (validate_all d mints ≡ ok to)
      × (mint_all to s ≡ ok (s', counts))
unfolding execute_batch_mint
execute_batch_mint-mints d info mints s s' r h = elim (Result-cases (validate_all d mints)) [
  | inl (to, e) ↦ elim (Result-cases (mint_all to s)) [
    | inl ((t, c), f) ↦ (to, c, e, ground arith)
    | inr f ↦ absurd (ground arith)
  ]
  | inr e ↦ absurd (ground arith)
]

pub first_of_batch :
    (a : Addr) (m : MintRequest) (rest : List (Addr × MintRequest)) (s s' : Storage)
    (counts : List ℕ)
    → mint_all ((a, m) ∷ rest) s ≡ ok (s', counts)
    → (t : Storage) × (c : ℕ) × (cs : List ℕ) × (mint_single a m s ≡ ok (t, c))
      × (mint_all rest t ≡ ok (s', cs))
      × (counts ≡ c ∷ cs)
unfolding mint_all
first_of_batch a m rest s s' counts h = elim (Result-cases (mint_single a m s)) [
  | inl ((t, c), e) ↦ elim (Result-cases (mint_all rest t)) [
    | inl ((u, cs), f) ↦ (t, c, cs, e, ground arith, ground arith)
    | inr f ↦ absurd (ground arith)
  ]
  | inr e ↦ absurd (ground arith)
]

pub execute_transfer_nft-moves :
    (d : Deps) (info : MessageInfo) (recipient id : Text) (s s' : Storage) (r : Response)
    → execute_transfer_nft d info recipient id s ≡ ok (s', r)
    → (old new : Addr) × (find id s.token_owners ≡ some old) × (s' ≡ move_token id old new s)
unfolding execute_transfer_nft
execute_transfer_nft-moves d info recipient id s s' r h =
    elim (Option-cases (find id s.token_owners)) [
      | inl e ↦ absurd (ground arith)
      | inr (old, e) ↦ elim (Option-cases (d.addr_validate recipient)) [
        | inl f ↦ absurd (ground arith)
        | inr (new, f) ↦ (old, new, e, ground arith)
      ]
    ]

pub execute_send_nft-moves :
    (d : Deps) (info : MessageInfo) (contract id msg : Text) (s s' : Storage) (r : Response)
    → execute_send_nft d info contract id msg s ≡ ok (s', r)
    → (old new : Addr) × (find id s.token_owners ≡ some old) × (s' ≡ move_token id old new s)
unfolding execute_send_nft
execute_send_nft-moves d info contract id msg s s' r h =
    elim (Option-cases (find id s.token_owners)) [
      | inl e ↦ absurd (ground arith)
      | inr (old, e) ↦ elim (Option-cases (d.addr_validate contract)) [
        | inl f ↦ absurd (ground arith)
        | inr (new, f) ↦ (old, new, e, ground arith)
      ]
    ]

pub execute_burn-drops :
    (info : MessageInfo) (id : Text) (s s' : Storage) (r : Response)
    → execute_burn info id s ≡ ok (s', r)
    → (owner : Addr) × (n : ℕ) × (find id s.token_owners ≡ some owner)
      × (s.token_count ≡ some n)
      × (s' ≡ drop_token id owner n s)
unfolding execute_burn
execute_burn-drops info id s s' r h = elim (Option-cases (find id s.token_owners)) [
  | inl e ↦ absurd (ground arith)
  | inr (owner, e) ↦ elim (Option-cases s.token_count) [
    | inl f ↦ absurd (ground arith)
    | inr (n, f) ↦ (owner, n, e, f, ground arith)
  ]
]

pub execute_approve-allows :
    (d : Deps) (info : MessageInfo) (spender id : Text) (s s' : Storage) (r : Response)
    → execute_approve d info spender id s ≡ ok (s', r)
    → (a : Addr) × (find id s.token_owners ≡ some info.sender) × (s' ≡ allow id a s)
unfolding execute_approve
execute_approve-allows d info spender id s s' r h = elim (Option-cases (d.addr_validate spender)) [
  | inl e ↦ absurd (ground arith)
  | inr (a, e) ↦ (a, ground arith, ground arith)
]

pub execute_revoke-disallows :
    (info : MessageInfo) (id : Text) (s s' : Storage) (r : Response)
    → execute_revoke info id s ≡ ok (s', r)
    → (find id s.token_owners ≡ some info.sender) × (s' ≡ disallow id s)
unfolding execute_revoke
execute_revoke-disallows info id s s' r h = (ground arith, ground arith)

-- The messages that change no books.
abbrev pub leaves_books : ExecuteMsg → Bool
leaves_books (ExecuteMsg.mint m) = false
leaves_books (ExecuteMsg.batch_mint ms) = false
leaves_books (ExecuteMsg.transfer_nft a id) = false
leaves_books (ExecuteMsg.send_nft a id msg) = false
leaves_books (ExecuteMsg.approve a id) = false
leaves_books (ExecuteMsg.revoke id) = false
leaves_books (ExecuteMsg.burn id) = false
leaves_books _ = true

pub execute-SameBooks :
    (d : Deps) (info : MessageInfo) (msg : ExecuteMsg) (s : Storage)
    → leaves_books msg ≡ true
    → OnOk (λ p. SameBooks s p.0) (execute d info msg s)
unfolding execute execute_approve_all execute_revoke_all execute_propose_minter
    execute_accept_minter execute_cancel_minter_transfer execute_pause execute_unpause
    execute_update_royalty execute_propose_owner execute_accept_owner execute_cancel_owner_transfer
    execute_sweep_funds
execute-SameBooks d info (ExecuteMsg.mint m) s h = cc
execute-SameBooks d info (ExecuteMsg.batch_mint ms) s h = cc
execute-SameBooks d info (ExecuteMsg.transfer_nft a id) s h = cc
execute-SameBooks d info (ExecuteMsg.send_nft a id msg) s h = cc
execute-SameBooks d info (ExecuteMsg.approve a id) s h = cc
execute-SameBooks d info (ExecuteMsg.revoke id) s h = cc
execute-SameBooks d info (ExecuteMsg.burn id) s h = cc
execute-SameBooks d info _ s h = ground arith
