-- ===== src/Items/Settings.antt =====
-- Who may change the settings of the item NFT, and how large the royalty can get.
use sysbreak_trust.Base.{
  ℕ, ◌+◌, ◌<◌, ◌≤◌, ◌≡◌, ◌⊎◌, refl, sym, arith, ok, some, none, Bool, inl, inr, Option-cases, OnOk,
  OnOk-intro, OnOk-apply, Has, u64_max,
}
use mathlib.Core.Path.{subst}
use sysbreak_trust.Host.{MessageInfo, Deps, Response, Addr}
use sysbreak_trust.Items.State.{Config, Storage, InstantiateMsg, ExecuteMsg, MintRequest}
use sysbreak_trust.Items.Helpers.{validate_royalty_bps}
use sysbreak_trust.Items.Mint.{add_token, execute_burn}
use sysbreak_trust.Items.Transfer.{
  execute_transfer_nft, execute_send_nft, execute_approve, execute_revoke, execute_approve_all,
  execute_revoke_all,
}
use sysbreak_trust.Items.Admin.{
  execute_propose_minter, execute_accept_minter, execute_cancel_minter_transfer, execute_pause,
  execute_unpause, execute_update_royalty, execute_propose_owner, execute_accept_owner,
  execute_cancel_owner_transfer, execute_sweep_funds,
}
use sysbreak_trust.Items.Contract.{fresh, instantiate, execute, migrate}
use sysbreak_trust.Items.Steps.{execute_mint-mints, execute_batch_mint-mints}
use sysbreak_trust.Items.Induction.{mint_single-keeps, mint_all-keeps}
use sysbreak_trust.Items.Trace.{Reach, start, call, upgrade}

-- The settings with another owner and minter.
abbrev pub with_roles : Config → Config → Config
with_roles c roles = record c { owner = roles.owner; minter = roles.minter }

-- What a call by `sender` may do to the settings, where `c` are the old ones and `after` the new ones.
pub record IsAllowed (sender : Addr) (s s' : Storage) (c after : Config) : Type 0 where
  pub owner_change :
      (after.owner ≡ c.owner)
      ⊎ Has (λ p. (sender ≡ p.proposed_owner) × (after.owner ≡ p.proposed_owner)) s.pending_owner
  pub minter_change :
      (after.minter ≡ c.minter)
      ⊎ Has
          (λ p. (sender ≡ p.proposed_minter) × (after.minter ≡ p.proposed_minter))
          s.pending_minter
  pub other_change : (after ≡ with_roles c after) ⊎ (sender ≡ c.owner)
  pub royalty_change : (after.royalty_bps ≡ c.royalty_bps) ⊎ (after.royalty_bps ≤ 10_000)
  pub pending_owner_change :
      (s'.pending_owner ≡ s.pending_owner)
      ⊎ ((s'.pending_owner ≡ none) × Has (λ p. sender ≡ p.proposed_owner) s.pending_owner)
      ⊎ (sender ≡ c.owner)
  pub pending_minter_change :
      (s'.pending_minter ≡ s.pending_minter)
      ⊎ ((s'.pending_minter ≡ none) × Has (λ p. sender ≡ p.proposed_minter) s.pending_minter)
      ⊎ (sender ≡ c.owner)

-- The settings of a storage are those of another.
abbrev SameSettings : Storage → Storage → Type 0
SameSettings s s' =
    (s'.config ≡ s.config)
    × (s'.pending_owner ≡ s.pending_owner)
    × (s'.pending_minter ≡ s.pending_minter)

add_token-SameSettings :
    (before : Storage) (a : Addr) (m : MintRequest) (n : ℕ) (s : Storage)
    → s.token_count ≡ some n
    → n < u64_max
    → SameSettings before s
    → SameSettings before (add_token a m (n + 1) s)
add_token-SameSettings before a m n s e room h = h

execute-IsAllowed :
    (d : Deps) (info : MessageInfo) (msg : ExecuteMsg) (s : Storage) (c : Config)
    → s.config ≡ some c
    → OnOk (λ p. Has (IsAllowed info.sender s p.0 c) p.0.config) (execute d info msg s)
unfolding execute execute_transfer_nft execute_send_nft execute_approve execute_revoke
    execute_approve_all execute_revoke_all execute_propose_minter execute_accept_minter
    execute_cancel_minter_transfer execute_pause execute_unpause execute_update_royalty execute_burn
    execute_propose_owner execute_accept_owner execute_cancel_owner_transfer execute_sweep_funds
    validate_royalty_bps
execute-IsAllowed d info (ExecuteMsg.mint m) s c e =
    OnOk-intro _ (execute d info (ExecuteMsg.mint m) s) λ p h.
      let (a, n, _, f) = execute_mint-mints d info m s p.0 p.1 h in
      let (same, owner, minter) =
        mint_single-keeps (SameSettings s) (add_token-SameSettings s) a m s p.0 n f
          (refl, refl, refl) in
      rw same (ground (arith, owner, minter))
execute-IsAllowed d info (ExecuteMsg.batch_mint ms) s c e =
    OnOk-intro _ (execute d info (ExecuteMsg.batch_mint ms) s) λ p h.
      let (to, counts, _, f) = execute_batch_mint-mints d info ms s p.0 p.1 h in
      let (same, owner, minter) =
        mint_all-keeps (SameSettings s) (add_token-SameSettings s) to s p.0 counts f
          (refl, refl, refl) in
      rw same (ground (arith, owner, minter))
execute-IsAllowed d info _ s c e = ground arith

-- A call that succeeds changes the owner only to the proposed owner who makes it, the minter only to
-- the proposed minter who makes it, and any other setting only for the owner; a new royalty is at
-- most 10,000 basis points, and proposals are
-- made by the owner alone, and are ended only by him or by the one who is proposed.
pub item_settings_guarded :
    (d : Deps) (info : MessageInfo) (msg : ExecuteMsg) (s : Storage) {s' : Storage} {r : Response}
    {c : Config}
    → s.config ≡ some c
    → execute d info msg s ≡ ok (s', r)
    → Has (IsAllowed info.sender s s' c) s'.config
item_settings_guarded d info msg s {c = c} e h = OnOk-apply _ (execute-IsAllowed d info msg s c e) h

-- The royalty of a storage that has settings is at most the whole price.
abbrev pub IsFair : Storage → Type 0
IsFair s = Has (λ c. c.royalty_bps ≤ 10_000) s.config

instantiate-IsFair :
    (d : Deps) (msg : InstantiateMsg) → OnOk (λ p. IsFair p.0) (instantiate d msg fresh)
unfolding instantiate validate_royalty_bps
instantiate-IsFair d msg = ground arith

migrate-settings : (s : Storage) → OnOk (λ p. p.0.config ≡ s.config) (migrate s)
unfolding migrate
migrate-settings s = ground arith

IsAllowed-IsFair :
    (sender : Addr) (s s' : Storage) (c : Config)
    → s.config ≡ some c
    → IsFair s
    → Has (IsAllowed sender s s' c) s'.config
    → IsFair s'
IsAllowed-IsFair sender s s' c e i h = elim (Option-cases s'.config) [
  | inr (after, f) ↦
      let a : IsAllowed sender s s' c after = subst (Has (IsAllowed sender s s' c)) f h in
      subst (Has (λ c. c.royalty_bps ≤ 10_000)) (sym f) (ground (arith, a.royalty_change))
  | inl f ↦ absurd (ground arith)
]

-- In every history of instantiation, calls that succeed and migrations, the settings are there and
-- the royalty is at most 10,000 basis points.
pub Reach-IsFair : {lets : ExecuteMsg → Bool} {s : Storage} → Reach lets s → IsFair s
Reach-IsFair (start d msg e) = OnOk-apply _ (instantiate-IsFair d msg) e
Reach-IsFair (call {s} d info msg h _ e) =
    let i = Reach-IsFair h in
    elim (Option-cases s.config) [
      | inr (c, f) ↦ IsAllowed-IsFair info.sender s _ c f i (item_settings_guarded d info msg s f e)
      | inl f ↦ absurd (ground arith)
    ]
Reach-IsFair (upgrade {s} h e) =
    subst (Has (λ c. c.royalty_bps ≤ 10_000)) (sym (OnOk-apply _ (migrate-settings s) e))
      (Reach-IsFair h)
