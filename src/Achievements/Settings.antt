-- ===== src/Achievements/Settings.antt =====
-- Who may change the settings of the achievement NFT.
use sysbreak_trust.Base.{
  ℕ, ◌+◌, ◌<◌, ◌≡◌, ◌⊎◌, refl, arith, ok, some, none, OnOk, OnOk-intro, OnOk-apply, Has, u64_max,
  find, text_key, number_key, pair_key,
}
use sysbreak_trust.Host.{MessageInfo, Deps, Response, Addr}
use sysbreak_trust.Achievements.State.{Config, Storage, ExecuteMsg, MintRequest}
use sysbreak_trust.Achievements.Mint.{add_token, execute_burn}
use sysbreak_trust.Achievements.Transfer.{
  execute_transfer_nft, execute_send_nft, execute_approve, execute_revoke, execute_approve_all,
  execute_revoke_all,
}
use sysbreak_trust.Achievements.Admin.{
  execute_propose_minter, execute_accept_minter, execute_cancel_minter_transfer, execute_pause,
  execute_unpause, execute_propose_owner, execute_accept_owner, execute_cancel_owner_transfer,
  execute_sweep_funds,
}
use sysbreak_trust.Achievements.Contract.{execute}
use sysbreak_trust.Achievements.Steps.{execute_mint-mints, execute_batch_mint-mints}
use sysbreak_trust.Achievements.Induction.{mint_single-keeps, mint_all-keeps}

-- The settings with another owner and minter.
abbrev pub with_roles : Config → Config → Config
with_roles c roles = record c { owner = roles.owner; minter = roles.minter }

-- What a call by `sender` may do to the settings, where `c` are the old ones and `after` the new ones.
pub record IsAllowed (sender : Addr) (s s' : Storage) (c after : Config) : Type 0 where
  pub owner_change :
      (after.owner ≡ c.owner)
      ⊎ Has (λ p. (sender ≡ p.proposed_owner) × (after.owner ≡ p.proposed_owner)) s.pending_owner
  pub minter_change :
      (after.minter ≡ c.minter)
      ⊎ Has
          (λ p. (sender ≡ p.proposed_minter) × (after.minter ≡ p.proposed_minter))
          s.pending_minter
  pub other_change : (after ≡ with_roles c after) ⊎ (sender ≡ c.owner)
  pub pending_owner_change :
      (s'.pending_owner ≡ s.pending_owner)
      ⊎ ((s'.pending_owner ≡ none) × Has (λ p. sender ≡ p.proposed_owner) s.pending_owner)
      ⊎ (sender ≡ c.owner)
  pub pending_minter_change :
      (s'.pending_minter ≡ s.pending_minter)
      ⊎ ((s'.pending_minter ≡ none) × Has (λ p. sender ≡ p.proposed_minter) s.pending_minter)
      ⊎ (sender ≡ c.owner)

-- The settings of a storage are those of another.
abbrev SameSettings : Storage → Storage → Type 0
SameSettings s s' =
    (s'.config ≡ s.config)
    × (s'.pending_owner ≡ s.pending_owner)
    × (s'.pending_minter ≡ s.pending_minter)

add_token-SameSettings :
    (before : Storage) (a : Addr) (m : MintRequest) (n : ℕ) (s : Storage)
    → s.token_count ≡ some n
    → n < u64_max
    → find (a, m.achievement_id) s.achievement_index ≡ none
    → SameSettings before s
    → SameSettings before (add_token a m (n + 1) s)
add_token-SameSettings before a m n s e room first h = h

execute-IsAllowed :
    (d : Deps) (info : MessageInfo) (msg : ExecuteMsg) (s : Storage) (c : Config)
    → s.config ≡ some c
    → OnOk (λ p. Has (IsAllowed info.sender s p.0 c) p.0.config) (execute d info msg s)
unfolding execute execute_transfer_nft execute_send_nft execute_approve execute_revoke
    execute_approve_all execute_revoke_all execute_propose_minter execute_accept_minter
    execute_cancel_minter_transfer execute_pause execute_unpause execute_burn execute_propose_owner
    execute_accept_owner execute_cancel_owner_transfer execute_sweep_funds
execute-IsAllowed d info (ExecuteMsg.mint m) s c e =
    OnOk-intro _ (execute d info (ExecuteMsg.mint m) s) λ p h.
      let (a, n, _, f) = execute_mint-mints d info m s p.0 p.1 h in
      let (same, owner, minter) =
        mint_single-keeps (SameSettings s) (add_token-SameSettings s) a m s p.0 n f
          (refl, refl, refl) in
      rw same (ground (arith, owner, minter))
execute-IsAllowed d info (ExecuteMsg.batch_mint ms) s c e =
    OnOk-intro _ (execute d info (ExecuteMsg.batch_mint ms) s) λ p h.
      let (to, counts, _, f) = execute_batch_mint-mints d info ms s p.0 p.1 h in
      let (same, owner, minter) =
        mint_all-keeps (SameSettings s) (add_token-SameSettings s) to s p.0 counts f
          (refl, refl, refl) in
      rw same (ground (arith, owner, minter))
execute-IsAllowed d info _ s c e = ground arith

-- A call that succeeds changes the owner only to the proposed owner who makes it, the minter only to
-- the proposed minter who makes it, and any other setting only for the owner; proposals are
-- made by the owner alone, and are ended only by him or by the one who is proposed.
pub achievement_settings_guarded :
    (d : Deps) (info : MessageInfo) (msg : ExecuteMsg) (s : Storage) {s' : Storage} {r : Response}
    {c : Config}
    → s.config ≡ some c
    → execute d info msg s ≡ ok (s', r)
    → Has (IsAllowed info.sender s s' c) s'.config
achievement_settings_guarded d info msg s {c = c} e h =
    OnOk-apply _ (execute-IsAllowed d info msg s c e) h
