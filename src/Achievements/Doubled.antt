-- ===== src/Achievements/Doubled.antt =====
-- What the transfer of an achievement does to the entry of another token of the same achievement.
use sysbreak_trust.Base.{
  ℕ, ◌+◌, ◌<◌, ◌≡◌, ◌≢◌, sym, ◌∙◌, ap, arith, ok, some, none, Text, find, save, remove, find-save,
  find-remove, u64_max, same_text_iff, eqb_iff, text_key, number_key, pair_key,
}
use mathlib.Core.Path.{subst}
use sysbreak_trust.Host.{Addr, Deps, MessageInfo, Response}
use sysbreak_trust.Achievements.State.{TokenData, Storage, MintRequest}
use sysbreak_trust.Achievements.Mint.{add_token, mint_single}
use sysbreak_trust.Achievements.Transfer.{move_token, execute_transfer_nft}
use sysbreak_trust.Achievements.Steps.{execute_transfer_nft-moves}
use sysbreak_trust.Achievements.Ledger.{moved}

mint_single-runs :
    (a : Addr) (m : MintRequest) (n : ℕ) (s : Storage)
    → find (a, m.achievement_id) s.achievement_index ≡ none
    → s.token_count ≡ some n
    → n < u64_max
    → mint_single a m s ≡ ok (add_token a m (n + 1) s, n + 1)
unfolding mint_single
mint_single-runs a m n s first counted room = ground arith

-- Two moves of one token, by way of the owner of another token of the same achievement.
module _ (id id' : Text) (token token' : TokenData) (c : Addr) (s : Storage) where
  abbrev passed_on : Storage
  passed_on = move_token id (moved token (token'.owner)) c (move_token id token (token'.owner) s)

  stays : id ≢ id' → find id' s.tokens ≡ some token' → find id' passed_on.tokens ≡ some token'
  stays other e = ground (
    arith,
    same_text_iff id id',
    find-save id id' (moved token c) (save id (moved token (token'.owner)) s.tokens),
    find-save id id' (moved token (token'.owner)) s.tokens,
  )

  forgotten :
      c ≢ token'.owner
      → find (token'.owner, token.metadata.achievement_id) passed_on.achievement_index ≡ none
  forgotten away =
      let x = token.metadata.achievement_id in
      let b = token'.owner in
      let index = save (b, x) id (remove (token.owner, x) s.achievement_index) in
      ground (
        arith,
        find-save (c, x) (b, x) id (remove (b, x) index),
        find-remove (b, x) (b, x) index,
        eqb_iff c b,
        eqb_iff b b,
        same_text_iff x x,
      )

-- If a token goes to the owner of another token of the same achievement, and from there to somebody
-- else, then the index has no entry for that owner and that achievement, though the other token is
-- still there: a mint of the same achievement to the same owner is accepted.
pub transfers_forget_achievement :
    (d : Deps) (first second : MessageInfo) (id id' to away : Text) (m : MintRequest) (n : ℕ)
    (s s1 : Storage) {s2 : Storage} {r1 r2 : Response} {token token' : TokenData}
    → find id s.tokens ≡ some token
    → find id' s.tokens ≡ some token'
    → id ≢ id'
    → token'.metadata.achievement_id ≡ token.metadata.achievement_id
    → m.achievement_id ≡ token.metadata.achievement_id
    → d.addr_validate to ≡ some token'.owner
    → d.addr_validate away ≢ some token'.owner
    → s.token_count ≡ some n
    → n < u64_max
    → execute_transfer_nft d first to id s ≡ ok (s1, r1)
    → execute_transfer_nft d second away id s1 ≡ ok (s2, r2)
    → (find id' s2.tokens ≡ some token')
      × (mint_single (token'.owner) m s2 ≡ ok (add_token (token'.owner) m (n + 1) s2, n + 1))
transfers_forget_achievement d first second id id' to away m n s s1 {s2} {r1} {r2} {token} {token'}
      e e' other same asked validated elsewhere counted room sent sent_on =
    let (k, b, f, free, v, g) = execute_transfer_nft-moves d first to id s s1 r1 sent in
    let (k', c, f', free', v', g') = execute_transfer_nft-moves d second away id s1 s2 r2 sent_on in
    let k_token : k ≡ token = ground (arith, f, e) in
    let b_owner : b ≡ token'.owner = ground (arith, v, validated) in
    let c_away : c ≢ token'.owner = λ p. elsewhere (v' ∙ ap some p) in
    let s1_moved : s1 ≡ move_token id token (token'.owner) s =
      g ∙ ap (λ x. move_token id x b s) k_token ∙ ap (λ x. move_token id token x s) b_owner in
    let k'_moved : k' ≡ moved token (token'.owner) = ground (
      arith,
      f',
      s1_moved,
      find-save id id (moved token (token'.owner)) s.tokens,
      same_text_iff id id,
    ) in
    let result : s2 ≡ passed_on id id' token token' c s =
      g'
      ∙ ap (λ x. move_token id x c s1) k'_moved
      ∙ ap (move_token id (moved token (token'.owner)) c) s1_moved in
    (
      subst (λ x. find id' x.tokens ≡ some token') (sym result)
          (stays id id' token token' c s other e'),
      mint_single-runs (token'.owner) m n s2
          (rw (result, asked) (forgotten id id' token token' c s c_away)) (rw result counted) room,
    )
