-- ===== src/Achievements/Soulbound.antt =====
-- Soulbound achievements stay with whom they were minted to.
use sysbreak_trust.Base.{
  ℕ, ◌+◌, ◌<◌, ◌≡◌, arith, err, [], some, none, true, false, Text, find, find-save, u64_max,
  OnOk-apply, to_string, same_text_iff, text_key, number_key, pair_key,
}
use sysbreak_trust.Host.{Addr, Deps, MessageInfo}
use sysbreak_trust.Achievements.State.{
  Config, TokenData, Storage, MintRequest, ExecuteMsg, is_soulbound,
}
use sysbreak_trust.Achievements.Contract.{execute}
use sysbreak_trust.Achievements.Transfer.{execute_transfer_nft, execute_send_nft, execute_approve}
use sysbreak_trust.Achievements.Mint.{add_token, data_of}
use sysbreak_trust.Achievements.Trace.{Reach, After, now, more, renewed, no_burn}
use sysbreak_trust.Achievements.Induction.{
  IsKept, IsKeptByMove, execute-keeps, migrate-SameBooks, no_burns,
}
use sysbreak_trust.Achievements.Ledger.{moved}
use sysbreak_trust.Achievements.Exact.{IsExact, next_is_new}
use sysbreak_trust.Achievements.Numbering.{
  IsExact-IsKept, move_token-IsExact, indexed_books-IsExact, achievement_numbering,
}

-- The numbering is exact, and a token has this data.
abbrev IsThere : Text → TokenData → Storage → Type 0
IsThere id token s = IsExact s × (find id s.tokens ≡ some token)

module _ (id : Text) (token : TokenData) where
  add_token-IsThere :
      (a : Addr) (m : MintRequest) (n : ℕ) (s : Storage)
      → s.token_count ≡ some n
      → n < u64_max
      → find (a, m.achievement_id) s.achievement_index ≡ none
      → IsThere id token s
      → IsThere id token (add_token a m (n + 1) s)
  add_token-IsThere a m n s e room first (x, f) = (
    IsExact-IsKept.at_add a m n s e room first x,
    ground (
      arith,
      next_is_new n s e room x,
      find-save (to_string (n + 1)) id (data_of a m) s.tokens,
      same_text_iff (to_string (n + 1)) id,
    ),
  )

  -- The token that moves is another one, since this one is soulbound.
  move_token-IsThere : token.soulbound ≡ true → IsKeptByMove (IsThere id token)
  move_token-IsThere bound t k new s e free (x, f) = (
    move_token-IsExact t k new s e free x,
    ground (arith, find-save t id (moved k new) s.tokens, same_text_iff t id),
  )

  IsThere-IsKept : IsKept (IsThere id token)
  IsThere-IsKept = record {
    at_same = λ s s' b i. (IsExact-IsKept.at_same s s' b i.0, rw (b.tokens) (i.1));
    at_add = add_token-IsThere;
    at_allow = λ t k spender s e free i. (IsExact-IsKept.at_allow t k spender s e free i.0, i.1);
    at_disallow = λ t s i. (IsExact-IsKept.at_disallow t s i.0, i.1);
  }

  After-IsThere :
      {s s' : Storage}
      → token.soulbound ≡ true
      → IsThere id token s
      → After no_burn s s'
      → IsThere id token s'
  After-IsThere bound i now = i
  After-IsThere bound i (more d info msg h let_through e) =
      execute-keeps (IsThere id token) IsThere-IsKept d info msg _ _ _
        (λ is. move_token-IsThere bound) (λ is. absurd (no_burns msg is let_through)) e
        (After-IsThere bound i h)
  After-IsThere bound i (renewed {s'} h e) =
      let (x, f) = After-IsThere bound i h in
      IsThere-IsKept.at_same _ _ (OnOk-apply _ (migrate-SameBooks s') e)
        (indexed_books-IsExact s' x, f)

-- A soulbound token that is there in a history without burning is still there after any further
-- calls but burns, and after migrations, with the same owner and the same data.
pub soulbound_stays :
    {s s' : Storage} (id : Text) {token : TokenData}
    → Reach no_burn s
    → find id s.tokens ≡ some token
    → token.soulbound ≡ true
    → After no_burn s s'
    → find id s'.tokens ≡ some token
soulbound_stays id {token = token} h e bound later =
    (After-IsThere id token bound (achievement_numbering h, e) later).1

-- A soulbound token that is there is refused with the error `Soulbound` whoever asks, when the
-- contract is not paused and no coins come with the call: both transfers and the approval of a
-- spender.
pub soulbound_refused :
    (d : Deps) (info : MessageInfo) (a id msg : Text) (s : Storage) {config : Config}
    {token : TokenData}
    → info.funds ≡ []
    → s.config ≡ some config
    → config.paused ≡ false
    → find id s.tokens ≡ some token
    → token.soulbound ≡ true
    → (execute d info (ExecuteMsg.transfer_nft a id) s ≡ err is_soulbound)
      × (execute d info (ExecuteMsg.send_nft a id msg) s ≡ err is_soulbound)
      × (execute d info (ExecuteMsg.approve a id) s ≡ err is_soulbound)
unfolding execute execute_transfer_nft execute_send_nft execute_approve
soulbound_refused d info a id msg s free c running e bound =
    (ground arith, ground arith, ground arith)
