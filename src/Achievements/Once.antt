-- ===== src/Achievements/Once.antt =====
-- One token for an owner and an achievement: what the index of the achievements keeps, and how far.
use sysbreak_trust.Base.{
  ℕ, ◌+◌, ◌<◌, ◌≡◌, arith, some, none, Text, find, find-save, find-remove, to_string, u64_max,
  same_text_iff, eqb_iff, text_key, number_key, pair_key,
}
use sysbreak_trust.Host.{Addr}
use sysbreak_trust.Achievements.State.{TokenData, Storage, MintRequest}
use sysbreak_trust.Achievements.Mint.{add_token, data_of}
use sysbreak_trust.Achievements.Steps.{SameBooks}
use sysbreak_trust.Achievements.Trace.{Reach, no_transfer}
use sysbreak_trust.Achievements.Induction.{Blank, IsKept, IsKeptByBurn, Reach-induction}

-- Every token is the one that the index names for its owner and its achievement.
abbrev pub IsNoted : Storage → Type 0
IsNoted s =
    (id : Text) (token : TokenData)
    → find id s.tokens ≡ some token
    → find (token.owner, token.metadata.achievement_id) s.achievement_index ≡ some id

Blank-IsNoted : (s : Storage) → Blank s → IsNoted s
unfolding find
Blank-IsNoted s b id t e = absurd (ground (arith, b.tokens))

SameBooks-IsNoted : (s s' : Storage) → SameBooks s s' → IsNoted s → IsNoted s'
SameBooks-IsNoted s s' b i id t e = rw (b.achievement_index) (i id t (rw (b.tokens) at e))

add_token-IsNoted :
    (a : Addr) (m : MintRequest) (n : ℕ) (s : Storage)
    → s.token_count ≡ some n
    → n < u64_max
    → find (a, m.achievement_id) s.achievement_index ≡ none
    → IsNoted s
    → IsNoted (add_token a m (n + 1) s)
add_token-IsNoted a m n s e room first i id k f =
    let t = to_string (n + 1) in
    ground (
      arith,
      i id k,
      find-save t id (data_of a m) s.tokens,
      find-save (a, m.achievement_id) (k.owner, k.metadata.achievement_id) t s.achievement_index,
      same_text_iff t id,
      eqb_iff a (k.owner),
      same_text_iff (m.achievement_id) (k.metadata.achievement_id),
    )

-- The entry that the burning takes out is that of no other token, since it names the burned one.
drop_token-IsNoted : IsKeptByBurn IsNoted
drop_token-IsNoted id token n s e c i t k f = ground (
  arith,
  i t k,
  i id token e,
  find-remove id t s.tokens,
  find-remove (token.owner, token.metadata.achievement_id) (k.owner, k.metadata.achievement_id)
      s.achievement_index,
  same_text_iff id t,
  eqb_iff (token.owner) (k.owner),
  same_text_iff (token.metadata.achievement_id) (k.metadata.achievement_id),
)

IsNoted-IsKept : IsKept IsNoted
IsNoted-IsKept = record {
  at_same = SameBooks-IsNoted;
  at_add = add_token-IsNoted;
  at_allow = λ id token spender s e free i. i;
  at_disallow = λ id s i. i;
}

Reach-IsNoted : {s : Storage} → Reach no_transfer s → IsNoted s
Reach-IsNoted =
    Reach-induction IsNoted IsNoted-IsKept no_transfer Blank-IsNoted
      (λ msg is e. absurd (ground arith)) (λ msg is e. drop_token-IsNoted) (λ s i. i)

-- In every history without transfers, mints, batches, burns and migrations included, two tokens of
-- the same achievement with the same owner are the same token.
pub achievements_once :
    {s : Storage} (id id' : Text) {token token' : TokenData}
    → Reach no_transfer s
    → find id s.tokens ≡ some token
    → find id' s.tokens ≡ some token'
    → token.owner ≡ token'.owner
    → token.metadata.achievement_id ≡ token'.metadata.achievement_id
    → id ≡ id'
achievements_once {s} id id' {token} {token'} h e e' owner achievement =
    ground (arith, Reach-IsNoted h id token e, Reach-IsNoted h id' token' e')
