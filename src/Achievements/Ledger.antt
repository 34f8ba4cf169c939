-- ===== src/Achievements/Ledger.antt =====
-- The books of the achievement NFT agree with each other in every history.
use sysbreak_trust.Base.{
  ℕ, ◌+◌, ◌≤◌, ◌<◌, ◌≡◌, refl, arith, some, none, true, false, Text, find, remove, find-save,
  find-remove, is_some, unwrap_or, length, IsAscending, IsAscending-save, IsAscending-remove,
  length-save, length-remove, to_string, u64_max, same_text_iff, eqb_iff, text_key, number_key,
  pair_key, text_order,
}
use sysbreak_trust.Host.{Addr}
use sysbreak_trust.Achievements.State.{TokenData, Storage, MintRequest}
use sysbreak_trust.Achievements.Mint.{add_token, data_of}
use sysbreak_trust.Achievements.Steps.{SameBooks, allow, disallow}
use sysbreak_trust.Achievements.Trace.{Reach, any_message}
use sysbreak_trust.Achievements.Induction.{
  Blank, IsKept, IsKeptByMove, IsKeptByBurn, indexed_books, Reach-induction,
}
use sysbreak_trust.Achievements.Index.{index_owners-keeps}

-- Every token is in the index of its owner, approvals are of tokens that are there, and there are at
-- most as many tokens as are counted.
pub record IsSound (s : Storage) : Type 0 where
  pub indexed :
      (id : Text) (token : TokenData)
      → find id s.tokens ≡ some token
      → find (token.owner, id) s.owner_tokens ≡ some true
  pub approved :
      (id : Text) (a : Addr)
      → find id s.token_approvals ≡ some a
      → is_some (find id s.tokens) ≡ true
  pub ordered : IsAscending s.tokens
  pub counted : is_some s.token_count ≡ true
  pub enough : length s.tokens ≤ unwrap_or 0 s.token_count

pub Blank-IsSound : (s : Storage) → Blank s → IsSound s
unfolding find
Blank-IsSound s b = record {
  indexed = λ id t e. absurd (ground (arith, b.tokens));
  approved = λ id a e. absurd (ground (arith, b.token_approvals));
  ordered = rw (b.tokens) tt;
  counted = rw (b.token_count);
  enough = ground (arith, b.tokens, b.token_count);
}

SameBooks-IsSound : (s s' : Storage) → SameBooks s s' → IsSound s → IsSound s'
SameBooks-IsSound s s' b i = record {
  indexed = λ id t e. rw (b.owner_tokens) (i.indexed id t (rw (b.tokens) at e));
  approved = λ id a e. rw (b.tokens) (i.approved id a (rw (b.token_approvals) at e));
  ordered = rw (b.tokens) (i.ordered);
  counted = rw (b.token_count) (i.counted);
  enough = rw (b.tokens) (rw (b.token_count) (i.enough));
}

add_token-IsSound :
    (a : Addr) (m : MintRequest) (n : ℕ) (s : Storage)
    → s.token_count ≡ some n
    → n < u64_max
    → find (a, m.achievement_id) s.achievement_index ≡ none
    → IsSound s
    → IsSound (add_token a m (n + 1) s)
add_token-IsSound a m n s e room first i =
    let t = to_string (n + 1) in
    record {
      indexed = λ id k f. ground (
        arith,
        i.indexed id k,
        find-save t id (data_of a m) s.tokens,
        find-save (a, t) (k.owner, id) true s.owner_tokens,
        same_text_iff t id,
        eqb_iff a (k.owner),
      );
      approved = λ id b f. ground (arith, i.approved id b, find-save t id (data_of a m) s.tokens);
      ordered = IsAscending-save t (data_of a m) s.tokens (i.ordered);
      counted = refl;
      enough = ground (arith, i.enough, length-save t (data_of a m) s.tokens (i.ordered));
    }

-- The token with another owner.
abbrev pub moved : TokenData → Addr → TokenData
moved token new = record token { owner = new }

pub move_token-IsSound : IsKeptByMove IsSound
move_token-IsSound id token new s e free i = record {
  indexed = λ t k f. ground (
    arith,
    i.indexed t k,
    find-save id t (moved token new) s.tokens,
    find-save (new, id) (k.owner, t) true (remove (token.owner, id) s.owner_tokens),
    find-remove (token.owner, id) (k.owner, t) s.owner_tokens,
    same_text_iff id t,
    eqb_iff new (k.owner),
  );
  approved = λ t b f. ground (
    arith,
    i.approved t b,
    find-save id t (moved token new) s.tokens,
    find-remove id t s.token_approvals,
  );
  ordered = IsAscending-save id (moved token new) s.tokens (i.ordered);
  counted = i.counted;
  enough = ground (arith, i.enough, length-save id (moved token new) s.tokens (i.ordered));
}

allow-IsSound :
    (id : Text) (token : TokenData) (spender : Addr) (s : Storage)
    → find id s.tokens ≡ some token
    → token.soulbound ≡ false
    → IsSound s
    → IsSound (allow id spender s)
allow-IsSound id token spender s e free i = record {
  indexed = i.indexed;
  approved = λ t b f.
      ground (arith, i.approved t b, find-save id t spender s.token_approvals, same_text_iff id t);
  ordered = i.ordered;
  counted = i.counted;
  enough = i.enough;
}

disallow-IsSound : (id : Text) (s : Storage) → IsSound s → IsSound (disallow id s)
disallow-IsSound id s i = record {
  indexed = i.indexed;
  approved = λ t b f. ground (arith, i.approved t b, find-remove id t s.token_approvals);
  ordered = i.ordered;
  counted = i.counted;
  enough = i.enough;
}

drop_token-IsSound : IsKeptByBurn IsSound
drop_token-IsSound id token n s e c i = record {
  indexed = λ t k f. ground (
    arith,
    i.indexed t k,
    find-remove id t s.tokens,
    find-remove (token.owner, id) (k.owner, t) s.owner_tokens,
  );
  approved = λ t b f.
      ground (arith, i.approved t b, find-remove id t s.tokens, find-remove id t s.token_approvals);
  ordered = IsAscending-remove id s.tokens (i.ordered);
  counted = refl;
  enough = ground (arith, i.enough, length-remove id s.tokens (i.ordered));
}

pub indexed_books-IsSound : (s : Storage) → IsSound s → IsSound (indexed_books s)
indexed_books-IsSound s i = record {
  indexed = λ id k e. index_owners-keeps (k.owner) id s.tokens s.owner_tokens (i.indexed id k e);
  approved = i.approved;
  ordered = i.ordered;
  counted = i.counted;
  enough = i.enough;
}

pub IsSound-IsKept : IsKept IsSound
IsSound-IsKept = record {
  at_same = SameBooks-IsSound;
  at_add = add_token-IsSound;
  at_allow = allow-IsSound;
  at_disallow = disallow-IsSound;
}

-- In every history, burning and migrating included, every token has its entry in the index of its
-- owner, only tokens that are there have an approval, and the count is at least the number of
-- tokens.
pub Reach-ledger : {s : Storage} → Reach any_message s → IsSound s
Reach-ledger =
    Reach-induction IsSound IsSound-IsKept any_message Blank-IsSound
      (λ msg is e. move_token-IsSound) (λ msg is e. drop_token-IsSound) indexed_books-IsSound
