-- ===== src/Items/Ledger.antt =====
-- The books of the item NFT agree with each other in every history.
use sysbreak_trust.Base.{
  ℕ, ◌+◌, ◌≤◌, ◌<◌, ◌≡◌, refl, arith, some, true, Text, find, remove, find-save, find-remove,
  is_some, unwrap_or, length, IsAscending, IsAscending-save, IsAscending-remove, length-save,
  length-remove, to_string, u64_max, same_text_iff, eqb_iff, text_key, number_key, pair_key,
  text_order,
}
use sysbreak_trust.Host.{Addr}
use sysbreak_trust.Items.State.{Storage, MintRequest}
use sysbreak_trust.Items.Mint.{add_token, data_of}
use sysbreak_trust.Items.Transfer.{move_token}
use sysbreak_trust.Items.Steps.{SameBooks, drop_token, allow, disallow}
use sysbreak_trust.Items.Trace.{Reach, any_message}
use sysbreak_trust.Items.Induction.{Blank, IsKept, indexed_books, Reach-induction}
use sysbreak_trust.Items.Index.{index_owners-keeps}

-- The tokens with data are those with an owner, every owner is in the index, approvals are of
-- tokens that are there, and there are at most as many tokens as are counted.
pub record IsSound (s : Storage) : Type 0 where
  pub paired : (id : Text) → is_some (find id s.tokens) ≡ is_some (find id s.token_owners)
  pub indexed :
      (id : Text) (a : Addr)
      → find id s.token_owners ≡ some a
      → find (a, id) s.owner_tokens ≡ some true
  pub approved :
      (id : Text) (a : Addr)
      → find id s.token_approvals ≡ some a
      → is_some (find id s.token_owners) ≡ true
  pub ordered : IsAscending s.tokens
  pub owners_ordered : IsAscending s.token_owners
  pub counted : is_some s.token_count ≡ true
  pub enough : length s.tokens ≤ unwrap_or 0 s.token_count

pub Blank-IsSound : (s : Storage) → Blank s → IsSound s
unfolding find
Blank-IsSound s b = record {
  paired = λ id. rw (b.tokens) (rw (b.token_owners));
  indexed = λ id a e. absurd (ground (arith, b.token_owners));
  approved = λ id a e. absurd (ground (arith, b.token_approvals));
  ordered = rw (b.tokens) tt;
  owners_ordered = rw (b.token_owners) tt;
  counted = rw (b.token_count);
  enough = ground (arith, b.tokens, b.token_count);
}

SameBooks-IsSound : (s s' : Storage) → SameBooks s s' → IsSound s → IsSound s'
SameBooks-IsSound s s' b i = record {
  paired = λ id. rw (b.tokens) (rw (b.token_owners) (i.paired id));
  indexed = λ id a e. rw (b.owner_tokens) (i.indexed id a (rw (b.token_owners) at e));
  approved = λ id a e. rw (b.token_owners) (i.approved id a (rw (b.token_approvals) at e));
  ordered = rw (b.tokens) (i.ordered);
  owners_ordered = rw (b.token_owners) (i.owners_ordered);
  counted = rw (b.token_count) (i.counted);
  enough = rw (b.tokens) (rw (b.token_count) (i.enough));
}

add_token-IsSound :
    (a : Addr) (m : MintRequest) (n : ℕ) (s : Storage)
    → s.token_count ≡ some n
    → n < u64_max
    → IsSound s
    → IsSound (add_token a m (n + 1) s)
add_token-IsSound a m n s e room i =
    let t = to_string (n + 1) in
    record {
      paired = λ id. ground (
        arith,
        i.paired id,
        find-save t id (data_of m) s.tokens,
        find-save t id a s.token_owners,
      );
      indexed = λ id b f. ground (
        arith,
        i.indexed id b,
        find-save t id a s.token_owners,
        find-save (a, t) (b, id) true s.owner_tokens,
        same_text_iff t id,
        eqb_iff a b,
      );
      approved = λ id b f. ground (arith, i.approved id b, find-save t id a s.token_owners);
      ordered = IsAscending-save t (data_of m) s.tokens (i.ordered);
      owners_ordered = IsAscending-save t a s.token_owners (i.owners_ordered);
      counted = refl;
      enough = ground (arith, i.enough, length-save t (data_of m) s.tokens (i.ordered));
    }

move_token-IsSound :
    (id : Text) (old new : Addr) (s : Storage)
    → find id s.token_owners ≡ some old
    → IsSound s
    → IsSound (move_token id old new s)
move_token-IsSound id old new s e i = record {
  paired = λ t. ground (arith, i.paired t, find-save id t new s.token_owners, same_text_iff id t);
  indexed = λ t b f. ground (
    arith,
    i.indexed t b,
    find-save id t new s.token_owners,
    find-save (new, id) (b, t) true (remove (old, id) s.owner_tokens),
    find-remove (old, id) (b, t) s.owner_tokens,
    same_text_iff id t,
    eqb_iff new b,
  );
  approved = λ t b f. ground (
    arith,
    i.approved t b,
    find-save id t new s.token_owners,
    find-remove id t s.token_approvals,
  );
  ordered = i.ordered;
  owners_ordered = IsAscending-save id new s.token_owners (i.owners_ordered);
  counted = i.counted;
  enough = i.enough;
}

allow-IsSound :
    (id : Text) (owner spender : Addr) (s : Storage)
    → find id s.token_owners ≡ some owner
    → IsSound s
    → IsSound (allow id spender s)
allow-IsSound id owner spender s e i = record {
  paired = i.paired;
  indexed = i.indexed;
  approved = λ t b f.
      ground (arith, i.approved t b, find-save id t spender s.token_approvals, same_text_iff id t);
  ordered = i.ordered;
  owners_ordered = i.owners_ordered;
  counted = i.counted;
  enough = i.enough;
}

disallow-IsSound : (id : Text) (s : Storage) → IsSound s → IsSound (disallow id s)
disallow-IsSound id s i = record {
  paired = i.paired;
  indexed = i.indexed;
  approved = λ t b f. ground (arith, i.approved t b, find-remove id t s.token_approvals);
  ordered = i.ordered;
  owners_ordered = i.owners_ordered;
  counted = i.counted;
  enough = i.enough;
}

drop_token-IsSound :
    (id : Text) (owner : Addr) (n : ℕ) (s : Storage)
    → find id s.token_owners ≡ some owner
    → s.token_count ≡ some n
    → IsSound s
    → IsSound (drop_token id owner n s)
drop_token-IsSound id owner n s e c i = record {
  paired =
      λ t. ground (arith, i.paired t, find-remove id t s.tokens, find-remove id t s.token_owners);
  indexed = λ t b f. ground (
    arith,
    i.indexed t b,
    find-remove id t s.token_owners,
    find-remove (owner, id) (b, t) s.owner_tokens,
  );
  approved = λ t b f.
      ground (
        arith,
        i.approved t b,
        find-remove id t s.token_owners,
        find-remove id t s.token_approvals,
      );
  ordered = IsAscending-remove id s.tokens (i.ordered);
  owners_ordered = IsAscending-remove id s.token_owners (i.owners_ordered);
  counted = refl;
  enough = ground (arith, i.enough, i.paired id, length-remove id s.tokens (i.ordered));
}

pub indexed_books-IsSound : (s : Storage) → IsSound s → IsSound (indexed_books s)
indexed_books-IsSound s i = record {
  paired = i.paired;
  indexed = λ id a e. index_owners-keeps a id s.token_owners s.owner_tokens (i.indexed id a e);
  approved = i.approved;
  ordered = i.ordered;
  owners_ordered = i.owners_ordered;
  counted = i.counted;
  enough = i.enough;
}

pub IsSound-IsKept : IsKept IsSound
IsSound-IsKept = record {
  at_same = SameBooks-IsSound;
  at_add = add_token-IsSound;
  at_move = move_token-IsSound;
  at_allow = allow-IsSound;
  at_disallow = disallow-IsSound;
}

-- In every history, burning and migrating included, the tokens with data are those with an owner,
-- each with its entry in the index of its owner, only tokens that are there have an approval, and
-- the count is at least the number of tokens.
pub Reach-IsSound : {s : Storage} → Reach any_message s → IsSound s
Reach-IsSound =
    Reach-induction IsSound IsSound-IsKept any_message Blank-IsSound (λ id e. drop_token-IsSound)
      indexed_books-IsSound
