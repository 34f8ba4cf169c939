-- ===== src/Items/Numbering.antt =====
-- The numbering of the item NFT while no token is burned: the identifiers are the numbers from one
-- to the count, so that a new token never takes the place of another.
use sysbreak_trust.Base.{
  ℕ, ◌+◌, ◌<◌, ◌≡◌, refl, sym, arith, some, true, Text, find, remove, find-save, find-remove,
  length-save, to_string, u64_max, Bool-cases, inl, inr, IsAscending-IsFound, same_text_iff,
  eqb_iff, text_key, number_key, pair_key, text_order, same_text,
}
use sysbreak_trust.Host.{Addr}
use sysbreak_trust.Items.State.{Storage, MintRequest}
use sysbreak_trust.Items.Mint.{add_token, data_of}
use sysbreak_trust.Items.Transfer.{move_token}
use sysbreak_trust.Items.Trace.{Reach, no_burn}
use sysbreak_trust.Items.Induction.{IsKept, indexed_books, Reach-induction}
use sysbreak_trust.Items.Index.{index_owners-cases}
use sysbreak_trust.Items.Ledger.{IsSound-IsKept, indexed_books-IsSound}
use sysbreak_trust.Items.Exact.{
  IsExact, next_is_new, Blank-IsExact, SameBooks-IsExact, allow-IsExact, disallow-IsExact,
}

add_token-IsExact :
    (a : Addr) (m : MintRequest) (n : ℕ) (s : Storage)
    → s.token_count ≡ some n
    → n < u64_max
    → IsExact s
    → IsExact (add_token a m (n + 1) s)
add_token-IsExact a m n s e room x =
    let same : x.count ≡ n = ground (arith, x.counted) in
    let t = to_string (n + 1) in
    let new = next_is_new n s e room x in
    record {
      sound = IsSound-IsKept.at_add a m n s e room x.sound;
      count = n + 1;
      counted = refl;
      small = omega arith;
      numbered = λ id b f. elim (Bool-cases (same_text t id)) [
        | inl equal ↦ (n + 1, omega arith, omega arith, sym ((same_text_iff t id).0 equal))
        | inr other ↦
            let old : find id s.token_owners ≡ some b =
              ground (arith, find-save t id a s.token_owners) in
            let (k, low, high, named) = x.numbered id b old in
            (k, low, omega (arith, same, high), named)
      ];
      all_there = λ k low high. ground (
        arith,
        x.all_there k low,
        same,
        find-save t (to_string k) a s.token_owners,
        same_text_iff t (to_string k),
      );
      only_owners = λ id b v f. ground (
        arith,
        x.only_owners id b v,
        new,
        find-save t id a s.token_owners,
        find-save (a, t) (b, id) true s.owner_tokens,
        same_text_iff t id,
        eqb_iff a b,
      );
      supply = ground (
        arith,
        x.supply,
        same,
        new,
        (x.sound).paired t,
        length-save t (data_of m) s.tokens (x.sound).ordered,
      );
    }

move_token-IsExact :
    (id : Text) (old new : Addr) (s : Storage)
    → find id s.token_owners ≡ some old
    → IsExact s
    → IsExact (move_token id old new s)
move_token-IsExact id old new s e x = record {
  sound = IsSound-IsKept.at_move id old new s e x.sound;
  count = x.count;
  counted = x.counted;
  small = x.small;
  numbered = λ t b f. elim (Bool-cases (same_text id t)) [
    | inl same ↦ x.numbered t old (ground (arith, same_text_iff id t))
    | inr other ↦ x.numbered t b (ground (arith, find-save id t new s.token_owners))
  ];
  all_there = λ k low high.
      ground (arith, x.all_there k low high, find-save id (to_string k) new s.token_owners);
  only_owners = λ t b v f. ground (
    arith,
    x.only_owners t b v,
    find-save id t new s.token_owners,
    find-save (new, id) (b, t) true (remove (old, id) s.owner_tokens),
    find-remove (old, id) (b, t) s.owner_tokens,
    same_text_iff id t,
    eqb_iff new b,
    eqb_iff old b,
  );
  supply = x.supply;
}

pub indexed_books-IsExact : (s : Storage) → IsExact s → IsExact (indexed_books s)
indexed_books-IsExact s x = record {
  sound = indexed_books-IsSound s x.sound;
  count = x.count;
  counted = x.counted;
  small = x.small;
  numbered = x.numbered;
  all_there = x.all_there;
  only_owners = λ id a v e.
      elim (index_owners-cases a id v s.token_owners s.token_owners s.owner_tokens
        (IsAscending-IsFound s.token_owners (x.sound).owners_ordered) e) [
          | inl before ↦ x.only_owners id a v before
          | inr owned ↦ owned
        ];
  supply = x.supply;
}

pub IsExact-IsKept : IsKept IsExact
IsExact-IsKept = record {
  at_same = SameBooks-IsExact;
  at_add = add_token-IsExact;
  at_move = move_token-IsExact;
  at_allow = allow-IsExact;
  at_disallow = disallow-IsExact;
}

-- In every history without burning, migrations included, the identifiers of the tokens are exactly
-- the numbers from one to the count in decimal, there are as many tokens as are counted, and the
-- index lists a token under its owner and under nobody else.
pub Reach-IsExact : {s : Storage} → Reach no_burn s → IsExact s
Reach-IsExact =
    Reach-induction IsExact IsExact-IsKept no_burn Blank-IsExact (λ id e. absurd (cc e))
      indexed_books-IsExact
