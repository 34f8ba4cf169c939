-- ===== src/Achievements/Numbering.antt =====
-- The numbering of the achievement NFT while no token is burned: a new token never takes the place
-- of another, and what the two indices say is true.
use sysbreak_trust.Base.{
  ℕ, ◌+◌, ◌<◌, ◌≡◌, refl, sym, arith, some, none, true, find, remove, find-save, find-remove,
  length-save, to_string, u64_max, Bool-cases, inl, inr, IsAscending-IsFound, same_text_iff,
  eqb_iff, text_key, number_key, pair_key, text_order, same_text,
}
use sysbreak_trust.Host.{Addr}
use sysbreak_trust.Achievements.State.{Storage, MintRequest}
use sysbreak_trust.Achievements.Mint.{add_token, data_of}
use sysbreak_trust.Achievements.Trace.{Reach, no_burn}
use sysbreak_trust.Achievements.Induction.{IsKept, IsKeptByMove, indexed_books, Reach-induction}
use sysbreak_trust.Achievements.Index.{index_owners-cases}
use sysbreak_trust.Achievements.Ledger.{
  IsSound-IsKept, indexed_books-IsSound, move_token-IsSound, moved,
}
use sysbreak_trust.Achievements.Exact.{
  IsExact, next_is_new, Blank-IsExact, SameBooks-IsExact, allow-IsExact, disallow-IsExact,
}

add_token-IsExact :
    (a : Addr) (m : MintRequest) (n : ℕ) (s : Storage)
    → s.token_count ≡ some n
    → n < u64_max
    → find (a, m.achievement_id) s.achievement_index ≡ none
    → IsExact s
    → IsExact (add_token a m (n + 1) s)
add_token-IsExact a m n s e room first x =
    let same : x.count ≡ n = ground (arith, x.counted) in
    let t = to_string (n + 1) in
    let new = next_is_new n s e room x in
    record {
      sound = IsSound-IsKept.at_add a m n s e room first x.sound;
      count = n + 1;
      counted = refl;
      small = omega arith;
      numbered = λ id b f. elim (Bool-cases (same_text t id)) [
        | inl equal ↦ (n + 1, omega arith, omega arith, sym ((same_text_iff t id).0 equal))
        | inr other ↦
            let old : find id s.tokens ≡ some b =
              ground (arith, find-save t id (data_of a m) s.tokens) in
            let (k, low, high, named) = x.numbered id b old in
            (k, low, omega (arith, same, high), named)
      ];
      all_there = λ k low high. ground (
        arith,
        x.all_there k low,
        same,
        find-save t (to_string k) (data_of a m) s.tokens,
        same_text_iff t (to_string k),
      );
      only_owners = λ id b v f. ground (
        arith,
        x.only_owners id b v,
        new,
        find-save t id (data_of a m) s.tokens,
        find-save (a, t) (b, id) true s.owner_tokens,
        same_text_iff t id,
        eqb_iff a b,
      );
      earned = λ id b y f. ground (
        arith,
        x.earned id b y,
        new,
        find-save t id (data_of a m) s.tokens,
        find-save (a, m.achievement_id) (b, y) t s.achievement_index,
        same_text_iff t id,
        eqb_iff a b,
        same_text_iff (m.achievement_id) y,
      );
      free = λ id b f.
          ground
            (arith, x.free id b, new, find-save t id (data_of a m) s.tokens, same_text_iff t id);
      supply =
          ground
            (arith, x.supply, same, new, length-save t (data_of a m) s.tokens (x.sound).ordered);
    }

pub move_token-IsExact : IsKeptByMove IsExact
move_token-IsExact id token new s e free x = record {
  sound = move_token-IsSound id token new s e free x.sound;
  count = x.count;
  counted = x.counted;
  small = x.small;
  numbered = λ t k f. elim (Bool-cases (same_text id t)) [
    | inl same ↦ x.numbered t token (ground (arith, same_text_iff id t))
    | inr other ↦ x.numbered t k (ground (arith, find-save id t (moved token new) s.tokens))
  ];
  all_there = λ k low high.
      ground (arith, x.all_there k low high, find-save id (to_string k) (moved token new) s.tokens);
  only_owners = λ t b v f. ground (
    arith,
    x.only_owners t b v,
    find-save id t (moved token new) s.tokens,
    find-save (new, id) (b, t) true (remove (token.owner, id) s.owner_tokens),
    find-remove (token.owner, id) (b, t) s.owner_tokens,
    same_text_iff id t,
    eqb_iff new b,
    eqb_iff (token.owner) b,
  );
  earned = λ t b y f.
      let title = token.metadata.achievement_id in
      ground (
        arith,
        x.earned t b y,
        find-save id t (moved token new) s.tokens,
        find-save (new, title) (b, y) id (remove (token.owner, title) s.achievement_index),
        find-remove (token.owner, title) (b, y) s.achievement_index,
        same_text_iff id t,
        eqb_iff new b,
        eqb_iff (token.owner) b,
        same_text_iff title y,
      );
  free = λ t b f. ground (
    arith,
    x.free t b,
    find-save id t (moved token new) s.tokens,
    find-remove id t s.token_approvals,
  );
  supply = ground (arith, x.supply, length-save id (moved token new) s.tokens (x.sound).ordered);
}

pub indexed_books-IsExact : (s : Storage) → IsExact s → IsExact (indexed_books s)
indexed_books-IsExact s x = record {
  sound = indexed_books-IsSound s x.sound;
  count = x.count;
  counted = x.counted;
  small = x.small;
  numbered = x.numbered;
  all_there = x.all_there;
  only_owners = λ id a v e.
      elim (index_owners-cases a id v s.tokens s.tokens s.owner_tokens
        (IsAscending-IsFound s.tokens (x.sound).ordered) e) [
          | inl before ↦ x.only_owners id a v before
          | inr owned ↦ owned
        ];
  earned = x.earned;
  free = x.free;
  supply = x.supply;
}

pub IsExact-IsKept : IsKept IsExact
IsExact-IsKept = record {
  at_same = SameBooks-IsExact;
  at_add = add_token-IsExact;
  at_allow = allow-IsExact;
  at_disallow = disallow-IsExact;
}

-- In every history without burning, transfers and migrations included, the identifiers of the tokens
-- are exactly the numbers from one to the count in decimal, there are as many tokens as are counted,
-- the index of the owners lists a token under its owner and under nobody else, the index of the
-- achievements names only tokens with that owner and that achievement, and no soulbound token has an
-- approval.
pub achievement_numbering : {s : Storage} → Reach no_burn s → IsExact s
achievement_numbering =
    Reach-induction IsExact IsExact-IsKept no_burn Blank-IsExact (λ msg is e. move_token-IsExact)
      (λ msg is e. absurd (ground arith)) indexed_books-IsExact
