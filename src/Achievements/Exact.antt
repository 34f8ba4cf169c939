-- ===== src/Achievements/Exact.antt =====
-- What the numbering of the achievement NFT is like while no token is burned: the invariant, at the start and
-- under the changes that add and move nothing.
use sysbreak_trust.Base.{
  ℕ, ◌+◌, ◌≤◌, ◌<◌, ◌≡◌, ◌∙◌, arith, some, none, Bool, true, false, Text, find, find-save,
  find-remove, is_some, length, to_string, to_string-injective, u64_max, inl, inr, Option-cases,
  Has, same_text_iff, text_key, number_key, pair_key, text_order,
}
use sysbreak_trust.Host.{Addr}
use sysbreak_trust.Achievements.State.{TokenData, Storage}
use sysbreak_trust.Achievements.Steps.{SameBooks, allow, disallow}
use sysbreak_trust.Achievements.Induction.{Blank}
use sysbreak_trust.Achievements.Ledger.{IsSound, IsSound-IsKept, Blank-IsSound}

-- An identifier is the number of one of the first `n` tokens.
abbrev pub IsNumbered : ℕ → Text → Type 0
IsNumbered n id = (k : ℕ) × (1 ≤ k) × (k ≤ n) × (id ≡ to_string k)

-- The identifiers are those numbered up to the count, which is the number of the tokens; the index of
-- the owners lists no token under anyone but its owner, the index of the achievements names a token
-- with that owner and that achievement, and no soulbound token has an approval.
pub record IsExact (s : Storage) : Type 0 where
  pub sound : IsSound s
  pub count : ℕ
  pub counted : s.token_count ≡ some count
  pub small : count ≤ u64_max
  pub numbered :
      (id : Text) (token : TokenData) → find id s.tokens ≡ some token → IsNumbered count id
  pub all_there : (k : ℕ) → 1 ≤ k → k ≤ count → is_some (find (to_string k) s.tokens) ≡ true
  pub only_owners :
      (id : Text) (a : Addr) (v : Bool)
      → find (a, id) s.owner_tokens ≡ some v
      → Has (λ token. token.owner ≡ a) (find id s.tokens)
  pub earned :
      (id : Text) (a : Addr) (x : Text)
      → find (a, x) s.achievement_index ≡ some id
      → Has (λ token. (token.owner ≡ a) × (token.metadata.achievement_id ≡ x)) (find id s.tokens)
  pub free :
      (id : Text) (a : Addr)
      → find id s.token_approvals ≡ some a
      → Has (λ token. token.soulbound ≡ false) (find id s.tokens)
  pub supply : length s.tokens ≡ count

-- The next number is not taken.
pub next_is_new :
    (n : ℕ) (s : Storage)
    → s.token_count ≡ some n
    → n < u64_max
    → IsExact s
    → find (to_string (n + 1)) s.tokens ≡ none
next_is_new n s e room x = elim (Option-cases (find (to_string (n + 1)) s.tokens)) [
  | inl f ↦ f
  | inr (a, f) ↦
      let same : x.count ≡ n = ground (arith, x.counted) in
      let (k, low, high, named) = x.numbered (to_string (n + 1)) a f in
      let clash = to_string-injective (n + 1) k (omega arith) (omega (arith, x.small)) named in
      absurd (omega (arith, same, clash, high))
]

pub Blank-IsExact : (s : Storage) → Blank s → IsExact s
unfolding find
Blank-IsExact s b = record {
  sound = Blank-IsSound s b;
  count = 0;
  counted = b.token_count;
  small = omega arith;
  numbered = λ id a e. absurd (ground (arith, b.tokens));
  all_there = λ k low high. absurd (omega arith);
  only_owners = λ id a v e. absurd (ground (arith, b.owner_tokens));
  earned = λ id a x e. absurd (ground (arith, b.achievement_index));
  free = λ id a e. absurd (ground (arith, b.token_approvals));
  supply = rw (b.tokens);
}

pub SameBooks-IsExact : (s s' : Storage) → SameBooks s s' → IsExact s → IsExact s'
SameBooks-IsExact s s' b x = record {
  sound = IsSound-IsKept.at_same s s' b x.sound;
  count = x.count;
  counted = b.token_count ∙ x.counted;
  small = x.small;
  numbered = λ id a e. x.numbered id a (rw (b.tokens) at e);
  all_there = λ k low high. rw (b.tokens) (x.all_there k low high);
  only_owners = λ id a v e. rw (b.tokens) (x.only_owners id a v (rw (b.owner_tokens) at e));
  earned = λ id a y e. rw (b.tokens) (x.earned id a y (rw (b.achievement_index) at e));
  free = λ id a e. rw (b.tokens) (x.free id a (rw (b.token_approvals) at e));
  supply = rw (b.tokens) (x.supply);
}

pub allow-IsExact :
    (id : Text) (token : TokenData) (spender : Addr) (s : Storage)
    → find id s.tokens ≡ some token
    → token.soulbound ≡ false
    → IsExact s
    → IsExact (allow id spender s)
allow-IsExact id token spender s e unbound x = record {
  sound = IsSound-IsKept.at_allow id token spender s e unbound x.sound;
  count = x.count;
  counted = x.counted;
  small = x.small;
  numbered = x.numbered;
  all_there = x.all_there;
  only_owners = x.only_owners;
  earned = x.earned;
  free = λ t b f.
      ground (arith, x.free t b, find-save id t spender s.token_approvals, same_text_iff id t);
  supply = x.supply;
}

pub disallow-IsExact : (id : Text) (s : Storage) → IsExact s → IsExact (disallow id s)
disallow-IsExact id s x = record {
  sound = IsSound-IsKept.at_disallow id s x.sound;
  count = x.count;
  counted = x.counted;
  small = x.small;
  numbered = x.numbered;
  all_there = x.all_there;
  only_owners = x.only_owners;
  earned = x.earned;
  free = λ t b f. ground (arith, x.free t b, find-remove id t s.token_approvals);
  supply = x.supply;
}
