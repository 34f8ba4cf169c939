-- ===== src/Items/Exact.antt =====
-- What the numbering of the item NFT is like while no token is burned: the invariant, at the start and
-- under the changes that add and move nothing.
use sysbreak_trust.Base.{
  ℕ, ◌+◌, ◌≤◌, ◌<◌, ◌≡◌, ◌∙◌, arith, some, none, Bool, true, Text, find, is_some, length, to_string,
  to_string-injective, u64_max, inl, inr, Option-cases, text_key, number_key, pair_key, text_order,
}
use sysbreak_trust.Host.{Addr}
use sysbreak_trust.Items.State.{Storage}
use sysbreak_trust.Items.Steps.{SameBooks, allow, disallow}
use sysbreak_trust.Items.Induction.{Blank}
use sysbreak_trust.Items.Ledger.{IsSound, IsSound-IsKept, Blank-IsSound}

-- An identifier is the number of one of the first `n` tokens.
abbrev pub IsNumbered : ℕ → Text → Type 0
IsNumbered n id = (k : ℕ) × (1 ≤ k) × (k ≤ n) × (id ≡ to_string k)

-- The identifiers are those numbered up to the count, which is the number of the tokens, and the
-- index lists no token under anyone but its owner.
pub record IsExact (s : Storage) : Type 0 where
  pub sound : IsSound s
  pub count : ℕ
  pub counted : s.token_count ≡ some count
  pub small : count ≤ u64_max
  pub numbered : (id : Text) (a : Addr) → find id s.token_owners ≡ some a → IsNumbered count id
  pub all_there : (k : ℕ) → 1 ≤ k → k ≤ count → is_some (find (to_string k) s.token_owners) ≡ true
  pub only_owners :
      (id : Text) (a : Addr) (v : Bool)
      → find (a, id) s.owner_tokens ≡ some v
      → find id s.token_owners ≡ some a
  pub supply : length s.tokens ≡ count

-- The next number is not taken.
pub next_is_new :
    (n : ℕ) (s : Storage)
    → s.token_count ≡ some n
    → n < u64_max
    → IsExact s
    → find (to_string (n + 1)) s.token_owners ≡ none
next_is_new n s e room x = elim (Option-cases (find (to_string (n + 1)) s.token_owners)) [
  | inl f ↦ f
  | inr (a, f) ↦
      let same : x.count ≡ n = ground (arith, x.counted) in
      let (k, low, high, named) = x.numbered (to_string (n + 1)) a f in
      let clash = to_string-injective (n + 1) k (omega arith) (omega (arith, x.small)) named in
      absurd (omega (arith, same, clash, high))
]

pub Blank-IsExact : (s : Storage) → Blank s → IsExact s
unfolding find
Blank-IsExact s b = record {
  sound = Blank-IsSound s b;
  count = 0;
  counted = b.token_count;
  small = omega arith;
  numbered = λ id a e. absurd (ground (arith, b.token_owners));
  all_there = λ k low high. absurd (omega arith);
  only_owners = λ id a v e. absurd (ground (arith, b.owner_tokens));
  supply = rw (b.tokens);
}

pub SameBooks-IsExact : (s s' : Storage) → SameBooks s s' → IsExact s → IsExact s'
SameBooks-IsExact s s' b x = record {
  sound = IsSound-IsKept.at_same s s' b x.sound;
  count = x.count;
  counted = b.token_count ∙ x.counted;
  small = x.small;
  numbered = λ id a e. x.numbered id a (rw (b.token_owners) at e);
  all_there = λ k low high. rw (b.token_owners) (x.all_there k low high);
  only_owners = λ id a v e. rw (b.token_owners) (x.only_owners id a v (rw (b.owner_tokens) at e));
  supply = rw (b.tokens) (x.supply);
}

pub allow-IsExact :
    (id : Text) (owner spender : Addr) (s : Storage)
    → find id s.token_owners ≡ some owner
    → IsExact s
    → IsExact (allow id spender s)
allow-IsExact id owner spender s e x = record {
  sound = IsSound-IsKept.at_allow id owner spender s e x.sound;
  count = x.count;
  counted = x.counted;
  small = x.small;
  numbered = x.numbered;
  all_there = x.all_there;
  only_owners = x.only_owners;
  supply = x.supply;
}

pub disallow-IsExact : (id : Text) (s : Storage) → IsExact s → IsExact (disallow id s)
disallow-IsExact id s x = record {
  sound = IsSound-IsKept.at_disallow id s x.sound;
  count = x.count;
  counted = x.counted;
  small = x.small;
  numbered = x.numbered;
  all_there = x.all_there;
  only_owners = x.only_owners;
  supply = x.supply;
}
