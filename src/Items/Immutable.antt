-- ===== src/Items/Immutable.antt =====
-- The data of an item never changes.
use sysbreak_trust.Base.{
  ℕ, ◌+◌, ◌<◌, ◌≡◌, arith, some, true, Text, find, find-save, u64_max, OnOk-apply, to_string,
  same_text_iff, text_key, number_key, pair_key,
}
use mathlib.Core.Path.{subst}
use sysbreak_trust.Host.{Addr}
use sysbreak_trust.Items.State.{TokenData, Storage, MintRequest}
use sysbreak_trust.Items.Mint.{add_token, data_of}
use sysbreak_trust.Items.Trace.{Reach, After, now, more, renewed, no_burn}
use sysbreak_trust.Items.Induction.{IsKept, execute-keeps, migrate-SameBooks}
use sysbreak_trust.Items.Exact.{IsExact, next_is_new}
use sysbreak_trust.Items.Numbering.{IsExact-IsKept, indexed_books-IsExact, Reach-IsExact}

-- The numbering is exact, and an item has this data.
abbrev IsThere : Text → TokenData → Storage → Type 0
IsThere id item s = IsExact s × (find id s.tokens ≡ some item)

module _ (id : Text) (item : TokenData) where
  add_token-IsThere :
      (a : Addr) (m : MintRequest) (n : ℕ) (s : Storage)
      → s.token_count ≡ some n
      → n < u64_max
      → IsThere id item s
      → IsThere id item (add_token a m (n + 1) s)
  add_token-IsThere a m n s e room (x, f) = (
    IsExact-IsKept.at_add a m n s e room x,
    ground (
      arith,
      next_is_new n s e room x,
      (x.sound).paired id,
      find-save (to_string (n + 1)) id (data_of m) s.tokens,
      same_text_iff (to_string (n + 1)) id,
    ),
  )

  IsThere-IsKept : IsKept (IsThere id item)
  IsThere-IsKept = record {
    at_same = λ s s' b i. (IsExact-IsKept.at_same s s' b i.0, rw (b.tokens) (i.1));
    at_add = add_token-IsThere;
    at_move = λ t old new s e i. (IsExact-IsKept.at_move t old new s e i.0, i.1);
    at_allow = λ t owner spender s e i. (IsExact-IsKept.at_allow t owner spender s e i.0, i.1);
    at_disallow = λ t s i. (IsExact-IsKept.at_disallow t s i.0, i.1);
  }

  After-IsThere : {s s' : Storage} → IsThere id item s → After no_burn s s' → IsThere id item s'
  After-IsThere i now = i
  After-IsThere i (more d info msg h let_through e) =
      execute-keeps (IsThere id item) IsThere-IsKept d info msg _ _ _
        (λ t is. absurd (cc (subst (λ x. no_burn x ≡ true) is let_through))) e (After-IsThere i h)
  After-IsThere i (renewed {s'} h e) =
      let (x, f) = After-IsThere i h in
      IsThere-IsKept.at_same _ _ (OnOk-apply _ (migrate-SameBooks s') e)
        (indexed_books-IsExact s' x, f)

-- An item that is there in a history without burning keeps its metadata and its address on the web
-- through any further calls but burns, and through migrations.
pub items_immutable :
    {s s' : Storage} (id : Text) {item : TokenData}
    → Reach no_burn s
    → find id s.tokens ≡ some item
    → After no_burn s s'
    → find id s'.tokens ≡ some item
items_immutable id {item = item} h e later = (After-IsThere id item (Reach-IsExact h, e) later).1
