-- ===== src/Items/Listing.antt =====
-- What a client that asks for the tokens of an owner page by page gets.
use sysbreak_trust.Base.{
  ℕ, ◌+◌, ◌≤◌, ◌<◌, ◌≡◌, refl, ap, ◌∙◌, arith, ok, some, none, Bool, true, false, Option, List, [],
  ◌∷◌, Text, Map, find, has, save, remove, prefix, is_some, Option-cases, inl, inr, eqb_iff, take,
  beyond, min, unwrap_or, Result, length, to_string, eqb, if◌then◌else◌, text_key, number_key,
  pair_key, text_order, number_order, pair_order, IsAscending, IsAscending-save, IsAscending-remove,
  IsAscending-prefix, find-prefix, length-prefix, all_pages, keys, pages_list_keys, occurrences,
  occurrences-keys,
}
use mathlib.Core.Path.{fun_ext}
use sysbreak_trust.Host.{Addr, Deps, StdError}
use sysbreak_trust.Items.State.{Storage, ExecuteMsg}
use sysbreak_trust.Items.Contract.{index_owners}
use sysbreak_trust.Items.Query.{query_tokens, default_query_limit, max_query_limit}
use sysbreak_trust.Items.Trace.{Reach, no_burn}
use sysbreak_trust.Items.Induction.{IsKept, Reach-induction}
use sysbreak_trust.Items.Exact.{IsExact}
use sysbreak_trust.Items.Numbering.{Reach-IsExact}

abbrev IsOrdered : Storage → Type 0
IsOrdered s = IsAscending s.owner_tokens

index_owners-IsAscending :
    (m : Map Text Addr) (index : Map (Addr × Text) Bool)
    → IsAscending index
    → IsAscending (index_owners m index)
unfolding index_owners
index_owners-IsAscending [] index h = h
index_owners-IsAscending ((t, a) ∷ m) index h =
    index_owners-IsAscending m (save (a, t) true index) (IsAscending-save (a, t) true index h)

IsOrdered-IsKept : IsKept IsOrdered
IsOrdered-IsKept = record {
  at_same = λ s s' b i. rw (b.owner_tokens) i;
  at_add = λ a m n s e room i. IsAscending-save (a, to_string (n + 1)) true s.owner_tokens i;
  at_move = λ id old new s e i.
      IsAscending-save (new, id) true (remove (old, id) s.owner_tokens)
        (IsAscending-remove (old, id) s.owner_tokens i);
  at_allow = λ id owner spender s e i. i;
  at_disallow = λ id s i. i;
}

Reach-IsOrdered : {lets : ExecuteMsg → Bool} {s : Storage} → Reach lets s → IsOrdered s
Reach-IsOrdered {lets} =
    Reach-induction IsOrdered IsOrdered-IsKept lets (λ s b. rw (b.owner_tokens) tt)
      (λ id e t owner n s f c i. IsAscending-remove (owner, t) s.owner_tokens i)
      (λ s i. index_owners-IsAscending s.token_owners s.owner_tokens i)

-- The page of an answer.
abbrev pub page_of : Result StdError (List Text) → List Text
page_of (ok ids) = ids
page_of _ = []

-- The pages of an owner's tokens, in some rounds.
abbrev pub tokens_listed : ℕ → Deps → Text → Option ℕ → Storage → List Text
tokens_listed rounds d owner limit s =
    all_pages rounds (λ start. page_of (query_tokens d owner start limit s)) none

-- Whether the entry is there and names the address.
abbrev pub names : Option Addr → Addr → Bool
names none a = false
names (some b) a = eqb b a

query_tokens-page :
    (d : Deps) (owner : Text) (a : Addr) (limit : Option ℕ) (s : Storage) (start : Option Text)
    → d.addr_validate owner ≡ some a
    → page_of (query_tokens d owner start limit s)
      ≡ keys (
          take
            (min (unwrap_or default_query_limit limit) max_query_limit)
            (beyond start (prefix a s.owner_tokens)))
unfolding query_tokens
query_tokens-page d owner a limit s start v = rw (v, query_tokens) refl

index-names :
    (a : Addr) (id : Text) (s : Storage)
    → IsExact s
    → has (a, id) s.owner_tokens ≡ names (find id s.token_owners) a
index-names a id s x = elim (Option-cases (find (a, id) s.owner_tokens)) [
  | inl e ↦ ground (arith, (x.sound).indexed id a, eqb_iff a a)
  | inr (v, e) ↦ rw (x.only_owners id a v e) (ground arith)
]

-- After any history without burning, a client that asks for the tokens of an owner page by page, with
-- any limit above zero and as many rounds as the index has entries, is given each token of that
-- owner exactly once, and no other token.
pub owner_listing_exact :
    (rounds : ℕ) (d : Deps) (owner : Text) (limit : Option ℕ) (id : Text) {s : Storage} {a : Addr}
    → Reach no_burn s
    → d.addr_validate owner ≡ some a
    → 0 < unwrap_or default_query_limit limit
    → length s.owner_tokens ≤ rounds
    → occurrences id (tokens_listed rounds d owner limit s)
      ≡ (if names (find id s.token_owners) a then 1 else 0)
owner_listing_exact rounds d owner limit id {s} {a} h v some_keys enough =
    let mine = prefix a s.owner_tokens in
    let ordered : IsAscending mine = IsAscending-prefix a s.owner_tokens (Reach-IsOrdered h) in
    let all : tokens_listed rounds d owner limit s ≡ keys mine =
      ap (λ ask. all_pages rounds ask none)
        (fun_ext (λ start. query_tokens-page d owner a limit s start v))
      ∙ pages_list_keys rounds (min (unwrap_or default_query_limit limit) max_query_limit) mine
          ordered (omega (arith, some_keys))
          (omega (arith, enough, length-prefix a s.owner_tokens)) in
    ap (occurrences id) all
    ∙ occurrences-keys id mine ordered
    ∙ ap (λ r. if is_some r then 1 else 0) (find-prefix a id s.owner_tokens)
    ∙ ap (λ b. if b then 1 else 0) (index-names a id s (Reach-IsExact h))
