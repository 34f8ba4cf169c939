-- ===== src/Items/Reuse.antt =====
-- What happens to the number of a token when another one is burned.
use sysbreak_trust.Base.{
  ℕ, ◌+◌, ◌<◌, ◌≡◌, ◌≢◌, sym, ap, ◌∙◌, arith, find-save_self, ok, some, true, Text, find, find-save,
  find-remove, to_string, same_text_iff, text_key, number_key, pair_key,
}
use mathlib.Core.Path.{subst}
use sysbreak_trust.Host.{Addr, Deps, MessageInfo, Response}
use sysbreak_trust.Items.State.{Storage, MintRequest}
use sysbreak_trust.Items.Mint.{execute_mint, execute_burn, add_token, data_of}
use sysbreak_trust.Items.Steps.{
  mint_single-adds, execute_mint-mints, execute_burn-drops, drop_token,
}

-- The last token, after another token was burned and one was minted: its owner and its data are
-- those of the new mint, the index still lists it for its former owner, and its approval stands.
pub record Overwritten (d : Deps) (m : MintRequest) (last : Text) (owner : Addr) (s s' : Storage)
    : Type 0 where
  pub recipient : Addr
  pub validated : d.addr_validate m.to ≡ some recipient
  pub new_owner : find last s'.token_owners ≡ some recipient
  pub new_data : find last s'.tokens ≡ some (data_of m)
  pub still_indexed : find (owner, last) s'.owner_tokens ≡ some true
  pub still_approved : find last s'.token_approvals ≡ find last s.token_approvals

overwriting :
    (d : Deps) (m : MintRequest) (id : Text) (o a : Addr) (n : ℕ) (owner : Addr) (s : Storage)
    → d.addr_validate m.to ≡ some a
    → find (to_string n) s.token_owners ≡ some owner
    → find (owner, to_string n) s.owner_tokens ≡ some true
    → id ≢ to_string n
    → Overwritten d m (to_string n) owner s (add_token a m n (drop_token id o n s))
overwriting d m id o a n owner s v owned indexed other =
    let last = to_string n in
    let dropped = drop_token id o n s in
    record {
      recipient = a;
      validated = v;
      new_owner = find-save_self last a dropped.token_owners;
      new_data = find-save_self last (data_of m) dropped.tokens;
      still_indexed = ground (
        arith,
        find-save (a, last) (owner, last) true dropped.owner_tokens,
        find-remove (o, id) (owner, last) s.owner_tokens,
        same_text_iff id last,
      );
      still_approved = ground (arith, find-remove id last s.token_approvals, same_text_iff id last);
    }

-- Where the token that carries the last number has an owner and an entry in the index, burning any
-- other token and minting once gives that token to the recipient of the mint, with the data of the
-- mint: the count falls with the burning, so that the mint uses the last number again.
pub burn_then_mint_overwrites :
    (d : Deps) (burner minter : MessageInfo) (id : Text) (m : MintRequest) (n : ℕ) (owner : Addr)
    {s s1 s2 : Storage} {r1 r2 : Response}
    → s.token_count ≡ some n
    → 0 < n
    → find (to_string n) s.token_owners ≡ some owner
    → find (owner, to_string n) s.owner_tokens ≡ some true
    → id ≢ to_string n
    → execute_burn burner id s ≡ ok (s1, r1)
    → execute_mint d minter m s1 ≡ ok (s2, r2)
    → Overwritten d m (to_string n) owner s s2
burn_then_mint_overwrites d burner minter id m n owner {s} {s1} {s2} {r1} {r2} counted some_token
      owned indexed other burned minted =
    let (o, k, e, c, dropped) = execute_burn-drops burner id s s1 r1 burned in
    let (a, j, v, single) = execute_mint-mints d minter m s1 s2 r2 minted in
    let (l, c', room, number, added) = mint_single-adds a m s1 s2 j single in
    let same : n ≡ k = ground (arith, counted, c) in
    let again : l + 1 ≡ n = ground (arith, c', dropped, same, some_token) in
    let result : s2 ≡ add_token a m n (drop_token id o n s) =
      added
      ∙ ap (λ x. add_token a m x s1) again
      ∙ ap (add_token a m n) (dropped ∙ ap (λ x. drop_token id o x s) (sym same)) in
    subst (Overwritten d m (to_string n) owner s) (sym result)
      (overwriting d m id o a n owner s v owned indexed other)
