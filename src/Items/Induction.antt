-- ===== src/Items/Induction.antt =====
-- Induction over the calls and the histories of the item NFT, by what happens to the books: a token
-- is added, moved or dropped, an approval is given or taken back, the index is filled in.
use sysbreak_trust.Base.{
  ℕ, ◌+◌, ◌<◌, ◌≡◌, refl, sym, arith, ok, some, true, Bool, List, [], ◌∷◌, Text, OnOk, OnOk-apply,
  find, u64_max, text_key,
}
use mathlib.Core.Path.{subst}
use sysbreak_trust.Host.{Addr, Deps, MessageInfo, Response}
use sysbreak_trust.Items.State.{Storage, ExecuteMsg, InstantiateMsg, MintRequest}
use sysbreak_trust.Items.Mint.{add_token, mint_single, mint_all}
use sysbreak_trust.Items.Transfer.{move_token}
use sysbreak_trust.Items.Contract.{fresh, instantiate, execute, migrate, index_owners}
use sysbreak_trust.Items.Steps.{
  SameBooks, drop_token, allow, disallow, mint_single-adds, execute_mint-mints,
  execute_batch_mint-mints, first_of_batch, execute_transfer_nft-moves, execute_send_nft-moves,
  execute_burn-drops, execute_approve-allows, execute_revoke-disallows, execute-SameBooks,
}
use sysbreak_trust.Items.Trace.{Reach, start, call, upgrade}

-- The books before any token.
pub record Blank (s : Storage) : Type 0 where
  pub token_count : s.token_count ≡ some 0
  pub tokens : s.tokens ≡ []
  pub token_owners : s.token_owners ≡ []
  pub token_approvals : s.token_approvals ≡ []
  pub owner_tokens : s.owner_tokens ≡ []

instantiate-Blank :
    (d : Deps) (msg : InstantiateMsg) → OnOk (λ p. Blank p.0) (instantiate d msg fresh)
unfolding instantiate
instantiate-Blank d msg = ground arith

-- The books with an index entry for every owner.
abbrev pub indexed_books : Storage → Storage
indexed_books s = record s { owner_tokens = index_owners s.token_owners s.owner_tokens }

pub migrate-SameBooks : (s : Storage) → OnOk (λ p. SameBooks (indexed_books s) p.0) (migrate s)
unfolding migrate
migrate-SameBooks s = ground arith

-- What is kept by every change of the books.
pub record IsKept (I : Storage → Type 0) : Type 0 where
  pub at_same : (s s' : Storage) → SameBooks s s' → I s → I s'
  pub at_add :
      (a : Addr) (m : MintRequest) (n : ℕ) (s : Storage)
      → s.token_count ≡ some n
      → n < u64_max
      → I s
      → I (add_token a m (n + 1) s)
  pub at_move :
      (id : Text) (old new : Addr) (s : Storage)
      → find id s.token_owners ≡ some old
      → I s
      → I (move_token id old new s)
  pub at_allow :
      (id : Text) (owner spender : Addr) (s : Storage)
      → find id s.token_owners ≡ some owner
      → I s
      → I (allow id spender s)
  pub at_disallow : (id : Text) (s : Storage) → I s → I (disallow id s)

-- What is kept by the burning of a token.
abbrev pub IsKeptByBurn : (Storage → Type 0) → Type 0
IsKeptByBurn I =
    (id : Text) (owner : Addr) (n : ℕ) (s : Storage)
    → find id s.token_owners ≡ some owner
    → s.token_count ≡ some n
    → I s
    → I (drop_token id owner n s)

-- What is kept by the adding of a token is kept by mints.
module _ (I : Storage → Type 0)
    (at_add : (a : Addr) (m : MintRequest) (n : ℕ) (s : Storage)
      → s.token_count ≡ some n
      → n < u64_max
      → I s
      → I (add_token a m (n + 1) s)) where
  pub mint_single-keeps :
      (a : Addr) (m : MintRequest) (s s' : Storage) (c : ℕ)
      → mint_single a m s ≡ ok (s', c)
      → I s
      → I s'
  mint_single-keeps a m s s' c h i =
      let (n, e, room, number, added) = mint_single-adds a m s s' c h in
      subst I (sym added) (at_add a m n s e room i)

  pub mint_all-keeps :
      (to : List (Addr × MintRequest)) (s s' : Storage) (counts : List ℕ)
      → mint_all to s ≡ ok (s', counts)
      → I s
      → I s'
  unfolding mint_all
  mint_all-keeps [] s s' counts h i = let same : s ≡ s' = ground arith in subst I same i
  mint_all-keeps ((a, m) ∷ rest) s s' counts h i =
      let (t, c, cs, e, f, g) = first_of_batch a m rest s s' counts h in
      mint_all-keeps rest t s' cs f (mint_single-keeps a m s t c e i)

module _ (I : Storage → Type 0) (kept : IsKept I) where
  -- A call keeps what every change of the books keeps, if it burns nothing or burning keeps it too.
  pub execute-keeps :
      (d : Deps) (info : MessageInfo) (msg : ExecuteMsg) (s s' : Storage) (r : Response)
      → ((id : Text) → msg ≡ ExecuteMsg.burn id → IsKeptByBurn I)
      → execute d info msg s ≡ ok (s', r)
      → I s
      → I s'
  unfolding execute
  execute-keeps d info (ExecuteMsg.mint m) s s' r b h i =
      let (a, c, e, f) = execute_mint-mints d info m s s' r h in
      mint_single-keeps I kept.at_add a m s s' c f i
  execute-keeps d info (ExecuteMsg.batch_mint ms) s s' r b h i =
      let (to, counts, e, f) = execute_batch_mint-mints d info ms s s' r h in
      mint_all-keeps I kept.at_add to s s' counts f i
  execute-keeps d info (ExecuteMsg.transfer_nft recipient id) s s' r b h i =
      let (old, new, e, f) = execute_transfer_nft-moves d info recipient id s s' r h in
      subst I (sym f) (kept.at_move id old new s e i)
  execute-keeps d info (ExecuteMsg.send_nft contract id msg) s s' r b h i =
      let (old, new, e, f) = execute_send_nft-moves d info contract id msg s s' r h in
      subst I (sym f) (kept.at_move id old new s e i)
  execute-keeps d info (ExecuteMsg.approve spender id) s s' r b h i =
      let (a, e, f) = execute_approve-allows d info spender id s s' r h in
      subst I (sym f) (kept.at_allow id info.sender a s e i)
  execute-keeps d info (ExecuteMsg.revoke id) s s' r b h i =
      let (e, f) = execute_revoke-disallows info id s s' r h in
      subst I (sym f) (kept.at_disallow id s i)
  execute-keeps d info (ExecuteMsg.burn id) s s' r b h i =
      let (owner, n, e, f, g) = execute_burn-drops info id s s' r h in
      subst I (sym g) (b id refl id owner n s e f i)
  execute-keeps d info msg s s' r b h i =
      kept.at_same s s' (OnOk-apply _ (execute-SameBooks d info msg s refl) h) i

module _ (I : Storage → Type 0) (kept : IsKept I) (lets : ExecuteMsg → Bool)
    (at_start : (s : Storage) → Blank s → I s)
    (at_burn : (id : Text) → lets (ExecuteMsg.burn id) ≡ true → IsKeptByBurn I)
    (at_index : (s : Storage) → I s → I (indexed_books s)) where
  pub Reach-induction : {s : Storage} → Reach lets s → I s
  Reach-induction (start d msg e) = at_start _ (OnOk-apply _ (instantiate-Blank d msg) e)
  Reach-induction (call {s} d info msg h let_through e) =
      execute-keeps I kept d info msg _ _ _
        (λ id burns. at_burn id (subst (λ x. lets x ≡ true) burns let_through)) e
        (Reach-induction h)
  Reach-induction (upgrade {s} h e) =
      kept.at_same _ _ (OnOk-apply _ (migrate-SameBooks s) e) (at_index _ (Reach-induction h))
