-- ===== src/Items/Mint.antt =====
-- The handlers of the item NFT that create and destroy tokens (contract.rs).
use sysbreak_trust.Base.{
  ℕ, ◌+◌, ◌%◌, ◌^◌, true, some, none, Option, List, [], ◌∷◌, String, Text, ltb, is_zero, length,
  Result, ok, ◌>>=◌, ◌>>◌, fail_if, or_err, or_panic, fits, u64_max, saturating_sub, find, save,
  remove, to_string, number_key, text_key, pair_key,
}
use sysbreak_trust.Host.{
  Addr, MessageInfo, Deps, not_found, Value, Response, word, text, number, address,
}
use sysbreak_trust.Items.State.{
  TokenData, Storage, ContractError, std, batch_too_large, empty_batch, token_not_found,
  MintRequest, Outcome,
}
use sysbreak_trust.Items.Helpers.{validate_addr, assert_not_paused, assert_minter, reject_funds}

abbrev pub max_batch_size : ℕ
max_batch_size = 50

-- A response with no message.
abbrev pub attributes_only : List (String × Value) → Response
attributes_only attributes = record { messages = []; attributes = attributes }

-- The data of the token that a request asks for.
abbrev pub data_of : MintRequest → TokenData
data_of m = record {
  metadata = record {
    item_type = m.item_type;
    rarity = m.rarity;
    level = m.level;
    stats = m.stats;
    origin = m.origin;
  };
  token_uri = m.token_uri;
}

-- The entries of a new token.
abbrev pub add_token : Addr → MintRequest → ℕ → Storage → Storage
add_token recipient m count s = record s {
  tokens = save (to_string count) (data_of m) s.tokens;
  token_owners = save (to_string count) recipient s.token_owners;
  owner_tokens = save (recipient, to_string count) true s.owner_tokens;
  token_count = some count;
}

-- The new storage with the number of the token; its identifier is the number in decimal.
unfoldable pub mint_single : Addr → MintRequest → Storage → Result ContractError (Storage × ℕ)
mint_single recipient m s = do
  last ← or_err (std not_found) s.token_count
  count ← or_panic (fits u64_max (last + 1))
  ok (add_token recipient m count s, count)

-- The guards of both mints.
unfoldable pub minter_only : MessageInfo → Storage → Result ContractError (Unit {0})
unfolding assert_not_paused assert_minter
minter_only info s = do assert_not_paused s; assert_minter s info.sender

unfoldable pub execute_mint : Deps → MessageInfo → MintRequest → Storage → Outcome
unfolding minter_only mint_single
execute_mint d info m s = do
  minter_only info s
  recipient ← validate_addr d m.to
  (s', count) ← mint_single recipient m s
  ok (
    s',
    attributes_only (
        ("action", word "mint")
        ∷ ("token_id", text (to_string count))
        ∷ ("to", address recipient)
        ∷ []),
  )

-- The recipients of a batch, all of them before the first mint.
unfoldable pub validate_all :
    Deps → List MintRequest → Result ContractError (List (Addr × MintRequest))
validate_all d [] = ok []
validate_all d (m ∷ ms) = do
  recipient ← validate_addr d m.to
  rest ← validate_all d ms
  ok ((recipient, m) ∷ rest)

-- The loop of the batch; the result is the new storage with the numbers of the tokens.
unfoldable pub mint_all :
    List (Addr × MintRequest) → Storage → Result ContractError (Storage × List ℕ)
unfolding mint_single
mint_all [] s = ok (s, [])
mint_all ((recipient, m) ∷ rest) s = do
  (s', count) ← mint_single recipient m s
  (s'', counts) ← mint_all rest s'
  ok (s'', count ∷ counts)

-- `ids[0]` and `ids[ids.len() - 1]`, which panic on an empty list.
abbrev pub first_of : List ℕ → Option ℕ
first_of [] = none
first_of (x ∷ xs) = some x

abbrev pub last_of : List ℕ → Option ℕ
last_of [] = none
last_of (x ∷ []) = some x
last_of (x ∷ y ∷ xs) = last_of (y ∷ xs)

unfoldable pub execute_batch_mint : Deps → MessageInfo → List MintRequest → Storage → Outcome
unfolding minter_only validate_all mint_all
execute_batch_mint d info mints s = do
  minter_only info s
  fail_if (is_zero (length mints)) empty_batch
  fail_if (ltb max_batch_size (length mints % 2 ^ 32)) (batch_too_large max_batch_size)
  validated ← validate_all d mints
  (s', counts) ← mint_all validated s
  first ← or_panic (first_of counts)
  last ← or_panic (last_of counts)
  ok (
    s',
    attributes_only (
        ("action", word "batch_mint")
        ∷ ("count", number (length counts))
        ∷ ("first_token_id", text (to_string first))
        ∷ ("last_token_id", text (to_string last))
        ∷ []),
  )

unfoldable pub execute_burn : MessageInfo → Text → Storage → Outcome
unfolding reject_funds assert_minter
execute_burn info token_id s = do
  reject_funds info
  assert_minter s info.sender
  owner ← or_err (token_not_found token_id) (find token_id s.token_owners)
  count ← or_err (std not_found) s.token_count
  ok (
    record s {
      tokens = remove token_id s.tokens;
      token_owners = remove token_id s.token_owners;
      token_approvals = remove token_id s.token_approvals;
      owner_tokens = remove (owner, token_id) s.owner_tokens;
      token_count = some (saturating_sub count 1);
    },
    attributes_only (("action", word "burn") ∷ ("token_id", text token_id) ∷ []),
  )
