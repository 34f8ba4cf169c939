-- ===== src/Achievements/Transfer.antt =====
-- The handlers of the achievement NFT that transfer tokens and give approvals (contract.rs).
use sysbreak_trust.Base.{
  true, not, [], ◌∷◌, Text, eqb, Result, ok, ◌>>=◌, ◌>>◌, fail_if, or_err, find, save, remove,
  number_key, text_key, pair_key,
}
use sysbreak_trust.Host.{Addr, MessageInfo, Deps, not_found, wasm_receive, word, text, address}
use sysbreak_trust.Achievements.State.{
  TokenData, Storage, ContractError, std, unauthorized, token_not_found, Outcome,
}
use sysbreak_trust.Achievements.Helpers.{
  validate_addr, assert_not_paused, assert_not_soulbound, is_authorized, reject_funds,
}
use sysbreak_trust.Achievements.Mint.{attributes_only}

-- The guards of both transfers.
unfoldable pub may_transfer : MessageInfo → Text → Storage → Result ContractError (Unit {0})
unfolding reject_funds assert_not_paused assert_not_soulbound is_authorized
may_transfer info token_id s = do
  reject_funds info
  assert_not_paused s
  assert_not_soulbound s token_id
  authorized ← is_authorized s token_id info.sender
  fail_if (not authorized) (unauthorized "owner or approved")

-- The writes of both transfers: the two indices, the token and the approval.
abbrev pub move_token : Text → TokenData → Addr → Storage → Storage
move_token token_id token new_owner s = record s {
  achievement_index =
      save (new_owner, token.metadata.achievement_id) token_id
        (remove (token.owner, token.metadata.achievement_id) s.achievement_index);
  owner_tokens = save (new_owner, token_id) true (remove (token.owner, token_id) s.owner_tokens);
  tokens = save token_id (record token { owner = new_owner }) s.tokens;
  token_approvals = remove token_id s.token_approvals;
}

unfoldable pub execute_transfer_nft : Deps → MessageInfo → Text → Text → Storage → Outcome
unfolding may_transfer
execute_transfer_nft d info recipient token_id s = do
  may_transfer info token_id s
  new_owner ← validate_addr d recipient
  token ← or_err (std not_found) (find token_id s.tokens)
  ok (
    move_token token_id token new_owner s,
    attributes_only (
        ("action", word "transfer_nft")
        ∷ ("token_id", text token_id)
        ∷ ("from", address token.owner)
        ∷ ("to", address new_owner)
        ∷ []),
  )

unfoldable pub execute_send_nft : Deps → MessageInfo → Text → Text → Text → Storage → Outcome
unfolding may_transfer
execute_send_nft d info contract token_id msg s = do
  may_transfer info token_id s
  contract_addr ← validate_addr d contract
  token ← or_err (std not_found) (find token_id s.tokens)
  ok (
    move_token token_id token contract_addr s,
    record {
      messages = wasm_receive contract_addr info.sender token_id msg ∷ [];
      attributes =
          ("action", word "send_nft")
          ∷ ("token_id", text token_id)
          ∷ ("from", address token.owner)
          ∷ ("to", address contract_addr)
          ∷ [];
    },
  )

-- The owner of a token, who must be the sender.
unfoldable pub token_owner_only : MessageInfo → Text → Storage → Result ContractError (Unit {0})
token_owner_only info token_id s = do
  token ← or_err (token_not_found token_id) (find token_id s.tokens)
  fail_if (not (eqb info.sender token.owner)) (unauthorized "token owner")

unfoldable pub execute_approve : Deps → MessageInfo → Text → Text → Storage → Outcome
unfolding reject_funds assert_not_paused assert_not_soulbound token_owner_only
execute_approve d info spender token_id s = do
  reject_funds info
  assert_not_paused s
  assert_not_soulbound s token_id
  token_owner_only info token_id s
  spender_addr ← validate_addr d spender
  ok (
    record s { token_approvals = save token_id spender_addr s.token_approvals },
    attributes_only (
        ("action", word "approve")
        ∷ ("token_id", text token_id)
        ∷ ("spender", address spender_addr)
        ∷ []),
  )

unfoldable pub execute_revoke : MessageInfo → Text → Storage → Outcome
unfolding reject_funds token_owner_only
execute_revoke info token_id s = do
  reject_funds info
  token_owner_only info token_id s
  ok (
    record s { token_approvals = remove token_id s.token_approvals },
    attributes_only (("action", word "revoke") ∷ ("token_id", text token_id) ∷ []),
  )

unfoldable pub execute_approve_all : Deps → MessageInfo → Text → Storage → Outcome
unfolding reject_funds assert_not_paused
execute_approve_all d info operator s = do
  reject_funds info
  assert_not_paused s
  operator_addr ← validate_addr d operator
  ok (
    record s { operator_approvals = save (info.sender, operator_addr) true s.operator_approvals },
    attributes_only (
        ("action", word "approve_all")
        ∷ ("owner", address info.sender)
        ∷ ("operator", address operator_addr)
        ∷ []),
  )

unfoldable pub execute_revoke_all : Deps → MessageInfo → Text → Storage → Outcome
unfolding reject_funds
execute_revoke_all d info operator s = do
  reject_funds info
  operator_addr ← validate_addr d operator
  ok (
    record s { operator_approvals = remove (info.sender, operator_addr) s.operator_approvals },
    attributes_only (
        ("action", word "revoke_all")
        ∷ ("owner", address info.sender)
        ∷ ("operator", address operator_addr)
        ∷ []),
  )
