-- ===== src/Achievements/Query.antt =====
-- The queries of the achievement NFT (contract.rs). The answer is the value that the source writes as
-- JSON; a response of one field is the value of that field.
use sysbreak_trust.Base.{
  ℕ, Bool, false, Option, some, none, List, [], ◌∷◌, Text, Result, ok, ◌>>=◌, or_err, unwrap_or,
  is_some, eqb, if◌then◌else◌, find, prefix, Map, take, beyond, min, map, number_key, text_key,
  pair_key,
}
use sysbreak_trust.Host.{Addr, Deps, StdError, not_found, generic_err}
use sysbreak_trust.Achievements.State.{
  Config, TokenData, Storage, AchievementMetadata, PendingMinterTransfer, PendingOwnerTransfer,
}
use sysbreak_trust.Achievements.Helpers.{approves}

pub record NftInfoResponse : Type 0 where
  pub token_id : Text
  pub owner : Addr
  pub metadata : AchievementMetadata
  pub token_uri : Option Text
  pub soulbound : Bool
  pub approval : Option Addr

pub record OwnerOfResponse : Type 0 where
  pub owner : Addr
  pub approvals : List Addr

pub record AchievementCheckResponse : Type 0 where
  pub has_achievement : Bool
  pub token_id : Option Text

abbrev pub default_query_limit : ℕ
default_query_limit = 30

abbrev pub max_query_limit : ℕ
max_query_limit = 100

abbrev load : {A : Type 0} → Option A → Result StdError A
load = or_err not_found

abbrev validate : Deps → Text → Result StdError Addr
validate d t = or_err generic_err (d.addr_validate t)

-- One page of the keys of a map: those beyond the bound, as many as the limit allows.
unfoldable pub key_page : {V : Type 0} → Option Text → Option ℕ → Map Text V → List Text
key_page start_after limit m =
    map (λ e. e.0)
      (take (min (unwrap_or default_query_limit limit) max_query_limit) (beyond start_after m))

-- `into_iter().collect()`
abbrev pub to_list : Option Addr → List Addr
to_list none = []
to_list (some a) = a ∷ []

unfoldable pub query_config : Storage → Result StdError Config
query_config s = load s.config

abbrev pub info_of : Text → TokenData → Map Text Addr → NftInfoResponse
info_of token_id token approvals = record {
  token_id = token_id;
  owner = token.owner;
  metadata = token.metadata;
  token_uri = token.token_uri;
  soulbound = token.soulbound;
  approval = find token_id approvals;
}

unfoldable pub query_nft_info : Text → Storage → Result StdError NftInfoResponse
query_nft_info token_id s = do
  token ← load (find token_id s.tokens)
  ok (info_of token_id token s.token_approvals)

unfoldable pub query_owner_of : Text → Storage → Result StdError OwnerOfResponse
query_owner_of token_id s = do
  token ← load (find token_id s.tokens)
  ok (record { owner = token.owner; approvals = to_list (find token_id s.token_approvals) })

unfoldable pub query_tokens :
    Deps → Text → Option Text → Option ℕ → Storage → Result StdError (List Text)
unfolding key_page
query_tokens d owner start_after limit s = do
  owner_addr ← validate d owner
  ok (key_page start_after limit (prefix owner_addr s.owner_tokens))

unfoldable pub query_all_tokens : Option Text → Option ℕ → Storage → List Text
unfolding key_page
query_all_tokens start_after limit s = key_page start_after limit s.tokens

unfoldable pub query_num_tokens : Storage → Result StdError ℕ
query_num_tokens s = load s.token_count

unfoldable pub query_has_achievement :
    Deps → Text → Text → Storage → Result StdError AchievementCheckResponse
query_has_achievement d owner achievement_id s = do
  owner_addr ← validate d owner
  let token_id = find (owner_addr, achievement_id) s.achievement_index
  ok (record { has_achievement = is_some token_id; token_id = token_id })

-- The tokens of an owner, among the entries of the map of tokens.
unfoldable pub owned_by : Addr → Map Text Addr → Map Text TokenData → List NftInfoResponse
owned_by owner approvals [] = []
owned_by owner approvals ((token_id, token) ∷ rest) =
    let others = owned_by owner approvals rest in
    if eqb token.owner owner then info_of token_id token approvals ∷ others else others

unfoldable pub query_achievements_by_owner :
    Deps → Text → Option Text → Option ℕ → Storage → Result StdError (List NftInfoResponse)
unfolding owned_by
query_achievements_by_owner d owner start_after limit s = do
  owner_addr ← validate d owner
  ok (
      take (min (unwrap_or default_query_limit limit) max_query_limit)
        (owned_by owner_addr s.token_approvals (beyond start_after s.tokens)))

unfoldable pub query_approval : Deps → Text → Text → Storage → Result StdError Bool
query_approval d token_id spender s = do
  spender_addr ← validate d spender
  ok (approves (find token_id s.token_approvals) spender_addr)

unfoldable pub query_operator : Deps → Text → Text → Storage → Result StdError Bool
query_operator d owner operator s = do
  owner_addr ← validate d owner
  operator_addr ← validate d operator
  ok (unwrap_or false (find (owner_addr, operator_addr) s.operator_approvals))

unfoldable pub query_pending_minter : Storage → Option PendingMinterTransfer
query_pending_minter s = s.pending_minter

unfoldable pub query_pending_owner : Storage → Option PendingOwnerTransfer
query_pending_owner s = s.pending_owner
