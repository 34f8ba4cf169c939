-- ===== src/Items/Query.antt =====
-- The queries of the item NFT (contract.rs). The answer is the value that the source writes as
-- JSON; a response of one field is the value of that field.
use sysbreak_trust.Base.{
  ℕ, Bool, false, Option, some, none, List, [], ◌∷◌, Text, Result, ok, ◌>>=◌, or_err, unwrap_or,
  find, prefix, Map, take, beyond, min, map, number_key, text_key, pair_key,
}
use sysbreak_trust.Host.{Addr, Deps, StdError, not_found, generic_err}
use sysbreak_trust.Items.State.{
  Config, Storage, ItemMetadata, PendingMinterTransfer, PendingOwnerTransfer,
}
use sysbreak_trust.Items.Helpers.{approves}

pub record NftInfoResponse : Type 0 where
  pub token_id : Text
  pub owner : Addr
  pub metadata : ItemMetadata
  pub token_uri : Option Text
  pub approval : Option Addr

pub record OwnerOfResponse : Type 0 where
  pub owner : Addr
  pub approvals : List Addr

pub record RoyaltyInfoResponse : Type 0 where
  pub royalty_bps : ℕ
  pub royalty_recipient : Addr

pub record CollectionInfoResponse : Type 0 where
  pub name : Text
  pub symbol : Text

abbrev pub default_query_limit : ℕ
default_query_limit = 30

abbrev pub max_query_limit : ℕ
max_query_limit = 100

abbrev load : {A : Type 0} → Option A → Result StdError A
load = or_err not_found

abbrev validate : Deps → Text → Result StdError Addr
validate d t = or_err generic_err (d.addr_validate t)

-- One page of the keys of a map: those beyond the bound, as many as the limit allows.
unfoldable pub key_page : {V : Type 0} → Option Text → Option ℕ → Map Text V → List Text
key_page start_after limit m =
    map (λ e. e.0)
      (take (min (unwrap_or default_query_limit limit) max_query_limit) (beyond start_after m))

-- `into_iter().collect()`
abbrev pub to_list : Option Addr → List Addr
to_list none = []
to_list (some a) = a ∷ []

unfoldable pub query_config : Storage → Result StdError Config
query_config s = load s.config

unfoldable pub query_nft_info : Text → Storage → Result StdError NftInfoResponse
query_nft_info token_id s = do
  token ← load (find token_id s.tokens)
  owner ← load (find token_id s.token_owners)
  ok (record {
    token_id = token_id;
    owner = owner;
    metadata = token.metadata;
    token_uri = token.token_uri;
    approval = find token_id s.token_approvals;
  })

unfoldable pub query_owner_of : Text → Storage → Result StdError OwnerOfResponse
query_owner_of token_id s = do
  owner ← load (find token_id s.token_owners)
  ok (record { owner = owner; approvals = to_list (find token_id s.token_approvals) })

unfoldable pub query_tokens :
    Deps → Text → Option Text → Option ℕ → Storage → Result StdError (List Text)
unfolding key_page
query_tokens d owner start_after limit s = do
  owner_addr ← validate d owner
  ok (key_page start_after limit (prefix owner_addr s.owner_tokens))

unfoldable pub query_all_tokens : Option Text → Option ℕ → Storage → List Text
unfolding key_page
query_all_tokens start_after limit s = key_page start_after limit s.token_owners

unfoldable pub query_num_tokens : Storage → Result StdError ℕ
query_num_tokens s = load s.token_count

unfoldable pub query_royalty_info : Storage → Result StdError RoyaltyInfoResponse
query_royalty_info s = do
  config ← load s.config
  ok (record { royalty_bps = config.royalty_bps; royalty_recipient = config.royalty_recipient })

unfoldable pub query_approval : Deps → Text → Text → Storage → Result StdError Bool
query_approval d token_id spender s = do
  spender_addr ← validate d spender
  ok (approves (find token_id s.token_approvals) spender_addr)

unfoldable pub query_operator : Deps → Text → Text → Storage → Result StdError Bool
query_operator d owner operator s = do
  owner_addr ← validate d owner
  operator_addr ← validate d operator
  ok (unwrap_or false (find (owner_addr, operator_addr) s.operator_approvals))

unfoldable pub query_pending_minter : Storage → Option PendingMinterTransfer
query_pending_minter s = s.pending_minter

unfoldable pub query_pending_owner : Storage → Option PendingOwnerTransfer
query_pending_owner s = s.pending_owner

unfoldable pub query_collection_info : Storage → Result StdError CollectionInfoResponse
query_collection_info s = do
  config ← load s.config
  ok (record { name = config.name; symbol = config.symbol })
