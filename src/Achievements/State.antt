-- ===== src/Achievements/State.antt =====
-- The storage of the achievement NFT (sysbreak-achievement-nft/src/state.rs), its errors (error.rs) and its
-- messages (msg.rs). An error keeps the values that the source writes into its text.
use sysbreak_trust.Base.{ℕ, Bool, Option, List, String, Text, Map, Result}
use sysbreak_trust.Host.{Addr, StdError, Response}

pub record Config : Type 0 where
  pub owner : Addr
  pub minter : Addr
  pub paused : Bool
  pub name : Text
  pub symbol : Text

pub record PendingMinterTransfer : Type 0 where
  pub proposed_minter : Addr

pub record PendingOwnerTransfer : Type 0 where
  pub proposed_owner : Addr

-- `earned_at` is in nanoseconds.
pub record AchievementMetadata : Type 0 where
  pub achievement_id : Text
  pub category : Text
  pub earned_at : ℕ
  pub description : Text
  pub rarity : Text

pub record TokenData : Type 0 where
  pub owner : Addr
  pub metadata : AchievementMetadata
  pub token_uri : Option Text
  pub soulbound : Bool

-- A field for each `Item` and `Map`; `contract_info` is the item that cw2 keeps.
pub record Storage : Type 0 where
  pub contract_info : Option (String × String)
  pub config : Option Config
  pub token_count : Option ℕ
  pub pending_minter : Option PendingMinterTransfer
  pub tokens : Map Text TokenData
  pub token_approvals : Map Text Addr
  pub operator_approvals : Map (Addr × Addr) Bool
  pub achievement_index : Map (Addr × Text) Text
  pub pending_owner : Option PendingOwnerTransfer
  pub owner_tokens : Map (Addr × Text) Bool

pub data ContractError : Type 0 where
  std : StdError → ContractError
  unauthorized : (role : String) → ContractError
  is_paused : ContractError
  not_paused : ContractError
  batch_too_large : (most : ℕ) → ContractError
  empty_batch : ContractError
  no_minter_transfer_pending : ContractError
  not_pending_minter : ContractError
  minter_transfer_already_pending : ContractError
  is_soulbound : ContractError
  duplicate_achievement : (achievement_id : Text) → (owner : Addr) → ContractError
  token_not_found : (token_id : Text) → ContractError
  no_owner_transfer_pending : ContractError
  not_pending_owner : ContractError
  owner_transfer_already_pending : ContractError
  unexpected_funds : ContractError

pub record InstantiateMsg : Type 0 where
  pub owner : Text
  pub minter : Text
  pub name : Text
  pub symbol : Text

-- What a mint asks for: the fields of `Mint`, and of an entry of `BatchMint`.
pub record MintRequest : Type 0 where
  pub to : Text
  pub achievement_id : Text
  pub category : Text
  pub earned_at : ℕ
  pub description : Text
  pub rarity : Text
  pub token_uri : Option Text
  pub soulbound : Bool

pub data ExecuteMsg : Type 0 where
  mint : (request : MintRequest) → ExecuteMsg
  batch_mint : (mints : List MintRequest) → ExecuteMsg
  transfer_nft : (recipient token_id : Text) → ExecuteMsg
  send_nft : (contract token_id msg : Text) → ExecuteMsg
  approve : (spender token_id : Text) → ExecuteMsg
  revoke : (token_id : Text) → ExecuteMsg
  approve_all : (operator : Text) → ExecuteMsg
  revoke_all : (operator : Text) → ExecuteMsg
  propose_minter : (new_minter : Text) → ExecuteMsg
  accept_minter : ExecuteMsg
  cancel_minter_transfer : ExecuteMsg
  pause : ExecuteMsg
  unpause : ExecuteMsg
  burn : (token_id : Text) → ExecuteMsg
  propose_owner : (new_owner : Text) → ExecuteMsg
  accept_owner : ExecuteMsg
  cancel_owner_transfer : ExecuteMsg
  sweep_funds : (denom : Text) → (amount : ℕ) → (recipient : Text) → ExecuteMsg

-- What a handler answers: the new storage with the response. The host drops the writes of a call
-- that ends in an error or a panic, so there is no storage beside those.
abbrev pub Outcome : Type 0
Outcome = Result ContractError (Storage × Response)
