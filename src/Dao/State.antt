-- ===== src/Dao/State.antt =====
-- The storage of the corporation DAO (sysbreak-corporation-dao/src/state.rs), its errors (error.rs)
-- and its messages (msg.rs). An error keeps the numbers that the source writes into its text.
use sysbreak_trust.Base.{ℕ, Bool, Option, String, Text, Map, Result}
use sysbreak_trust.Host.{Addr, StdError, Response}

pub record PendingOwnerTransfer : Type 0 where
  pub proposed_owner : Addr

pub record Config : Type 0 where
  pub owner : Addr
  pub denom : Text
  pub creation_fee : ℕ
  pub proposal_deposit : ℕ
  pub default_max_members : ℕ
  pub default_quorum_bps : ℕ
  pub default_voting_period : ℕ

-- `Open` and `InviteOnly`.
pub data JoinPolicy : Type 0 where
  open_to_all : JoinPolicy
  invite_only : JoinPolicy

pub data CorporationStatus : Type 0 where
  active : CorporationStatus
  dissolving : CorporationStatus
  dissolved : CorporationStatus

pub data MemberRole : Type 0 where
  founder : MemberRole
  officer : MemberRole
  member : MemberRole

pub record Corporation : Type 0 where
  pub id : ℕ
  pub name : Text
  pub description : Text
  pub founder : Addr
  pub join_policy : JoinPolicy
  pub quorum_bps : ℕ
  pub voting_period : ℕ
  pub max_members : ℕ
  pub member_count : ℕ
  pub treasury_balance : ℕ
  pub created_at : ℕ
  pub status : CorporationStatus

pub record MemberInfo : Type 0 where
  pub role : MemberRole
  pub joined_at : ℕ

pub data ProposalType : Type 0 where
  treasury_spend : (recipient : Addr) → (amount : ℕ) → ProposalType
  change_settings :
      (name description : Option Text) (join_policy : Option JoinPolicy)
      (quorum_bps voting_period : Option ℕ)
      → ProposalType
  kick_member : (target : Addr) → ProposalType
  promote_member : (target : Addr) → (new_role : MemberRole) → ProposalType
  dissolution : ProposalType
  custom : (title description : Text) → ProposalType

pub data ProposalStatus : Type 0 where
  active : ProposalStatus
  passed : ProposalStatus
  failed : ProposalStatus
  executed : ProposalStatus

pub record Proposal : Type 0 where
  pub id : ℕ
  pub corp_id : ℕ
  pub proposer : Addr
  pub proposal_type : ProposalType
  pub status : ProposalStatus
  pub yes_votes : ℕ
  pub no_votes : ℕ
  pub created_at : ℕ
  pub voting_ends_at : ℕ
  pub deposit : ℕ
  pub member_count_snapshot : ℕ

-- A field for each `Item` and `Map`; `contract_info` is the item that cw2 keeps.
pub record Storage : Type 0 where
  pub contract_info : Option (String × String)
  pub config : Option Config
  pub corp_count : Option ℕ
  pub proposal_count : Option ℕ
  pub corporations : Map ℕ Corporation
  pub members : Map (ℕ × Addr) MemberInfo
  pub invites : Map (ℕ × Addr) Bool
  pub proposals : Map ℕ Proposal
  pub votes : Map (ℕ × Addr) Bool
  pub dissolution_claims : Map (ℕ × Addr) ℕ
  pub pending_owner : Option PendingOwnerTransfer
  pub corp_proposals : Map (ℕ × ℕ) (Unit {0})

pub data ContractError : Type 0 where
  std : StdError → ContractError
  unauthorized : (role : String) → ContractError
  corporation_not_found : (id : ℕ) → ContractError
  proposal_not_found : (id : ℕ) → ContractError
  already_member : (corp_id : ℕ) → ContractError
  not_member : (corp_id : ℕ) → ContractError
  by_invite_only : ContractError
  no_pending_invite : ContractError
  corporation_full : (most : ℕ) → ContractError
  voting_not_ended : (id : ℕ) → ContractError
  voting_ended : (id : ℕ) → ContractError
  already_voted : (id : ℕ) → ContractError
  quorum_not_reached : (id : ℕ) → ContractError
  already_executed : (id : ℕ) → ContractError
  proposal_not_pending : (id : ℕ) → ContractError
  joined_after_proposal : ContractError
  spend_exceeds_limit : ContractError
  dissolution_supermajority_not_reached : (pct : ℕ) → ContractError
  is_dissolving : ContractError
  is_dissolved : ContractError
  no_funds_sent : ContractError
  multiple_denoms_sent : ContractError
  wrong_denom : (expected got : Text) → ContractError
  insufficient_creation_fee : ContractError
  insufficient_proposal_deposit : ContractError
  zero_amount : ContractError
  cannot_kick_last_member : ContractError
  founder_cannot_leave : ContractError
  nothing_to_claim : ContractError
  overflow : ContractError
  insufficient_surplus : (requested available : ℕ) → ContractError
  cannot_promote_to_founder : ContractError
  no_owner_transfer_pending : ContractError
  not_pending_owner : ContractError
  owner_transfer_already_pending : ContractError
  overpayment_not_allowed : (expected got : ℕ) → ContractError
  invalid_quorum_bps : (value : ℕ) → ContractError
  invalid_voting_period : (value : ℕ) → ContractError
  unexpected_funds : ContractError

pub record InstantiateMsg : Type 0 where
  pub owner : Text
  pub denom : Text
  pub creation_fee : ℕ
  pub proposal_deposit : ℕ
  pub default_max_members : ℕ
  pub default_quorum_bps : ℕ
  pub default_voting_period : ℕ

-- A proposal as it is sent, with addresses that are not validated yet.
pub data ProposalTypeMsg : Type 0 where
  treasury_spend : (recipient : Text) → (amount : ℕ) → ProposalTypeMsg
  change_settings :
      (name description : Option Text) (join_policy : Option JoinPolicy)
      (quorum_bps voting_period : Option ℕ)
      → ProposalTypeMsg
  kick_member : (target : Text) → ProposalTypeMsg
  promote_member : (target : Text) → (new_role : MemberRole) → ProposalTypeMsg
  dissolution : ProposalTypeMsg
  custom : (title description : Text) → ProposalTypeMsg

pub data ExecuteMsg : Type 0 where
  create_corporation : (name description : Text) → (join_policy : JoinPolicy) → ExecuteMsg
  join_corporation : (corp_id : ℕ) → ExecuteMsg
  invite_member : (corp_id : ℕ) → (invitee : Text) → ExecuteMsg
  accept_invite : (corp_id : ℕ) → ExecuteMsg
  leave_corporation : (corp_id : ℕ) → ExecuteMsg
  donate_treasury : (corp_id : ℕ) → ExecuteMsg
  create_proposal : (corp_id : ℕ) → (proposal_type : ProposalTypeMsg) → ExecuteMsg
  vote : (proposal_id : ℕ) → (choice : Bool) → ExecuteMsg
  execute_proposal : (proposal_id : ℕ) → ExecuteMsg
  claim_dissolution : (corp_id : ℕ) → ExecuteMsg
  update_description : (corp_id : ℕ) → (description : Text) → ExecuteMsg
  withdraw_fees : (amount : ℕ) → ExecuteMsg
  propose_owner : (new_owner : Text) → ExecuteMsg
  accept_owner : ExecuteMsg
  cancel_owner_transfer : ExecuteMsg

-- What a handler answers: the new storage with the response. The host drops the writes of a call
-- that ends in an error or a panic, so there is no storage beside those.
abbrev pub Outcome : Type 0
Outcome = Result ContractError (Storage × Response)
