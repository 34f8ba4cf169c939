-- ===== src/Dao/Helpers.antt =====
-- The helpers of the corporation DAO (sysbreak-corporation-dao/src/helpers.rs).
use sysbreak_trust.Base.{
  ℕ, ◌+◌, ◌*◌, ◌/◌, Bool, true, false, not, ◌&&◌, ◌||◌, [], ◌∷◌, Text, ltb, leb, is_zero,
  if◌then◌else◌, Result, ok, err, ◌>>=◌, ◌>>◌, fail_if, or_err, or_panic, fits, u32_max, find,
  number_key, text_key, pair_key, ◌==◌,
}
use sysbreak_trust.Host.{Addr, Deps, Env, MessageInfo, not_found, generic_err}
use sysbreak_trust.Dao.State.{
  Config, Corporation, CorporationStatus, dissolving, dissolved, MemberRole, founder, officer,
  member, MemberInfo, Proposal, ProposalStatus, Storage, ContractError, std, unauthorized,
  corporation_not_found, not_member, voting_not_ended, voting_ended, proposal_not_pending,
  dissolution_supermajority_not_reached, is_dissolving, is_dissolved, no_funds_sent,
  multiple_denoms_sent, wrong_denom, overpayment_not_allowed, invalid_quorum_bps,
  invalid_voting_period, unexpected_funds,
}

abbrev pub load_config : Storage → Result ContractError Config
load_config s = or_err (std not_found) s.config

-- `deps.api.addr_validate(&text)?`
abbrev pub validate_addr : Deps → Text → Result ContractError Addr
validate_addr d t = or_err (std generic_err) (d.addr_validate t)

unfoldable pub load_corporation : Storage → ℕ → Result ContractError Corporation
load_corporation s corp_id = or_err (corporation_not_found corp_id) (find corp_id s.corporations)

unfoldable pub assert_active : Corporation → Result ContractError (Unit {0})
assert_active corp = elim corp.status [
  | CorporationStatus.active ↦ ok tt
  | dissolving ↦ err is_dissolving
  | dissolved ↦ err is_dissolved
]

unfoldable pub assert_not_dissolved : Corporation → Result ContractError (Unit {0})
assert_not_dissolved corp = elim corp.status [ dissolved ↦ err is_dissolved | _ ↦ ok tt ]

unfoldable pub load_member : Storage → ℕ → Addr → Result ContractError MemberInfo
load_member s corp_id addr = or_err (not_member corp_id) (find (corp_id, addr) s.members)

unfoldable pub assert_member : Storage → ℕ → Addr → Result ContractError MemberInfo
unfolding load_member
assert_member s corp_id sender = load_member s corp_id sender

unfoldable pub assert_officer_or_founder : Storage → ℕ → Addr → Result ContractError MemberInfo
unfolding load_member
assert_officer_or_founder s corp_id sender = do
  info ← load_member s corp_id sender
  elim info.role [
    | founder ↦ ok info
    | officer ↦ ok info
    | member ↦ err (unauthorized "officer or founder")
  ]

abbrev pub same_role : MemberRole → MemberRole → Bool
same_role founder founder = true
same_role officer officer = true
same_role member member = true
same_role _ _ = false

abbrev pub is_founder : MemberRole → Bool
is_founder founder = true
is_founder _ = false

abbrev pub is_open : ProposalStatus → Bool
is_open ProposalStatus.active = true
is_open _ = false

-- The guards of both kinds of payment: one coin of the denomination, and not too little.
unfoldable pub validate_funds_min : MessageInfo → Text → ℕ → ContractError → Result ContractError ℕ
validate_funds_min info denom min_amount err_insufficient = elim info.funds [
  | [] ↦ err no_funds_sent
  | coin ∷ more ↦ (do
    elim more [ [] ↦ ok tt | _ ∷ _ ↦ err multiple_denoms_sent ]
    fail_if (not (coin.denom == denom)) (wrong_denom denom coin.denom)
    fail_if (ltb coin.amount min_amount) err_insufficient
    ok coin.amount)
]

-- The exact amount: the guards above, and no overpayment.
unfoldable pub validate_funds : MessageInfo → Text → ℕ → ContractError → Result ContractError ℕ
unfolding validate_funds_min
validate_funds info denom expected_amount err_insufficient = do
  amount ← validate_funds_min info denom expected_amount err_insufficient
  fail_if (ltb expected_amount amount) (overpayment_not_allowed expected_amount amount)
  ok amount

unfoldable pub reject_funds : MessageInfo → Result ContractError (Unit {0})
reject_funds info = elim info.funds [ [] ↦ ok tt | c ∷ cs ↦ err unexpected_funds ]

unfoldable pub validate_quorum_bps : ℕ → Result ContractError (Unit {0})
validate_quorum_bps bps = fail_if (is_zero bps || ltb 10_000 bps) (invalid_quorum_bps bps)

unfoldable pub validate_voting_period : ℕ → Result ContractError (Unit {0})
validate_voting_period seconds =
    fail_if (ltb seconds 3600 || ltb 2_592_000 seconds) (invalid_voting_period seconds)

unfoldable pub assert_voting_ended : Proposal → Env → Result ContractError (Unit {0})
assert_voting_ended proposal env =
    fail_if (ltb env.time proposal.voting_ends_at) (voting_not_ended proposal.id)

unfoldable pub assert_voting_active : Proposal → Env → Result ContractError (Unit {0})
assert_voting_active proposal env = do
  fail_if (leb proposal.voting_ends_at env.time) (voting_ended proposal.id)
  fail_if (not (is_open proposal.status)) (proposal_not_pending proposal.id)

-- The sum of the votes is computed in 32 bits, the products in 64.
unfoldable pub check_proposal_passed : Proposal → ℕ → ℕ → Result ContractError Bool
check_proposal_passed proposal total_members quorum_bps =
    if is_zero total_members then ok false else (do
      total_votes ← or_panic (fits u32_max (proposal.yes_votes + proposal.no_votes))
      let quorum_reached = leb (total_members * quorum_bps) (total_votes * 10_000)
      ok (quorum_reached && ltb proposal.no_votes proposal.yes_votes))

unfoldable pub check_dissolution_supermajority : ℕ → ℕ → Result ContractError (Unit {0})
check_dissolution_supermajority yes_votes total_members =
    if is_zero total_members
    then err (dissolution_supermajority_not_reached 0)
    else fail_if (ltb (yes_votes * 100) (total_members * 75))
        (dissolution_supermajority_not_reached (yes_votes * 100 / total_members))
