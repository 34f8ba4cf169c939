-- ===== src/Dao/Execution.antt =====
-- `execute_execute_proposal` of the corporation DAO: the guards, the failed proposal, and one function
-- for each kind of proposal that passed.
use sysbreak_trust.Base.{
  ℕ, Bool, true, false, not, ◌&&◌, Option, some, none, List, [], ◌∷◌, ◌++◌, String, Text, ltb, leb,
  is_zero, if◌then◌else◌, Result, ok, ◌>>=◌, ◌>>◌, fail_if, or_err, or_panic, unwrap_or,
  checked_add, checked_sub, checked_mul, checked_div, checked_rem, Map, save, remove, prefix,
  number_key, pair_key,
}
use sysbreak_trust.Host.{
  Addr, Env, MessageInfo, Message, bank_send, Value, word, text, number, address,
}
use sysbreak_trust.Dao.State.{
  Config, Corporation, dissolving, MemberRole, MemberInfo, Proposal, ProposalType, ProposalStatus,
  failed, executed, Storage, ContractError, already_executed, proposal_not_pending,
  spend_exceeds_limit, cannot_kick_last_member, overflow, cannot_promote_to_founder, JoinPolicy,
  Outcome,
}
use sysbreak_trust.Dao.Helpers.{
  load_config, load_corporation, load_member, is_founder, is_open, reject_funds,
  validate_quorum_bps, validate_voting_period, assert_voting_ended, check_proposal_passed,
  check_dissolution_supermajority,
}
use sysbreak_trust.Dao.Proposals.{load_proposal}

-- What carrying out a proposal adds to the response.
pub record Effect : Type 0 where
  pub state : Storage
  pub sends : List Message
  pub notes : List (String × Value)

abbrev pub save_corp : ℕ → Corporation → Storage → Storage
save_corp id corp s = record s { corporations = save id corp s.corporations }

-- A quarter of the treasury.
unfoldable pub max_spend : ℕ → Result ContractError ℕ
max_spend balance = do
  product ← or_err overflow (checked_mul balance 25)
  or_err overflow (checked_div product 100)

unfoldable pub apply_spend :
    Config → ℕ → Corporation → Addr → ℕ → Storage → Result ContractError Effect
unfolding max_spend
apply_spend config id corp recipient amount s = do
  most ← max_spend corp.treasury_balance
  fail_if (ltb most amount) spend_exceeds_limit
  balance ← or_err overflow (checked_sub corp.treasury_balance amount)
  ok (record {
    state = save_corp id (record corp { treasury_balance = balance }) s;
    sends = bank_send recipient (record { denom = config.denom; amount = amount }) ∷ [];
    notes = ("spend_amount", number amount) ∷ [];
  })

-- `if let Some(x) = o { check(x)?; }`
abbrev pub if_some :
    Option ℕ → (ℕ → Result ContractError (Unit {0})) → Result ContractError (Unit {0})
if_some none check = ok tt
if_some (some x) check = check x

unfoldable pub apply_settings :
    ℕ
    → Corporation
    → Option Text
    → Option Text
    → Option JoinPolicy
    → Option ℕ
    → Option ℕ
    → Storage
    → Result ContractError Effect
unfolding validate_quorum_bps validate_voting_period
apply_settings id corp name description join_policy quorum_bps voting_period s = do
  if_some quorum_bps validate_quorum_bps
  if_some voting_period validate_voting_period
  ok (record {
    state =
        save_corp id
          (record corp {
            name = unwrap_or corp.name name;
            description = unwrap_or corp.description description;
            join_policy = unwrap_or corp.join_policy join_policy;
            quorum_bps = unwrap_or corp.quorum_bps quorum_bps;
            voting_period = unwrap_or corp.voting_period voting_period;
          })
          s;
    sends = [];
    notes = ("result", word "settings_changed") ∷ [];
  })

unfoldable pub apply_kick : ℕ → Corporation → Addr → Storage → Result ContractError Effect
apply_kick id corp target s = do
  fail_if (leb corp.member_count 1) cannot_kick_last_member
  count ← or_panic (checked_sub corp.member_count 1)
  ok (record {
    state = record s {
      members = remove (id, target) s.members;
      corporations = save id (record corp { member_count = count }) s.corporations;
    };
    sends = [];
    notes = ("kicked", address target) ∷ [];
  })

unfoldable pub apply_promote : ℕ → Addr → MemberRole → Storage → Result ContractError Effect
unfolding load_member
apply_promote id target new_role s = do
  fail_if (is_founder new_role) cannot_promote_to_founder
  info ← load_member s id target
  ok (record {
    state = record s { members = save (id, target) (record info { role = new_role }) s.members };
    sends = [];
    notes = ("promoted", address target) ∷ [];
  })

-- What one member may claim: an equal share, and the founder the remainder too.
unfoldable pub member_share : ℕ → ℕ → MemberInfo → Result ContractError ℕ
member_share share remainder info =
    if is_founder info.role then or_err overflow (checked_add share remainder) else ok share

-- The loop over the members of the corporation.
unfoldable pub record_claims :
    ℕ → ℕ → ℕ → Map Addr MemberInfo → Map (ℕ × Addr) ℕ → Result ContractError (Map (ℕ × Addr) ℕ)
unfolding member_share
record_claims id share remainder [] claims = ok claims
record_claims id share remainder ((addr, info) ∷ rest) claims = do
  amount ← member_share share remainder info
  record_claims id share remainder rest (save (id, addr) amount claims)

-- The claims on a treasury that is not empty.
unfoldable pub distribute : ℕ → Corporation → Storage → Result ContractError Storage
unfolding record_claims
distribute id corp s =
    if not (is_zero corp.treasury_balance) && ltb 0 corp.member_count
    then (do
      share ← or_err overflow (checked_div corp.treasury_balance corp.member_count)
      remainder ← or_err overflow (checked_rem corp.treasury_balance corp.member_count)
      claims ← record_claims id share remainder (prefix id s.members) s.dissolution_claims
      ok (record s { dissolution_claims = claims }))
    else ok s

unfoldable pub apply_dissolution :
    Proposal → ℕ → Corporation → Storage → Result ContractError Effect
unfolding check_dissolution_supermajority distribute
apply_dissolution proposal id corp s = do
  check_dissolution_supermajority proposal.yes_votes proposal.member_count_snapshot
  s' ← distribute id corp s
  ok (record {
    state = save_corp id (record corp { status = dissolving }) s';
    sends = [];
    notes = ("result", word "dissolution_started") ∷ [];
  })

-- The `match` on the kind of the proposal.
unfoldable pub apply_proposal :
    Config → Proposal → Corporation → ProposalType → Storage → Result ContractError Effect
apply_proposal config p corp (ProposalType.treasury_spend recipient amount) s =
    apply_spend config p.corp_id corp recipient amount s
apply_proposal config p corp (ProposalType.change_settings n t j q v) s =
    apply_settings p.corp_id corp n t j q v s
apply_proposal config p corp (ProposalType.kick_member target) s =
    apply_kick p.corp_id corp target s
apply_proposal config p corp (ProposalType.promote_member target new_role) s =
    apply_promote p.corp_id target new_role s
apply_proposal config p corp ProposalType.dissolution s = apply_dissolution p p.corp_id corp s
apply_proposal config p corp (ProposalType.custom title description) s = ok (record {
  state = s;
  sends = [];
  notes = ("result", word "custom_passed") ∷ ("custom_title", text title) ∷ [];
})

abbrev pub is_executed : ProposalStatus → Bool
is_executed executed = true
is_executed _ = false

unfoldable pub refund : Config → Proposal → List Message
refund config p =
    if is_zero p.deposit
    then []
    else bank_send p.proposer (record { denom = config.denom; amount = p.deposit }) ∷ []

abbrev pub save_status : ℕ → ProposalStatus → Proposal → Storage → Storage
save_status id status p s = record s {
  proposals = save id (record p { status = status }) s.proposals;
}

-- What `execute_execute_proposal` answers with, before the notes of the proposal's kind.
abbrev pub execution_notes : ℕ → List (String × Value)
execution_notes id = ("action", word "execute_proposal") ∷ ("proposal_id", number id) ∷ []

unfoldable pub carry_out : Config → ℕ → Proposal → Corporation → Bool → Storage → Outcome
carry_out config id p corp true s = do
  effect ← apply_proposal config p corp p.proposal_type (save_status id executed p s)
  ok (
    effect.state,
    record {
      messages = refund config p ++ effect.sends;
      attributes = execution_notes id ++ effect.notes;
    },
  )
carry_out config id p corp false s = ok (
  save_status id failed p s,
  record { messages = []; attributes = execution_notes id ++ (("result", word "failed") ∷ []) },
)

unfoldable pub execute_execute_proposal : Env → MessageInfo → ℕ → Storage → Outcome
unfolding reject_funds load_proposal assert_voting_ended load_corporation
execute_execute_proposal env info proposal_id s = do
  reject_funds info
  proposal ← load_proposal s proposal_id
  fail_if (is_executed proposal.status) (already_executed proposal_id)
  fail_if (not (is_open proposal.status)) (proposal_not_pending proposal_id)
  assert_voting_ended proposal env
  corp ← load_corporation s proposal.corp_id
  config ← load_config s
  passed ← check_proposal_passed proposal proposal.member_count_snapshot corp.quorum_bps
  carry_out config proposal_id proposal corp passed s
