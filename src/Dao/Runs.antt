-- ===== src/Dao/Runs.antt =====
-- A corporation at concrete inputs: two members, a donation, and a proposal that both vote for.
use sysbreak_trust.Base.{
  ℕ, ◌*◌, ◌≡◌, arith, ok, some, true, false, [], ◌∷◌, bytes, length, is_ok, Result-cases, inl, inr,
  find, save, remove, prefix, number_key, pair_key, to_string,
}
use sysbreak_trust.Host.{Addr, Env, MessageInfo, Deps, Response}
use sysbreak_trust.Dao.State.{
  Config, Storage, InstantiateMsg, ExecuteMsg, Outcome, ProposalTypeMsg, open_to_all, Proposal,
  ProposalStatus, ProposalType, Corporation, CorporationStatus,
}
use sysbreak_trust.Dao.Helpers.{check_proposal_passed, check_dissolution_supermajority}
use sysbreak_trust.Dao.Members.{
  execute_create_corporation, execute_join_corporation, execute_donate_treasury, admit,
}
use sysbreak_trust.Dao.Proposals.{
  execute_create_proposal, execute_vote, open_proposal, count_vote, to_proposal_type,
}
use sysbreak_trust.Dao.Execution.{
  execute_execute_proposal, carry_out, apply_proposal, apply_spend, apply_kick, apply_dissolution,
  distribute, record_claims, member_share, refund,
}
use sysbreak_trust.Dao.Payouts.{execute_withdraw_fees, total_tracked}
use sysbreak_trust.Dao.Contract.{fresh, instantiate, execute}
use sysbreak_trust.Dao.Trace.{Reach, Later, next, call}
use sysbreak_trust.Dao.Spending.{IsCarried}

-- A host whose addresses are the lengths of their texts.
abbrev pub host : Deps
host = record {
  addr_validate = λ t. some (length t);
  as_str = to_string;
  secp256k1_verify = λ hash signature key. some false;
  sha256 = λ t. t;
  query_balance = λ a denom. some 1000;
}

abbrev pub setup : InstantiateMsg
setup = record {
  owner = bytes "o";
  denom = bytes "ushido";
  creation_fee = 100;
  proposal_deposit = 10;
  default_max_members = 5;
  default_quorum_bps = 5000;
  default_voting_period = 3600;
}

abbrev pub config1 : Config
config1 = record {
  owner = 1;
  denom = bytes "ushido";
  creation_fee = 100;
  proposal_deposit = 10;
  default_max_members = 5;
  default_quorum_bps = 5000;
  default_voting_period = 3600;
}

abbrev pub state_of : Outcome → Storage
state_of (ok p) = p.0
state_of _ = fresh

abbrev pub response_of : Outcome → Response
response_of (ok p) = p.1
response_of _ = record { messages = []; attributes = [] }

-- The block at a time in seconds.
abbrev pub at : ℕ → Env
at t = record { time = t * 1_000_000_000; contract = 9 }

abbrev pub by : Addr → MessageInfo
by a = record { sender = a; funds = [] }

abbrev pub by_paying : Addr → ℕ → MessageInfo
by_paying a n = record { sender = a; funds = record { denom = bytes "ushido"; amount = n } ∷ [] }

-- `execute`, with all that it runs in these tests opened by one name.
unfoldable pub run : Deps → Env → MessageInfo → ExecuteMsg → Storage → Outcome
unfolding execute instantiate execute_create_corporation execute_join_corporation
    execute_donate_treasury execute_create_proposal execute_vote execute_execute_proposal
    execute_withdraw_fees admit open_proposal count_vote to_proposal_type carry_out apply_proposal
    apply_spend apply_kick apply_dissolution distribute record_claims member_share refund
    total_tracked check_proposal_passed check_dissolution_supermajority find save remove prefix
run = execute

-- A call that succeeds goes on with a history.
pub play :
    (t : ℕ) (info : MessageInfo) (msg : ExecuteMsg) {s : Storage}
    → Reach s
    → is_ok (execute host (at t) info msg s) ≡ true
    → Reach (state_of (execute host (at t) info msg s))
play t info msg {s} h good = elim (Result-cases (execute host (at t) info msg s)) [
  | inl ((s', r), e) ↦ rw e (call host (at t) info msg h e)
  | inr e ↦ absurd (ground arith)
]

-- A call that succeeds goes on from a later storage.
pub play_on :
    (t : ℕ) (info : MessageInfo) (msg : ExecuteMsg) {s s' : Storage}
    → Later s s'
    → is_ok (execute host (at t) info msg s') ≡ true
    → Later s (state_of (execute host (at t) info msg s'))
play_on t info msg {s} {s'} h good = elim (Result-cases (execute host (at t) info msg s')) [
  | inl ((s'', r), e) ↦ rw e (next host (at t) info msg h e)
  | inr e ↦ absurd (ground arith)
]

abbrev pub spend : ProposalTypeMsg
spend = ProposalTypeMsg.treasury_spend (bytes "abc") 25

abbrev pub kick : ProposalTypeMsg
kick = ProposalTypeMsg.kick_member (bytes "abcde")

abbrev pub create : ExecuteMsg
create = ExecuteMsg.create_corporation (bytes "Corp") (bytes "Text") open_to_all

abbrev pub s0 : Storage
s0 = state_of (instantiate host setup fresh)

abbrev pub s1 : Storage
s1 = state_of (execute host (at 1000) (by_paying 7 100) create s0)

abbrev pub s2 : Storage
s2 = state_of (execute host (at 1100) (by 8) (ExecuteMsg.join_corporation 1) s1)

abbrev pub s3 : Storage
s3 = state_of (execute host (at 1150) (by_paying 8 101) (ExecuteMsg.donate_treasury 1) s2)

-- The same proposal of some kind, and both votes for it.
abbrev pub proposed : ProposalTypeMsg → Storage
proposed kind =
    state_of (execute host (at 1200) (by_paying 7 10) (ExecuteMsg.create_proposal 1 kind) s3)

abbrev pub voted_once : ProposalTypeMsg → Storage
voted_once kind = state_of (execute host (at 1300) (by 7) (ExecuteMsg.vote 1 true) (proposed kind))

abbrev pub voted_twice : ProposalTypeMsg → Storage
voted_twice kind =
    state_of (execute host (at 1400) (by 8) (ExecuteMsg.vote 1 true) (voted_once kind))

abbrev pub closed : ProposalTypeMsg → Outcome
closed kind = execute_execute_proposal (at 5000) (by 7) 1 (voted_twice kind)

-- A proposal of the first corporation, with its votes.
abbrev pub proposal_with : ProposalType → ℕ → Proposal
proposal_with kind n = record {
  id = 1;
  corp_id = 1;
  proposer = 7;
  proposal_type = kind;
  status = ProposalStatus.active;
  yes_votes = n;
  no_votes = 0;
  created_at = 1_200_000_000_000;
  voting_ends_at = 4_800_000_000_000;
  deposit = 10;
  member_count_snapshot = 2;
}

abbrev pub corp1 : Corporation
corp1 = record {
  id = 1;
  name = bytes "Corp";
  description = bytes "Text";
  founder = 7;
  join_policy = open_to_all;
  quorum_bps = 5000;
  voting_period = 3600;
  max_members = 5;
  member_count = 2;
  treasury_balance = 101;
  created_at = 1_000_000_000_000;
  status = CorporationStatus.active;
}

-- The kinds of the three proposals, and the proposal with both votes.
abbrev pub spending : Proposal
spending = proposal_with (ProposalType.treasury_spend 3 25) 2

abbrev pub kicking : Proposal
kicking = proposal_with (ProposalType.kick_member 5) 2

abbrev pub ending : Proposal
ending = proposal_with ProposalType.dissolution 2

pub carried : (kind : ProposalType) → IsCarried (proposal_with kind 2) corp1
carried kind = record { somebody = omega arith; quorum = omega arith; majority = omega arith }
