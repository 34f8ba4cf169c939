-- ===== src/Dao/TreasuryTests.antt =====
-- The theorems about the treasury and the members of the corporation DAO at concrete inputs: a kick, a
-- dissolution, the fees and a claim.
use sysbreak_trust.Base.{
  ℕ, ◌+◌, ◌≤◌, ◌<◌, ◌≡◌, refl, arith, ok, some, none, [], ◌∷◌, bytes, find, number_key, pair_key,
  eqb, if◌then◌else◌, ◌&&◌,
}
use sysbreak_trust.Host.{Addr, bank_send}
use sysbreak_trust.Dao.State.{Storage, Outcome, ProposalTypeMsg, dissolving}
use sysbreak_trust.Dao.Payouts.{execute_withdraw_fees}
use sysbreak_trust.Dao.Contract.{fresh}
use sysbreak_trust.Dao.Roster.{kick_lowers_count}
use sysbreak_trust.Dao.Fees.{treasuries, fees_leave_treasuries}
use sysbreak_trust.Dao.Claiming.{Claimed, claim_pays_once}
use sysbreak_trust.Dao.Payouts.{execute_claim_dissolution}
use sysbreak_trust.Dao.Members.{one_member_less}
use sysbreak_trust.Dao.Runs.{
  corp1, kicking, carried, host, config1, state_of, response_of, at, by, run, kick, s3, voted_twice,
  closed,
}

kick_ran : closed kick ≡ ok (state_of (closed kick), response_of (closed kick))
unfolding run
kick_ran = refl

-- Address 5 is no member, and the count falls from 2 to 1.
config_at_kick : (voted_twice kick).config ≡ some config1
unfolding run
config_at_kick = refl

kicking_stored : find 1 (voted_twice kick).proposals ≡ some kicking
unfolding run
kicking_stored = refl

corp_at_kick : find 1 (voted_twice kick).corporations ≡ some corp1
unfolding run
corp_at_kick = refl

kick_lowers_count_example :
    (1 < 2)
    × (find 1 (state_of (closed kick)).corporations ≡ some (record corp1 { member_count = 1 }))
    × ((c : ℕ) (a : Addr)
        → find (c, a) (state_of (closed kick)).members
          ≡ (if eqb 1 c && eqb 5 a then none else find (c, a) (voted_twice kick).members))
kick_lowers_count_example =
    kick_lowers_count (at 5000) (by 7) 1 (voted_twice kick) (state_of (closed kick))
      (response_of (closed kick)) config1 kicking corp1 5 kick_ran config_at_kick kicking_stored
      corp_at_kick refl (carried kicking.proposal_type)

abbrev dissolution : ProposalTypeMsg
dissolution = ProposalTypeMsg.dissolution

abbrev fees : Outcome
fees = execute_withdraw_fees host (at 1200) (by 1) 800 s3

fees_ran : fees ≡ ok (state_of fees, response_of fees)
unfolding run
fees_ran = refl

config_at_s3 : s3.config ≡ some config1
unfolding run
config_at_s3 = refl

fees_leave_treasuries_example :
    (1 ≡ config1.owner)
    × (state_of fees ≡ s3)
    × ((response_of fees).messages
        ≡ bank_send 1 (record { denom = bytes "ushido"; amount = 800 }) ∷ [])
    × (800 + treasuries s3.corporations ≤ 1000)
fees_leave_treasuries_example =
    fees_leave_treasuries host (at 1200) (by 1) 800 s3 (state_of fees) (response_of fees) config1
      1000 config_at_s3 refl (omega arith) fees_ran

-- A dissolving corporation that owes 50 to address 8.
abbrev dissolving_now : Storage
dissolving_now = record fresh {
  config = some config1;
  corporations = (1, record corp1 { status = dissolving }) ∷ [];
  dissolution_claims = ((1, 8), 50) ∷ [];
}

abbrev claim : Outcome
claim = execute_claim_dissolution (by 8) 1 dissolving_now

claim_ran : claim ≡ ok (state_of claim, response_of claim)
unfolding run execute_claim_dissolution one_member_less
claim_ran = refl

config_at_claim : dissolving_now.config ≡ some config1
unfolding run
config_at_claim = refl

corp_at_claim : find 1 dissolving_now.corporations ≡ some (record corp1 { status = dissolving })
unfolding run
corp_at_claim = refl

claim_pays_once_example :
    Claimed
      (by 8)
      1
      config1
      (record corp1 { status = dissolving })
      dissolving_now
      (state_of claim)
      (response_of claim)
claim_pays_once_example =
    claim_pays_once (by 8) 1 dissolving_now (state_of claim) (response_of claim) config1
      (record corp1 { status = dissolving }) config_at_claim corp_at_claim claim_ran
