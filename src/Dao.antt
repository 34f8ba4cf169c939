-- ===== src/Dao.antt =====
-- The corporation DAO (sysbreak-corporation-dao/src): definitions in the first modules, proofs below.
pub mod State
pub mod Helpers
pub mod Members
pub mod Proposals
pub mod Execution
pub mod Payouts
pub mod Contract
pub mod Votes
pub mod Steps
pub mod Trace
pub mod Migration
pub mod Induction
pub mod Tally
pub mod Finality
pub mod Voting
pub mod Outcomes
pub mod Spending
pub mod Claiming
pub mod Roster
pub mod Claims
pub mod Fees
pub mod Query
pub mod Status
pub mod Runs
pub mod Tests
pub mod TreasuryTests
