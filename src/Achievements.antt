-- ===== src/Achievements.antt =====
-- The achievement NFT (sysbreak-achievement-nft/src): definitions in the first modules, proofs
-- below.
pub mod State
pub mod Helpers
pub mod Mint
pub mod Transfer
pub mod Admin
pub mod Contract
pub mod Query
pub mod Steps
pub mod Trace
pub mod Induction
pub mod Index
pub mod Ledger
pub mod Once
pub mod Exact
pub mod Numbering
pub mod Settings
pub mod Soulbound
pub mod Doubled
pub mod Ownership
pub mod Runs
pub mod Tests
