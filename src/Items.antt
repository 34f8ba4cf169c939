-- ===== src/Items.antt =====
-- The item NFT (sysbreak-item-nft/src): definitions in the first modules, proofs below.
pub mod State
pub mod Helpers
pub mod Mint
pub mod Transfer
pub mod Admin
pub mod Contract
pub mod Query
pub mod Steps
pub mod Trace
pub mod Induction
pub mod Index
pub mod Ledger
pub mod Exact
pub mod Numbering
pub mod Ownership
pub mod Batch
pub mod Reuse
pub mod Settings
pub mod Immutable
pub mod Transfers
pub mod Runs
pub mod Tests
pub mod Listing
