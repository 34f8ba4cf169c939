-- ===== src/Bridge.antt =====
-- The credit bridge (sysbreak-credit-bridge/src): definitions in the first modules, proofs below.
pub mod State
pub mod Helpers
pub mod Treasury
pub mod Withdraw
pub mod Admin
pub mod Contract
pub mod Conversion
pub mod Trace
pub mod Validity
pub mod Frame
pub mod Induction
pub mod Replay
pub mod Window
pub mod GlobalLimit
pub mod PlayerLimit
pub mod Solvency
pub mod Authority
pub mod Query
pub mod Quotes
mod Tests
pub mod Payload
pub mod PayloadTests
