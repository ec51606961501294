-- ===== src/Peggy.antt =====
-- The client of the Peggy contract, orchestrator/ethereum/peggy.
pub mod Repack
pub mod Pending
pub mod Submit
pub mod Checkpoint
pub mod SendToCosmos
