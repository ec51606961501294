-- ===== src/Tests.antt =====
-- Runs of the model on small chains, and the theorems applied to them.
pub mod Fixtures
mod OptionRuns
mod OracleRuns
mod ContractRuns
mod CommitterRuns
mod LoopRuns
mod RelayerRuns
mod DenomRuns
mod BroadcastRuns
mod StartupRuns
mod EthNetworkRuns
mod KeyRuns
mod ServiceRuns
