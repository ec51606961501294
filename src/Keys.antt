-- ===== src/Keys.antt =====
-- The keys that sign for the two chains: orchestrator/cosmos/keyring.go, orchestrator/ethereum/keystore
-- and cmd/peggo/keys.go.
pub mod PassReader
pub mod Crypto
pub mod KeyCache
pub mod KeyStore
pub mod EthAccount
pub mod Keyring
