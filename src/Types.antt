-- ===== src/Types.antt =====
-- The data that the two chains and the orchestrator exchange: the peggytypes messages that
-- orchestrator/ uses, and the events of the Peggy contract.
-- An Ethereum address (20 bytes) and a hash (32 bytes) are numbers; a `string` is its bytes.
use peggo.Base.{ℕ, ◌%◌, ◌^◌, Bytes, List}

abbrev pub Address : Type 0
Address = ℕ

abbrev pub Hash : Type 0
Hash = ℕ

-- `uint64` arithmetic wraps; so does `(*big.Int).Uint64()`.
abbrev pub u64 : ℕ → ℕ
u64 n = n % 2 ^ 64

pub record BridgeValidator : Type 0 where
  pub power : ℕ
  pub ethereum_address : Bytes

pub record Valset : Type 0 where
  pub nonce : ℕ
  pub members : List BridgeValidator
  pub height : ℕ
  pub reward_amount : ℕ
  pub reward_token : Bytes

pub record LastClaimEvent : Type 0 where
  pub ethereum_event_nonce : ℕ
  pub ethereum_event_height : ℕ

pub record MsgValsetConfirm : Type 0 where
  pub nonce : ℕ
  pub orchestrator : Bytes
  pub eth_address : Bytes
  pub signature : Bytes

pub record MsgConfirmBatch : Type 0 where
  pub nonce : ℕ
  pub token_contract : Bytes
  pub eth_signer : Bytes
  pub orchestrator : Bytes
  pub signature : Bytes

pub record OutgoingTransferTx : Type 0 where
  pub dest_address : Bytes
  pub erc20_token : ℕ
  pub erc20_fee : ℕ

pub record OutgoingTxBatch : Type 0 where
  pub batch_nonce : ℕ
  pub batch_timeout : ℕ
  pub transactions : List OutgoingTransferTx
  pub token_contract : Bytes
  pub block : ℕ

pub record BatchFees : Type 0 where
  pub token : Bytes
  pub total_fees : ℕ

-- `EventNonce` is a `*big.Int`; `Raw.BlockNumber` is `block_number`.
pub record SendToCosmosEvent : Type 0 where
  pub event_nonce : ℕ
  pub token_contract : Address
  pub sender : Address
  pub destination : Bytes
  pub amount : ℕ
  pub block_number : ℕ

pub record SendToInjectiveEvent : Type 0 where
  pub event_nonce : ℕ
  pub token_contract : Address
  pub sender : Address
  pub destination : Bytes
  pub amount : ℕ
  pub payload : Bytes
  pub block_number : ℕ

pub record TransactionBatchExecutedEvent : Type 0 where
  pub event_nonce : ℕ
  pub batch_nonce : ℕ
  pub token : Address
  pub block_number : ℕ

pub record Erc20DeployedEvent : Type 0 where
  pub event_nonce : ℕ
  pub cosmos_denom : Bytes
  pub token_contract : Address
  pub name : Bytes
  pub symbol : Bytes
  pub decimals : ℕ
  pub block_number : ℕ

pub record ValsetUpdatedEvent : Type 0 where
  pub event_nonce : ℕ
  pub new_valset_nonce : ℕ
  pub reward_amount : ℕ
  pub reward_token : Address
  pub validators : List Address
  pub powers : List ℕ
  pub block_number : ℕ
