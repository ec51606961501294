-- ===== src/Network.antt =====
-- The two networks as the orchestrator sees them: cosmos.Network (orchestrator/cosmos) and
-- ethereum.Network (orchestrator/ethereum). Each call takes and returns the state `S` of the
-- outside world, which is arbitrary. A pointer that may be nil is an `Option`.
pub mod Recorder
use peggo.Base.{ℕ, Bytes, List, Option}
use peggo.Effect.{M}
use peggo.Types.{
  Address, Hash, Valset, LastClaimEvent, MsgValsetConfirm, MsgConfirmBatch, OutgoingTxBatch,
  BatchFees, SendToCosmosEvent, SendToInjectiveEvent, TransactionBatchExecutedEvent,
  Erc20DeployedEvent, ValsetUpdatedEvent,
}

-- QueryClient, BroadcastClient and tendermint.Client.
pub record Injective (S : Type 0) : Type 0 where
  pub bridge_contract_start_height : M S ℕ  -- of PeggyParams
  pub last_claim_event_by_addr : Bytes → M S (Option LastClaimEvent)
  pub valset_at : ℕ → M S (Option Valset)
  pub current_valset : M S (Option Valset)
  pub oldest_unsigned_valsets : Bytes → M S (List Valset)
  pub latest_valsets : M S (List Valset)
  pub all_valset_confirms : ℕ → M S (List MsgValsetConfirm)
  pub oldest_unsigned_transaction_batch : Bytes → M S (Option OutgoingTxBatch)
  pub latest_transaction_batches : M S (List OutgoingTxBatch)
  pub unbatched_tokens_with_fees : M S (List BatchFees)
  pub transaction_batch_signatures : ℕ → Address → M S (List MsgConfirmBatch)
  pub get_block_time : ℕ → M S ℕ  -- Block.Time of GetBlock, in nanoseconds
  pub send_valset_confirm : Address → Hash → Valset → M S (Unit {0})
  pub send_batch_confirm : Address → Hash → OutgoingTxBatch → M S (Unit {0})
  pub send_request_batch : Bytes → M S (Unit {0})
  pub send_old_deposit_claim : SendToCosmosEvent → M S (Unit {0})
  pub send_deposit_claim : SendToInjectiveEvent → M S (Unit {0})
  pub send_withdrawal_claim : TransactionBatchExecutedEvent → M S (Unit {0})
  pub send_valset_claim : ValsetUpdatedEvent → M S (Unit {0})
  pub send_erc20_deployed_claim : Erc20DeployedEvent → M S (Unit {0})

pub record Ethereum (S : Type 0) : Type 0 where
  pub get_latest_header_number : M S ℕ  -- Number of GetHeaderByNumber(ctx, nil)
  pub get_peggy_id : M S Hash
  pub get_send_to_cosmos_events : ℕ → ℕ → M S (List SendToCosmosEvent)
  pub get_send_to_injective_events : ℕ → ℕ → M S (List SendToInjectiveEvent)
  pub get_peggy_erc20_deployed_events : ℕ → ℕ → M S (List Erc20DeployedEvent)
  pub get_valset_updated_events : ℕ → ℕ → M S (List ValsetUpdatedEvent)
  pub get_transaction_batch_executed_events : ℕ → ℕ → M S (List TransactionBatchExecutedEvent)
  pub get_valset_nonce : M S ℕ
  pub send_eth_valset_update : Valset → Valset → List MsgValsetConfirm → M S Hash
  pub get_tx_batch_nonce : Address → M S ℕ
  pub send_transaction_batch : Valset → OutgoingTxBatch → List MsgConfirmBatch → M S Hash
  pub token_decimals : Address → M S ℕ
