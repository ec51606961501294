-- ===== src/Broadcast.antt =====
-- orchestrator/cosmos/peggy/broadcast.go: the messages to Injective, and how they are sent. Each call holds the client's lock, and so is one step; the sleeps are not modelled.
pub mod Messages
pub mod Accepted
pub mod Confirmed
use peggo.Base.{ℕ, Bytes, String, List, [], ◌∷◌, take, drop, ◌==◌, if◌then◌else◌}
use peggo.Effect.{
  Error, failed, raised, wrapped, Result, ok, err, panic, M, pure, raise, lift, wrap, ◌>>=◌,
}
use peggo.Types.{
  Address, BridgeValidator, SendToCosmosEvent, SendToInjectiveEvent, TransactionBatchExecutedEvent,
  Erc20DeployedEvent, ValsetUpdatedEvent, u64,
}
use peggo.Libraries.{GethLib}
use Messages.{
  Msg, deposit_claim, withdraw_claim, valset_updated_claim, erc20_deployed_claim, request_batch_msg,
  valset_confirm_msg, confirm_batch_msg, set_orchestrator_addresses, send_to_eth_msg,
}
use peggo.Types.{Hash, Valset, OutgoingTxBatch, MsgValsetConfirm, MsgConfirmBatch}
use peggo.Peggy.Checkpoint.{CheckpointLib, encode_valset_confirm, encode_tx_batch_confirm}
use peggo.Oracle.Events.{Event, old_deposit, deposit, valset_update, withdrawal, erc20_deployment}

-- `Code` and `RawLog` of a `TxResponse`.
pub record TxResponse : Type 0 where
  pub code : ℕ
  pub raw_log : Bytes

-- The chain client of sdk-go, with the text form of account addresses, and the function that signs
-- with the key of an Ethereum account. `bytes_to_hex` is gethcommon.Bytes2Hex.
pub record ChainClient (S : Type 0) : Type 0 where
  pub geth : GethLib
  pub acc_address : Bytes → Bytes
  pub from_address : Bytes
  pub broadcast_msg : Msg → M S TxResponse
  pub queue_broadcast_msg : Msg → M S (Unit {0})
  pub checkpoint : CheckpointLib
  pub eth_sign_fn : Address → Hash → Result Bytes
  pub bytes_to_hex : Bytes → Bytes

-- `for i, val := range vs.Validators`: too few powers are a panic.
unfoldable pub claim_members : GethLib → List Address → List ℕ → Result (List BridgeValidator)
claim_members geth [] ps = ok []
claim_members geth (v ∷ vs) [] = panic "index out of range"
claim_members geth (v ∷ vs) (p ∷ ps) = elim (claim_members geth vs ps) [
  | ok ms ↦ ok (record { power = u64 p; ethereum_address = geth.hex v } ∷ ms)
  | err e ↦ err e
  | panic t ↦ panic t
]

module _ {S : Type 0} (c : ChainClient S) where
  -- The end of each of the calls.
  unfoldable pub broadcast : (text : String) → Msg → M S (Unit {0})
  broadcast text msg = do
    resp ← wrap text (c.broadcast_msg msg)
    if resp.code == 0 then pure tt else raise (wrapped text (failed resp.raw_log))

  -- `deposit.Destination[12:32]`: the address in a 32-byte word.
  unfoldable pub receiver : (destination : Bytes) → Bytes
  receiver destination = c.acc_address (drop 12 (take 32 destination))

  unfoldable pub send_old_deposit_claim : SendToCosmosEvent → M S (Unit {0})
  send_old_deposit_claim e = broadcast "failed to broadcast MsgDepositClaim" (
      deposit_claim (record {
        event_nonce = u64 e.event_nonce;
        block_height = e.block_number;
        token_contract = c.geth.hex e.token_contract;
        amount = e.amount;
        ethereum_sender = c.geth.hex e.sender;
        cosmos_receiver = receiver e.destination;
        orchestrator = c.from_address;
        payload = [];
      }))

  unfoldable pub send_deposit_claim : SendToInjectiveEvent → M S (Unit {0})
  send_deposit_claim e = broadcast "failed to broadcast MsgDepositClaim" (
      deposit_claim (record {
        event_nonce = u64 e.event_nonce;
        block_height = e.block_number;
        token_contract = c.geth.hex e.token_contract;
        amount = e.amount;
        ethereum_sender = c.geth.hex e.sender;
        cosmos_receiver = receiver e.destination;
        orchestrator = c.from_address;
        payload = e.payload;
      }))

  unfoldable pub send_withdrawal_claim : TransactionBatchExecutedEvent → M S (Unit {0})
  send_withdrawal_claim e = broadcast "failed to broadcast MsgWithdrawClaim" (
      withdraw_claim (record {
        event_nonce = u64 e.event_nonce;
        batch_nonce = u64 e.batch_nonce;
        block_height = e.block_number;
        token_contract = c.geth.hex e.token;
        orchestrator = c.from_address;
      }))

  unfoldable pub send_valset_claim : ValsetUpdatedEvent → M S (Unit {0})
  send_valset_claim e = do
    members ← lift (claim_members c.geth e.validators e.powers)
    broadcast "failed to broadcast MsgValsetUpdatedClaim" (
        valset_updated_claim (record {
          event_nonce = u64 e.event_nonce;
          valset_nonce = u64 e.new_valset_nonce;
          block_height = e.block_number;
          reward_amount = e.reward_amount;
          reward_token = c.geth.hex e.reward_token;
          members = members;
          orchestrator = c.from_address;
        }))

  unfoldable pub send_erc20_deployed_claim : Erc20DeployedEvent → M S (Unit {0})
  send_erc20_deployed_claim e = broadcast "failed to broadcast MsgERC20DeployedClaim" (
      erc20_deployed_claim (record {
        event_nonce = u64 e.event_nonce;
        block_height = e.block_number;
        cosmos_denom = e.cosmos_denom;
        token_contract = c.geth.hex e.token_contract;
        name = e.name;
        symbol = e.symbol;
        decimals = e.decimals;
        orchestrator = c.from_address;
      }))

  unfoldable pub send_request_batch : (denom : Bytes) → M S (Unit {0})
  send_request_batch denom =
      broadcast "failed to broadcast MsgRequestBatch"
        (request_batch_msg (record { denom = denom; orchestrator = c.from_address }))

  -- The claim of an event, as the oracle loop sends it through this client.
  abbrev pub send_claim : Event → M S (Unit {0})
  send_claim (old_deposit e) = send_old_deposit_claim e
  send_claim (deposit e) = send_deposit_claim e
  send_claim (valset_update e) = send_valset_claim e
  send_claim (withdrawal e) = send_withdrawal_claim e
  send_claim (erc20_deployment e) = send_erc20_deployed_claim e

  -- The error of the signing function is replaced.
  unfoldable pub sign_hash : Address → Hash → M S Bytes
  sign_hash eth_from confirm_hash = elim (c.eth_sign_fn eth_from confirm_hash) [
    | ok signature ↦ pure signature
    | err e ↦ raise (raised "failed to sign validator address")
    | panic p ↦ lift (panic p)
  ]

  abbrev pub valset_confirm : Address → Valset → (signature : Bytes) → MsgValsetConfirm
  valset_confirm eth_from valset signature = record {
    nonce = valset.nonce;
    orchestrator = c.from_address;
    eth_address = c.geth.hex eth_from;
    signature = c.bytes_to_hex signature;
  }

  abbrev pub batch_confirm : Address → OutgoingTxBatch → (signature : Bytes) → MsgConfirmBatch
  batch_confirm eth_from batch signature = record {
    nonce = batch.batch_nonce;
    token_contract = batch.token_contract;
    eth_signer = c.geth.hex eth_from;
    orchestrator = c.from_address;
    signature = c.bytes_to_hex signature;
  }

  unfoldable pub send_valset_confirm : Address → Hash → Valset → M S (Unit {0})
  send_valset_confirm eth_from peggy_id valset = do
    confirm_hash ← lift (encode_valset_confirm c.geth c.checkpoint peggy_id valset)
    signature ← sign_hash eth_from confirm_hash
    broadcast "failed to broadcast MsgValsetConfirm"
        (valset_confirm_msg (valset_confirm eth_from valset signature))

  unfoldable pub send_batch_confirm : Address → Hash → OutgoingTxBatch → M S (Unit {0})
  send_batch_confirm eth_from peggy_id batch = do
    confirm_hash ← lift (encode_tx_batch_confirm c.geth c.checkpoint peggy_id batch)
    signature ← sign_hash eth_from confirm_hash
    broadcast "failed to broadcast MsgConfirmBatch"
        (confirm_batch_msg (batch_confirm eth_from batch signature))

  unfoldable pub update_peggy_orchestrator_addresses :
      Address → (orch_addr : Bytes) → M S (Unit {0})
  update_peggy_orchestrator_addresses eth_from orch_addr =
      broadcast "failed to broadcast MsgSetOrchestratorAddresses" (
        set_orchestrator_addresses (record {
          sender = c.from_address;
          eth_address = c.geth.hex eth_from;
          orchestrator = c.acc_address orch_addr;
        }))

  unfoldable pub send_to_eth : (destination : Address) → (amount fee : Bytes × ℕ) → M S (Unit {0})
  send_to_eth destination amount fee = wrap "broadcasting MsgSendToEth failed" (
      c.queue_broadcast_msg (
        send_to_eth_msg (record {
          sender = c.from_address;
          eth_dest = c.geth.hex destination;
          amount = amount;
          bridge_fee = fee;
        })))
