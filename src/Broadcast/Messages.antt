-- ===== src/Broadcast/Messages.antt =====
-- The messages that orchestrator/cosmos/peggy/broadcast.go builds.
use peggo.Base.{ℕ, Bytes, List}
use peggo.Types.{BridgeValidator, MsgValsetConfirm, MsgConfirmBatch}

pub record DepositClaim : Type 0 where
  pub event_nonce : ℕ
  pub block_height : ℕ
  pub token_contract : Bytes
  pub amount : ℕ
  pub ethereum_sender : Bytes
  pub cosmos_receiver : Bytes
  pub orchestrator : Bytes
  pub payload : Bytes

pub record WithdrawClaim : Type 0 where
  pub event_nonce : ℕ
  pub batch_nonce : ℕ
  pub block_height : ℕ
  pub token_contract : Bytes
  pub orchestrator : Bytes

pub record ValsetUpdatedClaim : Type 0 where
  pub event_nonce : ℕ
  pub valset_nonce : ℕ
  pub block_height : ℕ
  pub reward_amount : ℕ
  pub reward_token : Bytes
  pub members : List BridgeValidator
  pub orchestrator : Bytes

pub record Erc20DeployedClaim : Type 0 where
  pub event_nonce : ℕ
  pub block_height : ℕ
  pub cosmos_denom : Bytes
  pub token_contract : Bytes
  pub name : Bytes
  pub symbol : Bytes
  pub decimals : ℕ
  pub orchestrator : Bytes

pub record RequestBatch : Type 0 where
  pub denom : Bytes
  pub orchestrator : Bytes

pub record SetOrchestratorAddresses : Type 0 where
  pub sender : Bytes
  pub eth_address : Bytes
  pub orchestrator : Bytes

-- A coin is a denom with an amount.
pub record SendToEth : Type 0 where
  pub sender : Bytes
  pub eth_dest : Bytes
  pub amount : Bytes × ℕ
  pub bridge_fee : Bytes × ℕ

pub data Msg : Type 0 where
  deposit_claim : DepositClaim → Msg
  withdraw_claim : WithdrawClaim → Msg
  valset_updated_claim : ValsetUpdatedClaim → Msg
  erc20_deployed_claim : Erc20DeployedClaim → Msg
  request_batch_msg : RequestBatch → Msg
  valset_confirm_msg : MsgValsetConfirm → Msg
  confirm_batch_msg : MsgConfirmBatch → Msg
  set_orchestrator_addresses : SetOrchestratorAddresses → Msg
  send_to_eth_msg : SendToEth → Msg
