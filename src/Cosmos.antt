-- ===== src/Cosmos.antt =====
-- orchestrator/cosmos/network.go: the network that the orchestrator uses for Injective, put together
-- from the query client, the broadcast client and the tendermint client.
pub mod Queries
pub mod Tendermint
use peggo.Base.{
  ℕ, Bool, true, false, Bytes, codes, String, Option, none, some, List, [], bytes_eq, not, ◌&&◌,
  if◌then◌else◌,
}
use peggo.Base.Int.{int64}
use peggo.Effect.{Result, ok, err, panic, M, pure, ◌>>=◌}
use peggo.Types.{Address}
use peggo.Network.{Injective}
use peggo.Broadcast
use peggo.Broadcast.{ChainClient}
use Queries.{ChainQueries, Params, peggy_params, get_validator_address}
use Tendermint.{Block, RpcClient, get_block}

-- The fields of `clientcommon.Network` that are set here.
pub record ClientConfig : Type 0 where
  pub name : Bytes
  pub chain_id : Bytes
  pub fee_denom : Bytes
  pub tm_endpoint : Bytes
  pub chain_grpc_endpoint : Bytes
  pub explorer_grpc_endpoint : Bytes
  pub lcd_endpoint : Bytes

pub record NetworkConfig : Type 0 where
  pub chain_id : Bytes
  pub validator_address : Bytes
  pub cosmos_grpc : Bytes
  pub tendermint_rpc : Bytes
  pub gas_price : Bytes

-- `load_network` is clientcommon.LoadNetwork.
module _ (load_network : (name node : Bytes) → ClientConfig) where
  unfoldable pub custom_endpoints : NetworkConfig → ClientConfig
  custom_endpoints cfg = record (load_network (codes "devnet") []) {
    name = codes "custom";
    chain_id = cfg.chain_id;
    fee_denom = codes "inj";
    tm_endpoint = cfg.tendermint_rpc;
    chain_grpc_endpoint = cfg.cosmos_grpc;
    explorer_grpc_endpoint = [];
    lcd_endpoint = [];
  }

  -- An unknown chain is a panic.
  unfoldable pub load_balanced_endpoints : NetworkConfig → Result ClientConfig
  load_balanced_endpoints cfg =
      if bytes_eq cfg.chain_id (codes "injective-1")
      then ok (load_network (codes "mainnet") (codes "lb"))
      else if bytes_eq cfg.chain_id (codes "injective-777")
      then ok (load_network (codes "devnet") (codes "lb"))
      else if bytes_eq cfg.chain_id (codes "injective-888")
      then ok (load_network (codes "testnet") (codes "lb"))
      else panic "no provider for chain id %s"

  unfoldable pub load_client_config : NetworkConfig → Result ClientConfig
  load_client_config cfg =
      if not (bytes_eq cfg.cosmos_grpc []) && not (bytes_eq cfg.tendermint_rpc [])
      then ok (custom_endpoints cfg)
      else load_balanced_endpoints cfg

module _ {S Tx Validators : Type 0} (q : ChainQueries S) (c : ChainClient S)
    (r : RpcClient S Tx Validators) where
  -- The struct that NewNetwork returns: each call is that of the client which has it.
  abbrev pub new_network : Injective S
  new_network = record {
    bridge_contract_start_height = peggy_params q >>= λ p. pure p.bridge_contract_start_height;
    last_claim_event_by_addr = Queries.last_claim_event_by_addr q;
    valset_at = Queries.valset_at q;
    current_valset = Queries.current_valset q;
    oldest_unsigned_valsets = Queries.oldest_unsigned_valsets q;
    latest_valsets = Queries.latest_valsets q;
    all_valset_confirms = Queries.all_valset_confirms q;
    oldest_unsigned_transaction_batch = Queries.oldest_unsigned_transaction_batch q;
    latest_transaction_batches = Queries.latest_transaction_batches q;
    unbatched_tokens_with_fees = Queries.unbatched_tokens_with_fees q;
    transaction_batch_signatures = Queries.transaction_batch_signatures q;
    get_block_time = λ height. get_block r (int64 height) >>= λ b. pure b.time;
    send_valset_confirm = Broadcast.send_valset_confirm c;
    send_batch_confirm = Broadcast.send_batch_confirm c;
    send_request_batch = Broadcast.send_request_batch c;
    send_old_deposit_claim = Broadcast.send_old_deposit_claim c;
    send_deposit_claim = Broadcast.send_deposit_claim c;
    send_withdrawal_claim = Broadcast.send_withdrawal_claim c;
    send_valset_claim = Broadcast.send_valset_claim c;
    send_erc20_deployed_claim = Broadcast.send_erc20_deployed_claim c;
  }

-- An error of the query means that there is no validator.
abbrev pub registered_validator : Result Bytes → Result (Option Bytes)
registered_validator (ok validator) = ok (some validator)
registered_validator (err e) = ok none
registered_validator (panic p) = panic p

-- The address of the validator that an Ethereum account is registered for, if any.
unfoldable pub has_registered_orchestrator :
    {S : Type 0} → ChainQueries S → Address → M S (Option Bytes)
has_registered_orchestrator q eth_addr s = (
  registered_validator (get_validator_address q eth_addr s).0,
  (get_validator_address q eth_addr s).1,
)
