-- ===== src/CommandLine/Startup.antt =====
-- orchestratorCmd of cmd/peggo/orchestrator.go: from the values of the flags to an orchestrator.
pub mod Configured
use peggo.Base.{
  ℕ, ◌≡◌, ◌∙◌, ◌⊎◌, refl, sym, ap, arith, inl, inr, Bool, Bool-cases, true, false, not, Bytes,
  codes, String, Option, none, some, ◌||◌, ◌==◌, if◌then◌else◌,
}
use peggo.Effect.{Error, raised, Result, ok, err, panic, M, pure, lift, wrap, ◌>>=◌}
use peggo.Effect.Keeps.{bind_ok, pure_ok}
use peggo.Effect.Returns.{Returns, Returns-pure, Returns-bind}
use peggo.Effect.Retry.{Retry}
use peggo.Types.{Address}
use peggo.Libraries.{DecimalLib, GethLib}
use peggo.Keys.Crypto.{CryptoLib}
use peggo.Keys.KeyStore.{Files}
use peggo.Keys.EthAccount.{Device, KeyOptions, EthAccount, init_ethereum_accounts_manager}
use peggo.Keys.Keyring.{KeyringConfig, KeyringLib, Keyring, new_keyring}
use peggo.Cosmos
use peggo.Cosmos.{ClientConfig, NetworkConfig, load_client_config, has_registered_orchestrator}
use peggo.Cosmos.Queries.{ChainQueries, Params, peggy_params, get_validator_address}
use peggo.Cosmos.Tendermint.{RpcClient}
use peggo.Broadcast.{ChainClient}
use peggo.EthNetwork
use peggo.EthNetwork.{EthClient}
use peggo.Peggy.Submit.{PeggyContract}
use peggo.Network.{Injective, Ethereum}
use peggo.Orchestrator.{Orchestrator, Config}
use peggo.Orchestrator.Start.{new_orchestrator, fatal, fatal_ok}

-- The values of the flags that are used here.
pub record Flags (Float : Type 0) : Type 0 where
  pub keyring : KeyringConfig
  pub network : NetworkConfig
  pub eth_keys : KeyOptions
  pub cosmos_use_ledger : Bool
  pub relay_valsets : Bool
  pub relay_valset_offset_dur : Bytes
  pub relay_batches : Bool
  pub relay_batch_offset_dur : Bytes
  pub min_batch_fee_usd : Float

-- The clients of Injective, once connected.
pub record Clients (S Tx Validators : Type 0) : Type 0 where
  pub queries : ChainQueries S
  pub chain : ChainClient S
  pub tendermint : RpcClient S Tx Validators

-- What the orchestrator is made of.
pub record Started (S : Type 0) (decimal : DecimalLib) : Type 0 where
  pub injective : Injective S
  pub ethereum : Ethereum S
  pub cfg : Config decimal.Float

abbrev pub orchestrator_of :
    {S : Type 0}
    → Retry
    → (decimal : DecimalLib) → GethLib
    → M S ℕ
    → (Address → M S decimal.Float)
    → Started S decimal
    → Orchestrator S
orchestrator_of retry_lib decimal geth now price_feed x =
    new_orchestrator retry_lib decimal geth now x.injective x.ethereum price_feed x.cfg

-- `orShutdown`: an error ends the process. The error that it passes over, grpc.ErrServerStopped, is one
-- of a gRPC server, and the calls here are of clients.
abbrev pub or_shutdown : {S A : Type 0} → M S A → M S A
or_shutdown m = fatal "unable to start peggo" m

abbrev pub is_validator : Option Bytes → Bool
is_validator none = false
is_validator (some v) = true

-- `contract` is NewPeggyContract with the committer of the account.
module _ {S Tx Validators : Type 0} (decimal : DecimalLib) (geth : GethLib) (crypto : CryptoLib)
    (keyrings : KeyringLib S) (files : Files S) (device : Device S crypto)
    (parse_duration : Bytes → Result ℕ) (load_network : (name node : Bytes) → ClientConfig)
    (connect_injective : ClientConfig
      → Keyring keyrings
      → EthAccount S crypto
      → M S (Clients S Tx Validators))
    (connect_ethereum : (peggy_contract : Address) → EthAccount S crypto → M S (EthClient S))
    (contract : (peggy_contract : Address) → EthAccount S crypto → PeggyContract S) where
  -- A duration is read only for a relayer that is switched on. That it may be negative is left out.
  unfoldable pub offset_dur : Bool → Bytes → M S ℕ
  offset_dur is_on text = if is_on then or_shutdown (lift (parse_duration text)) else pure 0

  abbrev pub config :
      Flags decimal.Float
      → Keyring keyrings
      → EthAccount S crypto
      → Params
      → Option Bytes
      → (valset_dur batch_dur : ℕ) → Config decimal.Float
  config flags keyring account params validator valset_dur batch_dur = record {
    cosmos_addr = keyring.addr;
    ethereum_addr = account.eth_key_from_address;
    min_batch_fee_usd = flags.min_batch_fee_usd;
    erc20_contract_mapping = λ a.
        if a == geth.hex_to_address params.cosmos_coin_erc20_contract
        then some (codes "inj")
        else none;
    relay_valset_offset_dur = valset_dur;
    relay_batch_offset_dur = batch_dur;
    relay_valsets = flags.relay_valsets;
    relay_batches = flags.relay_batches;
    relayer_mode = not (is_validator validator);
  }

  -- The end of the start: both networks are connected.
  unfoldable pub orchestrate :
      Flags decimal.Float
      → Keyring keyrings
      → EthAccount S crypto
      → Clients S Tx Validators
      → Params
      → EthClient S
      → M S (Started S decimal)
  orchestrate flags keyring account clients params eth_client = do
    validator ← has_registered_orchestrator clients.queries account.eth_key_from_address
    valset_dur ← offset_dur flags.relay_valsets flags.relay_valset_offset_dur
    batch_dur ← offset_dur flags.relay_batches flags.relay_batch_offset_dur
    pure (record {
      injective = Cosmos.new_network clients.queries clients.chain clients.tendermint;
      ethereum =
          EthNetwork.new_network eth_client
            (contract (geth.hex_to_address params.bridge_ethereum_address) account);
      cfg = config flags keyring account params validator valset_dur batch_dur;
    })

  unfoldable pub connect :
      Flags decimal.Float → Keyring keyrings → EthAccount S crypto → M S (Started S decimal)
  connect flags keyring account = do
    client_cfg ← lift (load_client_config load_network flags.network)
    clients ← or_shutdown (connect_injective client_cfg keyring account)
    params ← or_shutdown (peggy_params clients.queries)
    eth_client ←
        or_shutdown (connect_ethereum (geth.hex_to_address params.bridge_ethereum_address) account)
    orchestrate flags keyring account clients params eth_client

  unfoldable pub orchestrator_cmd : Flags decimal.Float → M S (Started S decimal)
  orchestrator_cmd flags =
      if flags.cosmos_use_ledger || flags.eth_keys.eth_use_ledger
      then (λ s. (panic "cannot use Ledger for orchestrator, since signatures must be realtime", s))
      else do
        keyring ← or_shutdown (new_keyring keyrings flags.keyring)
        account ← or_shutdown (init_ethereum_accounts_manager files device flags.eth_keys)
        connect flags keyring account
