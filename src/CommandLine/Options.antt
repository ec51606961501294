-- ===== src/CommandLine/Options.antt =====
-- The options that cmd/peggo/options.go declares, each with the variable that it sets.
pub mod Orchestrate
use peggo.Base.{ℕ, Bool, false, String, List, [], ◌∷◌}

-- The default of an option, which is the zero value where the source gives none. That of a Float64
-- option is its literal.
pub data OptValue : Type 0 where
  string_value float_value : String → OptValue
  bool_value : Bool → OptValue
  int_value : ℕ → OptValue

-- `cli.StringOpt`, `cli.BoolOpt`, `cli.IntOpt` and `cli.Float64Opt`.
pub record CliOpt : Type 0 where
  pub variable : String
  pub name : String
  pub desc : String
  pub env_var : String
  pub value : OptValue

abbrev pub opt : (variable name desc env_var : String) → OptValue → CliOpt
opt variable name desc env_var value = record {
  variable = variable;
  name = name;
  desc = desc;
  env_var = env_var;
  value = value;
}

abbrev pub init_global_options : List CliOpt
init_global_options =
    opt "envName" "e env"
      "The environment name this app runs in. Used for metrics and error reporting." "PEGGO_ENV"
      (string_value "local")
    ∷ opt "appLogLevel" "l log-level" "Available levels: error, warn, info, debug."
        "PEGGO_LOG_LEVEL" (string_value "info")
    ∷ opt "svcWaitTimeout" "svc-wait-timeout"
        "Standard wait timeout for external services (e.g. Cosmos daemon GRPC connection)"
        "PEGGO_SERVICE_WAIT_TIMEOUT" (string_value "1m")
    ∷ []

abbrev pub init_interactive_options : List CliOpt
init_interactive_options =
    opt "alwaysAutoConfirm" "y yes" "Always auto-confirm actions, such as transaction sending."
      "PEGGO_ALWAYS_AUTO_CONFIRM" (bool_value false)
    ∷ []

abbrev pub init_cosmos_options : List CliOpt
init_cosmos_options =
    opt "cosmosChainID" "cosmos-chain-id" "Specify Chain ID of the Cosmos network."
      "PEGGO_COSMOS_CHAIN_ID" (string_value "888")
    ∷ opt "cosmosGRPC" "cosmos-grpc" "Cosmos GRPC querying endpoint" "PEGGO_COSMOS_GRPC"
        (string_value "")
    ∷ opt "tendermintRPC" "tendermint-rpc" "Tendermint RPC endpoint" "PEGGO_TENDERMINT_RPC"
        (string_value "")
    ∷ opt "cosmosGasPrices" "cosmos-gas-prices"
        "Specify Cosmos chain transaction fees as DecCoins gas prices" "PEGGO_COSMOS_GAS_PRICES"
        (string_value "")
    ∷ []

abbrev pub init_cosmos_key_options : List CliOpt
init_cosmos_key_options =
    opt "cosmosKeyringBackend" "cosmos-keyring"
      "Specify Cosmos keyring backend (os|file|kwallet|pass|test)" "PEGGO_COSMOS_KEYRING"
      (string_value "file")
    ∷ opt "cosmosKeyringDir" "cosmos-keyring-dir"
        "Specify Cosmos keyring dir, if using file keyring." "PEGGO_COSMOS_KEYRING_DIR"
        (string_value "")
    ∷ opt "cosmosKeyringAppName" "cosmos-keyring-app" "Specify Cosmos keyring app name."
        "PEGGO_COSMOS_KEYRING_APP" (string_value "peggo")
    ∷ opt "cosmosKeyFrom" "cosmos-from"
        "Specify the Cosmos validator key name or address. If specified, must exist in keyring, ledger or match the privkey."
        "PEGGO_COSMOS_FROM" (string_value "")
    ∷ opt "cosmosKeyPassphrase" "cosmos-from-passphrase"
        "Specify keyring passphrase, otherwise Stdin will be used." "PEGGO_COSMOS_FROM_PASSPHRASE"
        (string_value "peggo")
    ∷ opt "cosmosPrivKey" "cosmos-pk"
        "Provide a raw Cosmos account private key of the validator in hex. USE FOR TESTING ONLY!"
        "PEGGO_COSMOS_PK" (string_value "")
    ∷ opt "cosmosUseLedger" "cosmos-use-ledger"
        "Use the Cosmos app on hardware ledger to sign transactions." "PEGGO_COSMOS_USE_LEDGER"
        (bool_value false)
    ∷ []

abbrev pub init_ethereum_key_options : List CliOpt
init_ethereum_key_options =
    opt "ethKeystoreDir" "eth-keystore-dir" "Specify Ethereum keystore dir (Geth-format) prefix."
      "PEGGO_ETH_KEYSTORE_DIR" (string_value "")
    ∷ opt "ethKeyFrom" "eth-from"
        "Specify the from address. If specified, must exist in keystore, ledger or match the privkey."
        "PEGGO_ETH_FROM" (string_value "")
    ∷ opt "ethPassphrase" "eth-passphrase"
        "Passphrase to unlock the private key from armor, if empty then stdin is used."
        "PEGGO_ETH_PASSPHRASE" (string_value "")
    ∷ opt "ethPrivKey" "eth-pk"
        "Provide a raw Ethereum private key of the validator in hex. USE FOR TESTING ONLY!"
        "PEGGO_ETH_PK" (string_value "")
    ∷ opt "ethUseLedger" "eth-use-ledger"
        "Use the Ethereum app on hardware ledger to sign transactions." "PEGGO_ETH_USE_LEDGER"
        (bool_value false)
    ∷ []

abbrev pub init_statsd_options : List CliOpt
init_statsd_options =
    opt "statsdAgent" "statsd-agent" "Specify StatsD agent." "PEGGO_STATSD_AGENT"
      (string_value "telegraf")
    ∷ opt "statsdPrefix" "statsd-prefix" "Specify StatsD compatible metrics prefix."
        "PEGGO_STATSD_PREFIX" (string_value "peggo")
    ∷ opt "statsdAddr" "statsd-addr" "UDP address of a StatsD compatible metrics aggregator."
        "PEGGO_STATSD_ADDR" (string_value "localhost:8125")
    ∷ opt "statsdStuckDur" "statsd-stuck-func"
        "Sets a duration to consider a function to be stuck (e.g. in deadlock)."
        "PEGGO_STATSD_STUCK_DUR" (string_value "5m")
    ∷ opt "statsdMocking" "statsd-mocking"
        "If enabled replaces statsd client with a mock one that simply logs values."
        "PEGGO_STATSD_MOCKING" (string_value "false")
    ∷ opt "statsdDisabled" "statsd-disabled" "Force disabling statsd reporting completely."
        "PEGGO_STATSD_DISABLED" (string_value "true")
    ∷ []
