-- ===== src/CommandLine/Options/Orchestrate.antt =====
-- The options of the orchestrator: initConfig of cmd/peggo/options.go, with the fields that it sets.
use peggo.Base.{false, List, [], ◌∷◌}
use peggo.CommandLine.Options.{string_value, float_value, bool_value, int_value, CliOpt, opt}

abbrev pub init_config : List CliOpt
init_config =
    opt "cosmosChainID" "cosmos-chain-id" "Specify Chain ID of the Cosmos network."
      "PEGGO_COSMOS_CHAIN_ID" (string_value "888")
    ∷ opt "cosmosGRPC" "cosmos-grpc" "Cosmos GRPC querying endpoint" "PEGGO_COSMOS_GRPC"
        (string_value "")
    ∷ opt "tendermintRPC" "tendermint-rpc" "Tendermint RPC endpoint" "PEGGO_TENDERMINT_RPC"
        (string_value "")
    ∷ opt "cosmosGasPrices" "cosmos-gas-prices"
        "Specify Cosmos chain transaction fees as DecCoins gas prices" "PEGGO_COSMOS_GAS_PRICES"
        (string_value "")
    ∷ opt "cosmosKeyringBackend" "cosmos-keyring"
        "Specify Cosmos keyring backend (os|file|kwallet|pass|test)" "PEGGO_COSMOS_KEYRING"
        (string_value "file")
    ∷ opt "cosmosKeyringDir" "cosmos-keyring-dir"
        "Specify Cosmos keyring dir, if using file keyring." "PEGGO_COSMOS_KEYRING_DIR"
        (string_value "")
    ∷ opt "cosmosKeyringAppName" "cosmos-keyring-app" "Specify Cosmos keyring app name."
        "PEGGO_COSMOS_KEYRING_APP" (string_value "peggo")
    ∷ opt "cosmosKeyFrom" "cosmos-from"
        "Specify the Cosmos validator key name or address. If specified, must exist in keyring, ledger or match the privkey."
        "PEGGO_COSMOS_FROM" (string_value "")
    ∷ opt "cosmosKeyPassphrase" "cosmos-from-passphrase"
        "Specify keyring passphrase, otherwise Stdin will be used." "PEGGO_COSMOS_FROM_PASSPHRASE"
        (string_value "peggo")
    ∷ opt "cosmosPrivKey" "cosmos-pk"
        "Provide a raw Cosmos account private key of the validator in hex. USE FOR TESTING ONLY!"
        "PEGGO_COSMOS_PK" (string_value "")
    ∷ opt "cosmosUseLedger" "cosmos-use-ledger"
        "Use the Cosmos app on hardware ledger to sign transactions." "PEGGO_COSMOS_USE_LEDGER"
        (bool_value false)
    ∷ opt "ethChainID" "eth-chain-id" "Specify Chain ID of the Ethereum network."
        "PEGGO_ETH_CHAIN_ID" (int_value 42)
    ∷ opt "ethNodeRPC" "eth-node-http" "Specify HTTP endpoint for an Ethereum node." "PEGGO_ETH_RPC"
        (string_value "http://localhost:1317")
    ∷ opt "ethNodeAlchemyWS" "eth-node-alchemy-ws"
        "Specify websocket url for an Alchemy ethereum node." "PEGGO_ETH_ALCHEMY_WS"
        (string_value "")
    ∷ opt "ethGasPriceAdjustment" "eth_gas_price_adjustment"
        "gas price adjustment for Ethereum transactions" "PEGGO_ETH_GAS_PRICE_ADJUSTMENT"
        (float_value "1.3")
    ∷ opt "ethMaxGasPrice" "eth-max-gas-price"
        "Specify Max gas price for Ethereum Transactions in GWei" "PEGGO_ETH_MAX_GAS_PRICE"
        (string_value "500gwei")
    ∷ opt "ethKeystoreDir" "eth-keystore-dir" "Specify Ethereum keystore dir (Geth-format) prefix."
        "PEGGO_ETH_KEYSTORE_DIR" (string_value "")
    ∷ opt "ethKeyFrom" "eth-from"
        "Specify the from address. If specified, must exist in keystore, ledger or match the privkey."
        "PEGGO_ETH_FROM" (string_value "")
    ∷ opt "ethPassphrase" "eth-passphrase"
        "Passphrase to unlock the private key from armor, if empty then stdin is used."
        "PEGGO_ETH_PASSPHRASE" (string_value "")
    ∷ opt "ethPrivKey" "eth-pk"
        "Provide a raw Ethereum private key of the validator in hex. USE FOR TESTING ONLY!"
        "PEGGO_ETH_PK" (string_value "")
    ∷ opt "ethUseLedger" "eth-use-ledger"
        "Use the Ethereum app on hardware ledger to sign transactions." "PEGGO_ETH_USE_LEDGER"
        (bool_value false)
    ∷ opt "relayValsets" "relay_valsets" "If enabled, relayer will relay valsets to ethereum"
        "PEGGO_RELAY_VALSETS" (bool_value false)
    ∷ opt "relayValsetOffsetDur" "relay_valset_offset_dur"
        "If set, relayer will broadcast valsetUpdate only after relayValsetOffsetDur has passed from time of valsetUpdate creation"
        "PEGGO_RELAY_VALSET_OFFSET_DUR" (string_value "5m")
    ∷ opt "relayBatches" "relay_batches" "If enabled, relayer will relay batches to ethereum"
        "PEGGO_RELAY_BATCHES" (bool_value false)
    ∷ opt "relayBatchOffsetDur" "relay_batch_offset_dur"
        "If set, relayer will broadcast batches only after relayBatchOffsetDur has passed from time of batch creation"
        "PEGGO_RELAY_BATCH_OFFSET_DUR" (string_value "5m")
    ∷ opt "pendingTxWaitDuration" "relay_pending_tx_wait_duration"
        "If set, relayer will broadcast pending batches/valsetupdate only after pendingTxWaitDuration has passed"
        "PEGGO_RELAY_PENDING_TX_WAIT_DURATION" (string_value "20m")
    ∷ opt "minBatchFeeUSD" "min_batch_fee_usd"
        "If set, batch request will create batches only if fee threshold exceeds"
        "PEGGO_MIN_BATCH_FEE_USD" (float_value "23.3")
    ∷ opt "coingeckoApi" "coingecko_api" "Specify HTTP endpoint for pricefeed api."
        "PEGGO_COINGECKO_API" (string_value "https://api.coingecko.com/api/v3")
    ∷ []
