-- ===== src/Lib.antt =====
-- Peggo, the orchestrator of the Injective bridge: its loops, its calls of the Peggy contract on
-- Ethereum and its claims on Injective.
--
-- The orchestrator (orchestrator/orchestrator.go) runs loops that share a configuration and two
-- networks. The oracle loop scans Ethereum for events of the Peggy contract and claims them on
-- Injective in the order of their nonces; the relayer loop carries confirmed validator sets and batches
-- from Injective to Ethereum, through the contract calls, which check and repack the signatures and
-- refuse an input that is pending already, and through the committer, which prices a transaction, takes
-- the next nonce of the account from the nonce cache, and sends. The signer confirms validator sets and
-- batches on Injective, and the batch creator asks for a batch per token whose fees are worth it.
--
-- The two networks are put together from clients: Injective from the queries, the broadcast client and
-- the tendermint client, Ethereum from the event scans, the contract calls and the committer. The keys
-- that sign for the two chains come from a device, a private key, or files.
--
-- Which file models what:
--   Effect           Go functions with an error result, as state passing; Effect/Retry is retry.Do of
--                    retry-go, with the behaviour that its documentation gives
--   Types            the messages of the Injective chain and the events of the contract
--   Libraries        decimals, floats and address parsing, as parameters
--   Network          cosmos.Network and ethereum.Network, the interfaces in orchestrator/cosmos and
--                    orchestrator/ethereum/network.go; Network/Recorder keeps a trace of the calls
--   Orchestrator     the struct, its configuration and retry (orchestrator/orchestrator.go);
--                    Orchestrator/Start has the two modes and what they start from
--   Oracle           orchestrator/oracle.go: observe_eth_events is observeEthEvents, in the parts
--                    observe_from_height, observe_confirmed, observe_blocks and claim_new_events
--   Relayer          orchestrator/relayer.go: relay, relay_valset, relay_token_batch, search
--                    (findLatestValsetOnEth); Relayer/Valsets has the orders and the comparison
--   Signer           orchestrator/signer.go: sign, sign_validator_sets, sign_new_batch
--   BatchCreator     orchestrator/batch_creator.go: request_token_batches, check_min_batch_fee
--   Loops            orchestrator/loops: run_loop is RunLoop, wait is the Wait of a ParanoidGroup
--   Broadcast        orchestrator/cosmos/peggy/broadcast.go: the messages, of which Broadcast/Messages
--                    has the fields
--   Cosmos           orchestrator/cosmos/network.go: new_network and the choice of endpoints;
--                    Cosmos/Queries is orchestrator/cosmos/peggy/query.go, Cosmos/Tendermint
--                    orchestrator/cosmos/tendermint/client.go
--   EthNetwork       orchestrator/ethereum/network.go: get_events is the form of the five event scans;
--                    and the reads of orchestrator/ethereum/peggy/utils.go
--   EthProvider      orchestrator/ethereum/provider/provider.go: transact_fn is TransactFn
--   Keys             Keys/PassReader and Keys/Keyring are orchestrator/cosmos/keyring.go; Keys/KeyCache
--                    and Keys/KeyStore orchestrator/ethereum/keystore; Keys/EthAccount is
--                    initEthereumAccountsManager of cmd/peggo/keys.go
--   PriceFeed        orchestrator/pricefeed/coingecko.go
--   CommandLine      cmd/peggo/util.go; CommandLine/Startup is orchestratorCmd of
--                    cmd/peggo/orchestrator.go, which makes the networks and the configuration;
--                    CommandLine/Register is registerEthKeyCmd of cmd/peggo/tx.go;
--                    CommandLine/Options holds the options that cmd/peggo/options.go declares
--   Denom            orchestrator/ethereum/util/peggy.go: validate_peggy_coin, erc20_from_peggy_coin
--   NonceCache       orchestrator/ethereum/util/noncecache.go
--   Committer        orchestrator/ethereum/committer/eth_committer.go: send_tx is SendTx;
--                    Committer/Options is committer.go and the constructor
--   Peggy/Repack     checkBatchSigsAndRepack and checkValsetSigsAndRepack
--   Peggy/Pending    orchestrator/ethereum/peggy/pending_transactions.go
--   Peggy/Submit     SendEthValsetUpdate and SendTransactionBatch
--   Peggy/Checkpoint orchestrator/ethereum/peggy/message_signatures.go: the hashes that are signed
--   Peggy/SendToCosmos
--                    orchestrator/ethereum/peggy/send_to_cosmos.go
--   Tests            runs on small chains
--
-- Bounds and fuel: a uint64 and the result of big.Int.Uint64 wrap at 2 ^ 64; a time is a number of
-- nanoseconds. The loop of SendTx runs on fuel, of which each round takes one. The search of the
-- relayer runs on the number of its windows of 2000 blocks, which decides its loop test when it
-- begins. retry takes the attempts that the configuration allows.
--
-- Not modelled: logging, metrics and sleeps; the generated bindings of the contracts and their ABI; the
-- cryptography, the keyrings of the SDK and the device, which are parameters; the HTTP, gRPC and RPC
-- clients, and the opening of their connections; main, the metrics and mow.cli in cmd/peggo;
-- orchestrator/ethereum/util/contract.go, which only forwards to a library type. The text functions are
-- those of Go on ASCII text. A panic of the node's query under nonceCache.Sync leaves the nonce as an
-- error does, and a duration is not negative. The file system is a state that each read may change, the
-- directory walk is given as the calls that it makes, and the keystore's locks are the order of the
-- calls.
mod Base
pub mod Effect
pub mod Types
pub mod Libraries
pub mod Network
pub mod Orchestrator
pub mod Oracle
pub mod Relayer
pub mod Loops
pub mod Denom
pub mod Cosmos
pub mod EthNetwork
pub mod Keys
pub mod PriceFeed
pub mod CommandLine
pub mod EthProvider
pub mod Broadcast
pub mod Signer
pub mod BatchCreator
pub mod NonceCache
pub mod Committer
pub mod Peggy
pub mod Tests
