-- ===== src/Tests/StartupRuns.antt =====
-- A start of the orchestrator and a registration of its key on small networks, with the keys of the runs
-- of keys.
use peggo.Base.{
  ℕ, ◌≡◌, refl, Bool, true, false, Bytes, codes, none, some, [], ◌∷◌, length, bytes_eq, ◌==◌,
  if◌then◌else◌,
}
use peggo.Effect.{raised, ok, err, M, pure}
use peggo.Keys.Keyring.{Keyring, new_keyring, new_keyring_from_dir, absolute_dir, from_record}
use peggo.Keys.EthAccount.{
  EthAccount, init_ethereum_accounts_manager, use_private_key, is_refused, key_account,
}
use peggo.Cosmos
use peggo.EthNetwork
use peggo.Cosmos.{
  ClientConfig, load_client_config, load_balanced_endpoints, has_registered_orchestrator,
}
use peggo.Cosmos.Queries.{ChainQueries, answer, peggy_params, get_validator_address}
use peggo.Cosmos.Tendermint.{RpcClient}
use peggo.Broadcast.{ChainClient}
use peggo.CommandLine.Startup.{
  Flags, Clients, Started, orchestrator_cmd, connect, orchestrate, offset_dur,
}
use peggo.CommandLine.Startup.Configured.{OfKeys, orchestrator_cmd-OfKeys}
use peggo.Broadcast.{update_peggy_orchestrator_addresses, broadcast}
use peggo.CommandLine.{stdin_confirm}
use peggo.CommandLine.Register.{eth_options, KeyFlags, register, register_eth_key_cmd}
use peggo.CommandLine.Register.Registered.{
  IsConfirmed, IsRegistered, register_eth_key_cmd-IsRegistered,
}
use peggo.Tests.Fixtures.{fixed_point, geth, valset}
use peggo.Tests.KeyRuns.{crypto, files, device, options, keyrings, keyring_config}
use peggo.Tests.EthNetworkRuns.{eth_client, contract}

abbrev queries : ChainQueries (Unit {0})
queries = record {
  hex = λ a. a ∷ [];
  acc_address = λ a. a;
  acc_address_from_bech32 = λ b. ok b;
  valset_request = λ n. pure (some (some (valset n)));
  current_valset = pure (some (some (valset 5)));
  last_pending_valset_request_by_addr = λ a. pure (some []);
  last_valset_requests = pure (some []);
  valset_confirms_by_nonce = λ n. pure (some []);
  last_pending_batch_request_by_addr = λ a. pure (some none);
  outgoing_tx_batches = pure (some []);
  batch_fees = pure (some []);
  batch_confirms = λ n a. pure (some []);
  last_event_by_addr = λ a. pure (some none);
  params = pure (
      some (record {
        bridge_ethereum_address = 9 ∷ [];
        bridge_contract_start_height = 50;
        cosmos_coin_erc20_contract = 7 ∷ [];
      }));
  get_delegate_key_by_eth = λ a. pure (some (4 ∷ []));
}

abbrev chain : ChainClient (Unit {0})
chain = record {
  geth = geth;
  acc_address = λ a. a;
  from_address = 7 ∷ 8 ∷ [];
  broadcast_msg = λ m. pure (record { code = 0; raw_log = [] });
  queue_broadcast_msg = λ m. pure tt;
  checkpoint = record {
    pack_checkpoint = λ id m n vs ps r a. ok [];
    pack_transaction_batch = λ id m xs ds fs n a t. ok [];
    keccak256_hash = length;
  };
  eth_sign_fn = λ a h. ok (h ∷ a ∷ []);
  bytes_to_hex = λ b. b;
}

abbrev tendermint : RpcClient (Unit {0}) ℕ ℕ
tendermint = record {
  block = λ h. pure (record { time = 0; txs = [] });
  latest_block_height = λ s. (err (raised "down"), s);
  tx = λ h. pure 0;
  validators = λ h. pure 0;
}

abbrev endpoints : (name node : Bytes) → ClientConfig
endpoints name node = record {
  name = name;
  chain_id = [];
  fee_denom = [];
  tm_endpoint = [];
  chain_grpc_endpoint = [];
  explorer_grpc_endpoint = [];
  lcd_endpoint = [];
}

abbrev flags : Flags ℕ
flags = record {
  keyring = keyring_config;
  network = record {
    chain_id = codes "injective-1";
    validator_address = [];
    cosmos_grpc = [];
    tendermint_rpc = [];
    gas_price = [];
  };
  eth_keys = options (5 ∷ []);
  cosmos_use_ledger = false;
  relay_valsets = true;
  relay_valset_offset_dur = codes "5m";
  relay_batches = false;
  relay_batch_offset_dur = [];
  min_batch_fee_usd = 5;
}

abbrev clients : Clients (Unit {0}) ℕ ℕ
clients = record { queries = queries; chain = chain; tendermint = tendermint }

abbrev started : Started (Unit {0}) fixed_point
started = record {
  injective = Cosmos.new_network queries chain tendermint;
  ethereum = EthNetwork.new_network eth_client contract;
  cfg = record {
    cosmos_addr = 7 ∷ 8 ∷ [];
    ethereum_addr = 5;
    min_batch_fee_usd = 5;
    erc20_contract_mapping = λ a. if a == 7 then some (codes "inj") else none;
    relay_valset_offset_dur = 300;
    relay_batch_offset_dur = 0;
    relay_valsets = true;
    relay_batches = false;
    relayer_mode = false;
  };
}

orchestrator_cmd-OfKeys_example :
    ◌≡◌ {A = Bool} false false
    × ◌≡◌ {A = Bool} false false
    × (keyring : Keyring keyrings) × (account : EthAccount (Unit {0}) crypto) × (u : Unit {0})
    × (v : Unit {0}) × (new_keyring keyrings keyring_config tt ≡ (ok keyring, u))
    × (init_ethereum_accounts_manager files device (options (5 ∷ [])) u ≡ (ok account, v))
    × OfKeys fixed_point geth crypto keyrings files device
        (λ b. ok 300)
        endpoints
        (λ c k a. pure clients)
        (λ a x. pure eth_client)
        (λ a x. contract)
        keyring
        account
        started
unfolding orchestrator_cmd connect orchestrate offset_dur has_registered_orchestrator peggy_params
    get_validator_address answer load_client_config load_balanced_endpoints bytes_eq new_keyring
    new_keyring_from_dir absolute_dir from_record init_ethereum_accounts_manager use_private_key
    is_refused key_account
orchestrator_cmd-OfKeys_example =
    orchestrator_cmd-OfKeys fixed_point geth crypto keyrings files device (λ b. ok 300) endpoints
      (λ c k a. pure clients) (λ a x. pure eth_client) (λ a x. contract) flags tt tt started refl

abbrev key_flags : KeyFlags
key_flags = record {
  keyring = keyring_config;
  network = flags.network;
  eth_keys = options (5 ∷ []);
  always_auto_confirm = false;
}

-- The answer is `Yes` and a space.
abbrev scan : M (Unit {0}) Bytes
scan = pure (codes "Yes ")

register_eth_key_cmd-IsRegistered_example :
    (keyring : Keyring keyrings) × (account : EthAccount (Unit {0}) crypto) × (u : Unit {0})
    × (v : Unit {0}) × (new_keyring keyrings keyring_config tt ≡ (ok keyring, u))
    × (init_ethereum_accounts_manager files device (eth_options key_flags) u ≡ (ok account, v))
    × IsConfirmed scan false v
    × (5 ≡ account.eth_key_from_address)
    × IsRegistered crypto keyrings files device endpoints
        (λ c k a. pure chain)
        scan
        keyring
        account
        tt
unfolding register_eth_key_cmd register load_client_config load_balanced_endpoints bytes_eq
    new_keyring new_keyring_from_dir absolute_dir from_record init_ethereum_accounts_manager
    use_private_key is_refused key_account stdin_confirm update_peggy_orchestrator_addresses
    broadcast
register_eth_key_cmd-IsRegistered_example =
    register_eth_key_cmd-IsRegistered crypto keyrings files device endpoints (λ c k a. pure chain)
      scan key_flags tt tt 5 refl
