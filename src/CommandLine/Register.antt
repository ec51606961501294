-- ===== src/CommandLine/Register.antt =====
-- registerEthKeyCmd of cmd/peggo/tx.go: from the values of the flags to the message that is sent.
pub mod Registered
use peggo.Base.{ℕ, Bool, true, false, Bytes, if◌then◌else◌}
use peggo.Effect.{Result, ok, err, panic, M, pure, lift, ◌>>=◌}
use peggo.Types.{Address}
use peggo.Keys.Crypto.{CryptoLib}
use peggo.Keys.KeyStore.{Files}
use peggo.Keys.EthAccount.{Device, KeyOptions, EthAccount, init_ethereum_accounts_manager}
use peggo.Keys.Keyring.{KeyringConfig, KeyringLib, Keyring, new_keyring}
use peggo.Cosmos.{ClientConfig, NetworkConfig, load_client_config}
use peggo.Broadcast.{ChainClient, update_peggy_orchestrator_addresses}
use peggo.Orchestrator.Start.{fatal}
use peggo.CommandLine.{stdin_confirm}

-- The values of the flags of the command.
pub record KeyFlags : Type 0 where
  pub keyring : KeyringConfig
  pub network : NetworkConfig
  pub eth_keys : KeyOptions
  pub always_auto_confirm : Bool

-- The command has no option for the chain's ID, and passes 0.
abbrev pub eth_options : KeyFlags → KeyOptions
eth_options flags = record flags.eth_keys { eth_chain_id = 0 }

-- How the command ends: without a transaction, with an error of it in the log, or with the address
-- that was registered.
pub data Registration : Type 0 where
  declined broadcast_failed : Registration
  registered : Address → Registration

abbrev pub registration : Address → Result (Unit {0}) → Result Registration
registration a (ok u) = ok (registered a)
registration a (err e) = ok broadcast_failed
registration a (panic p) = panic p

-- Nothing is read when the flag confirms. `scan` is fmt.Scanln.
abbrev pub confirmed : {S : Type 0} (scan : M S Bytes) (always_auto_confirm : Bool) → M S Bool
confirmed scan always_auto_confirm s =
    if always_auto_confirm then (ok true, s) else (ok (stdin_confirm (scan s).0), (scan s).1)

abbrev pub send :
    {S : Type 0} → ChainClient S → (eth_from : Address) → (addr : Bytes) → M S Registration
send chain eth_from addr s =
    let sent = update_peggy_orchestrator_addresses chain eth_from addr s in
    (registration eth_from sent.0, sent.1)

module _ {S : Type 0} (crypto : CryptoLib) (keyrings : KeyringLib S) (files : Files S)
    (device : Device S crypto) (load_network : (name node : Bytes) → ClientConfig)
    (connect_injective : ClientConfig
      → Keyring keyrings
      → EthAccount S crypto
      → M S (ChainClient S))
    (scan : M S Bytes) where
  unfoldable pub register : KeyFlags → Keyring keyrings → EthAccount S crypto → M S Registration
  register flags keyring account = do
    client_cfg ← lift (load_client_config load_network flags.network)
    chain ←
        fatal "failed to connect to Injective network"
          (connect_injective client_cfg keyring account)
    send chain account.eth_key_from_address keyring.addr

  unfoldable pub register_eth_key_cmd : KeyFlags → M S Registration
  register_eth_key_cmd flags = do
    keyring ← fatal "unable to start peggo" (new_keyring keyrings flags.keyring)
    account ←
        fatal "failed to init Ethereum account"
          (init_ethereum_accounts_manager files device (eth_options flags))
    action_confirmed ← confirmed scan flags.always_auto_confirm
    if action_confirmed then register flags keyring account else pure declined
