-- ===== src/CommandLine/Startup/Configured.antt =====
-- The configuration that orchestratorCmd of cmd/peggo/orchestrator.go starts an orchestrator with.
use peggo.Base.{
  ℕ, ◌≡◌, ◌⊎◌, refl, ap, arith, inl, inr, Bool, Bool-cases, true, false, not, Bytes, Option, none,
  some, ◌||◌,
}
use peggo.Effect.{Result, ok, err, panic, M, pure, lift, ◌>>=◌}
use peggo.Effect.Keeps.{bind_ok}
use peggo.Effect.Returns.{Returns, Returns-pure, Returns-bind}
use peggo.Types.{Address}
use peggo.Libraries.{DecimalLib, GethLib}
use peggo.Keys.Crypto.{CryptoLib}
use peggo.Keys.KeyStore.{Files}
use peggo.Keys.EthAccount.{Device, EthAccount, init_ethereum_accounts_manager}
use peggo.Keys.Keyring.{KeyringLib, Keyring, new_keyring}
use peggo.Cosmos
use peggo.Cosmos.{
  ClientConfig, NetworkConfig, load_client_config, has_registered_orchestrator,
  registered_validator,
}
use peggo.Cosmos.Queries.{ChainQueries, Params, peggy_params, get_validator_address}
use peggo.EthNetwork
use peggo.EthNetwork.{EthClient}
use peggo.Peggy.Submit.{PeggyContract}
use peggo.Orchestrator.{Config}
use peggo.Orchestrator.Start.{fatal_ok}
use peggo.CommandLine.Startup.{
  Flags, Clients, Started, or_shutdown, offset_dur, is_validator, config, orchestrate, connect,
  orchestrator_cmd,
}

registered :
    {S : Type 0} (q : ChainQueries S) (a : Address) (s t : S) (o : Option Bytes)
    → has_registered_orchestrator q a s ≡ (ok o, t)
    → not (is_validator o) ≡ false
    → (v : Bytes) × (u : S) × (get_validator_address q a s ≡ (ok v, u))
unfolding has_registered_orchestrator
registered {S} q a s t o h e =
    go (get_validator_address q a s).0 o refl (ap (λ (x : Result (Option Bytes) × S). x.0) h) e
  where
    go :
        (r : Result Bytes) (o : Option Bytes)
        → (get_validator_address q a s).0 ≡ r
        → registered_validator r ≡ ok o
        → not (is_validator o) ≡ false
        → (v : Bytes) × (u : S) × (get_validator_address q a s ≡ (ok v, u))
    go (ok v) o p h e =
        (v, (get_validator_address q a s).1, λ i. (p i, (get_validator_address q a s).1))
    go (err x) none p h e = absurd (ground arith)
    go (err x) (some v) p h e = absurd (ground arith)
    go (panic x) o p h e = absurd (ground arith)

module _ {S Tx Validators : Type 0} (decimal : DecimalLib) (geth : GethLib) (crypto : CryptoLib)
    (keyrings : KeyringLib S) (files : Files S) (device : Device S crypto)
    (parse_duration : Bytes → Result ℕ) (load_network : (name node : Bytes) → ClientConfig)
    (connect_injective : ClientConfig
      → Keyring keyrings
      → EthAccount S crypto
      → M S (Clients S Tx Validators))
    (connect_ethereum : (peggy_contract : Address) → EthAccount S crypto → M S (EthClient S))
    (contract : (peggy_contract : Address) → EthAccount S crypto → PeggyContract S) where
  abbrev end_of :
      Flags decimal.Float
      → Keyring keyrings
      → EthAccount S crypto
      → Clients S Tx Validators
      → Params
      → EthClient S
      → M S (Started S decimal)
  end_of =
      orchestrate decimal geth crypto keyrings files device parse_duration load_network
        connect_injective connect_ethereum contract

  abbrev dur : Bool → Bytes → M S ℕ
  dur =
      offset_dur decimal geth crypto keyrings files device parse_duration load_network
        connect_injective connect_ethereum contract

  abbrev cfg_of :
      Flags decimal.Float
      → Keyring keyrings
      → EthAccount S crypto
      → Params
      → Option Bytes
      → ℕ
      → ℕ
      → Config decimal.Float
  cfg_of =
      config decimal geth crypto keyrings files device parse_duration load_network connect_injective
        connect_ethereum contract

  abbrev connected :
      Flags decimal.Float → Keyring keyrings → EthAccount S crypto → M S (Started S decimal)
  connected =
      connect decimal geth crypto keyrings files device parse_duration load_network
        connect_injective connect_ethereum contract

  abbrev pub cmd : Flags decimal.Float → M S (Started S decimal)
  cmd =
      orchestrator_cmd decimal geth crypto keyrings files device parse_duration load_network
        connect_injective connect_ethereum contract

  -- The clients are what connecting to Injective has given.
  abbrev pub IsConnected : Keyring keyrings → EthAccount S crypto → Clients S Tx Validators → Type 0
  IsConnected keyring account clients =
      (client_cfg : ClientConfig) × (s : S) × (u : S) × (connect_injective client_cfg keyring
          account s
        ≡ (ok clients, u))

  -- The addresses are those of the keys, and the loops of a validator are chosen only when Injective has
  -- named a validator for the Ethereum account.
  abbrev pub OfKeys : Keyring keyrings → EthAccount S crypto → Started S decimal → Type 0
  OfKeys keyring account x =
      (x.cfg.cosmos_addr ≡ keyring.addr)
      × (x.cfg.ethereum_addr ≡ account.eth_key_from_address)
      × ((x.cfg.relayer_mode ≡ true)
          ⊎ ((clients : Clients S Tx Validators) × (v : Bytes) × (s : S) × (u : S) × IsConnected
                keyring account clients
              × (get_validator_address clients.queries account.eth_key_from_address s ≡ (ok v, u))))

  orchestrate-OfKeys :
      (flags : Flags decimal.Float) (keyring : Keyring keyrings) (account : EthAccount S crypto)
      (clients : Clients S Tx Validators) (params : Params) (eth_client : EthClient S)
      → IsConnected keyring account clients
      → Returns (OfKeys keyring account) (end_of flags keyring account clients params eth_client)
  unfolding orchestrate
  orchestrate-OfKeys flags keyring account clients params eth_client connection s t x h =
      let ask = has_registered_orchestrator clients.queries account.eth_key_from_address in
      let valset = dur flags.relay_valsets flags.relay_valset_offset_dur in
      let batch = dur flags.relay_batches flags.relay_batch_offset_dur in
      let started : Option Bytes → ℕ → ℕ → Started S decimal = λ v n m. record {
        injective = Cosmos.new_network clients.queries clients.chain clients.tendermint;
        ethereum =
            EthNetwork.new_network eth_client
              (contract (geth.hex_to_address params.bridge_ethereum_address) account);
        cfg = cfg_of flags keyring account params v n m;
      } in
      let (v, u, asked, rest) =
        bind_ok ask (λ v. valset >>= λ n. batch >>= λ m. pure (started v n m)) s x t h in
      Returns-bind (OfKeys keyring account) valset _
        (λ n. Returns-bind (OfKeys keyring account) batch _ λ m.
          Returns-pure (OfKeys keyring account) (started v n m) (
            refl,
            refl,
            elim (Bool-cases (not (is_validator v))) [
              | inl relays ↦ inl relays
              | inr signs ↦
                  let (name, w, named) =
                    registered clients.queries account.eth_key_from_address s u v asked signs in
                  inr (clients, name, s, w, connection, named)
            ],
          ))
        u t x rest

  connect-OfKeys :
      (flags : Flags decimal.Float) (keyring : Keyring keyrings) (account : EthAccount S crypto)
      → Returns (OfKeys keyring account) (connected flags keyring account)
  unfolding connect
  connect-OfKeys flags keyring account =
      let P = OfKeys keyring account in
      Returns-bind P (lift (load_client_config load_network flags.network)) _ λ client_cfg s t x h.
        let (clients, u, c, rest) =
          bind_ok (or_shutdown (connect_injective client_cfg keyring account)) _ s x t h in
        let connected_to =
          fatal_ok "unable to start peggo" (connect_injective client_cfg keyring account) s u
            clients c in
        Returns-bind P (or_shutdown (peggy_params clients.queries)) _
          (λ params.
            Returns-bind P
              (or_shutdown
                (connect_ethereum (geth.hex_to_address params.bridge_ethereum_address) account))
              _
              λ eth_client.
                orchestrate-OfKeys flags keyring account clients params eth_client
                  (client_cfg, s, u, connected_to))
          u t x rest

  -- When the start ends with an orchestrator, no Ledger was asked for, and the keyring and the account
  -- that the flags give have the addresses of its configuration; and the loops of a validator are
  -- chosen only when the Injective that was connected to has named a validator for the Ethereum account.
  pub orchestrator_cmd-OfKeys :
      (flags : Flags decimal.Float) (s t : S) (x : Started S decimal)
      → cmd flags s ≡ (ok x, t)
      → (flags.cosmos_use_ledger ≡ false)
        × (flags.eth_keys.eth_use_ledger ≡ false)
        × (keyring : Keyring keyrings) × (account : EthAccount S crypto) × (u : S) × (v : S)
        × (new_keyring keyrings flags.keyring s ≡ (ok keyring, u))
        × (init_ethereum_accounts_manager files device flags.eth_keys u ≡ (ok account, v))
        × OfKeys keyring account x
  unfolding orchestrator_cmd
  orchestrator_cmd-OfKeys flags s t x h =
      elim (Bool-cases (flags.cosmos_use_ledger || flags.eth_keys.eth_use_ledger)) [
        | inl ledger ↦
            let ended : ◌≡◌ {A = Result (Started S decimal) × S}
                (panic "cannot use Ledger for orchestrator, since signatures must be realtime", s)
                (ok x, t) =
              rw ledger at h in
            absurd (ground arith)
        | inr none_asked ↦
            let keys = init_ethereum_accounts_manager files device flags.eth_keys in
            let with_account : Keyring keyrings → M S (Started S decimal) =
              λ keyring. or_shutdown keys >>= connected flags keyring in
            let started : (or_shutdown (new_keyring keyrings flags.keyring) >>= with_account) s
                ≡ (ok x, t) =
              rw none_asked at h in
            let (keyring, u, k, rest) =
              bind_ok (or_shutdown (new_keyring keyrings flags.keyring)) with_account s x t
                started in
            let (account, v, a, done) =
              bind_ok (or_shutdown keys) (connected flags keyring) u x t rest in
            (
              ground (arith, none_asked),
              ground (arith, none_asked),
              keyring,
              account,
              u,
              v,
              fatal_ok "unable to start peggo" (new_keyring keyrings flags.keyring) s u keyring k,
              fatal_ok "unable to start peggo" keys u v account a,
              connect-OfKeys flags keyring account v t x done,
            )
      ]
