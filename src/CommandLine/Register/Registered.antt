-- ===== src/CommandLine/Register/Registered.antt =====
-- What registerEthKeyCmd of cmd/peggo/tx.go has registered when it says so.
use peggo.Base.{
  ◌≡◌, ◌∙◌, ◌⊎◌, refl, ap, arith, inl, inr, Bool, Bool-cases, true, false, Bytes, if◌then◌else◌,
}
use peggo.Effect.{Result, ok, err, panic, M, pure, lift, ◌>>=◌}
use peggo.Effect.Keeps.{bind_ok}
use peggo.Types.{Address}
use peggo.Keys.Crypto.{CryptoLib}
use peggo.Keys.KeyStore.{Files}
use peggo.Keys.EthAccount.{Device, EthAccount, init_ethereum_accounts_manager}
use peggo.Keys.Keyring.{KeyringLib, Keyring, new_keyring}
use peggo.Cosmos.{ClientConfig, load_client_config}
use peggo.Broadcast.{ChainClient, update_peggy_orchestrator_addresses}
use peggo.Broadcast.Messages.{Msg, set_orchestrator_addresses}
use peggo.Broadcast.Accepted.{Taken, broadcast-Taken}
use peggo.Orchestrator.Start.{fatal, fatal_ok}
use peggo.CommandLine.{stdin_confirm}
use peggo.CommandLine.Register.{
  KeyFlags, eth_options, Registration, declined, registered, registration, confirmed, send,
  register, register_eth_key_cmd,
}

-- The message that names an Ethereum account and an orchestrator for the sender.
abbrev pub names : {S : Type 0} → ChainClient S → Address → Bytes → Msg
names chain eth_from addr = set_orchestrator_addresses (record {
  sender = chain.from_address;
  eth_address = chain.geth.hex eth_from;
  orchestrator = chain.acc_address addr;
})

sent :
    {S : Type 0} (chain : ChainClient S) (eth_from : Address) (addr : Bytes) (s t : S) (a : Address)
    → send chain eth_from addr s ≡ (ok (registered a), t)
    → (a ≡ eth_from) × Taken chain (names chain eth_from addr) s t
unfolding update_peggy_orchestrator_addresses
sent {S} chain eth_from addr s t a h =
    let call = update_peggy_orchestrator_addresses chain eth_from addr in
    go (call s).0 refl (ap (λ (x : Result Registration × S). x.0) h)
      (ap (λ (x : Result Registration × S). x.1) h)
  where
    go :
        (r : Result (Unit {0}))
        → (update_peggy_orchestrator_addresses chain eth_from addr s).0 ≡ r
        → registration eth_from r ≡ ok (registered a)
        → (update_peggy_orchestrator_addresses chain eth_from addr s).1 ≡ t
        → (a ≡ eth_from) × Taken chain (names chain eth_from addr) s t
    go (ok u) p h e = (
      ground arith,
      broadcast-Taken chain "failed to broadcast MsgSetOrchestratorAddresses"
          (names chain eth_from addr) s t u (λ i. (p i, e i)),
    )
    go (err x) p h e = absurd (ground arith)
    go (panic x) p h e = absurd (ground arith)

-- The flag or the answer that is read confirms.
abbrev pub IsConfirmed : {S : Type 0} (scan : M S Bytes) (always_auto_confirm : Bool) → S → Type 0
IsConfirmed scan always_auto_confirm s =
    (always_auto_confirm ≡ true) ⊎ (stdin_confirm (scan s).0 ≡ true)

was_confirmed :
    {S : Type 0} (scan : M S Bytes) (auto : Bool) (s t : S)
    → confirmed scan auto s ≡ (ok true, t)
    → IsConfirmed scan auto s
was_confirmed scan true s t h = inl refl
was_confirmed scan false s t h = inr (ground arith)

module _ {S : Type 0} (crypto : CryptoLib) (keyrings : KeyringLib S) (files : Files S)
    (device : Device S crypto) (load_network : (name node : Bytes) → ClientConfig)
    (connect_injective : ClientConfig
      → Keyring keyrings
      → EthAccount S crypto
      → M S (ChainClient S))
    (scan : M S Bytes) where
  abbrev register_keys : KeyFlags → Keyring keyrings → EthAccount S crypto → M S Registration
  register_keys = register crypto keyrings files device load_network connect_injective scan

  abbrev pub key_cmd : KeyFlags → M S Registration
  key_cmd = register_eth_key_cmd crypto keyrings files device load_network connect_injective scan

  -- A client that connecting to Injective has given took the message for the two accounts.
  abbrev pub IsRegistered : Keyring keyrings → EthAccount S crypto → S → Type 0
  IsRegistered keyring account t =
      (client_cfg : ClientConfig) × (chain : ChainClient S) × (v : S) × (w : S) × (connect_injective
          client_cfg keyring account v
        ≡ (ok chain, w))
      × Taken chain (names chain account.eth_key_from_address keyring.addr) w t

  register-IsRegistered :
      (flags : KeyFlags) (keyring : Keyring keyrings) (account : EthAccount S crypto) (s t : S)
      (a : Address)
      → register_keys flags keyring account s ≡ (ok (registered a), t)
      → (a ≡ account.eth_key_from_address) × IsRegistered keyring account t
  unfolding register
  register-IsRegistered flags keyring account s t a h =
      let connection : ClientConfig → M S (ChainClient S) =
        λ client_cfg. connect_injective client_cfg keyring account in
      let finish : ChainClient S → M S Registration =
        λ chain. send chain account.eth_key_from_address keyring.addr in
      let (client_cfg, v, l, rest) =
        bind_ok (lift (load_client_config load_network flags.network))
          (λ client_cfg.
            fatal "failed to connect to Injective network" (connection client_cfg) >>= finish)
          s (registered a) t h in
      let (chain, w, c, done) =
        bind_ok (fatal "failed to connect to Injective network" (connection client_cfg)) finish v
          (registered a) t rest in
      let (named, taken) = sent chain account.eth_key_from_address keyring.addr w t a done in
      let reached =
        fatal_ok "failed to connect to Injective network" (connection client_cfg) v w chain c in
      (named, (client_cfg, chain, v, w, reached, taken))

  -- When the command ends with the registration of an address, this is the address of the account that
  -- the flags give, the flag or the answer that was read has confirmed it, and the chain took with the
  -- code 0 the message that names this account and the keyring's address.
  pub register_eth_key_cmd-IsRegistered :
      (flags : KeyFlags) (s t : S) (a : Address)
      → key_cmd flags s ≡ (ok (registered a), t)
      → (keyring : Keyring keyrings) × (account : EthAccount S crypto) × (u : S) × (v : S)
        × (new_keyring keyrings flags.keyring s ≡ (ok keyring, u))
        × (init_ethereum_accounts_manager files device (eth_options flags) u ≡ (ok account, v))
        × IsConfirmed scan flags.always_auto_confirm v
        × (a ≡ account.eth_key_from_address)
        × IsRegistered keyring account t
  unfolding register_eth_key_cmd
  register_eth_key_cmd-IsRegistered flags s t a h =
      let key = new_keyring keyrings flags.keyring in
      let keys = init_ethereum_accounts_manager files device (eth_options flags) in
      let ask = confirmed scan flags.always_auto_confirm in
      let finish : Keyring keyrings → EthAccount S crypto → Bool → M S Registration =
        λ k x is_confirmed. if is_confirmed then register_keys flags k x else pure declined in
      let (keyring, u, k, rest) =
        bind_ok (fatal "unable to start peggo" key)
          (λ k. fatal "failed to init Ethereum account" keys >>= λ x. ask >>= finish k x) s
          (registered a) t h in
      let (account, v, x, asked) =
        bind_ok (fatal "failed to init Ethereum account" keys) (λ x. ask >>= finish keyring x) u
          (registered a) t rest in
      let (is_confirmed, w, c, done) =
        bind_ok ask (finish keyring account) v (registered a) t asked in
      elim (Bool-cases is_confirmed) [
        | inl y ↦
            let answered : ask v ≡ (ok true, w) = c ∙ ap (λ b. (ok b, w)) y in
            let submitted : register_keys flags keyring account w ≡ (ok (registered a), t) =
              rw y at done in
            let (named, taken) = register-IsRegistered flags keyring account w t a submitted in
            (
              keyring,
              account,
              u,
              v,
              fatal_ok "unable to start peggo" key s u keyring k,
              fatal_ok "failed to init Ethereum account" keys u v account x,
              was_confirmed scan flags.always_auto_confirm v w answered,
              named,
              taken,
            )
        | inr n ↦
            let ended : ◌≡◌ {A = Result Registration × S} (ok declined, w) (ok (registered a), t) =
              rw n at done in
            absurd (ground arith)
      ]
