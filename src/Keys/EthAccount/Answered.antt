-- ===== src/Keys/EthAccount/Answered.antt =====
-- How initEthereumAccountsManager of cmd/peggo/keys.go ends, for an address that is given.
use peggo.Base.{
  ◌∙◌, ap, List, ℕ, ◌≡◌, ◌⊎◌, refl, sym, subst, arith, inl, inr, ◌≢◌, Bool-cases, true, false,
  Bytes, some, [], ◌∷◌, ◌==◌, is_nonempty,
}
use peggo.Effect.{Result, ok, pure, wrap}
use peggo.Effect.Returns.{Returns, Returns-pure, Returns-bind, Ending, Returns-Ending}
use peggo.Types.{Address}
use peggo.Keys.Crypto.{CryptoLib}
use peggo.Keys.KeyStore.{Files, new_key_store}
use peggo.Keys.EthAccount.{
  KeyOptions, EthAccount, Device, init_ethereum_accounts_manager, use_ledger, use_private_key,
  use_keystore, no_account, is_refused, key_account, locate_dir, sign_from_store, checked_account,
  Wallet, ledger_signer_fn, ledger_personal_sign_fn, account,
}
use peggo.Keys.EthAccount.Asked.{Signs, with_store-Signs, key_account-Signs}

ok_inj : {A : Type 0} {a b : A} → ok a ≡ ok b → a ≡ b
ok_inj h = ground arith

module _ {S : Type 0} {lib : CryptoLib} (files : Files S) (device : Device S lib) where
  -- How the keys are given: by a device, by a private key that can be decoded, or by a directory.
  abbrev pub Given : KeyOptions → Type 0
  Given k =
      (k.eth_use_ledger ≡ true)
      ⊎ ((k.eth_use_ledger ≡ false)
          × (pk : lib.PrivateKey) × (is_nonempty k.eth_priv_key ≡ true)
          × (lib.hex_to_ecdsa k.eth_priv_key ≡ ok pk))
      ⊎ ((k.eth_use_ledger ≡ false)
          × (is_nonempty k.eth_priv_key ≡ false)
          × (is_nonempty k.eth_keystore_dir ≡ true))

  use_ledger-Signs :
      (k : KeyOptions) (from : Bytes)
      → (files.hex_to_address from == 0) ≡ false
      → Returns
          (Signs files device (files.hex_to_address from))
          (use_ledger files device k (some from))
  unfolding use_ledger
  use_ledger-Signs k from f s t r h =
      let a = files.hex_to_address from in
      let made : (S → List (Wallet S lib) × S) → EthAccount S lib = λ wallets.
        account files device a (ledger_signer_fn wallets k.eth_chain_id)
          (ledger_personal_sign_fn wallets) in
      Returns-bind (Signs files device a)
        (wrap "failed to connect with Ethereum app on Ledger device" device.new_ledger_hub)
        (λ wallets. pure (made wallets))
        (λ wallets. Returns-pure (Signs files device a) (made wallets) ((_, refl), refl)) s t r
        (rw f at h)

  use_keystore-Signs :
      (k : KeyOptions) (from : Bytes)
      → (files.hex_to_address from == 0) ≡ false
      → Returns
          (Signs files device (files.hex_to_address from))
          (use_keystore files device k (some from))
  unfolding use_keystore sign_from_store
  use_keystore-Signs k from f s t r h =
      let a = files.hex_to_address from in
      Returns-bind (Signs files device a) (locate_dir files device k.eth_keystore_dir) _
        (λ u s t r h.
          with_store-Signs files device k a (new_key_store files lib (k.eth_keystore_dir ∷ []) s) t
            r h)
        s t r (rw f at h)

  -- A private key is used, and its address is another one.
  abbrev pub IsForeign : KeyOptions → Address → Type 0
  IsForeign k a =
      (k.eth_use_ledger ≡ false)
      × (is_nonempty k.eth_priv_key ≡ true)
      × (pk : lib.PrivateKey) × (lib.hex_to_ecdsa k.eth_priv_key ≡ ok pk)
      × (a ≢ lib.pubkey_to_address pk)

  abbrev pub Refused : KeyOptions → Address → Type 0
  Refused k a = (a ≡ 0) ⊎ IsForeign k a

  -- An address that is refused: no error, no account, and nothing has changed. One that is not: if there
  -- is no error, an account of the address that signs.
  abbrev pub Answered : KeyOptions → Address → S → Result (EthAccount S lib) × S → Type 0
  Answered k a s end =
      (Refused k a × (end ≡ (ok no_account, s)))
      ⊎ (¬ Refused k a × Ending (Signs files device a) end.0)

  accepted : (k : KeyOptions) (a : Address) → (a == 0) ≡ false → ¬ IsForeign k a → ¬ Refused k a
  accepted k a f own (inl z) = absurd (ground (arith, f, z))
  accepted k a f own (inr foreign) = own foreign

  own_key :
      (k : KeyOptions) (a : Address) (pk : lib.PrivateKey)
      → lib.hex_to_ecdsa k.eth_priv_key ≡ ok pk
      → a ≡ lib.pubkey_to_address pk
      → ¬ IsForeign k a
  own_key k a pk q same (_, _, other, p, differs) =
      let is : pk ≡ other = ok_inj (sym q ∙ p) in differs (same ∙ ap lib.pubkey_to_address is)

  key-Answered :
      (k : KeyOptions) (b : ℕ) (from : Bytes) (pk : lib.PrivateKey) (s : S)
      → k.eth_use_ledger ≡ false
      → is_nonempty k.eth_priv_key ≡ true
      → lib.hex_to_ecdsa k.eth_priv_key ≡ ok pk
      → Answered k
          (files.hex_to_address (b ∷ from))
          s
          (checked_account files device k (some (b ∷ from)) pk s)
  unfolding is_refused
  key-Answered k b from pk s l p q =
      let a = files.hex_to_address (b ∷ from) in
      elim (Bool-cases (a == 0)) [
        | inl z ↦ inl (inl (ground (arith, z)), rw z refl)
        | inr f ↦ elim (Bool-cases (a == lib.pubkey_to_address pk)) [
          | inl own ↦
              let same : a ≡ lib.pubkey_to_address pk = ground (arith, own) in
              inr (
                accepted k a f (own_key k a pk q same),
                rw (f, own)
                    (Returns-Ending (Signs files device a) (key_account files device k pk) s
                      (key_account-Signs files device k pk a same)),
              )
          | inr other ↦ inl (inr (l, p, pk, q, ground (arith, other)), rw (f, other) refl)
        ]
      ]

  ledger-Answered :
      (k : KeyOptions) (from : Bytes) (s : S)
      → k.eth_use_ledger ≡ true
      → Answered k (files.hex_to_address from) s (use_ledger files device k (some from) s)
  unfolding use_ledger
  ledger-Answered k from s l = elim (Bool-cases (files.hex_to_address from == 0)) [
    | inl z ↦ inl (inl (ground (arith, z)), rw z refl)
    | inr f ↦ inr (
      accepted k (files.hex_to_address from) f (λ foreign. absurd (ground (arith, l, foreign.0))),
      Returns-Ending (Signs files device (files.hex_to_address from))
          (use_ledger files device k (some from)) s (use_ledger-Signs k from f),
    )
  ]

  store-Answered :
      (k : KeyOptions) (from : Bytes) (s : S)
      → is_nonempty k.eth_priv_key ≡ false
      → Answered k (files.hex_to_address from) s (use_keystore files device k (some from) s)
  unfolding use_keystore
  store-Answered k from s p = elim (Bool-cases (files.hex_to_address from == 0)) [
    | inl z ↦ inl (inl (ground (arith, z)), rw z refl)
    | inr f ↦ inr (
      accepted k (files.hex_to_address from) f (λ foreign. absurd (ground (arith, p, foreign.1))),
      Returns-Ending (Signs files device (files.hex_to_address from))
          (use_keystore files device k (some from)) s (use_keystore-Signs k from f),
    )
  ]

  -- For keys that are given in one of the three ways, and an address that is given: if the address
  -- reads as the zero address, or the private key that is used has another one, the call ends with no
  -- error all the same, with the zero address and no signer, and nothing is done; otherwise, when it
  -- ends with no error, the account is that of the address, with a signer.
  pub init-Answered :
      (k : KeyOptions) (b : ℕ) (from : Bytes) (s : S)
      → k.eth_key_from ≡ some (b ∷ from)
      → Given k
      → Answered k
          (files.hex_to_address (b ∷ from))
          s
          (init_ethereum_accounts_manager files device k s)
  unfolding init_ethereum_accounts_manager use_private_key
  init-Answered k b from s e (inl l) =
      let way : init_ethereum_accounts_manager files device k s
          ≡ use_ledger files device k (some (b ∷ from)) s =
        simp (l, e) in
      subst (Answered k (files.hex_to_address (b ∷ from)) s) (sym way)
        (ledger-Answered k (b ∷ from) s l)
  init-Answered k b from s e (inr (inl (l, pk, p, q))) =
      let way : init_ethereum_accounts_manager files device k s
          ≡ checked_account files device k (some (b ∷ from)) pk s =
        simp (l, p, q, e) in
      subst (Answered k (files.hex_to_address (b ∷ from)) s) (sym way)
        (key-Answered k b from pk s l p q)
  init-Answered k b from s e (inr (inr (l, p, d))) =
      let way : init_ethereum_accounts_manager files device k s
          ≡ use_keystore files device k (some (b ∷ from)) s =
        simp (l, p, d, e) in
      subst (Answered k (files.hex_to_address (b ∷ from)) s) (sym way)
        (store-Answered k (b ∷ from) s p)
