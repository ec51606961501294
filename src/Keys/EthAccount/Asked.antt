-- ===== src/Keys/EthAccount/Asked.antt =====
-- The account that initEthereumAccountsManager of cmd/peggo/keys.go returns, and the one asked for.
use peggo.Base.{
  ℕ, ◌≡◌, ◌⊎◌, refl, sym, subst, arith, inl, inr, Bool-cases, Bytes, none, some, [], ◌∷◌, ◌==◌,
  is_nonempty,
}
use peggo.Effect.{raised, Result, ok, err, panic, M, pure, lift, wrap, ◌>>=◌}
use peggo.Effect.Returns.{Returns, Returns-pure, Returns-raise, Returns-bind, Returns-if}
use peggo.Types.{Address}
use peggo.Keys.Crypto.{CryptoLib, SignerFn, PersonalSignFn}
use peggo.Keys.KeyCache.{private_key_personal_sign_fn}
use peggo.Keys.KeyStore.{Files, KeyStore, beside, new_key_store, signer_fn, personal_sign_fn}
use peggo.Keys.EthAccount.{
  KeyOptions, EthAccount, Device, init_ethereum_accounts_manager, use_ledger, use_private_key,
  use_keystore, no_account, is_refused, key_account, locate_dir, sign_from_store, with_store,
  checked_account, passphrase, sign_fns, account, in_place,
}

module _ {S : Type 0} {lib : CryptoLib} (files : Files S) (device : Device S lib) where
  -- There is no account, or it is that of the address.
  abbrev For : Address → EthAccount S lib → Type 0
  For a r = (r.signer_fn ≡ none) ⊎ (r.eth_key_from_address ≡ a)

  -- The account signs, and is that of the address.
  abbrev pub Signs : Address → EthAccount S lib → Type 0
  Signs a r =
      ((sign : Address → lib.Tx → M S lib.Tx) × (r.signer_fn ≡ some sign))
      × (r.eth_key_from_address ≡ a)

  For-Signs : (a : Address) (r : EthAccount S lib) → Signs a r → For a r
  For-Signs a r signs = inr signs.1

  no_account-For : (a : Address) → Returns {S = S} (For a) (pure no_account)
  no_account-For a = Returns-pure (For a) no_account (inl refl)

  use_ledger-For :
      (k : KeyOptions) (from : Bytes)
      → Returns (For (files.hex_to_address from)) (use_ledger files device k (some from))
  unfolding use_ledger
  use_ledger-For k from =
      Returns-if (For (files.hex_to_address from)) (files.hex_to_address from == 0) _ _
        (no_account-For (files.hex_to_address from))
        (Returns-bind (For (files.hex_to_address from)) _ _
          λ wallets. Returns-pure (For (files.hex_to_address from)) _ (inr refl))

  sign_fns-Signs :
      (k : KeyOptions) (from : Address) (pass : Bytes)
      → Returns (Signs from) (sign_fns files device k from pass)
  sign_fns-Signs k from pass =
      Returns-bind (Signs from)
        (wrap "failed to load key for %s" (signer_fn files lib k.eth_chain_id from pass)) _
        λ signer.
          Returns-bind (Signs from)
            (wrap "failed to load key for %s" (personal_sign_fn files lib from pass)) _
            λ personal. Returns-pure (Signs from) (made from signer personal) ((_, refl), refl)
    where
      made : Address → SignerFn lib → PersonalSignFn → EthAccount S lib
      made a signer personal =
          account files device a (λ b tx. lift (signer b tx))
            (λ b message. lift (personal b message))

  pub with_store-Signs :
      (k : KeyOptions) (from : Address) (o : Result (Unit {0}) × (S × KeyStore lib)) (t : S)
      (a : EthAccount S lib)
      → with_store files device k from o ≡ (ok a, t)
      → Signs from a
  with_store-Signs k from (ok x, w) t a h =
      let m = beside files (passphrase files device k) >>= sign_fns files device k from in
      Returns-bind (Signs from) (beside files (passphrase files device k))
        (sign_fns files device k from) (sign_fns-Signs k from) w (m w).1 a λ i. ((h i).0, (m w).1)
  with_store-Signs k from (err e, w) t a h = absurd (ground arith)
  with_store-Signs k from (panic p, w) t a h = absurd (ground arith)

  use_keystore-For :
      (k : KeyOptions) (from : Bytes)
      → Returns (For (files.hex_to_address from)) (use_keystore files device k (some from))
  unfolding use_keystore sign_from_store
  use_keystore-For k from =
      Returns-if (For (files.hex_to_address from)) (files.hex_to_address from == 0) _ _
        (no_account-For (files.hex_to_address from))
        (Returns-bind (For (files.hex_to_address from)) (locate_dir files device k.eth_keystore_dir)
          _
          λ u s t a h. For-Signs (files.hex_to_address from) a (
            with_store-Signs k (files.hex_to_address from)
              (new_key_store files lib (k.eth_keystore_dir ∷ []) s) t a h))

  pub key_account-Signs :
      (k : KeyOptions) (pk : lib.PrivateKey) (a : Address)
      → a ≡ lib.pubkey_to_address pk
      → Returns (Signs a) (key_account files device k pk)
  unfolding key_account
  key_account-Signs k pk a own =
      Returns-bind (Signs a)
        (lift (
          in_place files device "failed to init NewKeyedTransactorWithChainID"
            (lib.new_keyed_transactor_with_chain_id pk k.eth_chain_id)))
        _
        λ signer.
          Returns-pure (Signs a)
            (account files device (lib.pubkey_to_address pk) (λ b tx. lift (signer b tx))
              (λ b message. lift (private_key_personal_sign_fn lib pk b message)))
            ((_, refl), sym own)

  checked_account-For :
      (k : KeyOptions) (b : ℕ) (from : Bytes) (pk : lib.PrivateKey)
      → Returns
          (For (files.hex_to_address (b ∷ from)))
          (checked_account files device k (some (b ∷ from)) pk)
  unfolding is_refused
  checked_account-For k b from pk =
      let a = files.hex_to_address (b ∷ from) in
      elim (Bool-cases (is_refused files device (b ∷ from) pk)) [
        | inl t ↦ λ s u r h. no_account-For a s u r (rw t at h)
        | inr f ↦ λ s u r h.
            let own : a ≡ lib.pubkey_to_address pk = ground (arith, f) in
            For-Signs a r (key_account-Signs k pk a own s u r (rw f at h))
      ]

  use_private_key-For :
      (k : KeyOptions) (b : ℕ) (from : Bytes)
      → k.eth_key_from ≡ some (b ∷ from)
      → Returns (For (files.hex_to_address (b ∷ from))) (use_private_key files device k)
  unfolding use_private_key
  use_private_key-For k b from e =
      let P = For (files.hex_to_address (b ∷ from)) in
      Returns-bind P
        (wrap "failed to hex-decode Ethereum ECDSA Private Key"
          (lift (lib.hex_to_ecdsa k.eth_priv_key)))
        (checked_account files device k k.eth_key_from)
        λ pk.
          subst (λ o. Returns P (checked_account files device k o pk)) (sym e)
            (checked_account-For k b from pk)

  -- When an address is given, the account that is returned with no error is that address's, or else
  -- it has no signer: the given address is never replaced by that of another key.
  pub init-asked :
      (k : KeyOptions) (b : ℕ) (from : Bytes) (s t : S) (r : EthAccount S lib)
      → k.eth_key_from ≡ some (b ∷ from)
      → init_ethereum_accounts_manager files device k s ≡ (ok r, t)
      → (r.signer_fn ≡ none) ⊎ (r.eth_key_from_address ≡ files.hex_to_address (b ∷ from))
  unfolding init_ethereum_accounts_manager
  init-asked k b from s t r e h =
      let P = For (files.hex_to_address (b ∷ from)) in
      Returns-if P k.eth_use_ledger _ _
        (subst (λ o. Returns P (use_ledger files device k o)) (sym e) (use_ledger-For k (b ∷ from)))
        (Returns-if P (is_nonempty k.eth_priv_key) _ _ (use_private_key-For k b from e) (
          Returns-if P (is_nonempty k.eth_keystore_dir) _ _
            (subst (λ o. Returns P (use_keystore files device k o)) (sym e)
              (use_keystore-For k (b ∷ from)))
            (Returns-raise P (raised "insufficient ethereum key details provided"))))
        s t r h
