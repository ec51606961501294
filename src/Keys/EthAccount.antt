-- ===== src/Keys/EthAccount.antt =====
-- initEthereumAccountsManager of cmd/peggo/keys.go: the account that signs Ethereum transactions.
pub mod Answered
pub mod Asked
use peggo.Base.{
  ℕ, Bool, true, false, not, Bytes, codes, String, Option, none, some, List, [], ◌∷◌, ◌||◌, ◌&&◌,
  ◌==◌, is_nonempty, trim_space, if◌then◌else◌,
}
use peggo.Effect.{
  Error, raised, wrapped, Result, ok, err, panic, M, pure, raise, lift, wrap, ◌>>=◌, ◌>>◌,
}
use peggo.Types.{Address}
use peggo.Keys.Crypto.{CryptoLib, SignerFn, PersonalSignFn}
use peggo.Keys.KeyCache.{private_key_personal_sign_fn}
use peggo.Keys.KeyStore.{Files, KeyStore, beside, new_key_store, signer_fn, personal_sign_fn}

-- A wallet on a Ledger device, of go-ethereum.
pub record Wallet (S : Type 0) (lib : CryptoLib) : Type 0 where
  pub open_device : M S (Unit {0})
  pub contains : Address → S → Bool × S
  pub close : M S (Unit {0})
  pub sign_tx : Address → lib.Tx → ℕ → M S lib.Tx
  pub sign_text : Address → Bytes → M S Bytes

-- `new_ledger_hub` returns `Wallets` of the hub; `read_password` reads from the terminal.
pub record Device (S : Type 0) (lib : CryptoLib) : Type 0 where
  pub new_ledger_hub : M S (S → List (Wallet S lib) × S)
  pub read_password : M S Bytes

-- The six arguments; the from address is a pointer that the cases test for nil.
pub record KeyOptions : Type 0 where
  pub eth_chain_id : ℕ
  pub eth_keystore_dir : Bytes
  pub eth_key_from : Option Bytes
  pub eth_passphrase : Bytes
  pub eth_priv_key : Bytes
  pub eth_use_ledger : Bool

-- The results but the error; a function may be nil.
pub record EthAccount (S : Type 0) (lib : CryptoLib) : Type 0 where
  pub eth_key_from_address : Address
  pub signer_fn : Option (Address → lib.Tx → M S lib.Tx)
  pub personal_sign_fn : Option (Address → Bytes → M S Bytes)

-- errors.Wrap gives nil for a nil error, so this returns no error.
abbrev pub no_account : {S : Type 0} {lib : CryptoLib} → EthAccount S lib
no_account = record { eth_key_from_address = 0; signer_fn = none; personal_sign_fn = none }

-- A result that a second call, whose error is dropped, leaves as it is.
abbrev despite : {A : Type 0} → Result A → Result (Unit {0}) → Result A
despite r (panic p) = panic p
despite r (ok x) = r
despite r (err e) = r

module _ {S : Type 0} {lib : CryptoLib} where
  abbrev close_after : {A : Type 0} → Wallet S lib → Result A → M S A
  close_after w (panic p) s = (panic p, s)
  close_after w (ok a) s = (despite (ok a) (w.close s).0, (w.close s).1)
  close_after w (err e) s = (despite (err e) (w.close s).0, (w.close s).1)

  abbrev sign_and_close : {A : Type 0} → Wallet S lib → M S A → M S A
  sign_and_close w sign s = close_after w (sign s).0 (sign s).1

  -- The two functions of the Ledger: the first wallet that has the account signs.
  unfoldable pub sign_with :
      {A : Type 0} → (Wallet S lib → M S A) → Address → List (Wallet S lib) → M S A
  sign_with sign from [] = raise (raised "account %s not found on Ledger")
  sign_with sign from (w ∷ ws) =
      let rest = sign_with sign from ws in
      wrap "failed to connect to wallet on Ledger device" w.open_device >> λ s.
      (let (has, t) = w.contains from s in
        if not has
        then (wrap "failed to disconnect the wallet on Ledger device" w.close >> rest) t
        else sign_and_close w (sign w) t)

  unfoldable pub ledger_signer_fn :
      (S → List (Wallet S lib) × S) → ℕ → Address → lib.Tx → M S lib.Tx
  ledger_signer_fn wallets eth_chain_id from tx s =
      let (ws, t) = wallets s in sign_with (λ w. w.sign_tx from tx eth_chain_id) from ws t

  unfoldable pub ledger_personal_sign_fn :
      (S → List (Wallet S lib) × S) → Address → Bytes → M S Bytes
  ledger_personal_sign_fn wallets from message s =
      let (ws, t) = wallets s in sign_with (λ w. w.sign_text from message) from ws t

  module _ (files : Files S) (device : Device S lib) where
    unfoldable pub eth_pass_from_stdin : M S Bytes
    eth_pass_from_stdin = do
      byte_password ← wrap "failed to read password from stdin" device.read_password
      pure (trim_space byte_password)

    abbrev account :
        Address → (Address → lib.Tx → M S lib.Tx) → (Address → Bytes → M S Bytes) → EthAccount S lib
    account a sign personal = record {
      eth_key_from_address = a;
      signer_fn = some sign;
      personal_sign_fn = some personal;
    }

    unfoldable pub use_ledger : KeyOptions → Option Bytes → M S (EthAccount S lib)
    use_ledger k none = raise (raised "cannot use Ledger without from address specified")
    use_ledger k (some from) = if files.hex_to_address from == 0 then pure no_account else do
      wallets ← wrap "failed to connect with Ethereum app on Ledger device" device.new_ledger_hub
      pure (
          account (files.hex_to_address from) (ledger_signer_fn wallets k.eth_chain_id)
            (ledger_personal_sign_fn wallets))

    -- An error of a library's call, in place of which another is returned.
    abbrev in_place : {A : Type 0} → String → Result A → Result A
    in_place text (ok a) = ok a
    in_place text (err e) = err (raised text)
    in_place text (panic p) = panic p

    unfoldable pub key_account : KeyOptions → lib.PrivateKey → M S (EthAccount S lib)
    key_account k eth_pk = do
      signer ← lift (
          in_place "failed to init NewKeyedTransactorWithChainID"
            (lib.new_keyed_transactor_with_chain_id eth_pk k.eth_chain_id))
      pure (
          account (lib.pubkey_to_address eth_pk) (λ a tx. lift (signer a tx))
            (λ a message. lift (private_key_personal_sign_fn lib eth_pk a message)))

    -- Whether the given address is refused.
    unfoldable pub is_refused : Bytes → lib.PrivateKey → Bool
    is_refused from eth_pk =
        is_nonempty from
        && ((files.hex_to_address from == 0)
            || not (files.hex_to_address from == lib.pubkey_to_address eth_pk))

    abbrev pub checked_account : KeyOptions → Option Bytes → lib.PrivateKey → M S (EthAccount S lib)
    checked_account k none eth_pk = λ s. (panic "nil from address", s)
    checked_account k (some from) eth_pk =
        if is_refused from eth_pk then pure no_account else key_account k eth_pk

    unfoldable pub use_private_key : KeyOptions → M S (EthAccount S lib)
    use_private_key k = do
      eth_pk ←
          wrap "failed to hex-decode Ethereum ECDSA Private Key"
            (lift (lib.hex_to_ecdsa k.eth_priv_key))
      checked_account k k.eth_key_from eth_pk

    unfoldable pub locate_dir : Bytes → M S (Unit {0})
    locate_dir dir s = located (files.stat_is_dir dir s).0 (files.stat_is_dir dir s).1
      where
        located : Result Bool → M S (Unit {0})
        located (ok true) t = (ok tt, t)
        located (ok false) t = (err (raised "failed to locate keystore dir"), t)
        located (err e) t = (err (raised "failed to locate keystore dir"), t)
        located (panic p) t = (panic p, t)

    -- The two calls on a store that is not used again after them.
    abbrev sign_fns :
        KeyOptions → Address → (pass : Bytes) → M (S × KeyStore lib) (EthAccount S lib)
    sign_fns k from pass = do
      signer ← wrap "failed to load key for %s" (signer_fn files lib k.eth_chain_id from pass)
      personal ← wrap "failed to load key for %s" (personal_sign_fn files lib from pass)
      pure (account from (λ a tx. lift (signer a tx)) (λ a message. lift (personal a message)))

    -- The passphrase that is given, or else the one that is typed.
    unfoldable pub passphrase : KeyOptions → M S Bytes
    passphrase k =
        if is_nonempty k.eth_passphrase then pure k.eth_passphrase else eth_pass_from_stdin

    abbrev pub with_store :
        KeyOptions
        → Address
        → Result (Unit {0}) × (S × KeyStore lib)
        → Result (EthAccount S lib) × S
    with_store k from (ok x, w) =
        let (r, (t, ks)) = (beside files (passphrase k) >>= sign_fns k from) w in (r, t)
    with_store k from (err e, (t, ks)) = (err (wrapped "failed to load keystore" e), t)
    with_store k from (panic p, (t, ks)) = (panic p, t)

    unfoldable pub sign_from_store : KeyOptions → Address → M S (EthAccount S lib)
    sign_from_store k from s =
        with_store k from (new_key_store files lib (k.eth_keystore_dir ∷ []) s)

    unfoldable pub use_keystore : KeyOptions → Option Bytes → M S (EthAccount S lib)
    use_keystore k none =
        raise (raised "cannot use Ethereum keystore without from address specified")
    use_keystore k (some from) =
        if files.hex_to_address from == 0
        then pure no_account
        else (locate_dir k.eth_keystore_dir >> sign_from_store k (files.hex_to_address from))

    unfoldable pub init_ethereum_accounts_manager : KeyOptions → M S (EthAccount S lib)
    init_ethereum_accounts_manager k =
        if k.eth_use_ledger
        then use_ledger k k.eth_key_from
        else if is_nonempty k.eth_priv_key
        then use_private_key k
        else if is_nonempty k.eth_keystore_dir
        then use_keystore k k.eth_key_from
        else raise (raised "insufficient ethereum key details provided")
