-- ===== src/Keys/KeyCache.antt =====
-- orchestrator/ethereum/keystore/keycache.go: private keys in memory, by account and password. Each
-- operation is a step; the mutex of an account only orders them.
pub mod Loads
use peggo.Base.{
  ℕ, Bool, true, false, not, Bytes, codes, Option, none, some, List, [], ◌∷◌, ◌++◌, drop, length,
  starts_with, bytes_eq, ◌==◌, if◌then◌else◌,
}
use peggo.Effect.{Error, raised, Result, ok, err, panic, M, pure, raise, lift, wrap, ◌>>=◌}
use peggo.Types.{Address}
use peggo.Keys.Crypto.{CryptoLib, SignerFn, PersonalSignFn}

-- A sync.Map is an association list that has each key once.
pub record KeyCache (lib : CryptoLib) : Type 0 where
  pub paths : List (Address × Bytes)
  pub keys : List (Bytes × lib.PrivateKey)

module _ {K A : Type 0} (eq : K → K → Bool) where
  abbrev pub load : K → List (K × A) → Option A
  load k [] = none
  load k ((j, a) ∷ m) = let rest = load k m in if eq k j then some a else rest

  abbrev pub delete : K → List (K × A) → List (K × A)
  delete k [] = []
  delete k ((j, a) ∷ m) = let rest = delete k m in if eq k j then rest else (j, a) ∷ rest

  abbrev pub store : K → A → List (K × A) → List (K × A)
  store k a m = (k, a) ∷ delete k m

abbrev pub same_address : Address → Address → Bool
same_address a b = a == b

abbrev is_some : {A : Type 0} → Option A → Bool
is_some none = false
is_some (some a) = true

module _ (lib : CryptoLib) where
  unfoldable pub hash_account_pass : Address → (password : Bytes) → Bytes
  hash_account_pass account password =
      lib.sha1 (lib.address_bytes account ++ (codes "-" ++ password))

  -- The first result tells whether the account had a path.
  unfoldable pub set_path : Address → Bytes → KeyCache lib → Bool × KeyCache lib
  set_path account path k = (
    is_some (load same_address account k.paths),
    record k { paths = store same_address account path k.paths },
  )

  unfoldable pub unset_path : Address → KeyCache lib → KeyCache lib
  unset_path account k = record k { paths = delete same_address account k.paths }

  unfoldable pub unset_key : Address → (password : Bytes) → KeyCache lib → KeyCache lib
  unset_key account password k = record k {
    keys = delete bytes_eq (hash_account_pass account password) k.keys;
  }

  unfoldable pub set_private_key : Address → lib.PrivateKey → KeyCache lib → KeyCache lib
  set_private_key account pk k = record k {
    keys = store bytes_eq (hash_account_pass account []) pk k.keys;
  }

  -- The path without the prefix "keystore://".
  unfoldable pub file_path : Bytes → Bytes
  file_path path =
      if starts_with (codes "keystore://") path
      then drop (length (codes "keystore://")) path
      else path

  module _ {S : Type 0} (read_file : Bytes → M S Bytes) where
    -- The state is that of the file system, and the cache.
    abbrev cached_read : Bytes → M (S × KeyCache lib) Bytes
    cached_read path (s, k) = ((read_file path s).0, ((read_file path s).1, k))

    abbrev keep_key : Bytes → lib.PrivateKey → M (S × KeyCache lib) lib.PrivateKey
    keep_key h pk (s, k) = (ok pk, (s, record k { keys = store bytes_eq h pk k.keys }))

    -- The key of an account, read from the file at a path.
    unfoldable pub load_key :
        Address → (password : Bytes) → Option Bytes → M (S × KeyCache lib) lib.PrivateKey
    load_key account password none = raise (raised "no keystore path set for account %s")
    load_key account password (some path) = do
      key_json ← wrap "failed to load a file from keystore" (cached_read (file_path path))
      pk ← wrap "key decryption failed" (lift (lib.decrypt_key key_json password))
      keep_key (hash_account_pass account password) pk

    abbrev cached_or_load :
        Address → (password : Bytes) → Option lib.PrivateKey → M (S × KeyCache lib) lib.PrivateKey
    cached_or_load account password (some pk) (s, k) = (ok pk, (s, k))
    cached_or_load account password none (s, k) =
        load_key account password (load same_address account k.paths) (s, k)

    unfoldable pub private_key : Address → (password : Bytes) → M (S × KeyCache lib) lib.PrivateKey
    private_key account password (s, k) =
        cached_or_load account password (load bytes_eq (hash_account_pass account password) k.keys)
          (s, k)

    unfoldable pub signer_fn :
        ℕ → Address → (password : Bytes) → M (S × KeyCache lib) (SignerFn lib)
    signer_fn chain_id account password = do
      key ← private_key account password
      wrap "failed to init NewKeyedTransactorWithChainID"
          (lift (lib.new_keyed_transactor_with_chain_id key chain_id))

  -- The function that keystore.PrivateKeyPersonalSignFn returns, which `PersonalSignFn` repeats.
  unfoldable pub private_key_personal_sign_fn : lib.PrivateKey → PersonalSignFn
  private_key_personal_sign_fn key from message =
      if not (from == lib.pubkey_to_address key)
      then err (raised "from address mismatch")
      else lib.sign (lib.text_hash message) key

  unfoldable pub personal_sign_fn :
      {S : Type 0}
      → (Bytes → M S Bytes)
      → Address
      → (password : Bytes) → M (S × KeyCache lib) PersonalSignFn
  personal_sign_fn read_file account password = do
    key ← private_key read_file account password
    if not (lib.pubkey_to_address key == account)
        then raise (raised "account key address mismatch")
        else pure (private_key_personal_sign_fn key)
