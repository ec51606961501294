-- ===== src/Keys/Keyring.antt =====
-- orchestrator/cosmos/keyring.go: the key that signs Injective messages.
pub mod Address
use peggo.Base.{
  ℕ, Bool, true, false, not, Bytes, codes, String, Option, none, some, List, [], ◌∷◌, drop,
  starts_with, bytes_eq, if◌then◌else◌,
}
use peggo.Effect.{Error, raised, Result, ok, err, panic, M, pure, raise, lift, wrap, ◌>>=◌, ◌>>◌}
use peggo.Keys.Crypto.{CryptoLib}

pub record KeyringConfig : Type 0 where
  pub keyring_dir : Bytes
  pub keyring_app_name : Bytes
  pub keyring_backend : Bytes
  pub key_from : Bytes
  pub key_passphrase : Bytes
  pub private_key : Bytes
  pub use_ledger : Bool

-- keyring.KeyType; any other type is `other`.
pub data KeyType : Type 0 where
  local : KeyType
  ledger : KeyType
  other : KeyType

-- A keyring.Record: its type, and what GetAddress gives.
pub record KeyRecord : Type 0 where
  pub key_type : KeyType
  pub get_address : Result Bytes

-- The keyrings of the cosmos SDK and what they need. A keyring reads its passphrase from the terminal
-- or from a passReader.
pub record KeyringLib (S : Type 0) : Type 1 where
  pub SdkKeyring : Type 0
  pub decode_hex : Bytes → Result Bytes
  pub address_of : (key : Bytes) → Bytes  -- PubKey().Address() of an ethsecp256k1 key
  pub acc_address_from_bech32 : Bytes → Result Bytes
  pub new_in_memory : (name : Bytes) → (key : Bytes) → M S SdkKeyring  -- with the key imported
  pub abs_path : Bytes → M S Bytes
  pub is_abs : Bytes → Bool
  pub new_keyring : (app_name backend dir : Bytes) → (pass_reader : Option Bytes) → M S SdkKeyring
  pub key : SdkKeyring → Bytes → M S KeyRecord
  pub key_by_address : SdkKeyring → Bytes → M S KeyRecord

module _ {S : Type 0} (lib : KeyringLib S) where
  pub record Keyring : Type 0 where
    pub sdk_keyring : lib.SdkKeyring
    pub addr : Bytes

  abbrev is_set : Bytes → Bool
  is_set [] = false
  is_set (b ∷ bs) = true

  abbrev pub trim_0x : Bytes → Bytes
  trim_0x pk = if starts_with (codes "0x") pk then drop 2 pk else pk

  -- The name of the key, from the field `KeyFrom`.
  abbrev pub name_for : (key_from cosmos_addr : Bytes) → Result Bytes → Result Bytes
  name_for key_from cosmos_addr (err e) = ok key_from
  name_for key_from cosmos_addr (panic p) = panic p
  name_for key_from cosmos_addr (ok from) =
      if not (bytes_eq from cosmos_addr)
      then err (raised "expected account address %s but got %s from the private key")
      else ok (codes "validator")

  unfoldable pub key_name : (key_from cosmos_addr : Bytes) → Result Bytes
  key_name [] cosmos_addr = ok (codes "validator")
  key_name (b ∷ bs) cosmos_addr =
      name_for (b ∷ bs) cosmos_addr (lib.acc_address_from_bech32 (b ∷ bs))

  unfoldable pub new_in_memory_keyring : KeyringConfig → M S Keyring
  new_in_memory_keyring cfg =
      if cfg.use_ledger then raise (raised "cannot use both private key and Ledger") else do
        pk_raw ← wrap "invalid private key" (lift (lib.decode_hex (trim_0x cfg.private_key)))
        name ← lift (key_name cfg.key_from (lib.address_of pk_raw))
        kr ← wrap "failed to import private key" (lib.new_in_memory name pk_raw)
        pure (record { sdk_keyring = kr; addr = lib.address_of pk_raw })

  -- A passphrase that is set is given by a passReader; otherwise the terminal is read.
  abbrev pub reader_for : Bytes → Option Bytes
  reader_for [] = none
  reader_for (b ∷ bs) = some (b ∷ bs)

  abbrev pub record_for : lib.SdkKeyring → Bytes → Result Bytes → M S KeyRecord
  record_for kr key_from (ok cosmos_addr) = lib.key_by_address kr cosmos_addr
  record_for kr key_from (err e) = lib.key kr key_from
  record_for kr key_from (panic p) = λ s. (panic p, s)

  abbrev pub with_address : lib.SdkKeyring → KeyRecord → M S Keyring
  with_address kr r = do
    addr ← wrap "failed to get address from key record" (lift r.get_address)
    pure (record { sdk_keyring = kr; addr = addr })

  unfoldable pub from_record :
      (use_ledger : Bool) → lib.SdkKeyring → KeyRecord → KeyType → M S Keyring
  from_record use_ledger kr r local = with_address kr r
  from_record use_ledger kr r ledger =
      if not use_ledger
      then raise (raised "key %s is a Ledger reference, enable Ledger option")
      else with_address kr r
  from_record use_ledger kr r other = raise (raised "unsupported key type: %s")

  unfoldable pub absolute_dir : Bytes → M S Bytes
  absolute_dir keyring_dir =
      if not (lib.is_abs keyring_dir)
      then wrap "failed to get absolute path of keyring dir" (lib.abs_path keyring_dir)
      else pure keyring_dir

  unfoldable pub new_keyring_from_dir : KeyringConfig → M S Keyring
  new_keyring_from_dir cfg =
      if not (is_set cfg.key_from)
      then raise (raised "insufficient cosmos details provided")
      else do
        dir ← absolute_dir cfg.keyring_dir
        kr ← wrap "failed to initialize cosmos keyring" (
            lib.new_keyring cfg.keyring_app_name cfg.keyring_backend dir
              (reader_for cfg.key_passphrase))
        r ← record_for kr cfg.key_from (lib.acc_address_from_bech32 cfg.key_from)
        from_record cfg.use_ledger kr r r.key_type

  unfoldable pub new_keyring : KeyringConfig → M S Keyring
  new_keyring cfg =
      if is_set cfg.private_key then new_in_memory_keyring cfg else new_keyring_from_dir cfg
