-- ===== src/Tests/KeyRuns.antt =====
-- Keys of a small cryptography, in which a private key is a number and its address is the same number.
use peggo.Base.{
  ℕ, ◌≡◌, ◌∙◌, ap, ◌⊎◌, refl, inl, inr, arith, true, false, Bytes, codes, none, some, [], ◌∷◌, ◌++◌,
  length, ◌≤◌, bytes_eq, starts_with,
}
use peggo.Effect.{raised, Result, ok, M, pure, raise}
use peggo.Effect.Keeps.{pure_ok}
use peggo.Types.{Address}
use peggo.Keys.Crypto.{CryptoLib}
use peggo.Keys.PassReader.{reads}
use peggo.Keys.PassReader.Stream.{lines, reads-lines, reads-progress}
use peggo.Keys.KeyCache.{
  KeyCache, hash_account_pass, load_key, private_key, file_path, personal_sign_fn,
  private_key_personal_sign_fn,
}
use peggo.Keys.KeyCache.Loads.{personal_sign_fn-signs}
use peggo.Keys.KeyStore.{
  Files, KeyStore, for_each_wallet, visit_all, visit_file, with_spec, check_address, note_path,
}
use peggo.Keys.KeyStore.Wallets.{Noted, for_each_wallet-Noted}
use peggo.Keys.EthAccount.{
  Device, KeyOptions, EthAccount, init_ethereum_accounts_manager, use_private_key, is_refused,
  key_account, no_account,
}
use peggo.Keys.EthAccount.Asked.{init-asked}
use peggo.Keys.EthAccount.Answered.{Answered, init-Answered}
use peggo.Keys.Keyring.{
  KeyringConfig, KeyringLib, KeyRecord, local, new_keyring, new_keyring_from_dir, from_record,
  absolute_dir,
}
use peggo.Keys.Keyring.Address.{FindsByAddress, new_keyring-address}

reads-lines_example :
    (k : ℕ) × ((reads (codes "pw") (2 ∷ 4 ∷ 1 ∷ []) []).0
        ++ (reads (codes "pw") (2 ∷ 4 ∷ 1 ∷ []) []).1
      ≡ [] ++ lines k (codes "pw"))
reads-lines_example = reads-lines (codes "pw") (2 ∷ 4 ∷ 1 ∷ []) []

reads-progress_example : 3 ≤ length (reads (codes "pw") (2 ∷ 4 ∷ 1 ∷ []) []).0
reads-progress_example =
    reads-progress (codes "pw") (2 ∷ 4 ∷ 1 ∷ []) [] (omega arith, (omega arith, (omega arith, tt)))

abbrev first : Bytes → ℕ
first [] = 0
first (b ∷ bs) = b

abbrev pub crypto : CryptoLib
crypto = record {
  PrivateKey = ℕ;
  Tx = ℕ;
  sha1 = λ b. b;
  address_bytes = λ a. a ∷ [];
  decrypt_key = λ json password. ok (first json);
  pubkey_to_address = λ k. k;
  text_hash = length;
  sign = λ h k. ok (h ∷ k ∷ []);
  hex_to_ecdsa = λ b. ok (first b);
  new_keyed_transactor_with_chain_id = λ k id. ok (λ a tx. ok tx);
}

-- Each file holds the byte 5.
abbrev read_file : Bytes → M (Unit {0}) Bytes
read_file path = pure (5 ∷ [])

abbrev cache : KeyCache crypto
cache = record { paths = (5, codes "keystore://k") ∷ []; keys = [] }

personal_sign_fn-signs_example :
    ◌≡◌ {A = Address} 5 5
    × (key : ℕ) × (key ≡ 5)
    × (crypto.sign (crypto.text_hash (1 ∷ 2 ∷ [])) key ≡ ok (2 ∷ 5 ∷ []))
unfolding personal_sign_fn private_key_personal_sign_fn private_key load_key hash_account_pass
    bytes_eq file_path starts_with
personal_sign_fn-signs_example =
    personal_sign_fn-signs crypto read_file 5 5 (codes "pw") (1 ∷ 2 ∷ []) (2 ∷ 5 ∷ [])
      (private_key_personal_sign_fn crypto 5) (tt, cache) _ refl refl

-- A directory with one wallet in it, of the account 5.
abbrev pub files : Files (Unit {0})
files = record {
  visits = λ root s. (
    record { path = root; is_dir = true; failure = none }
        ∷ record { path = codes "dir/a"; is_dir = false; failure = none }
        ∷ [],
    s,
  );
  read_file = read_file;
  stat_is_dir = λ path. pure true;
  unmarshal = λ b. ok (some (record { address = b; path = [] }));
  is_hex_address = λ b. true;
  hex_to_address = first;
}

abbrev store : KeyStore crypto
store = record { cache = record { paths = []; keys = [] }; paths = codes "dir" ∷ [] }

abbrev scanned : Unit {0} × KeyStore crypto
scanned = (for_each_wallet files (codes "dir") (note_path files crypto) (tt, store)).1

for_each_wallet-Noted_example :
    Noted files crypto (codes "dir") (files.visits (codes "dir") tt).0 tt scanned
unfolding for_each_wallet visit_all visit_file with_spec check_address bytes_eq
for_each_wallet-Noted_example =
    for_each_wallet-Noted files crypto (codes "dir") tt store scanned refl

abbrev pub device : Device (Unit {0}) crypto
device = record { new_ledger_hub = raise (raised "no device"); read_password = pure (codes "pw ") }

-- The private key 5, and the address that is asked for.
abbrev pub options : Bytes → KeyOptions
options from = record {
  eth_chain_id = 1;
  eth_keystore_dir = [];
  eth_key_from = some from;
  eth_passphrase = [];
  eth_priv_key = 5 ∷ [];
  eth_use_ledger = false;
}

abbrev given : Result (EthAccount (Unit {0}) crypto)
given = (init_ethereum_accounts_manager files device (options (5 ∷ [])) tt).0

abbrev address_of : Result (EthAccount (Unit {0}) crypto) → EthAccount (Unit {0}) crypto
address_of (ok r) = r
address_of _ = no_account

init-asked_example :
    ((address_of given).signer_fn ≡ none) ⊎ ((address_of given).eth_key_from_address ≡ 5)
unfolding init_ethereum_accounts_manager use_private_key is_refused key_account
init-asked_example =
    init-asked files device (options (5 ∷ [])) 5 [] tt tt (address_of given) refl refl

-- The address asked for is not that of the key: no error, and no account.
init-Answered_example :
    Answered files device
      (options (6 ∷ []))
      6
      tt
      (init_ethereum_accounts_manager files device (options (6 ∷ [])) tt)
init-Answered_example =
    init-Answered files device (options (6 ∷ [])) 6 [] tt refl (inr (inl (refl, 5, refl, refl)))

abbrev pub keyrings : KeyringLib (Unit {0})
keyrings = record {
  SdkKeyring = Unit {0};
  decode_hex = λ b. ok b;
  address_of = λ key. key;
  acc_address_from_bech32 = λ b. ok b;
  new_in_memory = λ name key. pure tt;
  abs_path = λ p. pure p;
  is_abs = λ p. true;
  new_keyring = λ a b d r. pure tt;
  key = λ kr name. raise (raised "not found");
  key_by_address = λ kr a. pure (record { key_type = local; get_address = ok a });
}

keyrings-FindsByAddress : FindsByAddress keyrings
keyrings-FindsByAddress kr a b s t r h got =
    let found : KeyRecord = record { key_type = local; get_address = ok a } in
    let same : ◌≡◌ {A = Result Bytes} (ok a) (ok b) =
      ap (λ (x : KeyRecord). x.get_address) (pure_ok found r s t h).0 ∙ got in
    ground arith

abbrev pub keyring_config : KeyringConfig
keyring_config = record {
  keyring_dir = codes "/keys";
  keyring_app_name = codes "peggo";
  keyring_backend = codes "file";
  key_from = 7 ∷ 8 ∷ [];
  key_passphrase = codes "pw";
  private_key = [];
  use_ledger = false;
}

new_keyring-address_example : ◌≡◌ {A = Bytes} (7 ∷ 8 ∷ []) (7 ∷ 8 ∷ [])
unfolding new_keyring new_keyring_from_dir absolute_dir from_record
new_keyring-address_example =
    new_keyring-address keyrings keyrings-FindsByAddress keyring_config 7 (8 ∷ []) (7 ∷ 8 ∷ []) tt
      tt (record { sdk_keyring = tt; addr = 7 ∷ 8 ∷ [] }) refl refl refl
