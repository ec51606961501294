-- ===== src/Keys/KeyStore.antt =====
-- orchestrator/ethereum/keystore/keystore.go: the wallets that the files of some directories hold.
pub mod Wallets
use peggo.Base.{
  ℕ, Bool, true, false, not, Bytes, codes, String, Option, none, some, List, [], ◌∷◌, ◌++◌, keep,
  bytes_eq, bytes_lt, if◌then◌else◌,
}
use peggo.Effect.{Error, raised, Result, ok, err, panic, M, pure, raise, lift, ◌>>=◌, ◌>>◌}
use peggo.Types.{Address}
use peggo.Keys.Crypto.{CryptoLib, SignerFn, PersonalSignFn}
use peggo.Keys.KeyCache
use peggo.Keys.KeyCache.{KeyCache, set_path}

-- `path` is not part of the file; the fields `ID` and `Version` are never read.
pub record WalletSpec : Type 0 where
  pub address : Bytes
  pub path : Bytes

-- A call of the function that filepath.Walk is given.
pub record Visit : Type 0 where
  pub path : Bytes
  pub is_dir : Bool
  pub failure : Option Error

-- The file system and the text forms. `visits` gives the calls that filepath.Walk makes when each
-- directory below the first path is skipped; `unmarshal` gives nil for the JSON text `null`.
pub record Files (S : Type 0) : Type 0 where
  pub visits : Bytes → S → List Visit × S
  pub read_file : Bytes → M S Bytes
  pub stat_is_dir : Bytes → M S Bool
  pub unmarshal : Bytes → Result (Option WalletSpec)
  pub is_hex_address : Bytes → Bool
  pub hex_to_address : Bytes → Address

-- The set of paths has each path once.
pub record KeyStore (lib : CryptoLib) : Type 0 where
  pub cache : KeyCache lib
  pub paths : List Bytes

abbrev insert_sorted : Bytes → List Bytes → List Bytes
insert_sorted p [] = p ∷ []
insert_sorted p (q ∷ qs) =
    let rest = insert_sorted p qs in if bytes_lt q p then q ∷ rest else p ∷ q ∷ qs

abbrev sort_paths : List Bytes → List Bytes
sort_paths [] = []
sort_paths (p ∷ ps) = insert_sorted p (sort_paths ps)

abbrev add_to_set : Bytes → List Bytes → List Bytes
add_to_set p ps = p ∷ keep (λ q. not (bytes_eq p q)) ps

unfoldable pub sorted_paths : {lib : CryptoLib} → KeyStore lib → List Bytes
sorted_paths ks = sort_paths ks.paths

unfoldable pub address_from_hex : {S : Type 0} → Files S → WalletSpec → Address
address_from_hex files spec = files.hex_to_address spec.address

-- `len(spec.Address) == 0`, then the test of the text.
unfoldable pub check_address : {S : Type 0} → Files S → (address : Bytes) → Result (Unit {0})
check_address files [] = err (raised "failed to load address from %s")
check_address files (a ∷ rest) =
    if not (files.is_hex_address (a ∷ rest))
    then err (raised "wrong (not hex) address from %s")
    else ok tt

-- An error is logged and dropped.
abbrev pub log_error : Result (Unit {0}) → Result (Unit {0})
log_error (ok x) = ok tt
log_error (err e) = ok tt
log_error (panic p) = panic p

module _ {S T : Type 0} (files : Files S) where
  -- A call of the file system beside a state `T`.
  abbrev pub beside : {A : Type 0} → M S A → M (S × T) A
  beside m (s, t) = ((m s).0, ((m s).1, t))

  -- The checks on a file that has been read, and the function on its wallet.
  unfoldable pub with_spec :
      (WalletSpec → M (S × T) (Unit {0})) → Bytes → Option WalletSpec → M (S × T) (Unit {0})
  with_spec fn path none = λ s. (panic "nil wallet spec", s)
  with_spec fn path (some spec) = do
    lift (check_address files spec.address)
    fn (record spec { path = path })

  unfoldable pub visit_file : (WalletSpec → M (S × T) (Unit {0})) → Bytes → M (S × T) (Unit {0})
  visit_file fn path = do
    contents ← beside (files.read_file path)
    spec ← lift (files.unmarshal contents)
    with_spec fn path spec

  abbrev pub unless_failed : Option Error → M (S × T) (Unit {0}) → M (S × T) (Unit {0})
  unless_failed (some e) go = raise e
  unless_failed none go = go

  unfoldable pub visit_all :
      Bytes → (WalletSpec → M (S × T) (Unit {0})) → List Visit → M (S × T) (Unit {0})
  visit_all root fn [] = pure tt
  visit_all root fn (v ∷ vs) =
      let rest = visit_all root fn vs in
      unless_failed v.failure (
        if bytes_eq v.path root
        then rest
        else if v.is_dir
        then rest
        else (visit_file fn v.path >> rest))

  unfoldable pub for_each_wallet :
      Bytes → (WalletSpec → M (S × T) (Unit {0})) → M (S × T) (Unit {0})
  for_each_wallet keystore_path fn (s, t) =
      let (vs, s') = files.visits keystore_path s in visit_all keystore_path fn vs (s', t)

  abbrev pub logged : M (S × T) (Unit {0}) → M (S × T) (Unit {0})
  logged m w = (log_error (m w).0, (m w).1)

  -- An error of one path is logged, and the next path follows.
  unfoldable pub for_each_path :
      (WalletSpec → M (S × T) (Unit {0})) → List Bytes → M (S × T) (Unit {0})
  for_each_path fn [] = pure tt
  for_each_path fn (p ∷ ps) = logged (for_each_wallet p fn) >> for_each_path fn ps

module _ {S : Type 0} (files : Files S) (lib : CryptoLib) where
  abbrev append_account : WalletSpec → M (S × List Address) (Unit {0})
  append_account spec (s, found) = (ok tt, (s, found ++ address_from_hex files spec ∷ []))

  unfoldable pub accounts : KeyStore lib → M S (List Address)
  accounts ks s = collected (for_each_path files append_account (sorted_paths ks) (s, []))
    where
      collected : Result (Unit {0}) × (S × List Address) → Result (List Address) × S
      collected (ok x, (s, found)) = (ok found, s)
      collected (err e, (s, found)) = (err e, s)
      collected (panic p, (s, found)) = (panic p, s)

  abbrev pub note_path : WalletSpec → M (S × KeyStore lib) (Unit {0})
  note_path spec (s, ks) = (
    ok tt,
    (s, record ks { cache = (set_path lib (address_from_hex files spec) spec.path ks.cache).1 }),
  )

  unfoldable pub reload_paths_cache : M (S × KeyStore lib) (Unit {0})
  reload_paths_cache (s, ks) = for_each_path files note_path (sorted_paths ks) (s, ks)

  abbrev path_set : List Bytes → List Bytes
  path_set [] = []
  path_set (p ∷ ps) = add_to_set p (path_set ps)

  -- The function New.
  unfoldable pub new_key_store : List Bytes → S → Result (Unit {0}) × (S × KeyStore lib)
  new_key_store paths s =
      reload_paths_cache
        (s, record { cache = record { paths = []; keys = [] }; paths = path_set paths })

  abbrev put_path : Bytes → M (S × KeyStore lib) (Unit {0})
  put_path p (s, ks) = (ok tt, (s, record ks { paths = add_to_set p ks.paths }))

  unfoldable pub add_path : Bytes → M (S × KeyStore lib) (Unit {0})
  add_path keystore_path = do
    is_dir ← beside files (files.stat_is_dir keystore_path)
    if not is_dir
        then raise (raised "%s is not a directory")
        else (put_path keystore_path >> reload_paths_cache)

  unfoldable pub remove_path : Bytes → KeyStore lib → KeyStore lib
  remove_path keystore_path ks = record ks {
    paths = keep (λ q. not (bytes_eq keystore_path q)) ks.paths;
  }

  -- A call of the cache.
  abbrev on_cache : {A : Type 0} → M (S × KeyCache lib) A → M (S × KeyStore lib) A
  on_cache m (s, ks) =
      let (r, (t, cache)) = m (s, ks.cache) in (r, (t, record ks { cache = cache }))

  unfoldable pub private_key : Address → (password : Bytes) → M (S × KeyStore lib) lib.PrivateKey
  private_key account password =
      on_cache (KeyCache.private_key lib files.read_file account password)

  unfoldable pub signer_fn : ℕ → Address → (password : Bytes) → M (S × KeyStore lib) (SignerFn lib)
  signer_fn chain_id account password =
      on_cache (KeyCache.signer_fn lib files.read_file chain_id account password)

  unfoldable pub personal_sign_fn :
      Address → (password : Bytes) → M (S × KeyStore lib) PersonalSignFn
  personal_sign_fn account password =
      on_cache (KeyCache.personal_sign_fn lib files.read_file account password)

  unfoldable pub unset_key : Address → (password : Bytes) → KeyStore lib → KeyStore lib
  unset_key account password ks = record ks {
    cache = KeyCache.unset_key lib account password ks.cache;
  }
