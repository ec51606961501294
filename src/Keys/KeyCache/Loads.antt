-- ===== src/Keys/KeyCache/Loads.antt =====
-- What the key cache gives: keys that stay, keys that are gone, and signatures of one account.
use peggo.Base.{
  ◌≡◌, ◌∙◌, refl, sym, ap, arith, inl, inr, Bool-cases, not, Bytes, Option, none, some, List, [],
  ◌∷◌, bytes_eq, bytes_eq_refl, ◌==◌, if◌then◌else◌,
}
use peggo.Effect.{raised, Result, ok, err, M, pure, raise, lift, wrap, ◌>>=◌}
use peggo.Effect.Keeps.{bind_ok, pure_ok}
use peggo.Types.{Address}
use peggo.Keys.Crypto.{CryptoLib, PersonalSignFn}
use peggo.Keys.KeyCache.{
  KeyCache, load, delete, store, same_address, hash_account_pass, load_key, private_key, keep_key,
  cached_or_load, unset_key, personal_sign_fn, private_key_personal_sign_fn, cached_read, file_path,
}

load-store :
    {A : Type 0} (h : Bytes) (a : A) (m : List (Bytes × A))
    → load bytes_eq h (store bytes_eq h a m) ≡ some a
load-store h a m = rw (bytes_eq_refl h) refl

load-delete :
    {A : Type 0} (h : Bytes) (m : List (Bytes × A)) → load bytes_eq h (delete bytes_eq h m) ≡ none
load-delete h [] = refl
load-delete h ((j, a) ∷ m) = elim (Bool-cases (bytes_eq h j)) [
  | inl t ↦ rw t (load-delete h m)
  | inr f ↦ rw (f, f) (load-delete h m)
]

ok_inj : {A : Type 0} {a b : A} → ok a ≡ ok b → a ≡ b
ok_inj h = ground arith

module _ (lib : CryptoLib) {S : Type 0} (read_file : Bytes → M S Bytes) where
  -- The cache has the key.
  abbrev Has : Address → Bytes → lib.PrivateKey → KeyCache lib → Type 0
  Has a p pk k = load bytes_eq (hash_account_pass lib a p) k.keys ≡ some pk

  private_key-Has :
      (a : Address) (p : Bytes) (pk : lib.PrivateKey) (u : S) (k : KeyCache lib)
      → Has a p pk k
      → private_key lib read_file a p (u, k) ≡ (ok pk, (u, k))
  unfolding private_key
  private_key-Has a p pk u k h = rw h refl

  load_key-Has :
      (a : Address) (p : Bytes) (path : Option Bytes) (pk : lib.PrivateKey) (s t : S)
      (k k' : KeyCache lib)
      → load_key lib read_file a p path (s, k) ≡ (ok pk, (t, k'))
      → Has a p pk k'
  unfolding load_key
  load_key-Has a p none pk s t k k' h = absurd (ground arith)
  load_key-Has a p (some path) pk s t k k' h =
      let (json, v, _, rest) =
        bind_ok
          (wrap "failed to load a file from keystore"
            (cached_read lib read_file (file_path lib path)))
          (λ json.
            wrap "key decryption failed" (lift (lib.decrypt_key json p))
            >>= keep_key lib read_file (hash_account_pass lib a p))
          (s, k) pk (t, k') h in
      let (pk', (w, c), _, kept) =
        bind_ok (wrap "key decryption failed" (lift (lib.decrypt_key json p)))
          (keep_key lib read_file (hash_account_pass lib a p)) v pk (t, k') rest in
      ap
        (λ (x : Result lib.PrivateKey × (S × KeyCache lib)).
          load bytes_eq (hash_account_pass lib a p) x.1.1.keys)
        (sym kept)
      ∙ load-store (hash_account_pass lib a p) pk' c.keys
      ∙ ap some (ok_inj (ap (λ (x : Result lib.PrivateKey × (S × KeyCache lib)). x.0) kept))

  -- A key that was given once, from memory or from its file, is given again without a read, whatever
  -- has become of the files.
  pub private_key-again :
      (a : Address) (p : Bytes) (pk : lib.PrivateKey) (s t u : S) (k k' : KeyCache lib)
      → private_key lib read_file a p (s, k) ≡ (ok pk, (t, k'))
      → private_key lib read_file a p (u, k') ≡ (ok pk, (u, k'))
  unfolding private_key
  private_key-again a p pk s t u k k' h =
      private_key-Has a p pk u k' (go (load bytes_eq (hash_account_pass lib a p) k.keys) refl h)
    where
      go :
          (r : Option lib.PrivateKey)
          → load bytes_eq (hash_account_pass lib a p) k.keys ≡ r
          → cached_or_load lib read_file a p r (s, k) ≡ (ok pk, (t, k'))
          → Has a p pk k'
      go none e h = load_key-Has a p (load same_address a k.paths) pk s t k k' h
      go (some found) e h =
          ap
            (λ (x : Result lib.PrivateKey × (S × KeyCache lib)).
              load bytes_eq (hash_account_pass lib a p) x.1.1.keys)
            (sym h)
          ∙ e
          ∙ ap some (ok_inj (ap (λ (x : Result lib.PrivateKey × (S × KeyCache lib)). x.0) h))

  -- After UnsetKey, the key is read from the file at the path of the account, as the first time.
  pub private_key-unset :
      (a : Address) (p : Bytes) (s : S) (k : KeyCache lib)
      → private_key lib read_file a p (s, unset_key lib a p k)
        ≡ load_key lib read_file a p (load same_address a k.paths) (s, unset_key lib a p k)
  unfolding private_key unset_key
  private_key-unset a p s k = rw (load-delete (hash_account_pass lib a p) k.keys) refl

  personal-signs :
      (key : lib.PrivateKey) (from : Address) (message signature : Bytes)
      → private_key_personal_sign_fn lib key from message ≡ ok signature
      → (from ≡ lib.pubkey_to_address key) × (lib.sign (lib.text_hash message) key ≡ ok signature)
  unfolding private_key_personal_sign_fn
  personal-signs key from message signature h =
      elim (Bool-cases (from == lib.pubkey_to_address key)) [
        | inl same ↦ (ground (arith, same), rw same at h)
        | inr other ↦
            let bad : ◌≡◌ {A = Result Bytes} (err (raised "from address mismatch")) (ok signature) =
              rw other at h in
            absurd (ground arith)
      ]

  -- A signature of a function that PersonalSignFn has returned for an account is made for that
  -- account, over the text hash of the message, with a key whose address is the account's.
  pub personal_sign_fn-signs :
      (a from : Address) (p message signature : Bytes) (sign : PersonalSignFn)
      (s t : S × KeyCache lib)
      → personal_sign_fn lib read_file a p s ≡ (ok sign, t)
      → sign from message ≡ ok signature
      → (from ≡ a)
        × (key : lib.PrivateKey) × (lib.pubkey_to_address key ≡ a)
        × (lib.sign (lib.text_hash message) key ≡ ok signature)
  unfolding personal_sign_fn private_key_personal_sign_fn
  personal_sign_fn-signs a from p message signature sign s t h k =
      let (key, u, _, rest) =
        bind_ok (private_key lib read_file a p)
          (λ key.
            if not (lib.pubkey_to_address key == a)
            then raise (raised "account key address mismatch")
            else pure (private_key_personal_sign_fn lib key))
          s sign t h in
      elim (Bool-cases (lib.pubkey_to_address key == a)) [
        | inl same ↦
            let given : pure (private_key_personal_sign_fn lib key) u ≡ (ok sign, t) =
              rw same at rest in
            let (is, _) = pure_ok (private_key_personal_sign_fn lib key) sign u t given in
            let (who, what) =
              personal-signs key from message signature (ap (λ f. f from message) is ∙ k) in
            (ground (arith, who, same), key, ground (arith, same), what)
        | inr other ↦
            let bad : raise (raised "account key address mismatch") u ≡ (ok sign, t) =
              rw other at rest in
            absurd (ground arith)
      ]
