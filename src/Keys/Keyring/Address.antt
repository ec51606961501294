-- ===== src/Keys/Keyring/Address.antt =====
-- The address of the keyring that NewKeyring of orchestrator/cosmos/keyring.go returns.
use peggo.Base.{
  ℕ, ◌≡◌, ◌∙◌, sym, ap, arith, inl, inr, Bool, Bool-cases, not, Bytes, ◌∷◌, bytes_eq, bytes_eq_iff,
}
use peggo.Effect.{raised, Result, ok, err, pure, lift, wrap, ◌>>=◌}
use peggo.Effect.Keeps.{bind_ok, pure_ok, lift_ok, wrap_ok}
use peggo.Effect.Returns.{Returns, Returns-pure, Returns-raise, Returns-bind, Returns-if}
use peggo.Keys.Keyring.{
  KeyringConfig, KeyringLib, Keyring, KeyRecord, KeyType, local, ledger, other, trim_0x, key_name,
  name_for, new_in_memory_keyring, new_keyring, new_keyring_from_dir, from_record, with_address,
  record_for, absolute_dir, reader_for,
}

module _ {S : Type 0} (lib : KeyringLib S) where
  -- A keyring finds by an address only a record of that address.
  abbrev pub FindsByAddress : Type 0
  FindsByAddress =
      (kr : lib.SdkKeyring) (a b : Bytes) (s t : S) (r : KeyRecord)
      → lib.key_by_address kr a s ≡ (ok r, t)
      → r.get_address ≡ ok b
      → b ≡ a

  key_name-address :
      (b : ℕ) (bs a from name : Bytes)
      → lib.acc_address_from_bech32 (b ∷ bs) ≡ ok from
      → key_name lib (b ∷ bs) a ≡ ok name
      → a ≡ from
  unfolding key_name
  key_name-address b bs a from name e h =
      let h' : name_for lib (b ∷ bs) a (ok from) ≡ ok name = rw e at h in
      elim (Bool-cases (bytes_eq from a)) [
        | inl t ↦ sym ((bytes_eq_iff from a).0 t)
        | inr f ↦
            let bad : ◌≡◌ {A = Result Bytes}
                (err (raised "expected account address %s but got %s from the private key"))
                (ok name) =
              rw f at h' in
            absurd (ground arith)
      ]

  abbrev Of : Bytes → Keyring lib → Type 0
  Of from k = k.addr ≡ from

  in_memory-Of :
      (cfg : KeyringConfig) (b : ℕ) (bs from : Bytes)
      → cfg.key_from ≡ b ∷ bs
      → lib.acc_address_from_bech32 cfg.key_from ≡ ok from
      → Returns (Of from) (new_in_memory_keyring lib cfg)
  unfolding new_in_memory_keyring
  in_memory-Of cfg b bs from q e =
      Returns-if (Of from) cfg.use_ledger _ _
        (Returns-raise (Of from) (raised "cannot use both private key and Ledger"))
        (Returns-bind (Of from)
          (wrap "invalid private key" (lift (lib.decode_hex (trim_0x lib cfg.private_key)))) _
          λ pk s t k h.
            let (name, u, named, rest) =
              bind_ok (lift (key_name lib cfg.key_from (lib.address_of pk)))
                (λ name. wrap "failed to import private key" (lib.new_in_memory name pk) >>= λ kr.
                  pure (record { sdk_keyring = kr; addr = lib.address_of pk }))
                s k t h in
            let same : lib.address_of pk ≡ from =
              key_name-address b bs (lib.address_of pk) from name
                (ap lib.acc_address_from_bech32 (sym q) ∙ e)
                (ap (λ x. key_name lib x (lib.address_of pk)) (sym q)
                  ∙ (lift_ok (key_name lib cfg.key_from (lib.address_of pk)) s u name named).0) in
            Returns-bind (Of from) (wrap "failed to import private key" (lib.new_in_memory name pk))
              _ (λ kr. Returns-pure (Of from) (in_memory kr pk) same) u t k rest)
    where
      in_memory : lib.SdkKeyring → Bytes → Keyring lib
      in_memory kr pk = record { sdk_keyring = kr; addr = lib.address_of pk }

  with_address-Of :
      (kr : lib.SdkKeyring) (r : KeyRecord) (from : Bytes)
      → ((b : Bytes) → r.get_address ≡ ok b → b ≡ from)
      → Returns (Of from) (with_address lib kr r)
  with_address-Of kr r from own s t k h =
      let (addr, u, got, rest) =
        bind_ok (wrap "failed to get address from key record" (lift r.get_address))
          (λ addr. pure (record { sdk_keyring = kr; addr = addr })) s k t h in
      sym (ap (λ (x : Keyring lib). x.addr) (pure_ok _ k u t rest).0)
      ∙ own addr
          (lift_ok r.get_address s u addr
            (wrap_ok "failed to get address from key record" (lift r.get_address) s u addr got)).0

  from_record-Of :
      (use_ledger : Bool) (kr : lib.SdkKeyring) (r : KeyRecord) (from : Bytes) (type : KeyType)
      → ((b : Bytes) → r.get_address ≡ ok b → b ≡ from)
      → Returns (Of from) (from_record lib use_ledger kr r type)
  unfolding from_record
  from_record-Of use_ledger kr r from local own = with_address-Of kr r from own
  from_record-Of use_ledger kr r from ledger own =
      Returns-if (Of from) (not use_ledger) _ _
        (Returns-raise (Of from) (raised "key %s is a Ledger reference, enable Ledger option"))
        (with_address-Of kr r from own)
  from_record-Of use_ledger kr r from other own =
      Returns-raise (Of from) (raised "unsupported key type: %s")

  from_dir-Of :
      (finds : FindsByAddress) (cfg : KeyringConfig) (from : Bytes)
      → lib.acc_address_from_bech32 cfg.key_from ≡ ok from
      → Returns (Of from) (new_keyring_from_dir lib cfg)
  unfolding new_keyring_from_dir
  from_dir-Of finds cfg from e =
      Returns-if (Of from) _ _ _
        (Returns-raise (Of from) (raised "insufficient cosmos details provided"))
        (Returns-bind (Of from) (absolute_dir lib cfg.keyring_dir) _ λ dir.
          Returns-bind (Of from)
            (wrap "failed to initialize cosmos keyring" (
              lib.new_keyring cfg.keyring_app_name cfg.keyring_backend dir
                (reader_for lib cfg.key_passphrase)))
            _
            λ kr s t k h.
              let ask = record_for lib kr cfg.key_from (lib.acc_address_from_bech32 cfg.key_from) in
              let (r, u, asked, rest) =
                bind_ok ask (λ r. from_record lib cfg.use_ledger kr r r.key_type) s k t h in
              let found : lib.key_by_address kr from s ≡ (ok r, u) =
                ap (λ o. record_for lib kr cfg.key_from o s) (sym e) ∙ asked in
              from_record-Of cfg.use_ledger kr r from r.key_type
                (λ b got. finds kr from b s u r found got) u t k rest)

  -- When `KeyFrom` holds an account address, the keyring that is returned without an error is that
  -- of the address, whether its key comes from the private key or from the keyring directory. The
  -- SDK's keyring is taken to find by an address only a record of that address.
  pub new_keyring-address :
      (finds : FindsByAddress) (cfg : KeyringConfig) (b : ℕ) (bs from : Bytes) (s t : S)
      (k : Keyring lib)
      → cfg.key_from ≡ b ∷ bs
      → lib.acc_address_from_bech32 cfg.key_from ≡ ok from
      → new_keyring lib cfg s ≡ (ok k, t)
      → k.addr ≡ from
  unfolding new_keyring
  new_keyring-address finds cfg b bs from s t k q e h =
      Returns-if (Of from) _ _ _ (in_memory-Of cfg b bs from q e) (from_dir-Of finds cfg from e) s t
        k h
