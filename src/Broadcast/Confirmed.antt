-- ===== src/Broadcast/Confirmed.antt =====
-- What a confirmation that Injective has accepted holds, and what a relayer makes of it.
use peggo.Base.{
  ℕ, ◌≡◌, ◌∙◌, refl, sym, subst, Bytes, true, bytes_eq, bytes_eq_refl, some, List, [], ◌∷◌, ◌++◌,
  arith,
}
use peggo.Effect.{ok, M, lift, ◌>>=◌}
use peggo.Effect.Keeps.{bind_ok, lift_ok}
use peggo.Types.{Address, Hash, Valset, OutgoingTxBatch}
use peggo.Peggy.Checkpoint.{encode_valset_confirm, encode_tx_batch_confirm}
use peggo.Peggy.Repack.{split_signature, sig_to_vrs}
use peggo.Peggy.Repack.Spec.{slot, last_confirm}
use peggo.Broadcast.Messages.{valset_confirm_msg, confirm_batch_msg}
use peggo.Broadcast.{
  ChainClient, broadcast, sign_hash, valset_confirm, batch_confirm, send_valset_confirm,
  send_batch_confirm,
}
use peggo.Broadcast.Accepted.{Taken, broadcast-Taken}

module _ {C : Type 0} (signer : C → Bytes) where
  -- The confirmation that comes last is the last one of its signer.
  last_confirm-append :
      (a : Bytes) (cs : List C) (c : C)
      → bytes_eq (signer c) a ≡ true
      → last_confirm signer a (cs ++ c ∷ []) ≡ some c
  last_confirm-append a [] c h = rw h
  last_confirm-append a (x ∷ cs) c h = rw (last_confirm-append a cs c h)

module _ {S : Type 0} (c : ChainClient S) where
  sign_ok :
      (a : Address) (h : Hash) (s t : S) (signature : Bytes)
      → sign_hash c a h s ≡ (ok signature, t)
      → (c.eth_sign_fn a h ≡ ok signature) × (s ≡ t)
  unfolding sign_hash
  sign_ok a h s t signature e = ground arith

  -- The parts of the signature that the relayer finds for the signer's address.
  abbrev pub Splits : {C : Type 0} → (signer signature : C → Bytes) → Address → Bytes → C → Type 0
  Splits {C} signer signature eth_from raw confirm =
      (cs : List C) (power : ℕ)
      → slot signer signature c.geth (cs ++ confirm ∷ [])
          (record { power = power; ethereum_address = c.geth.hex eth_from })
        ≡ split_signature c.geth raw

  Splits-signature :
      {C : Type 0} (signer signature : C → Bytes) (eth_from : Address) (raw : Bytes) (confirm : C)
      → ((b : Bytes) → c.geth.from_hex (c.bytes_to_hex b) ≡ b)
      → signer confirm ≡ c.geth.hex eth_from
      → signature confirm ≡ c.bytes_to_hex raw
      → Splits signer signature eth_from raw confirm
  unfolding sig_to_vrs
  Splits-signature signer signature eth_from raw confirm hex_back who what cs power =
      let same : bytes_eq (signer confirm) (c.geth.hex eth_from) ≡ true =
        rw who (bytes_eq_refl (c.geth.hex eth_from)) in
      let last = last_confirm-append signer (c.geth.hex eth_from) cs confirm same in
      rw (last, slot) (rw (what, hex_back raw) refl)

  -- If the hexadecimal text of bytes is read back as these bytes, then a confirmation of a validator
  -- set that is sent without an error has been taken by the chain with the code 0, carries the
  -- signature of the encoded set by the given Ethereum account, and when it is the last of a list of
  -- confirmations, the relayer's check finds the parts of this signature for a member with the
  -- account's address.
  pub send_valset_confirm-Splits :
      (eth_from : Address) (peggy_id : Hash) (valset : Valset) (s t : S)
      → ((b : Bytes) → c.geth.from_hex (c.bytes_to_hex b) ≡ b)
      → send_valset_confirm c eth_from peggy_id valset s ≡ (ok tt, t)
      → (h : Hash) × (raw : Bytes) × (encode_valset_confirm c.geth c.checkpoint peggy_id valset
          ≡ ok h)
        × (c.eth_sign_fn eth_from h ≡ ok raw)
        × Taken c (valset_confirm_msg (valset_confirm c eth_from valset raw)) s t
        × Splits
            (λ m. m.eth_address)
            (λ m. m.signature)
            eth_from
            raw
            (valset_confirm c eth_from valset raw)
  unfolding send_valset_confirm
  send_valset_confirm-Splits eth_from peggy_id valset s t hex_back e =
      let send : Bytes → M S (Unit {0}) = λ raw.
        broadcast c "failed to broadcast MsgValsetConfirm"
          (valset_confirm_msg (valset_confirm c eth_from valset raw)) in
      let code = encode_valset_confirm c.geth c.checkpoint peggy_id valset in
      let (h, u, coded, more) =
        bind_ok (lift code) (λ x. sign_hash c eth_from x >>= send) s tt t e in
      let (raw, v, signed, rest) = bind_ok (sign_hash c eth_from h) send u tt t more in
      let (is_code, same_s) = lift_ok code s u h coded in
      let (is_signature, same_u) = sign_ok eth_from h u v raw signed in
      (
        h,
        raw,
        is_code,
        is_signature,
        subst (λ x. Taken c (valset_confirm_msg (valset_confirm c eth_from valset raw)) x t)
            (sym (same_s ∙ same_u)) (broadcast-Taken c _ _ v t tt rest),
        Splits-signature (λ m. m.eth_address) (λ m. m.signature) eth_from raw
            (valset_confirm c eth_from valset raw) hex_back refl refl,
      )

  -- If the hexadecimal text of bytes is read back as these bytes, then a confirmation of a batch that
  -- is sent without an error has been taken by the chain with the code 0, carries the signature of the
  -- encoded batch by the given Ethereum account, and when it is the last of a list of confirmations,
  -- the relayer's check finds the parts of this signature for a member with the account's address.
  pub send_batch_confirm-Splits :
      (eth_from : Address) (peggy_id : Hash) (batch : OutgoingTxBatch) (s t : S)
      → ((b : Bytes) → c.geth.from_hex (c.bytes_to_hex b) ≡ b)
      → send_batch_confirm c eth_from peggy_id batch s ≡ (ok tt, t)
      → (h : Hash) × (raw : Bytes) × (encode_tx_batch_confirm c.geth c.checkpoint peggy_id batch
          ≡ ok h)
        × (c.eth_sign_fn eth_from h ≡ ok raw)
        × Taken c (confirm_batch_msg (batch_confirm c eth_from batch raw)) s t
        × Splits
            (λ m. m.eth_signer)
            (λ m. m.signature)
            eth_from
            raw
            (batch_confirm c eth_from batch raw)
  unfolding send_batch_confirm
  send_batch_confirm-Splits eth_from peggy_id batch s t hex_back e =
      let send : Bytes → M S (Unit {0}) = λ raw.
        broadcast c "failed to broadcast MsgConfirmBatch"
          (confirm_batch_msg (batch_confirm c eth_from batch raw)) in
      let code = encode_tx_batch_confirm c.geth c.checkpoint peggy_id batch in
      let (h, u, coded, more) =
        bind_ok (lift code) (λ x. sign_hash c eth_from x >>= send) s tt t e in
      let (raw, v, signed, rest) = bind_ok (sign_hash c eth_from h) send u tt t more in
      let (is_code, same_s) = lift_ok code s u h coded in
      let (is_signature, same_u) = sign_ok eth_from h u v raw signed in
      (
        h,
        raw,
        is_code,
        is_signature,
        subst (λ x. Taken c (confirm_batch_msg (batch_confirm c eth_from batch raw)) x t)
            (sym (same_s ∙ same_u)) (broadcast-Taken c _ _ v t tt rest),
        Splits-signature (λ m. m.eth_signer) (λ m. m.signature) eth_from raw
            (batch_confirm c eth_from batch raw) hex_back refl refl,
      )
