-- ===== src/EthProvider/Sent.antt =====
-- The transactions that TransactFn of orchestrator/ethereum/provider/provider.go sends.
use peggo.Base.{
  ℕ, ◌≡◌, ◌∙◌, refl, sym, ap, arith, false, Bytes, codes, String, Option, none, some, ◌==◌,
}
use peggo.Effect.{Result, ok, M, pure, lift, ◌>>=◌}
use peggo.Effect.Keeps.{bind_ok, pure_ok, lift_ok}
use peggo.Types.{Address, Hash, u64}
use peggo.EthProvider.{
  RawTx, TransactOpts, RpcLib, transact_fn, send_transaction_with_ret, gas_limit_of, or_else,
  sign_raw, recipient_of, value_of,
}

module _ {S Signed : Type 0} (rpc : RpcLib S Signed) where
  -- What the options give is what the transaction has.
  abbrev pub Follows : TransactOpts Signed → Bytes → RawTx → Type 0
  Follows opts input tx =
      (tx.input ≡ input)
      × ((n : ℕ) → opts.nonce ≡ some n → tx.nonce ≡ u64 n)
      × ((p : ℕ) → opts.gas_price ≡ some p → tx.gas_price ≡ p)
      × ((opts.gas_limit == 0) ≡ false → tx.gas_limit ≡ opts.gas_limit)

  -- The node has returned the hash for the signed transaction.
  abbrev pub Submitted : Signed → Hash → S → Type 0
  Submitted signed hash t =
      (bytes : Bytes) × (s : S) × (rpc.encode_to_bytes signed ≡ ok bytes)
      × (rpc.call (codes "eth_sendRawTransaction") (rpc.hex_encode bytes) s ≡ (ok hash, t))

  or_else-some :
      {A : Type 0} (text : String) (call : M S A) (o : Option A) (a b : A) (s t : S)
      → or_else rpc text call o s ≡ (ok a, t)
      → o ≡ some b
      → a ≡ b
  or_else-some text call none a b s t h e = absurd (ground arith)
  or_else-some text call (some c) a b s t h e =
      let inner : c ≡ b = ground arith in sym (pure_ok c a s t h).0 ∙ inner

  gas_limit_of-set :
      (opts : TransactOpts Signed) (contract : Option Address) (a : Address) (p v g : ℕ)
      (input : Bytes) (s t : S)
      → gas_limit_of rpc opts contract a p v input s ≡ (ok g, t)
      → (opts.gas_limit == 0) ≡ false
      → g ≡ opts.gas_limit
  unfolding gas_limit_of
  gas_limit_of-set opts contract a p v g input s t h e =
      sym (pure_ok opts.gas_limit g s t (rw e at h)).0

  send-Submitted :
      (signed : Signed) (hash : Hash) (s t : S)
      → send_transaction_with_ret rpc signed s ≡ (ok hash, t)
      → Submitted signed hash t
  unfolding send_transaction_with_ret
  send-Submitted signed hash s t h =
      let (bytes, u, q, rest) =
        bind_ok (lift (rpc.encode_to_bytes signed))
          (λ b. rpc.call (codes "eth_sendRawTransaction") (rpc.hex_encode b)) s hash t h in
      (bytes, u, (lift_ok (rpc.encode_to_bytes signed) s u bytes q).0, rest)

  sign_raw-ok :
      (o : Option (Address → RawTx → Result Signed)) (a : Address) (tx : RawTx) (signed : Signed)
      (s t : S)
      → sign_raw rpc o a tx s ≡ (ok signed, t)
      → (signer : Address → RawTx → Result Signed) × (o ≡ some signer) × (signer a tx ≡ ok signed)
  sign_raw-ok none a tx signed s t h = absurd (ground arith)
  sign_raw-ok (some signer) a tx signed s t h =
      (signer, refl, (lift_ok (signer a tx) s t signed h).0)

  -- The call that signs a transaction and sends it.
  abbrev sends : Signed → M S (Hash × Signed)
  sends x = send_transaction_with_ret rpc x >>= λ y. pure (y, x)

  sends-Submitted :
      (x signed : Signed) (hash : Hash) (s t : S)
      → sends x s ≡ (ok (hash, signed), t)
      → (x ≡ signed) × Submitted signed hash t
  sends-Submitted x signed hash s t h =
      let (y, u, sent, rest) =
        bind_ok (send_transaction_with_ret rpc x) (λ y. pure (y, x)) s (hash, signed) t h in
      go y u sent (pure_ok (y, x) (hash, signed) u t rest)
    where
      go :
          (y : Hash) (u : S)
          → send_transaction_with_ret rpc x s ≡ (ok y, u)
          → ◌≡◌ {A = Hash × Signed} (y, x) (hash, signed) × (u ≡ t)
          → (x ≡ signed) × Submitted signed hash t
      go y u sent (same, at_end) = (
        (λ i. (same i).1),
        send-Submitted signed hash s t (
            sym (λ i. send_transaction_with_ret rpc (same i).1 s) ∙ sent ∙ λ i.
            (ok (same i).0, at_end i)),
      )

  sign_and_send-Submitted :
      (o : Option (Address → RawTx → Result Signed)) (a : Address) (tx : RawTx) (signed : Signed)
      (hash : Hash) (s t : S)
      → (sign_raw rpc o a tx >>= sends) s ≡ (ok (hash, signed), t)
      → (signer : Address → RawTx → Result Signed) × (o ≡ some signer)
        × (signer a tx ≡ ok signed)
        × Submitted signed hash t
  sign_and_send-Submitted o a tx signed hash s t h =
      let (x, u, q, rest) = bind_ok (sign_raw rpc o a tx) sends s (hash, signed) t h in
      let (signer, is, signs) = sign_raw-ok o a tx x s u q in
      let (same, submitted) = sends-Submitted x signed hash u t rest in
      (signer, is, signs ∙ ap ok same, submitted)

  -- A call that ends without an error has signed, with the signer of the options, a transaction with
  -- the input and with the nonce, gas price and gas limit of the options where they are given; and
  -- the hash that it gives is the node's answer to that transaction.
  pub transact_fn-Submitted :
      (address : Address) (opts : TransactOpts Signed) (contract : Option Address) (input : Bytes)
      (hash : Hash) (signed : Signed) (s t : S)
      → transact_fn rpc address opts contract input s ≡ (ok (hash, signed), t)
      → (tx : RawTx) × Follows opts input tx
        × (signer : Address → RawTx → Result Signed) × (opts.signer ≡ some signer)
        × (signer opts.from_address tx ≡ ok signed)
        × Submitted signed hash t
  unfolding transact_fn
  transact_fn-Submitted address opts contract input hash signed s t h =
      let raw : ℕ → ℕ → ℕ → RawTx = λ nonce gas_price gas_limit. record {
        nonce = u64 nonce;
        recipient = recipient_of rpc contract address;
        value = value_of rpc opts.value;
        gas_limit = gas_limit;
        gas_price = gas_price;
        input = input;
      } in
      let sign : ℕ → ℕ → ℕ → M S (Hash × Signed) =
        λ n p g. sign_raw rpc opts.signer opts.from_address (raw n p g) >>= sends in
      let gas : ℕ → M S ℕ =
        λ p. gas_limit_of rpc opts contract address p (value_of rpc opts.value) input in
      let priced : ℕ → ℕ → M S (Hash × Signed) = λ n p. gas p >>= sign n p in
      let ask_nonce =
        or_else rpc "failed to retrieve account nonce" (rpc.pending_nonce_at opts.from_address)
          opts.nonce in
      let ask_price =
        or_else rpc "failed to suggest gas price" rpc.suggest_gas_price opts.gas_price in
      let (n, s1, q1, h1) = bind_ok ask_nonce (λ n. ask_price >>= priced n) s (hash, signed) t h in
      let (p, s2, q2, h2) = bind_ok ask_price (priced n) s1 (hash, signed) t h1 in
      let (g, s3, q3, h3) = bind_ok (gas p) (sign n p) s2 (hash, signed) t h2 in
      let (signer, is, signs, submitted) =
        sign_and_send-Submitted opts.signer opts.from_address (raw n p g) signed hash s3 t h3 in
      (
        raw n p g,
        (
          refl,
          (λ k e.
              ap u64 (or_else-some "failed to retrieve account nonce" _ opts.nonce n k s s1 q1 e)),
          (λ k e. or_else-some "failed to suggest gas price" _ opts.gas_price p k s1 s2 q2 e),
          (λ e. gas_limit_of-set opts contract address p _ g input s2 s3 q3 e),
        ),
        signer,
        is,
        signs,
        submitted,
      )
