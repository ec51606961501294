-- ===== src/EthProvider.antt =====
-- TransactFn and SendTransactionWithRet of orchestrator/ethereum/provider/provider.go: a transaction
-- that is built from options, signed and sent.
pub mod Sent
use peggo.Base.{
  ℕ, Bool, true, false, not, Bytes, codes, String, Option, none, some, List, [], ◌∷◌, ◌==◌,
  is_nonempty, if◌then◌else◌,
}
use peggo.Effect.{
  Error, failed, raised, wrapped, Result, ok, err, panic, M, pure, raise, lift, wrap, ◌>>=◌, ◌>>◌,
}
use peggo.Types.{Address, Hash, u64}

-- A transaction; the recipient is nil when it creates a contract.
pub record RawTx : Type 0 where
  pub nonce : ℕ
  pub recipient : Option Address
  pub value : ℕ
  pub gas_limit : ℕ
  pub gas_price : ℕ
  pub input : Bytes

-- bind.TransactOpts; a pointer or function that may be nil is an `Option`.
pub record TransactOpts (Signed : Type 0) : Type 0 where
  pub from_address : Address
  pub nonce : Option ℕ
  pub value : Option ℕ
  pub gas_price : Option ℕ
  pub gas_limit : ℕ
  pub signer : Option (Address → RawTx → Result Signed)

-- The RPC client of go-ethereum, and its encodings.
pub record RpcLib (S Signed : Type 0) : Type 0 where
  pub encode_to_bytes : Signed → Result Bytes
  pub hex_encode : Bytes → Bytes
  pub call : (method : Bytes) → (argument : Bytes) → M S Hash
  pub pending_nonce_at : Address → M S ℕ
  pub suggest_gas_price : M S ℕ
  pub pending_code_at : Address → M S Bytes
  pub estimate_gas :
      (from : Address)
      → (contract : Option Address) → (gas_price value : ℕ) → (input : Bytes) → M S ℕ

module _ {S Signed : Type 0} (rpc : RpcLib S Signed) where
  unfoldable pub send_transaction_with_ret : Signed → M S Hash
  send_transaction_with_ret tx = do
    data_bytes ← lift (rpc.encode_to_bytes tx)
    rpc.call (codes "eth_sendRawTransaction") (rpc.hex_encode data_bytes)

  -- `errors.Errorf` with the text of the error at its end.
  abbrev pub or_else : {A : Type 0} → String → M S A → Option A → M S A
  or_else text call none = wrap text call
  or_else text call (some a) = pure a

  -- Gas cannot be estimated for a contract without code.
  unfoldable pub check_code :
      (contract : Option Address) → (contract_address : Address) → M S (Unit {0})
  check_code none contract_address = pure tt
  check_code (some c) contract_address = do
    code ← rpc.pending_code_at contract_address
    if not (is_nonempty code) then raise (raised "no contract code at given address") else pure tt

  unfoldable pub gas_limit_of :
      TransactOpts Signed
      → (contract : Option Address) → (contract_address : Address) → (gas_price value : ℕ)
      → (input : Bytes) → M S ℕ
  gas_limit_of opts contract contract_address gas_price value input =
      if not (opts.gas_limit == 0) then pure opts.gas_limit else do
        check_code contract contract_address
        wrap "failed to estimate gas needed"
            (rpc.estimate_gas opts.from_address contract gas_price value input)

  abbrev pub recipient_of : (contract : Option Address) → Address → Option Address
  recipient_of none contract_address = none
  recipient_of (some c) contract_address = some contract_address

  abbrev pub value_of : Option ℕ → ℕ
  value_of none = 0
  value_of (some v) = v

  abbrev pub sign_raw : Option (Address → RawTx → Result Signed) → Address → RawTx → M S Signed
  sign_raw none from raw_tx = raise (raised "no signer to authorize the transaction with")
  sign_raw (some signer) from raw_tx = lift (signer from raw_tx)

  -- The result is the hash that goes to `txHashOut`, and the signed transaction. A nonce of the options
  -- is cut to 64 bits.
  unfoldable pub transact_fn :
      (contract_address : Address)
      → TransactOpts Signed
      → (contract : Option Address) → (input : Bytes) → M S (Hash × Signed)
  transact_fn contract_address opts contract input = do
    nonce ←
        or_else "failed to retrieve account nonce" (rpc.pending_nonce_at opts.from_address)
          opts.nonce
    gas_price ← or_else "failed to suggest gas price" rpc.suggest_gas_price opts.gas_price
    gas_limit ← gas_limit_of opts contract contract_address gas_price (value_of opts.value) input
    signed_tx ← sign_raw opts.signer opts.from_address (record {
      nonce = u64 nonce;
      recipient = recipient_of contract contract_address;
      value = value_of opts.value;
      gas_limit = gas_limit;
      gas_price = gas_price;
      input = input;
    })
    tx_hash ← send_transaction_with_ret signed_tx
    pure (tx_hash, signed_tx)
