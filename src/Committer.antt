-- ===== src/Committer.antt =====
-- The Ethereum committer, orchestrator/ethereum/committer/eth_committer.go: SendTx prices a
-- transaction, takes the next nonce of the account and sends, with a loop for the node's refusals.
pub mod Sending
pub mod Options
use peggo.Base.{
  ℕ, zero, suc, ◌+◌, ◌-◌, ◌^◌, Bool, true, false, Bytes, String, codes, contains, ◌++◌, ◌||◌, ltb,
  Option, none, some, if◌then◌else◌,
}
use peggo.Effect.{error_text, Error, failed, raised, wrapped, Result, ok, err, panic, M}
use peggo.Types.{Address, Hash, u64}
use peggo.NonceCache.{Nonces, get, incr, sync}

pub record Transaction : Type 0 where
  pub nonce : ℕ
  pub recipient : Address
  pub gas_limit : ℕ
  pub gas_price : ℕ
  pub tx_data : Bytes

-- The EVM provider and the signer of the account, with their own state `S`.
pub record Provider (S : Type 0) : Type 0 where
  pub suggest_gas_price : M S ℕ
  pub estimate_gas : (recipient : Address) (gas_price : ℕ) (tx_data : Bytes) → M S ℕ
  pub pending_nonce_at : Address → M S ℕ
  pub sign : Transaction → Result Bytes
  pub send_transaction_with_ret : Transaction → (signed : Bytes) → M S Hash

-- `adjust` is the product with ethGasPriceAdjustment, a float, truncated to an integer.
pub record EthCommitter (S : Type 0) : Type 0 where
  pub from_address : Address
  pub adjust : ℕ → ℕ
  pub eth_max_gas_price : ℕ
  pub evm_provider : Provider S

-- The provider's state and the nonce cache.
pub record State (S : Type 0) : Type 0 where
  pub env : S
  pub nonce_cache : Nonces

-- The cases of the `switch` on the text of the node's refusal.
pub data Refusal : Type 0 where
  invalid_sender wrong_nonce known_transaction vm_exception other : Refusal

unfoldable pub classify : Bytes → Refusal
classify text =
    if contains (codes "invalid sender") text
    then invalid_sender
    else if contains (codes "nonce too low") text
        || (contains (codes "nonce too high") text
            || contains (codes "the tx doesn't have the correct nonce") text)
    then wrong_nonce
    else if contains (codes "known transaction") text
    then known_transaction
    else if contains (codes "VM Exception") text
    then vm_exception
    else other

-- `big.NewInt(nonce).Uint64()`: the magnitude of the `int64`.
unfoldable pub tx_nonce : ℕ → ℕ
tx_nonce n = if ltb n (2 ^ 63) then n else 2 ^ 64 - n

-- What a call returns with the state that it leaves; `none` if the loop ran out of fuel.
abbrev pub Outcome : Type 0 → Type 0
Outcome S = Option (Result Hash × State S)

module _ {S : Type 0} (e : EthCommitter S) where
  abbrev pub incremented : State S → State S
  incremented st = record st { nonce_cache = (incr e.from_address st.nonce_cache).1 }

  -- `resyncNonces(e.fromAddress)`.
  unfoldable pub resync_nonces : State S → State S
  resync_nonces st =
      let (r, t) = e.evm_provider.pending_nonce_at e.from_address st.env in
      record { env = t; nonce_cache = sync e.from_address r st.nonce_cache }

  -- The body of the loop after the node has refused with `error`. `again` is the next round of the
  -- loop; it is given the local variable `nonce` and `resyncUsed`. In the case `known transaction` the
  -- source declares a new variable `nonce` for the incremented one, so the loop goes on with the old.
  unfoldable pub after_refusal :
      Refusal → Error → ℕ → Bool → (ℕ → Bool → State S → Outcome S) → State S → Outcome S
  unfolding resync_nonces
  after_refusal invalid_sender error nonce used again st =
      some (err (raised "failed to sign transaction"), incremented st)
  after_refusal wrong_nonce error nonce true again st =
      some (err (wrapped "nonce %d mismatch" error), st)
  after_refusal wrong_nonce error nonce false again st =
      let t = resync_nonces st in
      let (found, m) = get e.from_address t.nonce_cache in
      again found.0 true (record t { nonce_cache = m })
  after_refusal known_transaction error nonce used again st = again nonce used (incremented st)
  after_refusal vm_exception error nonce used again st = some (err error, incremented st)
  after_refusal other error nonce used again st = some (err error, st)

  abbrev pub after_send :
      Result Hash → ℕ → Bool → (ℕ → Bool → State S → Outcome S) → State S → Outcome S
  after_send (ok tx_hash) nonce used again st = some (ok tx_hash, incremented st)
  after_send (err error) nonce used again st =
      after_refusal (classify (error_text error)) error nonce used again st
  after_send (panic p) nonce used again st = some (panic p, st)

  -- One round: sign the transaction under the nonce and send it.
  abbrev pub send_signed :
      Result Bytes → Transaction → ℕ → Bool → (ℕ → Bool → State S → Outcome S) → State S → Outcome S
  send_signed (ok signed) tx nonce used again st =
      let (r, t) = e.evm_provider.send_transaction_with_ret tx signed st.env in
      after_send r nonce used again (record st { env = t })
  send_signed (err error) tx nonce used again st =
      some (err (wrapped "failed to sign transaction" error), st)
  send_signed (panic p) tx nonce used again st = some (panic p, st)

  -- `for { … }`, on fuel.
  unfoldable pub send_loop : (fuel : ℕ) → Transaction → ℕ → Bool → State S → Outcome S
  unfolding after_refusal
  send_loop zero tx nonce used st = none
  send_loop (suc fuel) tx nonce used st =
      let tx' : Transaction = record tx { nonce = tx_nonce nonce } in
      send_signed (e.evm_provider.sign tx') tx' nonce used (send_loop fuel tx) st

  -- The function that SendTx runs under `Serialize`.
  unfoldable pub send_serialized : (fuel : ℕ) → Transaction → State S → Outcome S
  unfolding send_loop
  send_serialized fuel tx st =
      let (found, m) = get e.from_address st.nonce_cache in
      send_loop fuel tx found.0 false (record st { nonce_cache = m })

  abbrev pub send_with_limit : (fuel : ℕ) → Result ℕ → Address → Bytes → ℕ → State S → Outcome S
  send_with_limit fuel (ok gas_limit) recipient tx_data gas_price st =
      send_serialized fuel
        (record {
          nonce = 0;
          recipient = recipient;
          gas_limit = gas_limit;
          gas_price = gas_price;
          tx_data = tx_data;
        })
        st
  send_with_limit fuel (err error) recipient tx_data gas_price st =
      some (err (wrapped "failed to estimate gas" error), st)
  send_with_limit fuel (panic p) recipient tx_data gas_price st = some (panic p, st)

  abbrev pub send_priced : (fuel : ℕ) → Result ℕ → Address → Bytes → State S → Outcome S
  send_priced fuel (ok suggested) recipient tx_data st =
      if ltb e.eth_max_gas_price (e.adjust suggested)
      then some (err (raised "Suggested gas price %v is greater than max gas price %v"), st)
      else (let (r, t) =
            e.evm_provider.estimate_gas recipient (e.adjust suggested) tx_data st.env in
          send_with_limit fuel r recipient tx_data (e.adjust suggested) (record st { env = t }))
  send_priced fuel (err error) recipient tx_data st =
      some (err (wrapped "failed to suggest gas price: %v" error), st)
  send_priced fuel (panic p) recipient tx_data st = some (panic p, st)

  unfoldable pub send_tx : (fuel : ℕ) → Address → Bytes → State S → Outcome S
  unfolding send_serialized
  send_tx fuel recipient tx_data st =
      let (r, t) = e.evm_provider.suggest_gas_price st.env in
      send_priced fuel r recipient tx_data (record st { env = t })
