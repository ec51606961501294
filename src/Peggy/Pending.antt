-- ===== src/Peggy/Pending.antt =====
-- The list of pending transactions, orchestrator/ethereum/peggy/pending_transactions.go. Times are
-- nanoseconds; what a method returns beside an error-free list is the list as the call leaves it.
pub mod Free
pub mod Window
use peggo.Base.{
  ℕ, ◌+◌, Bool, true, false, Bytes, List, [], ◌∷◌, ◌++◌, ◌||◌, bytes_eq, ltb, length, take, drop,
  if◌then◌else◌,
}
use peggo.Effect.{Result, ok, err, panic}

pub record PendingTxInput : Type 0 where
  pub input_data : Bytes
  pub received_time : ℕ

-- The four-byte identifiers of submitBatch and updateValset in the contract's ABI, which is generated.
pub record MethodIds : Type 0 where
  pub submit_batch : Bytes
  pub update_valset : Bytes

-- `inputData[:4]` panics if the input has fewer than four bytes. (A decoded input has no spare
-- capacity behind its length.)
unfoldable pub is_batch_or_valset_update_tx : MethodIds → Bytes → Result Bool
is_batch_or_valset_update_tx ids input =
    if ltb (length input) 4
    then panic "slice bounds out of range [:4]"
    else ok (bytes_eq ids.submit_batch (take 4 input) || bytes_eq ids.update_valset (take 4 input))

abbrev pub max_pending : ℕ
max_pending = 100

-- `*p = append(*p, …)`, and the oldest entry goes when there are more than 100.
unfoldable pub enqueue : List PendingTxInput → PendingTxInput → List PendingTxInput
enqueue p x = let q = p ++ x ∷ [] in if ltb max_pending (length q) then drop 1 q else q

abbrev pub add_if :
    Result Bool → List PendingTxInput → PendingTxInput → Result (List PendingTxInput)
add_if (ok true) p x = ok (enqueue p x)
add_if (ok false) p x = ok p
add_if (err e) p x = err e
add_if (panic t) p x = panic t

-- `now` is the time at which the transaction arrives.
unfoldable pub add_pending_tx_input :
    MethodIds → ℕ → List PendingTxInput → Bytes → Result (List PendingTxInput)
unfolding is_batch_or_valset_update_tx enqueue
add_pending_tx_input ids now p input =
    add_if (is_batch_or_valset_update_tx ids input) p
      (record { input_data = input; received_time = now })

-- The first entry with the same input decides.
unfoldable pub is_pending_tx_input : List PendingTxInput → Bytes → ℕ → ℕ → Bool
is_pending_tx_input [] input wait now = false
is_pending_tx_input (x ∷ xs) input wait now =
    if bytes_eq x.input_data input
    then ltb now (x.received_time + wait)
    else is_pending_tx_input xs input wait now

-- The loop of SubscribeToPendingTxs, over the transactions that arrive, with their times.
unfoldable pub subscribe :
    MethodIds → Result (List PendingTxInput) → List (ℕ × Bytes) → Result (List PendingTxInput)
unfolding add_pending_tx_input
subscribe ids r [] = r
subscribe ids (ok p) ((now, input) ∷ txs) = subscribe ids (add_pending_tx_input ids now p input) txs
subscribe ids (err e) ((now, input) ∷ txs) = err e
subscribe ids (panic t) ((now, input) ∷ txs) = panic t
