-- ===== src/Tests/ContractRuns.antt =====
-- Calls of the Peggy contract and the list of pending transactions, on small inputs.
use peggo.Base.{ℕ, ◌<◌, ◌≡◌, refl, arith, false, Bytes, List, [], ◌∷◌, ◌++◌, length, bytes_eq}
use peggo.Effect.{ok, panic, pure}
use peggo.Types.{OutgoingTxBatch, MsgValsetConfirm, MsgConfirmBatch}
use peggo.Peggy.Repack.{
  Vrs, Repacked, sig_to_vrs, no_sig, repack, check_valset_sigs_and_repack,
  check_batch_sigs_and_repack, repack_members, signer_to_sig, insert_sig, find_sig, good_sig,
  split_signature, adjust_v, peggy_power_to_percent,
}
use peggo.Peggy.Repack.Approved.{Approved}
use peggo.Peggy.Repack.Spec.{repack-arrays, arrays}
use peggo.Peggy.Pending.{PendingTxInput, MethodIds, is_pending_tx_input, subscribe, max_pending}
use peggo.Peggy.Pending.Window.{
  last, bridge_txs, subscribe-window, short_input_panics, is_pending-first,
}
use peggo.Peggy.Submit.{
  PeggyContract, send_eth_valset_update, send_transaction_batch, submit, new_args, current_args,
  batch_args,
}
use peggo.Peggy.Submit.Guards.{Sent, send_eth_valset_update-Sent, send_transaction_batch-Sent}
use peggo.Tests.Fixtures.{fixed_point, geth, valset}

-- Sixty-five bytes.
abbrev signature : ℕ → Bytes
signature v =
    eight ++ (eight ++ (eight ++ (eight ++ (eight ++ (eight ++ (eight ++ (eight ++ v ∷ [])))))))
  where
    eight : Bytes
    eight = 9 ∷ 9 ∷ 9 ∷ 9 ∷ 9 ∷ 9 ∷ 9 ∷ 9 ∷ []

abbrev confirm : ℕ → ℕ → MsgValsetConfirm
confirm a v = record { nonce = 6; orchestrator = []; eth_address = a ∷ []; signature = signature v }

abbrev batch_confirm : ℕ → ℕ → MsgConfirmBatch
batch_confirm a v = record {
  nonce = 6;
  token_contract = 7 ∷ [];
  eth_signer = a ∷ [];
  orchestrator = [];
  signature = signature v;
}

-- Validator 1 has confirmed twice, validator 2 not at all.
abbrev confirms : List MsgValsetConfirm
confirms = confirm 1 28 ∷ confirm 3 1 ∷ confirm 1 0 ∷ []

abbrev batch_confirms : List MsgConfirmBatch
batch_confirms = batch_confirm 1 28 ∷ batch_confirm 3 1 ∷ []

abbrev signed : ℕ → Vrs
signed v = record { v = v; r = 9; s = 9 }

abbrev batch : OutgoingTxBatch
batch = record {
  batch_nonce = 6;
  batch_timeout = 200;
  transactions = record { dest_address = 4 ∷ []; erc20_token = 10; erc20_fee = 1 } ∷ [];
  token_contract = 7 ∷ [];
  block = 50;
}

repack-arrays_example :
    repack
      (λ c. c.eth_address)
      (λ c. c.signature)
      "no signatures in valset confirmation"
      fixed_point
      geth
      (valset 5)
      confirms
    ≡ ok (
        arrays
          (λ (c : MsgValsetConfirm). c.eth_address)
          (λ c. c.signature)
          geth
          confirms
          (valset 5).members
          (signed 27 ∷ no_sig ∷ signed 28 ∷ []))
unfolding sig_to_vrs split_signature adjust_v peggy_power_to_percent bytes_eq
repack-arrays_example =
    repack-arrays (λ c. c.eth_address) (λ c. c.signature) "no signatures in valset confirmation"
      fixed_point geth (valset 5) (confirm 1 28) (confirm 3 1 ∷ confirm 1 0 ∷ [])
      (signed 27 ∷ no_sig ∷ signed 28 ∷ []) (refl, (refl, (refl, tt)))

-- A contract whose committer accepts everything; nothing is pending.
abbrev contract : PeggyContract (Unit {0})
contract = record {
  decimal = fixed_point;
  geth = geth;
  abi = record {
    pack_update_valset = λ new current v r s. ok (new.valset_nonce ∷ current.valset_nonce ∷ v);
    pack_submit_batch = λ current v r s b. ok (b.batch_nonce ∷ current.valset_nonce ∷ v);
  };
  now = pure 1000;
  send_tx = λ a tx. pure (length tx);
  peggy_address = 77;
  pending_tx_input_list = [];
  pending_tx_wait_duration = 20;
}

send_eth_valset_update-Sent_example :
    (5 < 6)
    × (r : Repacked) × (tx : Bytes) × Approved
        (λ (c : MsgValsetConfirm). c.eth_address)
        (λ c. c.signature)
        fixed_point
        geth
        (valset 5)
        confirms
        r
    × (contract.abi.pack_update_valset
          (new_args geth (valset 6))
          (current_args geth (valset 5) r)
          r.v
          r.r
          r.s
        ≡ ok tx)
    × Sent contract tx tt 5 tt
unfolding send_eth_valset_update submit check_valset_sigs_and_repack peggy_power_to_percent
    sig_to_vrs is_pending_tx_input repack bytes_eq repack_members good_sig find_sig signer_to_sig
    insert_sig split_signature
send_eth_valset_update-Sent_example =
    send_eth_valset_update-Sent contract (valset 5) (valset 6) confirms tt tt 5 refl

send_transaction_batch-Sent_example :
    (r : Repacked) × (tx : Bytes) × Approved
      (λ (c : MsgConfirmBatch). c.eth_signer)
      (λ c. c.signature)
      fixed_point
      geth
      (valset 5)
      batch_confirms
      r
    × (contract.abi.pack_submit_batch
          (current_args geth (valset 5) r)
          r.v
          r.r
          r.s
          (batch_args geth batch)
        ≡ ok tx)
    × Sent contract tx tt 5 tt
unfolding send_transaction_batch submit check_batch_sigs_and_repack peggy_power_to_percent
    sig_to_vrs is_pending_tx_input repack bytes_eq repack_members good_sig find_sig signer_to_sig
    insert_sig split_signature
send_transaction_batch-Sent_example =
    send_transaction_batch-Sent contract (valset 5) batch batch_confirms tt tt 5 refl

abbrev ids : MethodIds
ids = record { submit_batch = 1 ∷ 2 ∷ 3 ∷ 4 ∷ []; update_valset = 5 ∷ 6 ∷ 7 ∷ 8 ∷ [] }

abbrev arrivals : List (ℕ × Bytes)
arrivals = (10, 1 ∷ 2 ∷ 3 ∷ 4 ∷ 5 ∷ []) ∷ (11, 9 ∷ 9 ∷ 9 ∷ 9 ∷ []) ∷ (12, 5 ∷ 6 ∷ 7 ∷ 8 ∷ []) ∷ []

subscribe-window_example :
    subscribe ids (ok (last max_pending [])) arrivals
    ≡ ok (last max_pending ([] ++ bridge_txs ids arrivals))
subscribe-window_example =
    subscribe-window ids [] arrivals (omega arith, (omega arith, (omega arith, tt)))

short_input_panics_example :
    subscribe ids (ok []) (arrivals ++ (13, 1 ∷ []) ∷ []) ≡ panic "slice bounds out of range [:4]"
short_input_panics_example =
    short_input_panics ids [] arrivals [] 13 (1 ∷ [])
      (omega arith, (omega arith, (omega arith, tt))) (omega arith)

abbrev entry : ℕ → ℕ → PendingTxInput
entry b t = record { input_data = b ∷ []; received_time = t }

-- An entry of second 10 hides one of second 50.
is_pending-first_example :
    is_pending_tx_input (entry 2 9 ∷ entry 1 10 ∷ entry 1 50 ∷ []) (1 ∷ []) 20 55 ≡ false
is_pending-first_example =
    is_pending-first (entry 2 9 ∷ []) (entry 1 50 ∷ []) (entry 1 10) (1 ∷ []) 20 55
      ((λ e. absurd (ground (arith, e))), tt) refl
