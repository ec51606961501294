-- ===== src/Tests/BroadcastRuns.antt =====
-- A claim and two confirmations sent through a chain client that counts the messages it takes.
use peggo.Base.{ℕ, ◌+◌, ◌≡◌, refl, Bytes, [], ◌∷◌, length}
use peggo.Effect.{ok}
use peggo.Types.{Hash, OutgoingTxBatch}
use peggo.Broadcast.Messages.{Msg, valset_confirm_msg, confirm_batch_msg}
use peggo.Broadcast.{
  ChainClient, send_valset_claim, claim_members, broadcast, sign_hash, valset_confirm,
  batch_confirm, send_valset_confirm, send_batch_confirm,
}
use peggo.Broadcast.Accepted.{Claims, Taken, send_claim-Taken}
use peggo.Broadcast.Confirmed.{Splits, send_valset_confirm-Splits, send_batch_confirm-Splits}
use peggo.Oracle.Events.{valset_update, nonce}
use peggo.Peggy.Checkpoint.{CheckpointLib, encode_valset_confirm, encode_tx_batch_confirm}
use peggo.Tests.Fixtures.{geth, update, valset}

-- The packing is the nonce behind a selector of four bytes, and the hash is the number of bytes.
abbrev checkpoint : CheckpointLib
checkpoint = record {
  pack_checkpoint = λ id m n vs ps r a. ok (1 ∷ 2 ∷ 3 ∷ 4 ∷ 5 ∷ []);
  pack_transaction_batch = λ id m xs ds fs n a t. ok (1 ∷ 2 ∷ 3 ∷ 4 ∷ 5 ∷ 6 ∷ []);
  keccak256_hash = length;
}

abbrev client : ChainClient ℕ
client = record {
  geth = geth;
  acc_address = λ a. a;
  from_address = 2 ∷ [];
  broadcast_msg = λ m s. (ok (record { code = 0; raw_log = [] }), s + 1);
  queue_broadcast_msg = λ m s. (ok tt, s + 1);
  checkpoint = checkpoint;
  eth_sign_fn = λ a h. ok (h ∷ a ∷ []);
  bytes_to_hex = λ b. b;
}

send_claim-Taken_example : (msg : Msg) × Claims (2 ∷ []) 5 90 msg × Taken client msg 4 5
unfolding send_valset_claim claim_members broadcast nonce
send_claim-Taken_example = send_claim-Taken client (valset_update (update 5 90)) 4 5 refl

send_valset_confirm-Splits_example :
    (h : Hash) × (raw : Bytes) × (encode_valset_confirm geth checkpoint 1 (valset 6) ≡ ok h)
    × (client.eth_sign_fn 2 h ≡ ok raw)
    × Taken client (valset_confirm_msg (valset_confirm client 2 (valset 6) raw)) 4 5
    × Splits client
        (λ m. m.eth_address)
        (λ m. m.signature)
        2
        raw
        (valset_confirm client 2 (valset 6) raw)
unfolding send_valset_confirm sign_hash encode_valset_confirm broadcast
send_valset_confirm-Splits_example =
    send_valset_confirm-Splits client 2 1 (valset 6) 4 5 (λ b. refl) refl

abbrev batch : OutgoingTxBatch
batch = record {
  batch_nonce = 3;
  batch_timeout = 900;
  transactions = [];
  token_contract = 7 ∷ [];
  block = 50;
}

send_batch_confirm-Splits_example :
    (h : Hash) × (raw : Bytes) × (encode_tx_batch_confirm geth checkpoint 1 batch ≡ ok h)
    × (client.eth_sign_fn 2 h ≡ ok raw)
    × Taken client (confirm_batch_msg (batch_confirm client 2 batch raw)) 4 5
    × Splits client (λ m. m.eth_signer) (λ m. m.signature) 2 raw (batch_confirm client 2 batch raw)
unfolding send_batch_confirm sign_hash encode_tx_batch_confirm broadcast
send_batch_confirm-Splits_example = send_batch_confirm-Splits client 2 1 batch 4 5 (λ b. refl) refl
