-- ===== src/Peggy/Checkpoint.antt =====
-- orchestrator/ethereum/peggy/message_signatures.go: the hashes that a validator signs.
use peggo.Base.{
  ℕ, ◌-◌, Bytes, String, codes, List, ◌++◌, map, length, drop, ltb, if◌then◌else◌, replicate,
}
use peggo.Base.Int.{ℤ, int64}
use peggo.Effect.{Result, ok, err, panic}
use peggo.Types.{Address, Hash, Valset, OutgoingTxBatch}
use peggo.Libraries.{GethLib}

-- abi.Pack with the two ABI constants, and Keccak256Hash.
pub record CheckpointLib : Type 0 where
  pub pack_checkpoint :
      Hash
      → (checkpoint : Bytes) → (nonce : ℤ) → List Address
      → (powers : List ℤ) → (reward_amount : ℕ) → Address
      → Result Bytes
  pub pack_transaction_batch :
      Hash
      → (method_name : Bytes) → (amounts : List ℕ) → List Address
      → (fees : List ℕ) → (nonce : ℤ) → Address
      → (timeout : ℤ) → Result Bytes
  pub keccak256_hash : Bytes → Hash

-- `copy` of a short text into a `[32]uint8`.
abbrev pub word : String → Bytes
word text = codes text ++ replicate (32 - length (codes text)) 0

-- `bytes[4:]`, hashed.
abbrev pub hash_from_4 : CheckpointLib → Bytes → Result Hash
hash_from_4 lib bytes =
    if ltb (length bytes) 4
    then panic "slice bounds out of range [4:]"
    else ok (lib.keccak256_hash (drop 4 bytes))

-- A reward amount here is never the nil integer, which is a panic in the source.
unfoldable pub encode_valset_confirm : GethLib → CheckpointLib → Hash → Valset → Result Hash
encode_valset_confirm geth lib peggy_id valset =
    elim (lib.pack_checkpoint peggy_id (word "checkpoint") (int64 valset.nonce)
      (map (λ m. geth.hex_to_address m.ethereum_address) valset.members)
      (map (λ m. int64 m.power) valset.members) valset.reward_amount
      (geth.hex_to_address valset.reward_token)) [
        | ok bytes ↦ hash_from_4 lib bytes
        | err e ↦ panic "Error packing checkpoint! %s/n"
        | panic p ↦ panic p
      ]

-- An error of the packing is logged, and the hash is zero.
unfoldable pub encode_tx_batch_confirm :
    GethLib → CheckpointLib → Hash → OutgoingTxBatch → Result Hash
encode_tx_batch_confirm geth lib peggy_id batch =
    elim (lib.pack_transaction_batch peggy_id (word "transactionBatch")
      (map (λ t. t.erc20_token) batch.transactions)
      (map (λ t. geth.hex_to_address t.dest_address) batch.transactions)
      (map (λ t. t.erc20_fee) batch.transactions) (int64 batch.batch_nonce)
      (geth.hex_to_address batch.token_contract) (int64 batch.batch_timeout)) [
        | ok bytes ↦ hash_from_4 lib bytes
        | err e ↦ ok 0
        | panic p ↦ panic p
      ]
