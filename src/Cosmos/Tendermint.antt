-- ===== src/Cosmos/Tendermint.antt =====
-- orchestrator/cosmos/tendermint/client.go, over the RPC client of the library. A block is what is
-- used of it: its time, in nanoseconds, and the hashes of its transactions.
use peggo.Base.{ℕ, Bytes, codes, List, [], ◌∷◌, ends_with, if◌then◌else◌}
use peggo.Base.Int.{ℤ}
use peggo.Effect.{error_text, ok, err, panic, M, pure, ◌>>=◌}

pub record Block : Type 0 where
  pub time : ℕ
  pub txs : List Bytes

pub record RpcClient (S Tx Validators : Type 0) : Type 0 where
  pub block : ℤ → M S Block
  pub latest_block_height : M S ℤ  -- SyncInfo.LatestBlockHeight of Status
  pub tx : (hash : Bytes) → M S Tx
  pub validators : ℤ → M S Validators

module _ {S Tx Validators : Type 0} (c : RpcClient S Tx Validators) where
  unfoldable pub get_block : ℤ → M S Block
  get_block height = c.block height

  unfoldable pub get_latest_block_height : M S ℤ
  get_latest_block_height = c.latest_block_height

  -- A transaction that is not found is left out.
  unfoldable pub get_txs : List Bytes → M S (List Tx)
  get_txs [] s = (ok [], s)
  get_txs (h ∷ hs) s = elim (c.tx h s).0 [
    | ok tx ↦ (get_txs hs >>= λ txs. pure (tx ∷ txs)) (c.tx h s).1
    | err e ↦
        let rest = get_txs hs (c.tx h s).1 in
        if ends_with (codes "not found") (error_text e) then rest else (err e, (c.tx h s).1)
    | panic p ↦ (panic p, (c.tx h s).1)
  ]

  unfoldable pub get_validator_set : ℤ → M S Validators
  get_validator_set height = c.validators height
