-- ===== src/Signer.antt =====
-- orchestrator/signer.go: the loop that confirms validator sets and batches on Injective.
pub mod Confirms
use peggo.Base.{Option, none, some, List, [], ◌∷◌}
use peggo.Effect.{Result, ok, err, panic, M, pure, for_each, ◌>>=◌, ◌>>◌}
use peggo.Types.{Hash, Valset, OutgoingTxBatch}
use peggo.Orchestrator.{Orchestrator, retry}

-- `x, _ = f(); return nil`: an error is dropped, and the value that comes with it is `nil`.
abbrev pub or_nil : {A : Type 0} → A → Result A → Result A
or_nil nil (ok a) = ok a
or_nil nil (err e) = ok nil
or_nil nil (panic p) = panic p

abbrev pub ignore_error : {S A : Type 0} → A → M S A → M S A
ignore_error nil m s = let (r, t) = m s in (or_nil nil r, t)

module _ {S : Type 0} (o : Orchestrator S) (peggy_id : Hash) where
  unfoldable pub oldest_unsigned_valsets : M S (List Valset)
  oldest_unsigned_valsets =
      retry o (ignore_error [] (o.injective.oldest_unsigned_valsets o.cfg.cosmos_addr))

  unfoldable pub confirm_valset : Valset → M S (Unit {0})
  confirm_valset vs = retry o (o.injective.send_valset_confirm o.cfg.ethereum_addr peggy_id vs)

  -- The loop over no sets at all is the early return.
  unfoldable pub sign_validator_sets : M S (Unit {0})
  sign_validator_sets = do valsets ← oldest_unsigned_valsets; for_each confirm_valset valsets

  unfoldable pub oldest_unsigned_batch : M S (Option OutgoingTxBatch)
  oldest_unsigned_batch =
      retry o (ignore_error none (o.injective.oldest_unsigned_transaction_batch o.cfg.cosmos_addr))

  unfoldable pub confirm_batch : Option OutgoingTxBatch → M S (Unit {0})
  confirm_batch none = pure tt
  confirm_batch (some batch) =
      retry o (o.injective.send_batch_confirm o.cfg.ethereum_addr peggy_id batch)

  unfoldable pub sign_new_batch : M S (Unit {0})
  sign_new_batch = do batch ← oldest_unsigned_batch; confirm_batch batch

  unfoldable pub sign : M S (Unit {0})
  sign = do sign_validator_sets; sign_new_batch
