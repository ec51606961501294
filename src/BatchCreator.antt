-- ===== src/BatchCreator.antt =====
-- orchestrator/batch_creator.go: the loop that asks Injective for a batch per token.
pub mod Worth
use peggo.Base.{ℕ, Bool, true, false, Bytes, Option, none, some, List, [], ◌∷◌, if◌then◌else◌}
use peggo.Effect.{Error, Result, ok, err, panic, M, pure, ◌>>=◌, for_each}
use peggo.Types.{Address, BatchFees}
use peggo.Orchestrator.{Orchestrator, retry}

-- `x, err := m; if err != nil { log; return }` in front of the rest of a function.
abbrev pub return_or : {S A B : Type 0} → B → Result A → (A → M S B) → M S B
return_or b (ok a) f s = f a s
return_or b (err e) f s = (ok b, s)
return_or b (panic p) f s = (panic p, s)

abbrev pub or_return : {S A B : Type 0} → B → M S A → (A → M S B) → M S B
or_return b m f s = let (r, t) = m s in return_or b r f t

module _ {S : Type 0} (o : Orchestrator S) where
  unfoldable pub get_unbatched_token_fees : M S (List BatchFees)
  get_unbatched_token_fees = retry o o.injective.unbatched_tokens_with_fees

  unfoldable pub get_token_denom : Address → Bytes
  get_token_denom token_addr = elim (o.cfg.erc20_contract_mapping token_addr) [
    | some denom ↦ denom
    | none ↦ o.address.peggy_denom_string token_addr
  ]

  -- `totalFeeUSD.LessThan(minFeeUSD)`, at a price.
  unfoldable pub below_min_fee : BatchFees → (token_decimals : ℕ) → o.decimal.Float → Bool
  below_min_fee fee token_decimals price =
      o.decimal.less_than
        (o.decimal.mul (o.decimal.new_from_big_int fee.total_fees token_decimals)
          (o.decimal.new_from_float price))
        (o.decimal.new_from_float o.cfg.min_batch_fee_usd)

  unfoldable pub check_min_batch_fee : BatchFees → Address → (token_decimals : ℕ) → M S Bool
  check_min_batch_fee fee token_addr token_decimals =
      if o.decimal.is_zero o.cfg.min_batch_fee_usd
      then pure true
      else or_return false (o.query_usd_price token_addr)
          λ price. if below_min_fee fee token_decimals price then pure false else pure true

  -- The error of SendRequestBatch is dropped.
  unfoldable pub request_batch : Bytes → M S (Unit {0})
  request_batch denom = or_return tt (o.injective.send_request_batch denom) λ _. pure tt

  unfoldable pub request_token_batch : BatchFees → M S (Unit {0})
  request_token_batch fee =
      let token_addr = o.address.hex_to_address fee.token in
      or_return tt (o.ethereum.token_decimals token_addr) λ token_decimals.
        check_min_batch_fee fee token_addr token_decimals >>= λ enough.
        if enough then request_batch (get_token_denom token_addr) else pure tt

  -- A failure to get the fees is logged, and the iteration ends well.
  unfoldable pub request_token_batches : M S (Unit {0})
  request_token_batches =
      or_return tt get_unbatched_token_fees λ fees. for_each request_token_batch fees
