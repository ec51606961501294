-- ===== src/Tests/LoopRuns.antt =====
-- Runs of the signer, the batch creator and the loops.
use peggo.Base.{
  ℕ, ◌+◌, ◌≤◌, arith, ltb, ◌≡◌, ◌⊎◌, refl, codes, List, [], ◌∷◌, ◌++◌, map, Option, some, All, Any,
  false, inl, String, ◌==◌, if◌then◌else◌,
}
use peggo.Effect.{Error, raised, ok, err, M, for_each}
use peggo.Types.{OutgoingTxBatch, BatchFees}
use peggo.Network.Recorder.{World}
use peggo.Orchestrator.{Orchestrator}
use peggo.Orchestrator.Recorded.{recorded}
use peggo.Signer.{
  sign, sign_validator_sets, oldest_unsigned_valsets, confirm_valset, sign_new_batch,
  oldest_unsigned_batch, confirm_batch,
}
use peggo.Signer.Confirms.{ConfirmedValset, ConfirmedBatch, sign-Confirms}
use peggo.BatchCreator.{
  request_token_batches, get_unbatched_token_fees, request_token_batch, check_min_batch_fee,
  below_min_fee, request_batch, get_token_denom,
}
use peggo.BatchCreator.Worth.{Requested, Worth, request_token_batches-Worth}
use peggo.Loops.{timer, run_loop, received, empty, closed, wait}
use peggo.Loops.Ends.{Reaches, FailsWith, run_loop-FailsWith, polls, wait-loses}
use peggo.Tests.Fixtures.{orchestrator, valset}

abbrev o : Orchestrator (Unit {0})
o = orchestrator (record { ethereum_event_nonce = 4; ethereum_event_height = 80 })

abbrev start : World (Unit {0})
start = record { env = tt; trace = [] }

sign-Confirms_example :
    All (ConfirmedValset o 1 (sign (recorded o) 1 start).1.trace) (valset 6 ∷ valset 7 ∷ [])
    × (batch : Option OutgoingTxBatch) × (x : World (Unit {0})) × (y : World (Unit {0}))
    × (oldest_unsigned_batch (recorded o) 1 x ≡ (ok batch, y))
    × ConfirmedBatch o 1 (sign (recorded o) 1 start).1.trace batch
unfolding sign sign_validator_sets oldest_unsigned_valsets confirm_valset sign_new_batch
    oldest_unsigned_batch confirm_batch for_each
sign-Confirms_example =
    sign-Confirms o 1 start start (sign (recorded o) 1 start).1 (valset 6 ∷ valset 7 ∷ []) refl refl

ltb-AtMost : (x y : ℕ) → ltb x y ≡ false → y ≤ x
ltb-AtMost x y h = ground arith

-- The fees of token 7 are worth the minimum.
request_token_batches-Worth_example :
    Requested (codes "peggy" ++ 7 ∷ []) []
    ⊎ ((fees : List BatchFees) × (v : World (Unit {0})) × (get_unbatched_token_fees
            (recorded o)
            start
          ≡ (ok fees, v))
        × Any (Worth o (λ y x. y ≤ x) ltb-AtMost (codes "peggy" ++ 7 ∷ [])) fees)
unfolding request_token_batches get_unbatched_token_fees request_token_batch check_min_batch_fee
    below_min_fee request_batch get_token_denom for_each
request_token_batches-Worth_example =
    request_token_batches-Worth o (λ y x. y ≤ x) ltb-AtMost (codes "peggy" ++ 7 ∷ []) start
      (inl refl)

-- An iteration that fails from the state 2 on.
abbrev count : M ℕ (Unit {0})
count s = if s == 2 then (err (raised "enough"), s) else (ok tt, s + 1)

abbrev recovered : String → Error
recovered p = raised p

run_loop-FailsWith_example :
    (u : ℕ) × Reaches count 0 u × FailsWith (λ e. false) recovered count (raised "enough") u 2
unfolding run_loop
run_loop-FailsWith_example =
    run_loop-FailsWith (λ e. false) recovered count (timer ∷ timer ∷ timer ∷ timer ∷ []) 0 2
      (raised "enough") refl

wait-loses_example :
    (wait [] (polls 2 (map received (raised "oracle" ∷ raised "signer" ∷ []) ++ empty ∷ []))
      ≡ some (raised "oracle" ∷ raised "signer" ∷ []))
    × (wait [] (polls 2 (map received (raised "oracle" ∷ raised "signer" ∷ []) ++ closed ∷ []))
        ≡ some [])
wait-loses_example = wait-loses 2 (raised "oracle") (raised "signer" ∷ []) []
