-- ===== src/Tests/OracleRuns.antt =====
-- Runs of the oracle loop over the blocks 76 to 100.
use peggo.Base.{bytes_eq, refl, arith, [], ◌∷◌}
use peggo.Effect.{for_each}
use peggo.Types.{LastClaimEvent}
use peggo.Network.Recorder.{World}
use peggo.Orchestrator.{Orchestrator}
use peggo.Orchestrator.Recorded.{recorded}
use peggo.Oracle.{
  Oracle, observe_eth_events, observe_blocks, get_eth_events, observe_from_height,
  observe_confirmed, end_block, is_bonded, get_latest_eth_height, get_last_claim_event,
  claim_new_events, send_new_event_claims, send_events, send_eth_event_claim, scan_eth_events,
}
use peggo.Oracle.Events.{old_deposit, valset_update, filter_events, sort_events, nonce}
use peggo.Oracle.Coverage.{Outcome, observe_blocks-covers}
use peggo.Oracle.Order.{Ordered, observe-Ordered}
use peggo.Oracle.Height.{Moves, observe-Moves}
use peggo.Tests.Fixtures.{transfer, update, orchestrator}

-- Injective has the claims up to nonce 4.
abbrev claim : LastClaimEvent
claim = record { ethereum_event_nonce = 4; ethereum_event_height = 80 }

abbrev o : Orchestrator (Unit {0})
o = orchestrator claim

abbrev start : World (Unit {0})
start = record { env = tt; trace = [] }

abbrev at_76 : Oracle
at_76 = record { last_observed_eth_height = 76 }

abbrev at_100 : Oracle
at_100 = record { last_observed_eth_height = 100 }

observe-Ordered_example : Ordered (observe_eth_events (recorded o) at_76 start).1.trace
observe-Ordered_example = observe-Ordered o at_76 start tt

observe-Moves_example : Moves 76 100 (observe_eth_events (recorded o) at_76 start).1.trace
unfolding observe_eth_events observe_blocks get_eth_events observe_from_height observe_confirmed
    end_block is_bonded get_latest_eth_height get_last_claim_event claim_new_events
    send_new_event_claims send_events send_eth_event_claim scan_eth_events filter_events sort_events
    nonce bytes_eq for_each
observe-Moves_example =
    observe-Moves o at_76 at_100 start (observe_eth_events (recorded o) at_76 start).1 (omega arith)
      refl

observe_blocks-covers_example :
    Outcome
      (old_deposit (transfer 6 95) ∷ old_deposit (transfer 4 80) ∷ valset_update (update 5 90) ∷ [])
      100
      at_100
      (observe_blocks (recorded o) at_76 100 start).1.trace
unfolding observe_blocks get_eth_events get_last_claim_event claim_new_events send_new_event_claims
    send_events send_eth_event_claim scan_eth_events filter_events sort_events nonce for_each
observe_blocks-covers_example =
    observe_blocks-covers o at_76 at_100 100 _ start start
      (observe_blocks (recorded o) at_76 100 start).1 refl refl
