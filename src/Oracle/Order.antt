-- ===== src/Oracle/Order.antt =====
-- The order in which the oracle loop of orchestrator/oracle.go sends claims.
use peggo.Base.{ℕ, suc, ◌≤◌, ◌<◌, ◌≡◌, refl, true, Option, none, some, List, [], ◌∷◌}
use peggo.Effect.{Result, ok, err, panic, M, ◌>>=◌, for_each, continue}
use peggo.Types.{LastClaimEvent}
use peggo.Network.Recorder.{World, Entry, reported, claimed, note_claim, accepted}
use peggo.Orchestrator.{Orchestrator, deref}
use peggo.Orchestrator.Recorded.{recorded}
use peggo.Oracle.{Oracle, send_eth_event_claim, send_events, observe_eth_events}
use peggo.Oracle.Events.{Event, nonce, filter_events}
use peggo.Oracle.Sorting.{Ascending, filter-Ascending}
use peggo.Oracle.Frame.{KeepsTrace, observe-keeps}
use peggo.Oracle.Claims.{claim-recorded}

-- A claim of the event may follow this trace (newest entry first): directly before it stands a
-- report of a smaller nonce, or an accepted claim with a nonce that is not greater.
abbrev pub IsNext : Event → List Entry → Type 0
IsNext e (reported c ∷ t) = c.ethereum_event_nonce < nonce e
IsNext e (claimed e' b ∷ t) = (b ≡ true) × (nonce e' ≤ nonce e)
IsNext e _ = ⊥

-- Every claim on the trace may follow what stands before it.
abbrev pub Ordered : List Entry → Type 0
Ordered [] = Unit
Ordered (claimed e b ∷ t) = IsNext e t × Ordered t
Ordered (_ ∷ t) = Ordered t

module _ {S : Type 0} (o : Orchestrator S) where
  claims-Ordered :
      (n : ℕ) (xs : List Event) (w : World S)
      → Ascending n xs
      → ((e : Event) → n ≤ nonce e → IsNext e w.trace)
      → Ordered w.trace
      → Ordered (for_each (send_eth_event_claim (recorded o)) xs w).1.trace
  unfolding for_each
  claims-Ordered n [] w a next h = h
  claims-Ordered n (x ∷ xs) w a next h = rw (claim-recorded o x w) (
      go (send_eth_event_claim o x w.env).0 (
        claims-Ordered (nonce x) xs
          (record { env = (send_eth_event_claim o x w.env).1; trace = claimed x true ∷ w.trace })
          a.1 (λ e le. (refl, le)) (next x a.0, h)))
    where
      go :
          (r : Result (Unit {0}))
          → Ordered
              (for_each (send_eth_event_claim (recorded o)) xs (record {
                env = (send_eth_event_claim o x w.env).1;
                trace = claimed x true ∷ w.trace;
              })).1.trace
          → Ordered
              (continue r
                (λ _. for_each (send_eth_event_claim (recorded o)) xs)
                (record {
                  env = (send_eth_event_claim o x w.env).1;
                  trace = claimed x (accepted r) ∷ w.trace;
                })).1.trace
      go (ok u) rest = rest
      go (err e) rest = (next x a.0, h)
      go (panic p) rest = (next x a.0, h)

  read_claim-Ordered :
      KeepsTrace Ordered ((recorded o).injective.last_claim_event_by_addr o.cfg.cosmos_addr)
  read_claim-Ordered w h = go (o.injective.last_claim_event_by_addr o.cfg.cosmos_addr w.env).0
    where
      go : (r : Result (Option LastClaimEvent)) → Ordered (note_claim r w.trace)
      go (ok (some c)) = h
      go (ok none) = h
      go (err e) = h
      go (panic p) = h

  -- An attempt to claim events that ascend reads the last claim and then claims in order.
  send_events-Ordered :
      (n : ℕ) (events : List Event)
      → Ascending n events
      → KeepsTrace Ordered (send_events (recorded o) events)
  unfolding send_events
  send_events-Ordered n events a w h =
      go (o.injective.last_claim_event_by_addr o.cfg.cosmos_addr w.env).0
        (o.injective.last_claim_event_by_addr o.cfg.cosmos_addr w.env).1
    where
      send : LastClaimEvent → M (World S) (Unit {0})
      send c =
          for_each (send_eth_event_claim (recorded o)) (filter_events events c.ethereum_event_nonce)

      go :
          (r : Result (Option LastClaimEvent)) (env : S)
          → Ordered
              (continue r
                (λ found. deref "last claim" found >>= send)
                (record { env = env; trace = note_claim r w.trace })).1.trace
      go (ok (some c)) env =
          claims-Ordered (suc c.ethereum_event_nonce) (filter_events events c.ethereum_event_nonce)
            _ (filter-Ascending c.ethereum_event_nonce n events a) (λ e le. le) h
      go (ok none) env = h
      go (err e) env = h
      go (panic p) env = h

  -- Against any networks, an iteration of the oracle loop adds to an ordered trace only claims that
  -- keep it ordered: each one directly follows a report of a last claim with a smaller nonce, or a
  -- claim that was accepted and has no greater nonce.
  pub observe-Ordered :
      (l : Oracle) (w : World S)
      → Ordered w.trace
      → Ordered (observe_eth_events (recorded o) l w).1.trace
  observe-Ordered l w h =
      observe-keeps o Ordered read_claim-Ordered send_events-Ordered (λ k t h. h) l w h
