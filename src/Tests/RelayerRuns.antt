-- ===== src/Tests/RelayerRuns.antt =====
-- The search of the relayer, over a log with two validator sets, and what it lets through.
use peggo.Base.{ℕ, ◌<◌, ◌≡◌, refl, arith, some, [], ◌∷◌}
use peggo.Effect.{ok}
use peggo.Types.{OutgoingTxBatch, u64}
use peggo.Orchestrator.{Orchestrator}
use peggo.Relayer.{search, windows, should_relay_valset, should_relay_batch}
use peggo.Relayer.Search.{Grows, Found, search-Found}
use peggo.Relayer.Due.{Aged, should_relay_valset-Aged, should_relay_batch-Aged}
use peggo.Tests.Fixtures.{orchestrator, updates, valset}

updates-Grows : Grows updates
updates-Grows = (
  (λ h. omega arith, (λ h. absurd (omega (arith, h)), tt)),
  ((λ h. omega arith, (λ h. omega arith, tt)), tt),
)

-- Three windows before the newest event.
search-Found_example :
    Found
      (orchestrator (record { ethereum_event_nonce = 4; ethereum_event_height = 80 }))
      updates
      (some (valset 5))
      6090
      tt
      (search
        (orchestrator (record { ethereum_event_nonce = 4; ethereum_event_height = 80 }))
        (windows 6090)
        (some (valset 5))
        6090
        tt)
search-Found_example =
    search-Found (orchestrator (record { ethereum_event_nonce = 4; ethereum_event_height = 80 }))
      updates (some (valset 5)) 6090 tt (λ a b s. refl) updates-Grows (omega arith)

abbrev o : Orchestrator (Unit {0})
o = orchestrator (record { ethereum_event_nonce = 4; ethereum_event_height = 80 })

abbrev batch : OutgoingTxBatch
batch = record {
  batch_nonce = 2;
  batch_timeout = 200;
  transactions = [];
  token_contract = 7 ∷ [];
  block = 60;
}

should_relay_valset-Aged_example :
    ((k : ℕ) × (u : Unit {0}) × (o.ethereum.get_valset_nonce tt ≡ (ok k, u)) × (u64 k < 6))
    × Aged o 70 0
unfolding should_relay_valset
should_relay_valset-Aged_example = should_relay_valset-Aged o (valset 6) tt tt refl

should_relay_batch-Aged_example :
    ((k : ℕ) × (u : Unit {0}) × (o.ethereum.get_tx_batch_nonce 7 tt ≡ (ok k, u)) × (u64 k < 2))
    × Aged o 60 0
unfolding should_relay_batch
should_relay_batch-Aged_example = should_relay_batch-Aged o batch tt tt refl
