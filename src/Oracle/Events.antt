-- ===== src/Oracle/Events.antt =====
-- The events of orchestrator/oracle.go, their nonces, and the choice of the events to claim.
use peggo.Base.{ℕ, List, [], ◌∷◌, keep, ltb, leb, if◌then◌else◌}
use peggo.Types.{
  SendToCosmosEvent, SendToInjectiveEvent, TransactionBatchExecutedEvent, Erc20DeployedEvent,
  ValsetUpdatedEvent, u64,
}

-- The dynamic types behind the interface `event`.
pub data Event : Type 0 where
  old_deposit : SendToCosmosEvent → Event
  deposit : SendToInjectiveEvent → Event
  valset_update : ValsetUpdatedEvent → Event
  withdrawal : TransactionBatchExecutedEvent → Event
  erc20_deployment : Erc20DeployedEvent → Event

-- `EventNonce.Uint64()`.
unfoldable pub nonce : Event → ℕ
nonce (old_deposit e) = u64 e.event_nonce
nonce (deposit e) = u64 e.event_nonce
nonce (valset_update e) = u64 e.event_nonce
nonce (withdrawal e) = u64 e.event_nonce
nonce (erc20_deployment e) = u64 e.event_nonce

unfoldable pub filter_events : List Event → ℕ → List Event
filter_events events n = keep (λ e. ltb n (nonce e)) events

unfoldable pub insert_event : Event → List Event → List Event
insert_event e [] = e ∷ []
insert_event e (x ∷ xs) = if leb (nonce e) (nonce x) then e ∷ x ∷ xs else x ∷ insert_event e xs

-- `sort.Slice` by `Nonce() < Nonce()`. Go leaves the order of equal nonces open; here it is kept.
unfoldable pub sort_events : List Event → List Event
unfolding insert_event
sort_events [] = []
sort_events (e ∷ es) = insert_event e (sort_events es)
