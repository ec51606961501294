-- ===== src/Oracle/Claims.antt =====
-- The claims that the oracle loop of orchestrator/oracle.go sends, on recorded networks.
use peggo.Base.{
  ◌≤◌, ◌≡◌, ◌∙◌, subst, refl, sym, ap, inl, inr, Bytes, true, Option, none, some, List, [], ◌∷◌,
  All, Any,
}
use peggo.Effect.{Result, ok, err, panic, M, for_each, ◌>>=◌}
use peggo.Effect.Keeps.{Keeps, Keeps-bind, Keeps-for_each, bind_ok}
use peggo.Types.{LastClaimEvent}
use peggo.Network.Recorder.{World, Entry, sends, trace-sends, reported, claimed, note_claim}
use peggo.Orchestrator.{Orchestrator, deref}
use peggo.Orchestrator.Recorded.{recorded, Keeps-deref, retry_ok, deref_ok}
use peggo.Oracle.{send_eth_event_claim, send_events, send_new_event_claims}
use peggo.Oracle.Events.{
  Event, old_deposit, deposit, valset_update, withdrawal, erc20_deployment, nonce, filter_events,
}
use peggo.Oracle.Sorting.{All-of_filter}

-- The entry shows that the event needs no further claim: it was accepted by Injective, or
-- Injective reported that this validator has claimed its nonce or a later one.
abbrev pub Covers : Event → Entry → Type 0
Covers e (claimed e' true) = e' ≡ e
Covers e (reported c) = nonce e ≤ c.ethereum_event_nonce
Covers e _ = ⊥

abbrev pub Handled : List Entry → Event → Type 0
Handled trace e = Any (Covers e) trace

-- A claim on a recorded network is the claim, recorded under its event.
pub claim-recorded :
    {S : Type 0} (o : Orchestrator S) (x : Event) (w : World S)
    → send_eth_event_claim (recorded o) x w ≡ sends (claimed x) (send_eth_event_claim o x) w
unfolding send_eth_event_claim
claim-recorded o (old_deposit x) w = refl
claim-recorded o (deposit x) w = refl
claim-recorded o (valset_update x) w = refl
claim-recorded o (withdrawal x) w = refl
claim-recorded o (erc20_deployment x) w = refl

module _ {S : Type 0} (o : Orchestrator S) where
  -- Whatever the trace shows, claims and reads of the last claim leave on it.
  Any-claim :
      (Q : Entry → Type 0) (x : Event)
      → Keeps (λ (w : World S). Any Q w.trace) (send_eth_event_claim (recorded o) x)
  Any-claim Q x w h = rw (claim-recorded o x w) (inr h)

  claim-Handled :
      (x : Event) (w w' : World S) (u : Unit {0})
      → send_eth_event_claim (recorded o) x w ≡ (ok u, w')
      → Handled w'.trace x
  claim-Handled x w w' u h =
      rw
        (trace-sends (claimed x) (send_eth_event_claim o x) w w' u (sym (claim-recorded o x w) ∙ h))
        (inl refl)

  Any-claims :
      (Q : Entry → Type 0) (xs : List Event)
      → Keeps (λ (w : World S). Any Q w.trace) (for_each (send_eth_event_claim (recorded o)) xs)
  Any-claims Q xs = Keeps-for_each _ _ (Any-claim Q) xs

  claims-Handled :
      (xs : List Event) (w w' : World S) (u : Unit {0})
      → for_each (send_eth_event_claim (recorded o)) xs w ≡ (ok u, w')
      → All (Handled w'.trace) xs
  unfolding for_each
  claims-Handled [] w w' u h = tt
  claims-Handled (x ∷ xs) w w' u h =
      let (_, v, first, rest) =
        bind_ok (send_eth_event_claim (recorded o) x)
          (λ _. for_each (send_eth_event_claim (recorded o)) xs) w u w' h in
      (
        subst (λ (r : Result (Unit {0}) × World S). Handled r.1.trace x) rest
            (Any-claims (Covers x) xs v (claim-Handled x w v _ first)),
        claims-Handled xs v w' u rest,
      )

  pub Any-report :
      (Q : Entry → Type 0) (a : Bytes)
      → Keeps (λ (w : World S). Any Q w.trace) ((recorded o).injective.last_claim_event_by_addr a)
  Any-report Q a w h = note (o.injective.last_claim_event_by_addr a w.env).0
    where
      note : (r : Result (Option LastClaimEvent)) → Any Q (note_claim r w.trace)
      note (ok (some c)) = inr h
      note (ok none) = h
      note (err x) = h
      note (panic p) = h

  -- A report that arrives is on the trace.
  pub Any-of_report :
      (Q : Entry → Type 0) (a : Bytes) (w w' : World S) (c : LastClaimEvent)
      → (recorded o).injective.last_claim_event_by_addr a w ≡ (ok (some c), w')
      → Q (reported c)
      → Any Q w'.trace
  Any-of_report Q a w w' c h q =
      subst (λ (r : Result (Option LastClaimEvent) × World S). Any Q r.1.trace) h
        (note (o.injective.last_claim_event_by_addr a w.env).0
          (ap (λ (r : Result (Option LastClaimEvent) × World S). r.0) h))
    where
      note : (r : Result (Option LastClaimEvent)) → r ≡ ok (some c) → Any Q (note_claim r w.trace)
      note r e = rw e (inl q)

  -- An attempt that succeeds leaves no event of the list to claim.
  pub send_events-Handled :
      (events : List Event) (w w' : World S) (u : Unit {0})
      → send_events (recorded o) events w ≡ (ok u, w')
      → All (Handled w'.trace) events
  unfolding send_events
  send_events-Handled events w w' u h =
      let a = o.cfg.cosmos_addr in
      let (found, v, read, more) =
        bind_ok ((recorded o).injective.last_claim_event_by_addr a) _ w u w' h in
      let (c, v', seen, rest) = bind_ok (deref "last claim" found) _ v u w' more in
      let (q, same) = deref_ok "last claim" found v v' c seen in
      let read' : (recorded o).injective.last_claim_event_by_addr a w ≡ (ok (some c), v') =
        read ∙ λ i. (ok (q i), sym same i) in
      let new = filter_events events c.ethereum_event_nonce in
      All-of_filter (Handled w'.trace) c.ethereum_event_nonce events
        (λ e le.
          subst (λ (r : Result (Unit {0}) × World S). Handled r.1.trace e) rest
            (Any-claims (Covers e) new v' (Any-of_report (Covers e) a w v' c read' le)))
        (claims-Handled new v' w' u rest)

  pub Any-send_events :
      (Q : Entry → Type 0) (events : List Event)
      → Keeps (λ (w : World S). Any Q w.trace) (send_events (recorded o) events)
  unfolding send_events
  Any-send_events Q events =
      let kept : World S → Type 0 = λ w. Any Q w.trace in
      let send : LastClaimEvent → M (World S) (Unit {0}) = λ c.
        for_each (send_eth_event_claim (recorded o))
          (filter_events events c.ethereum_event_nonce) in
      Keeps-bind kept ((recorded o).injective.last_claim_event_by_addr o.cfg.cosmos_addr)
        (λ found. deref "last claim" found >>= send) (Any-report Q o.cfg.cosmos_addr)
        λ found.
          Keeps-deref kept "last claim" found send
            λ c. Any-claims Q (filter_events events c.ethereum_event_nonce)

  -- When sending the claims succeeds, at whatever attempt, no event of the list is left unclaimed:
  -- the trace shows for each one that Injective accepted a claim of it, or that Injective reported
  -- a last claim with its nonce or a later one.
  pub send_new_event_claims-Handled :
      (events : List Event) (w w' : World S) (u : Unit {0})
      → send_new_event_claims (recorded o) events w ≡ (ok u, w')
      → All (Handled w'.trace) events
  unfolding send_new_event_claims
  send_new_event_claims-Handled events w w' u h =
      let (v, _, last) =
        retry_ok (recorded o) (λ _. Unit {0}) (send_events (recorded o) events) (λ s p. tt) w w' u h
          tt in
      send_events-Handled events v w' u last
