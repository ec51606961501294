-- ===== src/Oracle/Coverage.antt =====
-- A scan of a block range by the oracle loop of orchestrator/oracle.go, and the events in that range.
use peggo.Base.{
  ℕ, suc, ◌+◌, ◌≤◌, ◌<◌, ◌^◌, ◌≡◌, ◌≢◌, ◌∙◌, subst, refl, sym, ap, inl, inr, ◌⊎◌, List, [], ◌∷◌,
  All, All-mono, Any, arith, Bool-cases, ◌==◌,
}
use peggo.Effect.{Result, ok, M, ◌>>=◌, pure}
use peggo.Effect.Keeps.{Keeps, bind_ok, bind_step, pure_ok}
use peggo.Types.{LastClaimEvent, u64}
use peggo.Network.Recorder.{World, Entry, reported}
use peggo.Orchestrator.{Orchestrator, deref}
use peggo.Orchestrator.Recorded.{recorded, Keeps-retry, retry_ok, deref_ok}
use peggo.Oracle.{
  Oracle, get_eth_events, get_last_claim_event, send_events, send_new_event_claims,
  claim_new_events, observe_blocks,
}
use peggo.Oracle.Events.{
  Event, old_deposit, deposit, valset_update, withdrawal, erc20_deployment, nonce, filter_events,
  sort_events,
}
use peggo.Oracle.Sorting.{
  Ascending, Ascending-All, new_events-Ascending, All-of_filter, All-of_sort,
}
use peggo.Oracle.Claims.{
  Covers, Handled, Any-of_report, Any-send_events, send_new_event_claims-Handled,
}

-- Injective reported `c` as the last claim of this validator.
abbrev pub IsReport : LastClaimEvent → Entry → Type 0
IsReport c (reported d) = d ≡ c
IsReport c _ = ⊥

-- The whole range was claimed, or the loop goes back to the height of the last claim, because the
-- event that must come next is not in the range.
abbrev pub Outcome : List Event → ℕ → Oracle → List Entry → Type 0
Outcome events latest l trace =
    ((l.last_observed_eth_height ≡ latest) × All (Handled trace) events)
    ⊎ ((c : LastClaimEvent) × Any (IsReport c) trace
        × (l.last_observed_eth_height ≡ c.ethereum_event_height)
        × All (λ e. nonce e ≢ suc c.ethereum_event_nonce) events)

nonce-lt : (e : Event) → nonce e < 2 ^ 64
unfolding nonce
nonce-lt (old_deposit e) = omega arith
nonce-lt (deposit e) = omega arith
nonce-lt (valset_update e) = omega arith
nonce-lt (withdrawal e) = omega arith
nonce-lt (erc20_deployment e) = omega arith

-- Past the first of an ascending list, no nonce is one that the list skipped.
skipped :
    (n : ℕ) (x : Event) (xs : List Event)
    → Ascending (suc n) (x ∷ xs)
    → u64 (n + 1) ≢ nonce x
    → All (λ e. nonce e ≢ suc n) (x ∷ xs)
skipped n x xs a h = (
  omega (arith, nonce-lt x),
  All-mono (λ e. nonce x ≤ nonce e) (λ e. nonce e ≢ suc n) xs (λ e le. omega (arith, nonce-lt x))
      (Ascending-All (nonce x) xs a.1),
)

settled :
    {S : Type 0} (c : LastClaimEvent) (events new : List Event) (w : World S)
    → sort_events (filter_events events c.ethereum_event_nonce) ≡ new
    → ((e : Event) → nonce e ≤ c.ethereum_event_nonce → Handled w.trace e)
    → All (Handled w.trace) new
    → All (Handled w.trace) events
settled c events new w e old h =
    All-of_filter (Handled w.trace) c.ethereum_event_nonce events old
      (All-of_sort (Handled w.trace) (filter_events events c.ethereum_event_nonce) (rw e h))

module _ {S : Type 0} (o : Orchestrator S) where
  Any-send_new :
      (Q : Entry → Type 0) (events : List Event)
      → Keeps (λ (w : World S). Any Q w.trace) (send_new_event_claims (recorded o) events)
  unfolding send_new_event_claims
  Any-send_new Q events =
      Keeps-retry (recorded o) _ (send_events (recorded o) events) (Any-send_events o Q events)

  claim_new_outcome :
      (latest : ℕ) (c : LastClaimEvent) (events new : List Event) (l' : Oracle) (w w' : World S)
      → sort_events (filter_events events c.ethereum_event_nonce) ≡ new
      → ((Q : Entry → Type 0) → Q (reported c) → Any Q w.trace)
      → claim_new_events (recorded o) latest c new w ≡ (ok l', w')
      → Outcome events latest l' w'.trace
  unfolding claim_new_events
  claim_new_outcome latest c events [] l' w w' e known h =
      let (height, same) = pure_ok _ l' w w' h in
      inl (
        sym (ap (λ (r : Oracle). r.last_observed_eth_height) height),
        subst (λ (r : World S). All (Handled r.trace) events) same
            (settled c events [] w e (λ q le. known (Covers q) le) tt),
      )
  claim_new_outcome latest c events (x ∷ xs) l' w w' e known h =
      elim (Bool-cases (u64 (c.ethereum_event_nonce + 1) == nonce x)) [
        | inl follows ↦
            let h' : (send_new_event_claims (recorded o) (x ∷ xs) >>= λ _. pure _) w ≡ (ok l', w') =
              rw follows at h in
            let (u, v, sent, rest) =
              bind_ok (send_new_event_claims (recorded o) (x ∷ xs)) _ w l' w' h' in
            let (height, same) = pure_ok _ l' v w' rest in
            inl (
              sym (ap (λ (r : Oracle). r.last_observed_eth_height) height),
              subst (λ (r : World S). All (Handled r.trace) events) same
                  (settled c events (x ∷ xs) v e
                    (λ q le.
                      subst (λ (r : Result (Unit {0}) × World S). Handled r.1.trace q) sent
                        (Any-send_new (Covers q) (x ∷ xs) w (known (Covers q) le)))
                    (send_new_event_claims-Handled o (x ∷ xs) w v u sent)),
            )
        | inr gap ↦
            let h' : pure (record { last_observed_eth_height = c.ethereum_event_height }) w
                ≡ (ok l', w') =
              rw gap at h in
            let (height, same) = pure_ok _ l' w w' h' in
            inr (
              c,
              subst (λ (r : World S). Any (IsReport c) r.trace) same (known (IsReport c) refl),
              sym (ap (λ (r : Oracle). r.last_observed_eth_height) height),
              All-of_filter (λ q. nonce q ≢ suc c.ethereum_event_nonce) c.ethereum_event_nonce
                  events (λ q le. omega arith)
                  (All-of_sort _ (filter_events events c.ethereum_event_nonce) (
                    rw e (
                      skipped c.ethereum_event_nonce x xs
                        (subst (Ascending (suc c.ethereum_event_nonce)) e
                          (new_events-Ascending c.ethereum_event_nonce events))
                        (ground arith)))),
            )
      ]

  -- When the scan of a block range, whose events are `events`, ends without an error, then either
  -- the last observed height is the end of the range and every event has been handled, by an
  -- accepted claim or by a report that covers its nonce; or it is the height of a last claim that
  -- Injective has reported, and the event that must come next after it is not in the range.
  pub observe_blocks-covers :
      (l l' : Oracle) (latest : ℕ) (events : List Event) (w v w' : World S)
      → get_eth_events (recorded o) l.last_observed_eth_height latest w ≡ (ok events, v)
      → observe_blocks (recorded o) l latest w ≡ (ok l', w')
      → Outcome events latest l' w'.trace
  unfolding observe_blocks get_last_claim_event
  observe_blocks-covers l l' latest events w v w' scanned h =
      let a = o.cfg.cosmos_addr in
      let ask = (recorded o).injective.last_claim_event_by_addr a in
      let finish : LastClaimEvent → M (World S) Oracle = λ c.
        claim_new_events (recorded o) latest c
          (sort_events (filter_events events c.ethereum_event_nonce)) in
      let claim_from : List Event → M (World S) Oracle = λ es.
        get_last_claim_event (recorded o) >>= λ r. deref "last claim" r >>= λ c.
        claim_new_events (recorded o) latest c
          (sort_events (filter_events es c.ethereum_event_nonce)) in
      let scan = get_eth_events (recorded o) l.last_observed_eth_height latest in
      let after_scan : claim_from events v ≡ (ok l', w') =
        sym (bind_step scan claim_from w events v scanned) ∙ h in
      let (found, u, asked, more) =
        bind_ok (get_last_claim_event (recorded o)) (λ r. deref "last claim" r >>= finish) v l' w'
          after_scan in
      let (c, u', seen, rest) = bind_ok (deref "last claim" found) finish u l' w' more in
      let (q, same) = deref_ok "last claim" found u u' c seen in
      let (z, _, read) = retry_ok (recorded o) (λ _. Unit {0}) ask (λ s p. tt) v u found asked tt in
      claim_new_outcome latest c events _ l' u' w' refl
        (λ Q k. Any-of_report o Q a z u' c (read ∙ λ i. (ok (q i), sym same i)) k) rest
