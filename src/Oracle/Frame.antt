-- ===== src/Oracle/Frame.antt =====
-- What the oracle loop keeps of the trace: a rule that carries an invariant of the trace from reading
-- the last claim and from sending claims to the whole of `observe_eth_events`.
use peggo.Base.{
  ℕ, suc, ◌+◌, ◌-◌, leb, ◌≡◌, inl, inr, List, [], ◌∷◌, Bool-cases, arith, not, ◌==◌, if◌then◌else◌,
}
use peggo.Effect.{Result, ok, err, panic, M, ◌>>=◌, pure, wrap, continue, wrap_result}
use peggo.Effect.Keeps.{Keeps, Keeps-bind}
use peggo.Types.{LastClaimEvent, Valset, u64}
use peggo.Network.Recorder.{World, Entry, head, note_head, silent}
use peggo.Orchestrator.{Orchestrator, deref}
use peggo.Orchestrator.Recorded.{recorded, Keeps-retry, Keeps-deref}
use peggo.Oracle.{
  Oracle, eth_block_confirmation_delay, send_events, send_new_event_claims, claim_new_events,
  observe_blocks, scan_eth_events, get_eth_events, get_last_claim_event, get_latest_eth_height,
  observe_confirmed, observe_from_height, observe_eth_events, is_bonded, end_block,
}
use peggo.Oracle.Events.{Event, nonce, filter_events, sort_events}
use peggo.Oracle.Sorting.{Ascending, new_events-Ascending}

abbrev pub KeepsTrace : {S A : Type 0} → (List Entry → Type 0) → M (World S) A → Type 0
KeepsTrace P m = Keeps (λ w. P w.trace) m

module _ {S : Type 0} (o : Orchestrator S) where
  scan-trace : (a b : ℕ) (w : World S) → (scan_eth_events (recorded o) a b w).1.trace ≡ w.trace
  unfolding scan_eth_events
  scan-trace a b w = ground arith

module _ {S : Type 0} (o : Orchestrator S) (P : List Entry → Type 0)
    (reads : KeepsTrace P ((recorded o).injective.last_claim_event_by_addr o.cfg.cosmos_addr))
    (sends : (n : ℕ) (events : List Event)
      → Ascending n events
      → KeepsTrace P (send_events (recorded o) events)) where
  pub claim_new-keeps :
      (n latest : ℕ) (c : LastClaimEvent) (events : List Event)
      → Ascending n events
      → KeepsTrace P (claim_new_events (recorded o) latest c events)
  unfolding claim_new_events send_new_event_claims
  claim_new-keeps n latest c [] a w h = h
  claim_new-keeps n latest c (x ∷ xs) a w h =
      elim (Bool-cases (u64 (c.ethereum_event_nonce + 1) == nonce x)) [
        | inl t ↦ rw t (
            Keeps-bind (λ (v : World S). P v.trace) (send_new_event_claims (recorded o) (x ∷ xs))
              (λ _. pure (record { last_observed_eth_height = latest }))
              (Keeps-retry (recorded o) _ (send_events (recorded o) (x ∷ xs)) (sends n (x ∷ xs) a))
              (λ _ v k. k) w h)
        | inr f ↦ rw f h
      ]

  get_eth_events-keeps : (a b : ℕ) → KeepsTrace P (get_eth_events (recorded o) a b)
  unfolding get_eth_events
  get_eth_events-keeps a b =
      Keeps-retry (recorded o) _ (scan_eth_events (recorded o) a b)
        (λ w h. rw (scan-trace o a b w) h)

  pub observe_blocks-keeps :
      (l : Oracle) (latest : ℕ) → KeepsTrace P (observe_blocks (recorded o) l latest)
  unfolding observe_blocks get_last_claim_event
  observe_blocks-keeps l latest =
      let kept : World S → Type 0 = λ w. P w.trace in
      let finish : List Event → LastClaimEvent → M (World S) Oracle = λ es c.
        claim_new_events (recorded o) latest c
          (sort_events (filter_events es c.ethereum_event_nonce)) in
      Keeps-bind kept (get_eth_events (recorded o) l.last_observed_eth_height latest)
        (λ es. get_last_claim_event (recorded o) >>= λ r. deref "last claim" r >>= finish es)
        (get_eth_events-keeps l.last_observed_eth_height latest)
        λ es.
          Keeps-bind kept (get_last_claim_event (recorded o))
            (λ r. deref "last claim" r >>= finish es) (Keeps-retry (recorded o) kept _ reads)
            λ r. Keeps-deref kept "last claim" r (finish es) λ c.
              claim_new-keeps (suc c.ethereum_event_nonce) latest c _
                (new_events-Ascending c.ethereum_event_nonce es)

  pub observe_confirmed-keeps :
      (l : Oracle) (latest : ℕ) → KeepsTrace P (observe_confirmed (recorded o) l latest)
  unfolding observe_confirmed
  observe_confirmed-keeps l latest w h = elim (Bool-cases (leb latest l.last_observed_eth_height)) [
    | inl t ↦ rw t h
    | inr f ↦ rw f (observe_blocks-keeps l (end_block l.last_observed_eth_height latest) w h)
  ]

  pub observe_from-keeps :
      (l : Oracle) (latest : ℕ) → KeepsTrace P (observe_from_height (recorded o) l latest)
  unfolding observe_from_height
  observe_from-keeps l latest w h = elim (Bool-cases (leb latest eth_block_confirmation_delay)) [
    | inl t ↦ rw t h
    | inr f ↦ rw f (observe_confirmed-keeps l (latest - eth_block_confirmation_delay) w h)
  ]

  module _ (heads : (k : ℕ) (t : List Entry) → P t → P (head k ∷ t)) where
    height-keeps : KeepsTrace P (get_latest_eth_height (recorded o))
    unfolding get_latest_eth_height
    height-keeps =
        Keeps-retry (recorded o) (λ (w : World S). P w.trace)
          (wrap "failed to get latest ethereum header"
              (recorded o).ethereum.get_latest_header_number
            >>= λ h. pure (u64 h))
          λ w h. go w h (o.ethereum.get_latest_header_number w.env).0
      where
        go :
            (w : World S)
            → P w.trace
            → (r : Result ℕ)
            → P
                (continue {S = World S} {A = ℕ} {B = ℕ}
                  (wrap_result "failed to get latest ethereum header" r)
                  (λ h. pure (u64 h))
                  (record {
                    env = (o.ethereum.get_latest_header_number w.env).1;
                    trace = note_head r w.trace;
                  })).1.trace
        go w h (ok k) = heads k w.trace h
        go w h (err e) = h
        go w h (panic p) = h

    -- An invariant of the trace that reads and ordered claims keep holds after an iteration.
    pub observe-keeps : (l : Oracle) → KeepsTrace P (observe_eth_events (recorded o) l)
    unfolding observe_eth_events
    observe-keeps l =
        let kept : World S → Type 0 = λ w. P w.trace in
        let finish : Valset → M (World S) Oracle = λ vs.
          if not (is_bonded (o.address.hex o.cfg.ethereum_addr) vs.members)
          then pure l
          else get_latest_eth_height (recorded o) >>= observe_from_height (recorded o) l in
        Keeps-bind kept (silent o.injective.current_valset)
          (λ found. deref "current valset" found >>= finish) (λ w h. h)
          λ found. Keeps-deref kept "current valset" found finish λ vs w h.
            elim (Bool-cases (is_bonded (o.address.hex o.cfg.ethereum_addr) vs.members)) [
              | inl t ↦ rw t (
                  Keeps-bind kept (get_latest_eth_height (recorded o))
                    (observe_from_height (recorded o) l) height-keeps (observe_from-keeps l) w h)
              | inr f ↦ rw f h
            ]
