-- ===== src/Oracle/Height.antt =====
-- Where the oracle loop moves its last observed height.
use peggo.Base.{
  ℕ, ◌+◌, ◌-◌, leb, ◌^◌, ◌≤◌, ◌<◌, ◌≡◌, sym, ap, subst, inl, inr, ◌⊎◌, Any, List, Bool-cases, arith,
  not, if◌then◌else◌,
}
use peggo.Effect.{Result, ok, err, panic, M, ◌>>=◌, pure, wrap, wrap_result}
use peggo.Effect.Keeps.{bind_ok, pure_ok}
use peggo.Types.{LastClaimEvent, Valset, u64}
use peggo.Network.Recorder.{World, Entry, head, note_head, silent}
use peggo.Orchestrator.{Orchestrator, deref}
use peggo.Orchestrator.Recorded.{recorded, retry_ok}
use peggo.Oracle.{
  Oracle, eth_block_confirmation_delay, default_blocks_to_search, get_latest_eth_height,
  observe_blocks, get_eth_events, observe_confirmed, observe_from_height, observe_eth_events,
  is_bonded, end_block, get_last_claim_event, claim_new_events,
}
use peggo.Oracle.Events.{Event, sort_events, filter_events}
use peggo.Oracle.Coverage.{IsReport, observe_blocks-covers}
use peggo.Oracle.Claims.{Any-report, Any-send_events}
use peggo.Oracle.Frame.{observe_blocks-keeps}

-- The Ethereum node reported `k` as its latest header.
abbrev pub IsHead : ℕ → Entry → Type 0
IsHead k (head n) = n ≡ k
IsHead k _ = ⊥

-- The height stays, or moves forward by at most 2000 blocks to one with 12 blocks on top of it, or
-- goes to the height of the last claim that Injective reported.
abbrev pub Moves : ℕ → ℕ → List Entry → Type 0
Moves h h' trace =
    (h' ≡ h)
    ⊎ (((k : ℕ) × Any (IsHead k) trace
          × (h < h')
          × (h' + eth_block_confirmation_delay ≤ u64 k)
          × (h' ≤ h + default_blocks_to_search))
        ⊎ ((c : LastClaimEvent) × Any (IsReport c) trace × (h' ≡ c.ethereum_event_height)))

end_block_bounds :
    (h n : ℕ)
    → h + default_blocks_to_search < 2 ^ 64
    → h < n
    → (h < end_block h n) × (end_block h n ≤ n) × (end_block h n ≤ h + default_blocks_to_search)
unfolding end_block
end_block_bounds h n r lt = ground arith

module _ {S : Type 0} (o : Orchestrator S) where
  height_reported :
      (w w' : World S) (n : ℕ)
      → get_latest_eth_height (recorded o) w ≡ (ok n, w')
      → (k : ℕ) × Any (IsHead k) w'.trace × (u64 k ≡ n)
  unfolding get_latest_eth_height
  height_reported w w' n e =
      let ask =
        wrap "failed to get latest ethereum header"
          (recorded o).ethereum.get_latest_header_number in
      let (v, _, last) =
        retry_ok (recorded o) (λ _. Unit {0}) (ask >>= λ h. pure (u64 h)) (λ s p. tt) w w' n e tt in
      let (k, v', asked, rest) = bind_ok ask (λ h. pure (u64 h)) v n w' last in
      let (same, state) = pure_ok (u64 k) n v' w' rest in
      (
        k,
        subst (λ (r : World S). Any (IsHead k) r.trace) state
            (subst (λ (r : Result ℕ × World S). Any (IsHead k) r.1.trace) asked
              (go v.trace k (o.ethereum.get_latest_header_number v.env).0
                (ap (λ (r : Result ℕ × World S). r.0) asked))),
        same,
      )
    where
      go :
          (t : List Entry) (k : ℕ) (r : Result ℕ)
          → wrap_result "failed to get latest ethereum header" r ≡ ok k
          → Any (IsHead k) (note_head r t)
      go t k (ok n) e = inl (ground arith)
      go t k (err x) e = absurd (ground arith)
      go t k (panic x) e = absurd (ground arith)

  blocks-Moves :
      (l l' : Oracle) (k n : ℕ) (w w' : World S)
      → l.last_observed_eth_height + default_blocks_to_search < 2 ^ 64
      → Any (IsHead k) w.trace
      → l.last_observed_eth_height < n
      → n + eth_block_confirmation_delay ≤ u64 k
      → observe_blocks (recorded o) l (end_block l.last_observed_eth_height n) w ≡ (ok l', w')
      → Moves l.last_observed_eth_height l'.last_observed_eth_height w'.trace
  unfolding observe_blocks
  blocks-Moves l l' k n w w' r known lt conf h =
      let last = end_block l.last_observed_eth_height n in
      let bounds = end_block_bounds l.last_observed_eth_height n r lt in
      let Q = IsHead k in
      let kept : Any Q w'.trace =
        subst (λ (x : Result Oracle × World S). Any Q x.1.trace) h
          (observe_blocks-keeps o (Any Q) (Any-report o Q o.cfg.cosmos_addr)
            (λ m es a. Any-send_events o Q es) l last w known) in
      let claim_from : List Event → M (World S) Oracle = λ es.
        get_last_claim_event (recorded o) >>= λ x. deref "last claim" x >>= λ c.
        claim_new_events (recorded o) last c
          (sort_events (filter_events es c.ethereum_event_nonce)) in
      let (events, v, scanned, _) =
        bind_ok (get_eth_events (recorded o) l.last_observed_eth_height last) claim_from w l' w'
          h in
      elim (observe_blocks-covers o l l' last events w v w' scanned h) [
        | inl (e, _) ↦ inr (inl (k, kept, omega arith, omega arith, omega arith))
        | inr (c, reported, e, _) ↦ inr (inr (c, reported, e))
      ]

  from_height :
      (l l' : Oracle) (k n : ℕ) (w w' : World S)
      → l.last_observed_eth_height + default_blocks_to_search < 2 ^ 64
      → Any (IsHead k) w.trace
      → u64 k ≡ n
      → observe_from_height (recorded o) l n w ≡ (ok l', w')
      → Moves l.last_observed_eth_height l'.last_observed_eth_height w'.trace
  unfolding observe_from_height observe_confirmed
  from_height l l' k n w w' r known same h =
      elim (Bool-cases (leb n eth_block_confirmation_delay)) [
        | inl t ↦
            let stay : pure l w ≡ (ok l', w') = rw t at h in
            inl (ap (λ (x : Oracle). x.last_observed_eth_height) (sym (pure_ok l l' w w' stay).0))
        | inr f ↦
            elim (Bool-cases (leb (n - eth_block_confirmation_delay) l.last_observed_eth_height)) [
              | inl t ↦
                  let stay : pure l w ≡ (ok l', w') = rw (f, t) at h in
                  inl (
                    ap (λ (x : Oracle). x.last_observed_eth_height)
                      (sym (pure_ok l l' w w' stay).0))
              | inr g ↦
                  blocks-Moves l l' k (n - eth_block_confirmation_delay) w w' r known (ground arith)
                    (ground arith) (rw (f, g) at h)
            ]
      ]

  -- After an iteration without an error, the last observed height has not changed, or has moved
  -- forward by at most 2000 blocks to a block that has 12 confirmations under a header that the node
  -- reported, or is the height of a last claim that Injective reported. The height must leave room
  -- for 2000 blocks in a uint64.
  pub observe-Moves :
      (l l' : Oracle) (w w' : World S)
      → l.last_observed_eth_height + default_blocks_to_search < 2 ^ 64
      → observe_eth_events (recorded o) l w ≡ (ok l', w')
      → Moves l.last_observed_eth_height l'.last_observed_eth_height w'.trace
  unfolding observe_eth_events
  observe-Moves l l' w w' r h =
      let enter : ℕ → M (World S) Oracle = observe_from_height (recorded o) l in
      let finish : Valset → M (World S) Oracle = λ vs.
        if not (is_bonded (o.address.hex o.cfg.ethereum_addr) vs.members)
        then pure l
        else get_latest_eth_height (recorded o) >>= enter in
      let (found, v, asked, more) =
        bind_ok (silent o.injective.current_valset) (λ x. deref "current valset" x >>= finish) w l'
          w' h in
      let (vs, u, seen, rest) = bind_ok (deref "current valset" found) finish v l' w' more in
      elim (Bool-cases (is_bonded (o.address.hex o.cfg.ethereum_addr) vs.members)) [
        | inr f ↦
            let stay : pure l u ≡ (ok l', w') = rw f at rest in
            inl (ap (λ (x : Oracle). x.last_observed_eth_height) (sym (pure_ok l l' u w' stay).0))
        | inl t ↦
            let go : (get_latest_eth_height (recorded o) >>= enter) u ≡ (ok l', w') =
              rw t at rest in
            let (n, u', height, last) =
              bind_ok (get_latest_eth_height (recorded o)) enter u l' w' go in
            let (k, known, same) = height_reported u u' n height in
            from_height l l' k n u' w' r known same last
      ]
