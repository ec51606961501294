-- ===== src/Relayer/Due.antt =====
-- When the relayer lets a validator set or a batch through.
use peggo.Base.{
  ℕ, ◌+◌, ◌<◌, ◌≡◌, refl, Bool, true, false, Bool-cases, inl, inr, leb, arith, if◌then◌else◌,
}
use peggo.Effect.{Result, ok, err, panic, M, pure, ◌>>=◌}
use peggo.Effect.Keeps.{bind_ok}
use peggo.Types.{Valset, OutgoingTxBatch, u64}
use peggo.Orchestrator.{Orchestrator}
use peggo.Relayer.{or_false, false_or, should_relay_valset, should_relay_batch}

-- A test of this form is true only after its first call has succeeded.
or_false-true :
    {S A : Type 0} (m : M S A) (f : A → M S Bool) (s t : S)
    → or_false m f s ≡ (ok true, t)
    → (a : A) × (u : S) × (m s ≡ (ok a, u)) × (f a u ≡ (ok true, t))
or_false-true {S} {A} m f s t h = go (m s).0 (m s).1 refl h
  where
    go :
        (r : Result A) (u : S)
        → m s ≡ (r, u)
        → false_or r f u ≡ (ok true, t)
        → (a : A) × (u : S) × (m s ≡ (ok a, u)) × (f a u ≡ (ok true, t))
    go (ok a) u e k = (a, u, e, k)
    go (err x) u e k = absurd (ground arith)
    go (panic p) u e k = absurd (ground arith)

-- The clock has passed a time by more than an offset.
abbrev pub Passed : {S : Type 0} → Orchestrator S → (block_time offset : ℕ) → Type 0
Passed {S} o block_time offset =
    (now : ℕ) × (s : S) × (t : S) × (o.now s ≡ (ok now, t)) × (block_time + offset < now)

-- Injective gave a time for a block, and more than the offset has passed since.
abbrev pub Aged : {S : Type 0} → Orchestrator S → (height offset : ℕ) → Type 0
Aged {S} o height offset =
    (block_time : ℕ) × (s : S) × (t : S) × (o.injective.get_block_time height s
      ≡ (ok block_time, t))
    × Passed o block_time offset

module _ {S : Type 0} (o : Orchestrator S) where
  or_false-Aged :
      (height offset : ℕ) (s t : S)
      → or_false
          (o.injective.get_block_time height)
          (λ block_time.
            o.now >>= λ now. if leb now (block_time + offset) then pure false else pure true)
          s
        ≡ (ok true, t)
      → Aged o height offset
  or_false-Aged height offset s t h =
      let test : ℕ → ℕ → M S Bool =
        λ b now. if leb now (b + offset) then pure false else pure true in
      let (b, u, read, rest) =
        or_false-true (o.injective.get_block_time height) (λ x. o.now >>= test x) s t h in
      let (now, v, clock, last) = bind_ok o.now (test b) u true t rest in
      elim (Bool-cases (leb now (b + offset))) [
        | inl y ↦
            let bad : ◌≡◌ {A = Result Bool × S} (ok false, v) (ok true, t) = rw y at last in
            absurd (ground arith)
        | inr n ↦ (b, s, u, read, (now, u, v, clock, ground (arith, n)))
      ]

  -- A validator set is let through only if Ethereum gave a nonce of its validator set that is smaller,
  -- Injective gave the time of the block of the set, and the offset has passed since that time.
  pub should_relay_valset-Aged :
      (vs : Valset) (s t : S)
      → should_relay_valset o vs s ≡ (ok true, t)
      → ((k : ℕ) × (u : S) × (o.ethereum.get_valset_nonce s ≡ (ok k, u)) × (u64 k < vs.nonce))
        × Aged o vs.height o.cfg.relay_valset_offset_dur
  unfolding should_relay_valset
  should_relay_valset-Aged vs s t h =
      let late : M S Bool = or_false (o.injective.get_block_time vs.height) (λ block_time.
        o.now >>= λ now.
        if leb now (block_time + o.cfg.relay_valset_offset_dur) then pure false else pure true) in
      let test : ℕ → M S Bool = λ k. if leb vs.nonce (u64 k) then pure false else late in
      let (k, u, read, rest) = or_false-true o.ethereum.get_valset_nonce test s t h in
      elim (Bool-cases (leb vs.nonce (u64 k))) [
        | inl y ↦
            let bad : ◌≡◌ {A = Result Bool × S} (ok false, u) (ok true, t) = rw y at rest in
            absurd (ground arith)
        | inr n ↦ (
          (k, u, read, ground (arith, n)),
          or_false-Aged vs.height o.cfg.relay_valset_offset_dur u t (rw n at rest),
        )
      ]

  -- A batch is let through only if Ethereum gave a nonce of the last batch of its token that is
  -- smaller, Injective gave the time of the block of the batch, and the offset has passed since that
  -- time.
  pub should_relay_batch-Aged :
      (batch : OutgoingTxBatch) (s t : S)
      → should_relay_batch o batch s ≡ (ok true, t)
      → ((k : ℕ) × (u : S) × (o.ethereum.get_tx_batch_nonce
              (o.address.hex_to_address batch.token_contract)
              s
            ≡ (ok k, u))
          × (u64 k < batch.batch_nonce))
        × Aged o batch.block o.cfg.relay_batch_offset_dur
  unfolding should_relay_batch
  should_relay_batch-Aged batch s t h =
      let late : M S Bool = or_false (o.injective.get_block_time batch.block) (λ block_time.
        o.now >>= λ now.
        if leb now (block_time + o.cfg.relay_batch_offset_dur) then pure false else pure true) in
      let test : ℕ → M S Bool = λ k. if leb batch.batch_nonce (u64 k) then pure false else late in
      let (k, u, read, rest) =
        or_false-true
          (o.ethereum.get_tx_batch_nonce (o.address.hex_to_address batch.token_contract)) test s t
          h in
      elim (Bool-cases (leb batch.batch_nonce (u64 k))) [
        | inl y ↦
            let bad : ◌≡◌ {A = Result Bool × S} (ok false, u) (ok true, t) = rw y at rest in
            absurd (ground arith)
        | inr n ↦ (
          (k, u, read, ground (arith, n)),
          or_false-Aged batch.block o.cfg.relay_batch_offset_dur u t (rw n at rest),
        )
      ]
