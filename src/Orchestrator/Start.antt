-- ===== src/Orchestrator/Start.antt =====
-- NewOrchestrator and the two modes of orchestrator/orchestrator.go: what is started, and from where.
use peggo.Base.{
  none, subst, ℕ, ◌≡◌, ◌≢◌, ◌∙◌, ◌⊎◌, refl, sym, ap, arith, inl, inr, Bool-cases, true, false,
  String, Option, some, List, [], ◌∷◌, ◌==◌, if◌then◌else◌,
}
use peggo.Effect.{Result, ok, err, panic, M, pure, continue, ◌>>=◌}
use peggo.Effect.Keeps.{bind_ok, pure_ok}
use peggo.Effect.Retry.{Retry}
use peggo.Types.{Address, Hash, LastClaimEvent}
use peggo.Libraries.{DecimalLib, GethLib}
use peggo.Network.{Injective, Ethereum}
use peggo.Orchestrator.{Orchestrator, Config, deref}

-- A loop that is started in a goroutine of its own, with what it starts from.
pub data Task : Type 0 where
  run_oracle : (last_observed_eth_block : ℕ) → Task
  run_signer : (peggy_contract_id : Hash) → Task
  run_batch_creator run_relayer : Task

abbrev pub new_orchestrator :
    {S : Type 0} (retry_lib : Retry) (decimal : DecimalLib) (address : GethLib) (now : M S ℕ)
    → Injective S
    → Ethereum S
    → (price_feed : Address → M S decimal.Float) → Config decimal.Float
    → Orchestrator S
new_orchestrator retry_lib decimal address now inj eth price_feed cfg = record {
  retry_lib = retry_lib;
  decimal = decimal;
  address = address;
  now = now;
  cfg = cfg;
  max_attempts = 10;
  injective = inj;
  ethereum = eth;
  query_usd_price = price_feed;
}

-- An error that ends the process.
abbrev pub ended : {A : Type 0} → String → Result A → Result A
ended text (ok a) = ok a
ended text (err e) = panic text
ended text (panic p) = panic p

abbrev pub fatal : {S A : Type 0} → String → M S A → M S A
fatal text m s = (ended text (m s).0, (m s).1)

ended_ok : {A : Type 0} (text : String) (r : Result A) (a : A) → ended text r ≡ ok a → r ≡ ok a
ended_ok text (ok b) a h = h
ended_ok text (err e) a h = absurd (ground arith)
ended_ok text (panic p) a h = absurd (ground arith)

pub fatal_ok :
    {S A : Type 0} (text : String) (m : M S A) (s t : S) (a : A)
    → fatal text m s ≡ (ok a, t)
    → m s ≡ (ok a, t)
fatal_ok {S} {A} text m s t a h =
    let q = ended_ok text (m s).0 a (ap (λ (x : Result A × S). x.0) h) in λ i. (q i, (h i).1)

-- The answer of the query is an error, or reports a last claim at the height 0.
abbrev pub NoHeight : Result (Option LastClaimEvent) → Type 0
NoHeight (ok (some c)) = c.ethereum_event_height ≡ 0
NoHeight (err e) = Unit
NoHeight (ok none) = ⊥
NoHeight (panic p) = ⊥

-- The height is that of the last claim in the answer, or 0 if there is none.
abbrev OfClaim : ℕ → Result (Option LastClaimEvent) → Type 0
OfClaim k r =
    ((c : LastClaimEvent) × (r ≡ ok (some c)) × (k ≡ c.ethereum_event_height))
    ⊎ ((k ≡ 0) × NoHeight r)

OfClaim-zero :
    (k : ℕ) (r : Result (Option LastClaimEvent)) → (k == 0) ≡ true → OfClaim k r → NoHeight r
OfClaim-zero k r z (inl (c, e, h)) = subst NoHeight (sym e) (ground arith)
OfClaim-zero k r z (inr (e, unknown)) = unknown

OfClaim-nonzero :
    (k : ℕ) (r : Result (Option LastClaimEvent))
    → (k == 0) ≡ false
    → OfClaim k r
    → (c : LastClaimEvent) × (r ≡ ok (some c)) × (k ≡ c.ethereum_event_height)
OfClaim-nonzero k r z (inl x) = x
OfClaim-nonzero k r z (inr (e, unknown)) = absurd (ground arith)

module _ {S : Type 0} (s : Orchestrator S) where
  unfoldable pub get_last_claim_block_height : M S ℕ
  get_last_claim_block_height = do
    claim ← s.injective.last_claim_event_by_addr s.cfg.cosmos_addr
    c ← deref "last claim" claim
    pure c.ethereum_event_height

  -- The height that is known, or that of the contract when it is 0.
  abbrev pub or_contract_start : ℕ → M S ℕ
  or_contract_start height =
      if height == 0
      then fatal "unable to query peggy module params, is injectived running?"
          s.injective.bridge_contract_start_height
      else pure height

  -- An error of the query counts as the height 0.
  abbrev pub or_zero : Result ℕ → Result ℕ
  or_zero (ok n) = ok n
  or_zero (err e) = ok 0
  or_zero (panic p) = panic p

  abbrev pub known_height : M S ℕ
  known_height t = (or_zero (get_last_claim_block_height t).0, (get_last_claim_block_height t).1)

  unfoldable pub start_height : M S ℕ
  start_height = known_height >>= or_contract_start

  unfoldable pub start_validator_mode : M S (List Task)
  start_validator_mode = do
    last_observed_eth_block ← start_height
    peggy_contract_id ← fatal "unable to query peggy ID from contract" s.ethereum.get_peggy_id
    pure (
        run_oracle last_observed_eth_block
        ∷ run_signer peggy_contract_id
        ∷ run_batch_creator
        ∷ run_relayer
        ∷ [])

  unfoldable pub start_relayer_mode : M S (List Task)
  start_relayer_mode = pure (run_batch_creator ∷ run_relayer ∷ [])

  unfoldable pub run : M S (List Task)
  run = if s.cfg.relayer_mode then start_relayer_mode else start_validator_mode

  -- Where the oracle starts, when Injective is asked in the state `t`: at the height of the last claim
  -- that it then reports, which is not 0; or, when the answer has no such height, at the height that it
  -- gives for the bridge contract in the state after that answer.
  abbrev pub StartsAt : ℕ → S → S → Type 0
  StartsAt n t u =
      let answer = s.injective.last_claim_event_by_addr s.cfg.cosmos_addr t in
      ((c : LastClaimEvent) × (answer ≡ (ok (some c), u)) × (n ≡ c.ethereum_event_height) × (n ≢ 0))
      ⊎ (NoHeight answer.0 × (s.injective.bridge_contract_start_height answer.1 ≡ (ok n, u)))

  known_height-OfClaim :
      (t v : S) (k : ℕ)
      → known_height t ≡ (ok k, v)
      → ((s.injective.last_claim_event_by_addr s.cfg.cosmos_addr t).1 ≡ v)
        × OfClaim k (s.injective.last_claim_event_by_addr s.cfg.cosmos_addr t).0
  unfolding get_last_claim_block_height
  known_height-OfClaim t v k h =
      let answer = s.injective.last_claim_event_by_addr s.cfg.cosmos_addr t in
      go answer.0 answer.1 (ap (λ (x : Result ℕ × S). x.0) h) (ap (λ (x : Result ℕ × S). x.1) h)
    where
      rest : Option LastClaimEvent → M S ℕ
      rest claim = deref "last claim" claim >>= λ c. pure c.ethereum_event_height

      go :
          (r : Result (Option LastClaimEvent)) (w : S)
          → or_zero (continue r rest w).0 ≡ ok k
          → (continue r rest w).1 ≡ v
          → (w ≡ v) × OfClaim k r
      go (ok (some c)) w p q = (q, inl (c, refl, ground arith))
      go (ok none) w p q = absurd (ground arith)
      go (err e) w p q = (q, inr (ground arith, tt))
      go (panic x) w p q = absurd (ground arith)

  start_height-StartsAt : (t u : S) (n : ℕ) → start_height t ≡ (ok n, u) → StartsAt n t u
  unfolding start_height
  start_height-StartsAt t u n h =
      let answer = s.injective.last_claim_event_by_addr s.cfg.cosmos_addr t in
      let (k, v, known, rest) = bind_ok known_height or_contract_start t n u h in
      let (same, cases) = known_height-OfClaim t v k known in
      elim (Bool-cases (k == 0)) [
        | inl zero_height ↦
            let asked : fatal "unable to query peggy module params, is injectived running?"
                  s.injective.bridge_contract_start_height v
                ≡ (ok n, u) =
              rw zero_height at rest in
            let given =
              fatal_ok "unable to query peggy module params, is injectived running?"
                s.injective.bridge_contract_start_height v u n asked in
            inr (
              OfClaim-zero k answer.0 zero_height cases,
              ap s.injective.bridge_contract_start_height same ∙ given,
            )
        | inr nonzero ↦
            let kept : pure k v ≡ (ok n, u) = rw nonzero at rest in
            let (is, end) = pure_ok k n v u kept in
            let (c, claim, height) = OfClaim-nonzero k answer.0 nonzero cases in
            inl (c, (λ i. (claim i, (same ∙ end) i)), sym is ∙ height, ground (arith, nonzero, is))
      ]

  -- The loops of the mode, and where they start.
  abbrev pub Starts : S → List Task → Type 0
  Starts t tasks =
      ((s.cfg.relayer_mode ≡ true) × (tasks ≡ run_batch_creator ∷ run_relayer ∷ []))
      ⊎ ((s.cfg.relayer_mode ≡ false)
          × (n : ℕ) × (id : Hash) × (v : S) × (w : S) × StartsAt n t v
          × (s.ethereum.get_peggy_id v ≡ (ok id, w))
          × (tasks ≡ run_oracle n ∷ run_signer id ∷ run_batch_creator ∷ run_relayer ∷ []))

  -- A run that starts its loops starts, in relayer mode, only the batch creator and the relayer; in
  -- validator mode all four: the oracle from the height of the last claim that Injective reports at the
  -- start, if there is an answer and that is not 0, and otherwise from the height that Injective gives
  -- for the bridge contract; and the signer for the ID that the contract gives after that.
  pub run-Starts : (t u : S) (tasks : List Task) → run t ≡ (ok tasks, u) → Starts t tasks
  unfolding run start_relayer_mode start_validator_mode
  run-Starts t u tasks h = elim (Bool-cases s.cfg.relayer_mode) [
    | inl relayer ↦
        let started : pure (run_batch_creator ∷ run_relayer ∷ []) t ≡ (ok tasks, u) =
          ap (λ b. (if b then start_relayer_mode else start_validator_mode) t) (sym relayer) ∙ h in
        inl (relayer, sym (pure_ok _ tasks t u started).0)
    | inr validator ↦
        let all : Hash → ℕ → List Task =
          λ id n. run_oracle n ∷ run_signer id ∷ run_batch_creator ∷ run_relayer ∷ [] in
        let ask = fatal "unable to query peggy ID from contract" s.ethereum.get_peggy_id in
        let started : (start_height >>= λ n. ask >>= λ id. pure (all id n)) t ≡ (ok tasks, u) =
          ap (λ b. (if b then start_relayer_mode else start_validator_mode) t) (sym validator)
          ∙ h in
        let (n, v, at_height, rest) =
          bind_ok start_height (λ n. ask >>= λ id. pure (all id n)) t tasks u started in
        let (id, w, named, done) = bind_ok ask (λ id. pure (all id n)) v tasks u rest in
        inr (
          validator,
          n,
          id,
          v,
          w,
          start_height-StartsAt t v n at_height,
          fatal_ok "unable to query peggy ID from contract" s.ethereum.get_peggy_id v w id named,
          sym (pure_ok (all id n) tasks w u done).0,
        )
  ]
