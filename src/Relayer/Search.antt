-- ===== src/Relayer/Search.antt =====
-- The search for the latest validator set on Ethereum, against a node that answers from a log.
use peggo.Relayer.Newest.{sort-none, sort-head}
use peggo.Base.{
  keep-none, Any-keep, All-of_keep, All-at, All-both, ℕ, zero, suc, ◌≤◌, ◌<◌, ◌≡◌, sym, ap, refl,
  subst, inl, inr, ◌⊎◌, Bool, false, Option, List, [], ◌∷◌, All, All-mono, Any, keep, leb, ◌&&◌,
  Bool-cases, String, arith,
}
use peggo.Effect.{raised, Result, ok, err, M, lift, wrap, wrap_result}
use peggo.Effect.Keeps.{bind_step}
use peggo.Types.{Valset, ValsetUpdatedEvent}
use peggo.Orchestrator.{Orchestrator}
use peggo.Relayer.Valsets.{event_valset, sort_updates}
use peggo.Relayer.{search, start_search_block, windows}

-- The events of the log in a range of blocks, both ends included, as a node filters them.
abbrev pub in_range : List ValsetUpdatedEvent → ℕ → ℕ → List ValsetUpdatedEvent
in_range log a b = keep (λ e. leb a e.block_number && leb e.block_number b) log

-- The node answers every range from the log, and answering changes nothing.
abbrev pub AnswersFrom : {S : Type 0} → Orchestrator S → List ValsetUpdatedEvent → Type 0
AnswersFrom {S} o log =
    (a b : ℕ) (s : S) → o.ethereum.get_valset_updated_events a b s ≡ (ok (in_range log a b), s)

-- On the log, an event of an earlier block has no greater nonce. The contract takes only a greater nonce
-- than its last one, so this holds also where a block has several updates.
abbrev pub Grows : List ValsetUpdatedEvent → Type 0
Grows log =
    All
      (λ x.
        All (λ y. x.block_number < y.block_number → x.new_valset_nonce ≤ y.new_valset_nonce) log)
      log

-- `e` is on the log at or below the block, and no event there has a greater nonce.
abbrev pub IsLatest : List ValsetUpdatedEvent → ℕ → ValsetUpdatedEvent → Type 0
IsLatest log block e =
    Any (λ x. x ≡ e) log
    × (e.block_number ≤ block)
    × All (λ x. x.block_number ≤ block → x.new_valset_nonce ≤ e.new_valset_nonce) log

abbrev step : ℕ → ℕ → ValsetUpdatedEvent → Bool
step start current e = leb start e.block_number && leb e.block_number current

-- A window with an event has the latest one.
in_range-IsLatest :
    (log : List ValsetUpdatedEvent) (start current : ℕ) (e : ValsetUpdatedEvent)
    (rest : List ValsetUpdatedEvent)
    → Grows log
    → sort_updates (in_range log start current) ≡ e ∷ rest
    → IsLatest log current e
in_range-IsLatest log start current e rest grows h =
    let (member, max) = sort-head (in_range log start current) e rest h in
    let (on_log, inside) = Any-keep (step start current) e log member in
    let newest =
      All-of_keep (λ x. x.new_valset_nonce ≤ e.new_valset_nonce) (step start current) log max in
    (
      on_log,
      ground (arith, inside),
      All-both _ _ _ log
          (λ x k g below. elim (Bool-cases (step start current x)) [
            | inl t ↦ k t
            | inr f ↦
                All-at
                  (λ y. x.block_number < y.block_number → x.new_valset_nonce ≤ y.new_valset_nonce) e
                  log g on_log (ground (arith, inside, f, below))
          ])
          newest grows,
    )

-- What the search returns: the validator set of the latest event, or that there is none.
abbrev pub Found :
    {S : Type 0}
    → Orchestrator S
    → List ValsetUpdatedEvent
    → Option Valset
    → ℕ
    → S
    → Result Valset × S
    → Type 0
Found o log cosmos current s r =
    ((e : ValsetUpdatedEvent) × IsLatest log current e × (r ≡ (event_valset o.address cosmos e, s)))
    ⊎ (All (λ x. current < x.block_number) log × (r ≡ (err (raised "not found"), s)))

module _ {S : Type 0} (o : Orchestrator S) (log : List ValsetUpdatedEvent)
    (cosmos : Option Valset) where
  -- An empty window leaves the answer to the blocks before it.
  Found-before :
      (start current : ℕ) (s : S) (r : Result Valset × S)
      → All (λ x. step start current x ≡ false) log
      → start ≤ current
      → Found o log cosmos start s r
      → Found o log cosmos current s r
  Found-before start current s r none le (inl (e, (on_log, low, max), same)) = inl (
    e,
    (
      on_log,
      omega arith,
      All-both _ _ _ log (λ x f m below. m (ground (arith, f, below))) none max,
    ),
    same,
  )
  Found-before start current s r none le (inr (above, same)) =
      inr (All-both _ _ _ log (λ x f a. ground (arith, f, a)) none above, same)

  rounds_before :
      (rounds current : ℕ)
      → suc rounds ≡ windows current
      → (rounds ≡ windows (start_search_block current))
        × (start_search_block current ≤ current)
        × ((start_search_block current ≡ 0) ⊎ (0 < start_search_block current))
  unfolding start_search_block
  rounds_before rounds current e = (ground arith, ground arith, ground arith)

  search_rounds :
      (rounds current : ℕ) (s : S)
      → AnswersFrom o log
      → Grows log
      → 0 < current
      → rounds ≡ windows current
      → Found o log cosmos current s (search o rounds cosmos current s)
  unfolding search
  search_rounds zero current s answers grows pos e = absurd (omega arith)
  search_rounds (suc rounds) current s answers grows pos e =
      subst (Found o log cosmos current s)
        (sym (
          bind_step (wrap text (o.ethereum.get_valset_updated_events start current)) after s
            (in_range log start current) s
            (ap (λ (x : Result (List ValsetUpdatedEvent) × S). (wrap_result text x.0, x.1))
              (answers start current s))))
        (go (sort_updates (in_range log start current)) refl (λ more.
          search_rounds rounds start s answers grows more (rounds_before rounds current e).0))
    where
      text : String
      text = "failed to filter past ValsetUpdated events from Ethereum"

      start : ℕ
      start = start_search_block current

      after : List ValsetUpdatedEvent → M S Valset
      after events = elim (sort_updates events) [
        | [] ↦ search o rounds cosmos start
        | event ∷ _ ↦ lift (event_valset o.address cosmos event)
      ]

      choose : List ValsetUpdatedEvent → M S Valset
      choose ys = elim ys [
        | [] ↦ search o rounds cosmos start
        | event ∷ _ ↦ lift (event_valset o.address cosmos event)
      ]

      go :
          (ys : List ValsetUpdatedEvent)
          → sort_updates (in_range log start current) ≡ ys
          → (0 < start → Found o log cosmos start s (search o rounds cosmos start s))
          → Found o log cosmos current s (choose ys s)
      go [] k ih =
          let none =
            keep-none (step start current) log (sort-none (in_range log start current) k) in
          elim (rounds_before rounds current e).2 [
            | inr more ↦
                Found-before start current s _ none (rounds_before rounds current e).1 (ih more)
            | inl first ↦
                let last : rounds ≡ 0 = ground (arith, (rounds_before rounds current e).0) in
                inr (
                  All-mono _ _ log (λ x f. ground (arith, f, first)) none,
                  ap (λ n. search o n cosmos start s) last,
                )
          ]
      go (x ∷ xs) k ih = inl (x, in_range-IsLatest log start current x xs grows k, refl)

  -- If the node answers every range of blocks from one log, on which no event of an earlier
  -- block has a greater nonce of its validator set, then the search from a block above 0 returns the validator set of an event
  -- of the log at or below that block that no event there exceeds in nonce, or says that there is no
  -- event at or below that block, however many windows lie between the block and the event.
  pub search-Found :
      (current : ℕ) (s : S)
      → AnswersFrom o log
      → Grows log
      → 0 < current
      → Found o log cosmos current s (search o (windows current) cosmos current s)
  search-Found current s answers grows pos =
      search_rounds (windows current) current s answers grows pos refl
