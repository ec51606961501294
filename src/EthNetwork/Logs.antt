-- ===== src/EthNetwork/Logs.antt =====
-- The event scans of orchestrator/ethereum/network.go over a node that answers from its log.
use peggo.Base.{
  ℕ, ◌≡◌, ◌∙◌, sym, ap, arith, Bool, Bool-cases, not, inl, inr, String, none, some, List, ◌++◌, map,
  leb, ◌&&◌, keep, ◌⊎◌, subst,
}
use peggo.Effect.{Error, wrapped, Result, ok, err, M, ◌>>=◌, pure, lift, wrap}
use peggo.Effect.Keeps.{bind_ok, pure_ok}
use peggo.Types.{
  SendToCosmosEvent, SendToInjectiveEvent, TransactionBatchExecutedEvent, Erc20DeployedEvent,
  ValsetUpdatedEvent,
}
use peggo.Network.Recorder.{World, silent}
use peggo.Peggy.Submit.{PeggyContract}
use peggo.Orchestrator.{Orchestrator, deref}
use peggo.Orchestrator.Recorded.{recorded, retry_ok}
use peggo.Oracle.{
  Oracle, scan_eth_events, get_eth_events, observe_blocks, get_last_claim_event, claim_new_events,
}
use peggo.Oracle.Events.{
  Event, old_deposit, deposit, valset_update, withdrawal, erc20_deployment, sort_events,
  filter_events,
}
use peggo.Oracle.Coverage.{Outcome, observe_blocks-covers}
use peggo.EthNetwork.{
  Filtered, EthClient, read_events, is_unknown_block_err, iterate_unknown, get_events, new_network,
  get_send_to_cosmos_events, get_send_to_injective_events, get_peggy_erc20_deployed_events,
  get_valset_updated_events, get_transaction_batch_executed_events,
}

-- The events that the contract has emitted.
pub record Log : Type 0 where
  pub send_to_cosmos : List SendToCosmosEvent
  pub send_to_injective : List SendToInjectiveEvent
  pub transaction_batch_executed : List TransactionBatchExecutedEvent
  pub erc20_deployed : List Erc20DeployedEvent
  pub valset_updated : List ValsetUpdatedEvent

abbrev pub within : ℕ → ℕ → ℕ → Bool
within a b block = leb a block && leb block b

-- The five lists of a scan as one list.
abbrev assemble :
    List SendToCosmosEvent
    → List SendToInjectiveEvent
    → List TransactionBatchExecutedEvent
    → List Erc20DeployedEvent
    → List ValsetUpdatedEvent
    → List Event
assemble transfers deposits batches deployments valsets =
    map old_deposit transfers
    ++ (map deposit deposits
        ++ (map withdrawal batches
            ++ (map valset_update valsets ++ map erc20_deployment deployments)))

-- The events of the log from block `a` to block `b`.
abbrev pub between : Log → ℕ → ℕ → List Event
between log a b =
    assemble (keep (λ e. within a b e.block_number) log.send_to_cosmos)
      (keep (λ e. within a b e.block_number) log.send_to_injective)
      (keep (λ e. within a b e.block_number) log.transaction_batch_executed)
      (keep (λ e. within a b e.block_number) log.erc20_deployed)
      (keep (λ e. within a b e.block_number) log.valset_updated)

-- A filter call either fails without an iterator, or its iterator has all of `events` and does not
-- fail.
abbrev pub Replies : {A : Type 0} → List A → Filtered A → Type 0
Replies events r =
    ((e : Error) × (r ≡ (none, some e)))
    ⊎ (r ≡ (some (record { events = events; failure = none }), none))

-- The node answers each filter call from the log, in every state.
pub record AnswersFrom {S : Type 0} (log : Log) (c : EthClient S) : Type 0 where
  pub cosmos :
      (a b : ℕ) (s : S)
      → Replies
          (keep (λ e. within a b e.block_number) log.send_to_cosmos)
          (c.filter_send_to_cosmos_event a b s).0
  pub injective :
      (a b : ℕ) (s : S)
      → Replies
          (keep (λ e. within a b e.block_number) log.send_to_injective)
          (c.filter_send_to_injective_event a b s).0
  pub batches :
      (a b : ℕ) (s : S)
      → Replies
          (keep (λ e. within a b e.block_number) log.transaction_batch_executed)
          (c.filter_transaction_batch_executed_event a b s).0
  pub deployed :
      (a b : ℕ) (s : S)
      → Replies
          (keep (λ e. within a b e.block_number) log.erc20_deployed)
          (c.filter_erc20_deployed_event a b s).0
  pub valsets :
      (a b : ℕ) (s : S)
      → Replies
          (keep (λ e. within a b e.block_number) log.valset_updated)
          (c.filter_valset_updated_event a b s).0

read_error :
    {A : Type 0} (text : String) (e : Error) (xs : List A)
    → read_events text (none, some e) ≡ ok xs
    → ⊥
unfolding read_events
read_error {A} text e xs h = elim (Bool-cases (not (is_unknown_block_err e))) [
  | inl y ↦
      let h' : ◌≡◌ {A = Result (List A)} (err (wrapped text e)) (ok xs) = rw y at h in ground arith
  | inr n ↦ let h' : iterate_unknown {A = A} none ≡ ok xs = rw n at h in ground arith
]

read_events-Replies :
    {A : Type 0} (text : String) (events xs : List A) (r : Filtered A)
    → Replies events r
    → read_events text r ≡ ok xs
    → xs ≡ events
unfolding read_events
read_events-Replies text events xs r (inl (e, q)) h =
    absurd (read_error text e xs (ap (read_events text) (sym q) ∙ h))
read_events-Replies {A} text events xs r (inr q) h =
    let h' : ◌≡◌ {A = Result (List A)} (ok events) (ok xs) = ap (read_events text) (sym q) ∙ h in
    ground arith

module _ {S A : Type 0} (c : EthClient S) where
  get_events-Replies :
      (text : String) (filter : S → Filtered A × S) (events xs : List A) (s t : S)
      → ((u : S) → Replies events (filter u).0)
      → get_events c text filter s ≡ (ok xs, t)
      → xs ≡ events
  unfolding get_events
  get_events-Replies text filter events xs s t replies h =
      let init : M S (Unit {0}) =
        wrap "failed to init Peggy events filterer" (lift c.new_peggy_filterer) in
      let read : M S (List A) = λ u. (read_events text (filter u).0, (filter u).1) in
      let (_, u, _, rest) = bind_ok init (λ _. read) s xs t h in
      read_events-Replies text events xs (filter u).0 (replies u)
        (ap (λ (x : Result (List A) × S). x.0) rest)

  silent-Replies :
      (text : String) (filter : S → Filtered A × S) (events xs : List A) (w w' : World S)
      → ((u : S) → Replies events (filter u).0)
      → silent (get_events c text filter) w ≡ (ok xs, w')
      → xs ≡ events
  silent-Replies text filter events xs w w' replies h =
      get_events-Replies text filter events xs w.env _ replies λ i. ((h i).0, (h i).1.env)

-- The end of a scan, by what each of its five calls gave.
assembled :
    {S : Type 0} (x1 : List SendToCosmosEvent) (x2 : List SendToInjectiveEvent)
    (x3 : List TransactionBatchExecutedEvent) (x4 : List Erc20DeployedEvent)
    (x5 : List ValsetUpdatedEvent) (y1 : List SendToCosmosEvent) (y2 : List SendToInjectiveEvent)
    (y3 : List TransactionBatchExecutedEvent) (y4 : List Erc20DeployedEvent)
    (y5 : List ValsetUpdatedEvent) (events : List Event) (w w' : World S)
    → pure (assemble x1 x2 x3 x4 x5) w ≡ (ok events, w')
    → x1 ≡ y1
    → x2 ≡ y2
    → x3 ≡ y3
    → x4 ≡ y4
    → x5 ≡ y5
    → events ≡ assemble y1 y2 y3 y4 y5
assembled x1 x2 x3 x4 x5 y1 y2 y3 y4 y5 events w w' h e1 e2 e3 e4 e5 =
    sym (pure_ok (assemble x1 x2 x3 x4 x5) events w w' h).0 ∙ λ i.
    assemble (e1 i) (e2 i) (e3 i) (e4 i) (e5 i)

-- The orchestrator `o` on the Ethereum network that `new_network` puts together.
abbrev pub joined : {S : Type 0} → Orchestrator S → EthClient S → PeggyContract S → Orchestrator S
joined o c p = record o { ethereum = new_network c p }

observe_blocks-scanned :
    {S : Type 0} (o : Orchestrator S) (l l' : Oracle) (latest : ℕ) (s t : S)
    → observe_blocks o l latest s ≡ (ok l', t)
    → (events : List Event) × (u : S) × (get_eth_events o l.last_observed_eth_height latest s
        ≡ (ok events, u))
unfolding observe_blocks
observe_blocks-scanned o l l' latest s t h =
    let (events, u, q, _) =
      bind_ok (get_eth_events o l.last_observed_eth_height latest)
        (λ events. get_last_claim_event o >>= λ found. deref "last claim" found >>= λ claim.
          claim_new_events o latest claim
            (sort_events (filter_events events claim.ethereum_event_nonce)))
        s l' t h in
    (events, u, q)

module _ {S : Type 0} (o : Orchestrator S) (c : EthClient S) (p : PeggyContract S) (log : Log)
    (answers : AnswersFrom log c) where
  scan-all :
      (a b : ℕ) (events : List Event) (w w' : World S)
      → scan_eth_events (recorded (joined o c p)) a b w ≡ (ok events, w')
      → events ≡ between log a b
  unfolding scan_eth_events get_send_to_cosmos_events get_send_to_injective_events
      get_peggy_erc20_deployed_events get_valset_updated_events
      get_transaction_batch_executed_events
  scan-all a b events w w' h =
      let eth = (recorded (joined o c p)).ethereum in
      let (x1, w1, q1, h1) =
        bind_ok (eth.get_send_to_cosmos_events a b)
          (λ x1. eth.get_send_to_injective_events a b >>= λ x2.
            eth.get_transaction_batch_executed_events a b >>= λ x3.
            eth.get_peggy_erc20_deployed_events a b >>= λ x4.
            eth.get_valset_updated_events a b >>= λ x5. pure (assemble x1 x2 x3 x4 x5))
          w events w' h in
      let (x2, w2, q2, h2) =
        bind_ok (eth.get_send_to_injective_events a b)
          (λ x2. eth.get_transaction_batch_executed_events a b >>= λ x3.
            eth.get_peggy_erc20_deployed_events a b >>= λ x4.
            eth.get_valset_updated_events a b >>= λ x5. pure (assemble x1 x2 x3 x4 x5))
          w1 events w' h1 in
      let (x3, w3, q3, h3) =
        bind_ok (eth.get_transaction_batch_executed_events a b)
          (λ x3. eth.get_peggy_erc20_deployed_events a b >>= λ x4.
            eth.get_valset_updated_events a b >>= λ x5. pure (assemble x1 x2 x3 x4 x5))
          w2 events w' h2 in
      let (x4, w4, q4, h4) =
        bind_ok (eth.get_peggy_erc20_deployed_events a b)
          (λ x4. eth.get_valset_updated_events a b >>= λ x5. pure (assemble x1 x2 x3 x4 x5)) w3
          events w' h3 in
      let (x5, w5, q5, h5) =
        bind_ok (eth.get_valset_updated_events a b) (λ x5. pure (assemble x1 x2 x3 x4 x5)) w4 events
          w' h4 in
      let e1 = silent-Replies c _ _ _ x1 w w1 (answers.cosmos a b) q1 in
      let e2 = silent-Replies c _ _ _ x2 w1 w2 (answers.injective a b) q2 in
      let e3 = silent-Replies c _ _ _ x3 w2 w3 (answers.batches a b) q3 in
      let e4 = silent-Replies c _ _ _ x4 w3 w4 (answers.deployed a b) q4 in
      let e5 = silent-Replies c _ _ _ x5 w4 w5 (answers.valsets a b) q5 in
      assembled x1 x2 x3 x4 x5 _ _ _ _ _ events w5 w' h5 e1 e2 e3 e4 e5

  -- When the scan of a block range ends without an error, on the assembled Ethereum network and over
  -- a node whose filter calls either fail or give the whole log of the range, then either the last
  -- observed height is the end of the range and every event that the log has there has been
  -- handled; or it is the height of a last claim that Injective has reported, and the event that
  -- must come next after it is not in the log of that range.
  pub observe_log-covers :
      (l l' : Oracle) (latest : ℕ) (w w' : World S)
      → observe_blocks (recorded (joined o c p)) l latest w ≡ (ok l', w')
      → Outcome (between log l.last_observed_eth_height latest) latest l' w'.trace
  unfolding get_eth_events
  observe_log-covers l l' latest w w' h =
      let j = recorded (joined o c p) in
      let (events, v, scanned) = observe_blocks-scanned j l l' latest w w' h in
      let (u, _, scan) =
        retry_ok j (λ _. Unit {0}) (scan_eth_events j l.last_observed_eth_height latest) (λ s q. tt)
          w v events scanned tt in
      subst (λ es. Outcome es latest l' w'.trace)
        (scan-all l.last_observed_eth_height latest events u v scan)
        (observe_blocks-covers (joined o c p) l l' latest events w v w' scanned h)
