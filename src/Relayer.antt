-- ===== src/Relayer.antt =====
-- orchestrator/relayer.go: the loop that relays validator sets and batches from Injective to Ethereum.
pub mod Valsets
mod Newest
pub mod Search
pub mod Due
use peggo.Base.{
  ℕ, zero, suc, ◌+◌, ◌-◌, ◌*◌, ◌/◌, Bool, true, false, Bytes, String, Option, none, some, List, [],
  ◌∷◌, ◌++◌, ltb, leb, ◌==◌, not, ◌&&◌, if◌then◌else◌,
}
use peggo.Effect.{Error, raised, Result, ok, err, panic, M, pure, raise, lift, wrap, ◌>>=◌, ◌>>◌}
use peggo.Types.{
  Hash, BridgeValidator, Valset, OutgoingTxBatch, MsgValsetConfirm, MsgConfirmBatch,
  ValsetUpdatedEvent, u64,
}
use peggo.Orchestrator.{Orchestrator, retry}
use Valsets.{event_valset, sort_updates}

abbrev pub find_valset_blocks_to_search : ℕ
find_valset_blocks_to_search = 2000

unfoldable pub start_search_block : ℕ → ℕ
start_search_block current =
    if leb current find_valset_blocks_to_search then 0 else current - find_valset_blocks_to_search

-- The number of rounds that the search from a block can take.
abbrev pub windows : ℕ → ℕ
windows current = (current + (find_valset_blocks_to_search - 1)) / find_valset_blocks_to_search

abbrev pub false_or : {S A : Type 0} → Result A → (A → M S Bool) → M S Bool
false_or (ok a) f s = f a s
false_or (err e) f s = (ok false, s)
false_or (panic p) f s = (panic p, s)

-- `x, err := m; if err != nil { return false }` in front of the rest of a test.
abbrev pub or_false : {S A : Type 0} → M S A → (A → M S Bool) → M S Bool
or_false m f s = let (r, t) = m s in false_or r f t

module _ {S : Type 0} (o : Orchestrator S) where
  -- The search backwards from a block, in rounds of 2000 blocks, for the newest event; the number of
  -- rounds left stands for the test `currentBlock > 0`, which it decides when it begins as `windows`.
  unfoldable pub search : ℕ → Option Valset → ℕ → M S Valset
  search zero cosmos current = raise (raised "not found")
  search (suc rounds) cosmos current = do
    events ←
        wrap "failed to filter past ValsetUpdated events from Ethereum"
          (o.ethereum.get_valset_updated_events (start_search_block current) current)
    elim (sort_updates events) [
      | [] ↦ search rounds cosmos (start_search_block current)
      | event ∷ _ ↦ lift (event_valset o.address cosmos event)
    ]

  unfoldable pub find_latest_valset_on_eth : M S Valset
  find_latest_valset_on_eth = do
    header ← wrap "failed to get latest ethereum header" o.ethereum.get_latest_header_number
    eth_nonce ← wrap "failed to get latest valset nonce on Ethereum" o.ethereum.get_valset_nonce
    cosmos ← wrap "failed to get Injective valset" (o.injective.valset_at (u64 eth_nonce))
    search (windows (u64 header)) cosmos (u64 header)

  unfoldable pub get_latest_eth_valset : M S Valset
  get_latest_eth_valset = retry o find_latest_valset_on_eth

  -- `time.Since(block) <= offset`: the offset has not passed yet.
  unfoldable pub should_relay_valset : Valset → M S Bool
  should_relay_valset vs = or_false o.ethereum.get_valset_nonce λ eth_nonce.
      if leb vs.nonce (u64 eth_nonce)
      then pure false
      else or_false (o.injective.get_block_time vs.height) λ block_time. o.now >>= λ now.
          if leb now (block_time + o.cfg.relay_valset_offset_dur) then pure false else pure true

  -- The first set that anyone has confirmed.
  unfoldable pub latest_confirmed_valset :
      List Valset → M S (Option (Valset × List MsgValsetConfirm))
  latest_confirmed_valset [] = pure none
  latest_confirmed_valset (vs ∷ rest) = do
    sigs ←
        wrap "failed to get validator set confirmations for nonce %d"
          (o.injective.all_valset_confirms vs.nonce)
    elim sigs [ [] ↦ latest_confirmed_valset rest | c ∷ cs ↦ pure (some (vs, c ∷ cs)) ]

  abbrev pub relay_confirmed_valset :
      Valset → Option (Valset × List MsgValsetConfirm) → M S (Unit {0})
  relay_confirmed_valset eth none = pure tt
  relay_confirmed_valset eth (some (vs, confirms)) = do
    go ← should_relay_valset vs
    if go then (o.ethereum.send_eth_valset_update eth vs confirms >>= λ _. pure tt) else pure tt

  unfoldable pub relay_valset : Valset → M S (Unit {0})
  relay_valset eth = do
    sets ← wrap "failed to get latest validator set from Injective" o.injective.latest_valsets
    found ← latest_confirmed_valset sets
    relay_confirmed_valset eth found

  unfoldable pub should_relay_batch : OutgoingTxBatch → M S Bool
  should_relay_batch batch =
      or_false (o.ethereum.get_tx_batch_nonce (o.address.hex_to_address batch.token_contract))
        λ eth_nonce.
          if leb batch.batch_nonce (u64 eth_nonce)
          then pure false
          else or_false (o.injective.get_block_time batch.block) λ block_time. o.now >>= λ now.
              if leb now (block_time + o.cfg.relay_batch_offset_dur) then pure false else pure true

  -- The loop over the batches has no `break`: a later confirmed batch replaces an earlier one.
  unfoldable pub oldest_confirmed_batch :
      (height : ℕ)
      → Option (OutgoingTxBatch × List MsgConfirmBatch)
      → List OutgoingTxBatch
      → M S (Option (OutgoingTxBatch × List MsgConfirmBatch))
  oldest_confirmed_batch height found [] = pure found
  oldest_confirmed_batch height found (b ∷ rest) =
      let skip = oldest_confirmed_batch height found rest in
      if leb b.batch_timeout height
      then skip
      else (o.injective.transaction_batch_signatures b.batch_nonce
            (o.address.hex_to_address b.token_contract)
          >>= λ sigs. elim sigs [
            | [] ↦ oldest_confirmed_batch height found rest
            | c ∷ cs ↦ oldest_confirmed_batch height (some (b, c ∷ cs)) rest
          ])

  -- A batch that cannot be sent is left to the next iteration: the error is not returned.
  abbrev pub relay_confirmed_batch :
      Valset → Option (OutgoingTxBatch × List MsgConfirmBatch) → M S (Unit {0})
  relay_confirmed_batch eth none = pure tt
  relay_confirmed_batch eth (some (batch, confirms)) = do
    go ← should_relay_batch batch
    if go
        then (λ s.
            let (r, t) = o.ethereum.send_transaction_batch eth batch confirms s in
            elim r [ ok h ↦ (ok tt, t) | err e ↦ (ok tt, t) | panic p ↦ (panic p, t) ])
        else pure tt

  unfoldable pub relay_token_batch : Valset → M S (Unit {0})
  relay_token_batch eth = do
    batches ← o.injective.latest_transaction_batches
    header ← o.ethereum.get_latest_header_number
    found ← oldest_confirmed_batch (u64 header) none batches
    relay_confirmed_batch eth found

  -- The tasks that an iteration hands to a ParanoidGroup.
  unfoldable pub relay_tasks : Valset → List (M S (Unit {0}))
  relay_tasks eth =
      (if o.cfg.relay_valsets then retry o (relay_valset eth) ∷ [] else [])
      ++ (if o.cfg.relay_batches then retry o (relay_token_batch eth) ∷ [] else [])

  -- `wait` runs the tasks of a group concurrently and waits for them; it is not called without tasks.
  unfoldable pub relay : (wait : List (M S (Unit {0})) → M S (Unit {0})) → M S (Unit {0})
  relay wait = do
    eth ← get_latest_eth_valset
    elim (relay_tasks eth) [ [] ↦ pure tt | t ∷ ts ↦ wait (t ∷ ts) ]
