-- ===== src/Oracle.antt =====
-- orchestrator/oracle.go: the loop that ferries Ethereum events to Injective as claims.
pub mod Events
mod Sorting
pub mod Claims
pub mod Coverage
mod Frame
pub mod Order
pub mod Height
use peggo.Base.{
  ℕ, ◌+◌, ◌-◌, Bool, false, Bytes, Option, List, [], ◌∷◌, ◌++◌, map, not, ◌||◌, bytes_eq, ltb, leb,
  ◌==◌, if◌then◌else◌,
}
use peggo.Effect.{M, pure, wrap, for_each, ◌>>=◌, ◌>>◌}
use peggo.Types.{u64, BridgeValidator, LastClaimEvent}
use peggo.Orchestrator.{Orchestrator, retry, deref}
use Events.{
  Event, old_deposit, deposit, valset_update, withdrawal, erc20_deployment, nonce, filter_events,
  sort_events,
}

abbrev pub eth_block_confirmation_delay : ℕ
eth_block_confirmation_delay = 12

abbrev pub default_blocks_to_search : ℕ
default_blocks_to_search = 2000

-- The field `lastResyncWithInjective` is never read, and is left out.
pub record Oracle : Type 0 where
  pub last_observed_eth_height : ℕ

unfoldable pub is_bonded : Bytes → List BridgeValidator → Bool
is_bonded addr [] = false
is_bonded addr (v ∷ vs) = bytes_eq addr v.ethereum_address || is_bonded addr vs

-- The end of the block range to scan: at most `default_blocks_to_search` past the last height.
unfoldable pub end_block : ℕ → ℕ → ℕ
end_block observed latest =
    if ltb (u64 (observed + default_blocks_to_search)) latest
    then u64 (observed + default_blocks_to_search)
    else latest

module _ {S : Type 0} (o : Orchestrator S) where
  unfoldable pub scan_eth_events : ℕ → ℕ → M S (List Event)
  scan_eth_events start_block last_block = do
    old_deposits ← o.ethereum.get_send_to_cosmos_events start_block last_block
    deposits ← o.ethereum.get_send_to_injective_events start_block last_block
    withdrawals ← o.ethereum.get_transaction_batch_executed_events start_block last_block
    erc20_deployments ← o.ethereum.get_peggy_erc20_deployed_events start_block last_block
    valset_updates ← o.ethereum.get_valset_updated_events start_block last_block
    pure (
        map old_deposit old_deposits
        ++ (map deposit deposits
            ++ (map withdrawal withdrawals
                ++ (map valset_update valset_updates ++ map erc20_deployment erc20_deployments))))

  unfoldable pub get_eth_events : ℕ → ℕ → M S (List Event)
  get_eth_events start_block last_block = retry o (scan_eth_events start_block last_block)

  unfoldable pub get_latest_eth_height : M S ℕ
  get_latest_eth_height = retry o (do
    h ← wrap "failed to get latest ethereum header" o.ethereum.get_latest_header_number
    pure (u64 h))

  unfoldable pub get_last_claim_event : M S (Option LastClaimEvent)
  get_last_claim_event = retry o (o.injective.last_claim_event_by_addr o.cfg.cosmos_addr)

  unfoldable pub send_eth_event_claim : Event → M S (Unit {0})
  send_eth_event_claim (old_deposit e) = o.injective.send_old_deposit_claim e
  send_eth_event_claim (deposit e) = o.injective.send_deposit_claim e
  send_eth_event_claim (valset_update e) = o.injective.send_valset_claim e
  send_eth_event_claim (withdrawal e) = o.injective.send_withdrawal_claim e
  send_eth_event_claim (erc20_deployment e) = o.injective.send_erc20_deployed_claim e

  -- One attempt: the latest claimed nonce is read again, and what it covers is left out. With
  -- nothing left the loop sends nothing. The sleep after each claim is not modelled.
  unfoldable pub send_events : List Event → M S (Unit {0})
  send_events events = do
    found ← o.injective.last_claim_event_by_addr o.cfg.cosmos_addr
    claim ← deref "last claim" found
    for_each send_eth_event_claim (filter_events events claim.ethereum_event_nonce)

  unfoldable pub send_new_event_claims : List Event → M S (Unit {0})
  send_new_event_claims events = retry o (send_events events)

  -- The end of `observeEthEvents`, by the new events in the order of their nonces.
  unfoldable pub claim_new_events : ℕ → LastClaimEvent → List Event → M S Oracle
  claim_new_events latest claim [] = pure (record { last_observed_eth_height = latest })
  claim_new_events latest claim (e ∷ es) =
      if not (u64 (claim.ethereum_event_nonce + 1) == nonce e)
      then pure (record { last_observed_eth_height = claim.ethereum_event_height })
      else do send_new_event_claims (e ∷ es); pure (record { last_observed_eth_height = latest })

  -- The scan of the blocks from the last observed height to `latest`.
  unfoldable pub observe_blocks : Oracle → ℕ → M S Oracle
  observe_blocks l latest = do
    events ← get_eth_events l.last_observed_eth_height latest
    found ← get_last_claim_event
    claim ← deref "last claim" found
    claim_new_events latest claim (sort_events (filter_events events claim.ethereum_event_nonce))

  -- From the confirmed height on.
  unfoldable pub observe_confirmed : Oracle → ℕ → M S Oracle
  observe_confirmed l latest =
      if leb latest l.last_observed_eth_height
      then pure l
      else observe_blocks l (end_block l.last_observed_eth_height latest)

  unfoldable pub observe_from_height : Oracle → ℕ → M S Oracle
  observe_from_height l latest =
      if leb latest eth_block_confirmation_delay
      then pure l
      else observe_confirmed l (latest - eth_block_confirmation_delay)

  -- The oracle is returned as the call leaves it; an error or a panic leaves it as it was.
  unfoldable pub observe_eth_events : Oracle → M S Oracle
  observe_eth_events l = do
    found ← o.injective.current_valset
    vs ← deref "current valset" found
    if not (is_bonded (o.address.hex o.cfg.ethereum_addr) vs.members)
        then pure l
        else (get_latest_eth_height >>= observe_from_height l)
