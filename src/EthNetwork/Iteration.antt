-- ===== src/EthNetwork/Iteration.antt =====
-- The error that an iterator over logs ends with, in orchestrator/ethereum/network.go.
use peggo.Base.{◌≡◌, refl, String, none, some}
use peggo.Effect.{lift, wrap, ◌>>◌}
use peggo.Peggy.Submit.{PeggyContract}
use peggo.EthNetwork.{
  Filtered, EthClient, read_events, get_events, new_network, get_send_to_cosmos_events,
  get_send_to_injective_events, get_peggy_erc20_deployed_events, get_valset_updated_events,
  get_transaction_batch_executed_events, token_decimals, get_peggy_id, get_valset_nonce,
  get_tx_batch_nonce,
}

-- An iterator that ends where the given one does, and says that nothing failed.
abbrev pub no_failure : {A : Type 0} → Filtered A → Filtered A
no_failure (none, e) = (none, e)
no_failure (some iter, e) = (some (record iter { failure = none }), e)

abbrev unfailing : {S A : Type 0} → (S → Filtered A × S) → S → Filtered A × S
unfailing filter s = (no_failure (filter s).0, (filter s).1)

-- The client whose iterators are all of that kind.
abbrev pub unfailing_client : {S : Type 0} → EthClient S → EthClient S
unfailing_client c = record c {
  filter_send_to_cosmos_event = λ a b. unfailing (c.filter_send_to_cosmos_event a b);
  filter_send_to_injective_event = λ a b. unfailing (c.filter_send_to_injective_event a b);
  filter_erc20_deployed_event = λ a b. unfailing (c.filter_erc20_deployed_event a b);
  filter_valset_updated_event = λ a b. unfailing (c.filter_valset_updated_event a b);
  filter_transaction_batch_executed_event =
      λ a b. unfailing (c.filter_transaction_batch_executed_event a b);
}

read_events-no_failure :
    {A : Type 0} (text : String) (r : Filtered A)
    → read_events text (no_failure r) ≡ read_events text r
unfolding read_events
read_events-no_failure text (none, e) = refl
read_events-no_failure text (some iter, none) = refl
read_events-no_failure text (some iter, some e) = refl

module _ {S : Type 0} (c : EthClient S) where
  get_events-unfailing :
      {A : Type 0} (text : String) (filter : S → Filtered A × S)
      → get_events (unfailing_client c) text (unfailing filter) ≡ get_events c text filter
  unfolding get_events
  get_events-unfailing text filter = λ i.
      wrap "failed to init Peggy events filterer" (lift c.new_peggy_filterer) >> λ s.
      (read_events-no_failure text (filter s).0 i, (filter s).1)

  -- The network over a client whose iterators may fail part of the way is equal to the network over
  -- a client whose iterators end at the same event with no failure. So no caller can tell a scan
  -- that was cut off by a failure from a complete one.
  pub new_network-unfailing :
      (p : PeggyContract S) → new_network (unfailing_client c) p ≡ new_network c p
  unfolding get_send_to_cosmos_events get_send_to_injective_events get_peggy_erc20_deployed_events
      get_valset_updated_events get_transaction_batch_executed_events token_decimals get_peggy_id
      get_valset_nonce get_tx_batch_nonce
  new_network-unfailing p = λ i. record (new_network c p) {
    get_send_to_cosmos_events = λ a b.
        get_events-unfailing "failed to scan past SendToCosmos events from Ethereum (%d - %d)"
          (c.filter_send_to_cosmos_event a b) i;
    get_send_to_injective_events = λ a b.
        get_events-unfailing
          "failed to scan past SendToInjectiveEvent events from Ethereum (%d - %d)"
          (c.filter_send_to_injective_event a b) i;
    get_peggy_erc20_deployed_events = λ a b.
        get_events-unfailing "failed to scan past ERC20DeployedEvent events from Ethereum (%d - %d)"
          (c.filter_erc20_deployed_event a b) i;
    get_valset_updated_events = λ a b.
        get_events-unfailing "failed to scan past ValsetUpdatedEvent events from Ethereum (%d - %d)"
          (c.filter_valset_updated_event a b) i;
    get_transaction_batch_executed_events = λ a b.
        get_events-unfailing
          "failed to scan past TransactionBatchExecuted events from Ethereum (%d - %d)"
          (c.filter_transaction_batch_executed_event a b) i;
  }
