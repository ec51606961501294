-- ===== src/EthNetwork.antt =====
-- orchestrator/ethereum/network.go: the network that the orchestrator uses for Ethereum, with the
-- calls of the contract in orchestrator/ethereum/peggy/utils.go.
pub mod Logs
pub mod Iteration
use peggo.Base.{
  ℕ, ◌+◌, ◌*◌, ◌%◌, Bool, true, false, Bytes, codes, String, Option, none, some, List, [], ◌∷◌, not,
  contains, ◌||◌, if◌then◌else◌,
}
use peggo.Effect.{
  Error, raised, wrapped, error_text, Result, ok, err, panic, M, pure, raise, lift, wrap, ◌>>=◌,
  ◌>>◌,
}
use peggo.Types.{
  Address, Hash, SendToCosmosEvent, SendToInjectiveEvent, TransactionBatchExecutedEvent,
  Erc20DeployedEvent, ValsetUpdatedEvent, u64,
}
use peggo.Network.{Ethereum}
use peggo.Peggy.Submit.{PeggyContract, send_eth_valset_update, send_transaction_batch}

-- An iterator over logs: the events that `Next` steps through, and `Error` after the last one.
pub record Iterator (A : Type 0) : Type 0 where
  pub events : List A
  pub failure : Option Error

-- What a `Filter` method of the generated filterer returns: an iterator that may be nil, and an
-- error that may be nil.
abbrev pub Filtered : Type 0 → Type 0
Filtered A = Option (Iterator A) × Option Error

-- The generated binding of the contract, and the provider; the caller's address is in the binding.
pub record EthClient (S : Type 0) : Type 0 where
  pub new_peggy_filterer : Result (Unit {0})
  pub filter_send_to_cosmos_event : ℕ → ℕ → S → Filtered SendToCosmosEvent × S
  pub filter_send_to_injective_event : ℕ → ℕ → S → Filtered SendToInjectiveEvent × S
  pub filter_erc20_deployed_event : ℕ → ℕ → S → Filtered Erc20DeployedEvent × S
  pub filter_valset_updated_event : ℕ → ℕ → S → Filtered ValsetUpdatedEvent × S
  pub filter_transaction_batch_executed_event :
      ℕ → ℕ → S → Filtered TransactionBatchExecutedEvent × S
  pub call_contract : Address → Bytes → M S Bytes
  pub latest_header_number : M S ℕ
  pub last_batch_nonce : Address → M S ℕ
  pub state_last_valset_nonce : M S ℕ
  pub state_peggy_id : M S Hash

unfoldable pub is_unknown_block_err : Error → Bool
is_unknown_block_err e =
    contains (codes "unknown block") (error_text e)
    || contains (codes "One of the blocks specified in filter") (error_text e)

-- Go reads through an iterator that is nil.
abbrev iterate : {A : Type 0} → Option (Iterator A) → Result (List A)
iterate none = panic "nil iterator"
iterate (some iter) = ok iter.events

abbrev iterate_unknown : {A : Type 0} → Option (Iterator A) → Result (List A)
iterate_unknown none = err (raised "no iterator returned")
iterate_unknown (some iter) = ok iter.events

unfoldable pub read_events : {A : Type 0} → String → Filtered A → Result (List A)
read_events text (iter, none) = iterate iter
read_events text (iter, some e) =
    if not (is_unknown_block_err e) then err (wrapped text e) else iterate_unknown iter

module _ {S : Type 0} (c : EthClient S) where
  -- The form of the five functions that scan for events.
  unfoldable pub get_events : {A : Type 0} → String → (S → Filtered A × S) → M S (List A)
  get_events text filter =
      wrap "failed to init Peggy events filterer" (lift c.new_peggy_filterer) >> λ s.
      (read_events text (filter s).0, (filter s).1)

  unfoldable pub get_send_to_cosmos_events : ℕ → ℕ → M S (List SendToCosmosEvent)
  get_send_to_cosmos_events start_block end_block =
      get_events "failed to scan past SendToCosmos events from Ethereum (%d - %d)"
        (c.filter_send_to_cosmos_event start_block end_block)

  unfoldable pub get_send_to_injective_events : ℕ → ℕ → M S (List SendToInjectiveEvent)
  get_send_to_injective_events start_block end_block =
      get_events "failed to scan past SendToInjectiveEvent events from Ethereum (%d - %d)"
        (c.filter_send_to_injective_event start_block end_block)

  unfoldable pub get_peggy_erc20_deployed_events : ℕ → ℕ → M S (List Erc20DeployedEvent)
  get_peggy_erc20_deployed_events start_block end_block =
      get_events "failed to scan past ERC20DeployedEvent events from Ethereum (%d - %d)"
        (c.filter_erc20_deployed_event start_block end_block)

  unfoldable pub get_valset_updated_events : ℕ → ℕ → M S (List ValsetUpdatedEvent)
  get_valset_updated_events start_block end_block =
      get_events "failed to scan past ValsetUpdatedEvent events from Ethereum (%d - %d)"
        (c.filter_valset_updated_event start_block end_block)

  unfoldable pub get_transaction_batch_executed_events :
      ℕ → ℕ → M S (List TransactionBatchExecutedEvent)
  get_transaction_batch_executed_events start_block end_block =
      get_events "failed to scan past TransactionBatchExecuted events from Ethereum (%d - %d)"
        (c.filter_transaction_batch_executed_event start_block end_block)

  unfoldable pub get_peggy_id : M S Hash
  get_peggy_id = wrap "StatePeggyId call failed" c.state_peggy_id

  unfoldable pub get_valset_nonce : M S ℕ
  get_valset_nonce = wrap "StateLastValsetNonce call failed" c.state_last_valset_nonce

  unfoldable pub get_tx_batch_nonce : Address → M S ℕ
  get_tx_batch_nonce erc20_contract_address =
      wrap "LastBatchNonce call failed" (c.last_batch_nonce erc20_contract_address)

-- `big.NewInt(0).SetBytes(res)`, from the number read so far.
abbrev big_endian : ℕ → Bytes → ℕ
big_endian n [] = n
big_endian n (b ∷ bs) = big_endian (256 * n + b) bs

unfoldable pub decimals_of : Bytes → Result ℕ
decimals_of [] = err (raised "no decimals found for token contract %s")
decimals_of (b ∷ bs) = ok (u64 (big_endian 0 (b ∷ bs)) % 256)

unfoldable pub token_decimals : {S : Type 0} → EthClient S → Address → M S ℕ
token_decimals c token_contract = do
  res ← c.call_contract token_contract (49 ∷ 60 ∷ 229 ∷ 103 ∷ [])
  lift (decimals_of res)

-- The struct that NewNetwork returns.
abbrev pub new_network : {S : Type 0} → EthClient S → PeggyContract S → Ethereum S
new_network c p = record {
  get_latest_header_number = c.latest_header_number;
  get_peggy_id = get_peggy_id c;
  get_send_to_cosmos_events = get_send_to_cosmos_events c;
  get_send_to_injective_events = get_send_to_injective_events c;
  get_peggy_erc20_deployed_events = get_peggy_erc20_deployed_events c;
  get_valset_updated_events = get_valset_updated_events c;
  get_transaction_batch_executed_events = get_transaction_batch_executed_events c;
  get_valset_nonce = get_valset_nonce c;
  send_eth_valset_update = send_eth_valset_update p;
  get_tx_batch_nonce = get_tx_batch_nonce c;
  send_transaction_batch = send_transaction_batch p;
  token_decimals = token_decimals c;
}
