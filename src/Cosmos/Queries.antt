-- ===== src/Cosmos/Queries.antt =====
-- orchestrator/cosmos/peggy/query.go: the queries of the peggy module. A response is the field that is
-- read of it; a pointer that may be nil is an `Option`.
use peggo.Base.{ℕ, Bytes, String, Option, none, some, List}
use peggo.Effect.{raised, Result, M, pure, raise, lift, wrap, ◌>>=◌}
use peggo.Types.{
  Address, Valset, LastClaimEvent, MsgValsetConfirm, MsgConfirmBatch, OutgoingTxBatch, BatchFees,
}

-- The parameters of the peggy module that are used.
pub record Params : Type 0 where
  pub bridge_ethereum_address : Bytes
  pub bridge_contract_start_height : ℕ
  pub cosmos_coin_erc20_contract : Bytes

-- The generated client of the peggy module, and the text forms of addresses.
pub record ChainQueries (S : Type 0) : Type 0 where
  pub hex : Address → Bytes
  pub acc_address : Bytes → Bytes
  pub acc_address_from_bech32 : Bytes → Result Bytes
  pub valset_request : ℕ → M S (Option (Option Valset))
  pub current_valset : M S (Option (Option Valset))
  pub last_pending_valset_request_by_addr : Bytes → M S (Option (List Valset))
  pub last_valset_requests : M S (Option (List Valset))
  pub valset_confirms_by_nonce : ℕ → M S (Option (List MsgValsetConfirm))
  pub last_pending_batch_request_by_addr : Bytes → M S (Option (Option OutgoingTxBatch))
  pub outgoing_tx_batches : M S (Option (List OutgoingTxBatch))
  pub batch_fees : M S (Option (List BatchFees))
  pub batch_confirms : ℕ → Bytes → M S (Option (List MsgConfirmBatch))
  pub last_event_by_addr : Bytes → M S (Option (Option LastClaimEvent))
  pub params : M S (Option Params)
  pub get_delegate_key_by_eth : Bytes → M S (Option Bytes)

-- What a query returns for a response.
abbrev pub found : {S A : Type 0} → Option A → M S A
found none = raise (raised "not found")
found (some a) = pure a

-- The form of all the queries: the error of the call is wrapped, and no response is an error.
unfoldable pub answer : {S A : Type 0} → String → M S (Option A) → M S A
answer text call = wrap text call >>= found

module _ {S : Type 0} (q : ChainQueries S) where
  unfoldable pub valset_at : ℕ → M S (Option Valset)
  valset_at nonce = answer "failed to query ValsetRequest from client" (q.valset_request nonce)

  unfoldable pub current_valset : M S (Option Valset)
  current_valset = answer "failed to query CurrentValset from client" q.current_valset

  unfoldable pub oldest_unsigned_valsets : Bytes → M S (List Valset)
  oldest_unsigned_valsets val_account_address =
      answer "failed to query LastPendingValsetRequestByAddr from client"
        (q.last_pending_valset_request_by_addr (q.acc_address val_account_address))

  unfoldable pub latest_valsets : M S (List Valset)
  latest_valsets = answer "failed to query LastValsetRequests from daemon" q.last_valset_requests

  unfoldable pub all_valset_confirms : ℕ → M S (List MsgValsetConfirm)
  all_valset_confirms nonce =
      answer "failed to query ValsetConfirmsByNonce from daemon" (q.valset_confirms_by_nonce nonce)

  unfoldable pub oldest_unsigned_transaction_batch : Bytes → M S (Option OutgoingTxBatch)
  oldest_unsigned_transaction_batch val_account_address =
      answer "failed to query LastPendingBatchRequestByAddr from daemon"
        (q.last_pending_batch_request_by_addr (q.acc_address val_account_address))

  unfoldable pub latest_transaction_batches : M S (List OutgoingTxBatch)
  latest_transaction_batches =
      answer "failed to query OutgoingTxBatches from daemon" q.outgoing_tx_batches

  unfoldable pub unbatched_tokens_with_fees : M S (List BatchFees)
  unbatched_tokens_with_fees = answer "failed to query BatchFees from daemon" q.batch_fees

  unfoldable pub transaction_batch_signatures : ℕ → Address → M S (List MsgConfirmBatch)
  transaction_batch_signatures nonce token_contract =
      answer "failed to query BatchConfirms from daemon"
        (q.batch_confirms nonce (q.hex token_contract))

  unfoldable pub last_claim_event_by_addr : Bytes → M S (Option LastClaimEvent)
  last_claim_event_by_addr validator_account_address =
      answer "failed to query LastEventByAddr from daemon"
        (q.last_event_by_addr (q.acc_address validator_account_address))

  unfoldable pub peggy_params : M S Params
  peggy_params = answer "failed to query PeggyParams from daemon" q.params

  unfoldable pub get_validator_address : Address → M S Bytes
  get_validator_address addr = do
    validator_address ←
        answer "failed to query GetDelegateKeyByEth from client"
          (q.get_delegate_key_by_eth (q.hex addr))
    wrap "failed to decode validator address: %v"
        (lift (q.acc_address_from_bech32 validator_address))
