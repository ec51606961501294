-- ===== src/Network/Recorder.antt =====
-- A recorder around a network: the same answers, and a trace of what was reported and sent. With it
-- a theorem can speak of the calls that the code made against a network that is otherwise arbitrary.
use peggo.Base.{ℕ, ◌≡◌, ◌∙◌, sym, ap, Bytes, Bool, true, false, Option, none, some, List, ◌∷◌}
use peggo.Effect.{Result, ok, err, panic, M}
use peggo.Types.{Address, Hash, Valset, LastClaimEvent, OutgoingTxBatch}
use peggo.Network.{Injective, Ethereum}
use peggo.Oracle.Events.{Event, old_deposit, deposit, valset_update, withdrawal, erc20_deployment}

-- `accepted` says whether the call returned without an error.
pub data Entry : Type 0 where
  head : ℕ → Entry
  reported : LastClaimEvent → Entry
  claimed : (e : Event) (accepted : Bool) → Entry
  valset_confirmed : Address → Hash → Valset → (accepted : Bool) → Entry
  batch_confirmed : Address → Hash → OutgoingTxBatch → (accepted : Bool) → Entry
  batch_requested : (denom : Bytes) → Entry
  valset_relayed : (current new : Valset) → Entry
  batch_relayed : (current : Valset) (batch : OutgoingTxBatch) → Entry

-- The trace has its newest entry first.
pub record World (S : Type 0) : Type 0 where
  pub env : S
  pub trace : List Entry

abbrev pub accepted {ℓ} : {A : Type ℓ} → Result A → Bool
accepted (ok a) = true
accepted (err e) = false
accepted (panic p) = false

module _ {S A : Type 0} where
  -- A call that is not recorded.
  abbrev pub silent : M S A → M (World S) A
  silent m w = ((m w.env).0, record w { env = (m w.env).1 })

  -- A call that is recorded with its outcome.
  abbrev pub sends : (Bool → Entry) → M S A → M (World S) A
  sends entry m w =
      ((m w.env).0, record { env = (m w.env).1; trace = entry (accepted (m w.env).0) ∷ w.trace })

abbrev pub note_head : Result ℕ → List Entry → List Entry
note_head (ok n) t = head n ∷ t
note_head (err e) t = t
note_head (panic p) t = t

abbrev pub note_claim : Result (Option LastClaimEvent) → List Entry → List Entry
note_claim (ok (some c)) t = reported c ∷ t
note_claim (ok none) t = t
note_claim (err e) t = t
note_claim (panic p) t = t

abbrev pub record_injective : {S : Type 0} → Injective S → Injective (World S)
record_injective n = record {
  bridge_contract_start_height = silent n.bridge_contract_start_height;
  last_claim_event_by_addr = λ a w.
      let (r, t) = n.last_claim_event_by_addr a w.env in
      (r, record { env = t; trace = note_claim r w.trace });
  valset_at = λ k. silent (n.valset_at k);
  current_valset = silent n.current_valset;
  oldest_unsigned_valsets = λ a. silent (n.oldest_unsigned_valsets a);
  latest_valsets = silent n.latest_valsets;
  all_valset_confirms = λ k. silent (n.all_valset_confirms k);
  oldest_unsigned_transaction_batch = λ a. silent (n.oldest_unsigned_transaction_batch a);
  latest_transaction_batches = silent n.latest_transaction_batches;
  unbatched_tokens_with_fees = silent n.unbatched_tokens_with_fees;
  transaction_batch_signatures = λ k a. silent (n.transaction_batch_signatures k a);
  get_block_time = λ h. silent (n.get_block_time h);
  send_valset_confirm = λ a i v. sends (valset_confirmed a i v) (n.send_valset_confirm a i v);
  send_batch_confirm = λ a i b. sends (batch_confirmed a i b) (n.send_batch_confirm a i b);
  send_request_batch = λ d. sends (λ _. batch_requested d) (n.send_request_batch d);
  send_old_deposit_claim = λ e. sends (claimed (old_deposit e)) (n.send_old_deposit_claim e);
  send_deposit_claim = λ e. sends (claimed (deposit e)) (n.send_deposit_claim e);
  send_withdrawal_claim = λ e. sends (claimed (withdrawal e)) (n.send_withdrawal_claim e);
  send_valset_claim = λ e. sends (claimed (valset_update e)) (n.send_valset_claim e);
  send_erc20_deployed_claim =
      λ e. sends (claimed (erc20_deployment e)) (n.send_erc20_deployed_claim e);
}

abbrev pub record_ethereum : {S : Type 0} → Ethereum S → Ethereum (World S)
record_ethereum n = record {
  get_latest_header_number = λ w.
      let (r, t) = n.get_latest_header_number w.env in
      (r, record { env = t; trace = note_head r w.trace });
  get_peggy_id = silent n.get_peggy_id;
  get_send_to_cosmos_events = λ a b. silent (n.get_send_to_cosmos_events a b);
  get_send_to_injective_events = λ a b. silent (n.get_send_to_injective_events a b);
  get_peggy_erc20_deployed_events = λ a b. silent (n.get_peggy_erc20_deployed_events a b);
  get_valset_updated_events = λ a b. silent (n.get_valset_updated_events a b);
  get_transaction_batch_executed_events =
      λ a b. silent (n.get_transaction_batch_executed_events a b);
  get_valset_nonce = silent n.get_valset_nonce;
  send_eth_valset_update =
      λ v w c. sends (λ _. valset_relayed v w) (n.send_eth_valset_update v w c);
  get_tx_batch_nonce = λ a. silent (n.get_tx_batch_nonce a);
  send_transaction_batch = λ v b c. sends (λ _. batch_relayed v b) (n.send_transaction_batch v b c);
  token_decimals = λ a. silent (n.token_decimals a);
}

entry-accepted :
    {A : Type 0} (entry : Bool → Entry) (r : Result A) (t : List Entry) (a : A)
    → r ≡ ok a
    → entry (accepted r) ∷ t ≡ entry true ∷ t
entry-accepted entry r t a e = rw e

-- A recorded call that succeeds leaves its entry on the trace.
pub trace-sends :
    {S A : Type 0} (entry : Bool → Entry) (m : M S A) (w w' : World S) (a : A)
    → sends entry m w ≡ (ok a, w')
    → w'.trace ≡ entry true ∷ w.trace
trace-sends {S} {A} entry m w w' a e =
    sym (ap (λ (x : Result A × World S). x.1.trace) e)
    ∙ entry-accepted entry (m w.env).0 w.trace a (ap (λ (x : Result A × World S). x.0) e)
