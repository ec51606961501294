-- ===== src/Peggy/Submit.antt =====
-- SendEthValsetUpdate (valset_update.go) and SendTransactionBatch (submit_batch.go) of
-- orchestrator/ethereum/peggy: the calls of the Peggy contract that a relayer makes.
pub mod Guards
use peggo.Base.{ℕ, Bool, Bytes, List, [], ◌∷◌, map, leb, if◌then◌else◌}
use peggo.Effect.{Error, raised, Result, M, pure, raise, lift, wrap, ◌>>=◌}
use peggo.Types.{
  Address, Hash, Valset, BridgeValidator, OutgoingTxBatch, MsgValsetConfirm, MsgConfirmBatch,
}
use peggo.Libraries.{DecimalLib, GethLib}
use peggo.Peggy.Repack.{Repacked, check_valset_sigs_and_repack, check_batch_sigs_and_repack}
use peggo.Peggy.Pending.{PendingTxInput, is_pending_tx_input}

pub record ValsetArgs : Type 0 where
  pub validators : List Address
  pub powers : List ℕ
  pub valset_nonce : ℕ
  pub reward_amount : ℕ
  pub reward_token : Address

pub record BatchArgs : Type 0 where
  pub amounts : List ℕ
  pub destinations : List Address
  pub fees : List ℕ
  pub batch_nonce : ℕ
  pub token_contract : Address
  pub batch_timeout : ℕ

-- `peggyABI.Pack` of the generated ABI, for the two methods; the signatures are `v`, `r`, `s`.
pub record PeggyAbi : Type 0 where
  pub pack_update_valset :
      (new current : ValsetArgs) → List ℕ → List Hash → List Hash → Result Bytes
  pub pack_submit_batch : ValsetArgs → List ℕ → List Hash → List Hash → BatchArgs → Result Bytes

-- The struct peggyContract. `send_tx` is the committer's SendTx, `now` is time.Now().
pub record PeggyContract (S : Type 0) : Type 1 where
  pub decimal : DecimalLib
  pub geth : GethLib
  pub abi : PeggyAbi
  pub now : M S ℕ
  pub send_tx : Address → Bytes → M S Hash
  pub peggy_address : Address
  pub pending_tx_input_list : List PendingTxInput
  pub pending_tx_wait_duration : ℕ

unfoldable pub validators_and_powers : GethLib → Valset → List Address × List ℕ
validators_and_powers geth valset = (
  map (λ m. geth.hex_to_address m.ethereum_address) valset.members,
  map (λ m. m.power) valset.members,
)

unfoldable pub get_batch_checkpoint_values :
    GethLib → OutgoingTxBatch → List ℕ × List Address × List ℕ
get_batch_checkpoint_values geth batch = (
  map (λ t. t.erc20_token) batch.transactions,
  map (λ t. geth.hex_to_address t.dest_address) batch.transactions,
  map (λ t. t.erc20_fee) batch.transactions,
)

-- The arguments that describe the current validator set, from its repacked arrays.
abbrev pub current_args : GethLib → Valset → Repacked → ValsetArgs
current_args geth valset p = record {
  validators = p.validators;
  powers = p.powers;
  valset_nonce = valset.nonce;
  reward_amount = valset.reward_amount;
  reward_token = geth.hex_to_address valset.reward_token;
}

abbrev pub new_args : GethLib → Valset → ValsetArgs
new_args geth valset = record {
  validators = (validators_and_powers geth valset).0;
  powers = (validators_and_powers geth valset).1;
  valset_nonce = valset.nonce;
  reward_amount = valset.reward_amount;
  reward_token = geth.hex_to_address valset.reward_token;
}

abbrev pub batch_args : GethLib → OutgoingTxBatch → BatchArgs
batch_args geth batch = record {
  amounts = (get_batch_checkpoint_values geth batch).0;
  destinations = (get_batch_checkpoint_values geth batch).1;
  fees = (get_batch_checkpoint_values geth batch).2;
  batch_nonce = batch.batch_nonce;
  token_contract = geth.hex_to_address batch.token_contract;
  batch_timeout = batch.batch_timeout;
}

module _ {S : Type 0} (p : PeggyContract S) where
  -- The check for the same input in the mempool, and the transaction. The clock is read only for an
  -- input that is on the list; here it is read before the list is searched.
  unfoldable pub submit : (text : Error) → Bytes → M S Hash
  submit text tx_data = do
    now ← p.now
    if is_pending_tx_input p.pending_tx_input_list tx_data p.pending_tx_wait_duration now
        then raise text
        else p.send_tx p.peggy_address tx_data

  unfoldable pub send_eth_valset_update :
      (old_valset new_valset : Valset) → List MsgValsetConfirm → M S Hash
  send_eth_valset_update old_valset new_valset confirms =
      if leb new_valset.nonce old_valset.nonce
      then raise (raised "new valset nonce should be greater than old valset nonce")
      else do
        r ←
            wrap "confirmations check failed"
              (lift (check_valset_sigs_and_repack p.decimal p.geth old_valset confirms))
        tx_data ← lift (
            p.abi.pack_update_valset (new_args p.geth new_valset) (current_args p.geth old_valset r)
              r.v r.r r.s)
        submit (raised "Transaction with same valset input data is already present in mempool")
            tx_data

  unfoldable pub send_transaction_batch :
      (current_valset : Valset) → OutgoingTxBatch → List MsgConfirmBatch → M S Hash
  send_transaction_batch current_valset batch confirms = do
    r ←
        wrap "confirmations check failed"
          (lift (check_batch_sigs_and_repack p.decimal p.geth current_valset confirms))
    tx_data ← lift (
        p.abi.pack_submit_batch (current_args p.geth current_valset r) r.v r.r r.s
          (batch_args p.geth batch))
    submit (raised "Transaction with same batch input data is already present in mempool") tx_data
