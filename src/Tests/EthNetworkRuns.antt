-- ===== src/Tests/EthNetworkRuns.antt =====
-- The oracle over the assembled Ethereum network, on a node that answers from its log.
use peggo.Base.{◌≡◌, refl, inr, codes, none, some, List, [], ◌∷◌, keep}
use peggo.Effect.{failed, ok, pure, for_each}
use peggo.Network.Recorder.{World}
use peggo.Orchestrator.{Orchestrator}
use peggo.Orchestrator.Recorded.{recorded}
use peggo.Orchestrator.Start.{
  run_oracle, run_signer, run_batch_creator, run_relayer, run, start_validator_mode, start_height,
  get_last_claim_block_height, Starts, run-Starts,
}
use peggo.Oracle.{
  Oracle, observe_blocks, get_eth_events, get_last_claim_event, claim_new_events,
  send_new_event_claims, send_events, send_eth_event_claim, scan_eth_events,
}
use peggo.Oracle.Events.{filter_events, sort_events, nonce}
use peggo.Oracle.Coverage.{Outcome}
use peggo.Peggy.Submit.{PeggyContract}
use peggo.EthNetwork.{
  EthClient, Filtered, new_network, get_events, read_events, get_send_to_cosmos_events,
  get_send_to_injective_events, get_peggy_erc20_deployed_events, get_valset_updated_events,
  get_transaction_batch_executed_events,
}
use peggo.EthNetwork.Logs.{Log, AnswersFrom, between, within, joined, observe_log-covers}
use peggo.EthNetwork.Iteration.{unfailing_client, new_network-unfailing}
use peggo.Tests.Fixtures.{fixed_point, geth, transfers, updates, orchestrator}

abbrev log : Log
log = record {
  send_to_cosmos = transfers;
  send_to_injective = [];
  transaction_batch_executed = [];
  erc20_deployed = [];
  valset_updated = updates;
}

abbrev all_of : {A : Type 0} → List A → Filtered A
all_of events = (some (record { events = events; failure = none }), none)

abbrev pub eth_client : EthClient (Unit {0})
eth_client = record {
  new_peggy_filterer = ok tt;
  filter_send_to_cosmos_event =
      λ a b s. (all_of (keep (λ e. within a b e.block_number) transfers), s);
  filter_send_to_injective_event = λ a b s. (all_of [], s);
  filter_erc20_deployed_event = λ a b s. (all_of [], s);
  filter_valset_updated_event =
      λ a b s. (all_of (keep (λ e. within a b e.block_number) updates), s);
  filter_transaction_batch_executed_event = λ a b s. (all_of [], s);
  call_contract = λ a d. pure (6 ∷ []);
  latest_header_number = pure 112;
  last_batch_nonce = λ a. pure 1;
  state_last_valset_nonce = pure 5;
  state_peggy_id = pure 1;
}

abbrev pub contract : PeggyContract (Unit {0})
contract = record {
  decimal = fixed_point;
  geth = geth;
  abi = record { pack_update_valset = λ n c v r s. ok []; pack_submit_batch = λ c v r s b. ok [] };
  now = pure 1000;
  send_tx = λ a d. pure 1;
  peggy_address = 9;
  pending_tx_input_list = [];
  pending_tx_wait_duration = 20;
}

log-AnswersFrom : AnswersFrom log eth_client
log-AnswersFrom = record {
  cosmos = λ a b s. inr refl;
  injective = λ a b s. inr refl;
  batches = λ a b s. inr refl;
  deployed = λ a b s. inr refl;
  valsets = λ a b s. inr refl;
}

-- Injective has the claims up to nonce 4.
abbrev o : Orchestrator (Unit {0})
o = orchestrator (record { ethereum_event_nonce = 4; ethereum_event_height = 80 })

abbrev start : World (Unit {0})
start = record { env = tt; trace = [] }

abbrev at_76 : Oracle
at_76 = record { last_observed_eth_height = 76 }

abbrev at_100 : Oracle
at_100 = record { last_observed_eth_height = 100 }

abbrev after : World (Unit {0})
after = (observe_blocks (recorded (joined o eth_client contract)) at_76 100 start).1

observe_log-covers_example : Outcome (between log 76 100) 100 at_100 after.trace
unfolding observe_blocks get_eth_events get_last_claim_event claim_new_events send_new_event_claims
    send_events send_eth_event_claim scan_eth_events filter_events sort_events nonce for_each
    get_events read_events get_send_to_cosmos_events get_send_to_injective_events
    get_peggy_erc20_deployed_events get_valset_updated_events get_transaction_batch_executed_events
observe_log-covers_example =
    observe_log-covers o eth_client contract log log-AnswersFrom at_76 at_100 100 start after refl

-- The scan of transfers is cut off after the first one.
abbrev failing : EthClient (Unit {0})
failing = record eth_client {
  filter_send_to_cosmos_event = λ a b s.
      ((some (record { events = transfers; failure = some (failed (codes "timeout")) }), none), s);
}

new_network-unfailing_example :
    new_network (unfailing_client failing) contract ≡ new_network failing contract
new_network-unfailing_example = new_network-unfailing failing contract

run-Starts_example :
    Starts o tt (run_oracle 80 ∷ run_signer 1 ∷ run_batch_creator ∷ run_relayer ∷ [])
unfolding run start_validator_mode start_height get_last_claim_block_height
run-Starts_example = run-Starts o tt tt _ refl
