-- ===== src/Tests/Fixtures.antt =====
-- Small concrete libraries and networks for the tests.
use peggo.Base.{
  ℕ, zero, suc, ◌*◌, ◌/◌, ◌^◌, ◌≡◌, refl, true, false, Bytes, codes, none, some, List, [], ◌∷◌,
  ◌++◌, ltb, leb, ◌==◌, ◌&&◌, keep,
}
use peggo.Effect.{raised, Result, ok, err, panic, M, pure}
use peggo.Effect.Retry.{Attempts, succeeds, panics, gives_up, cancelled, Retry}
use peggo.Types.{BridgeValidator, Valset, LastClaimEvent, SendToCosmosEvent, ValsetUpdatedEvent}
use peggo.Libraries.{DecimalLib, GethLib}
use peggo.Network.{Injective, Ethereum}
use peggo.Orchestrator.{Orchestrator}

abbrev pub once : (S A : Type 0) → ℕ → M S A → M S A
once S A zero fn s = (err (raised "cancelled"), s)
once S A (suc n) fn s = fn s

pub once-Attempts :
    (S A : Type 0) (n : ℕ) (fn : M S A) (s : S)
    → Attempts fn n s (once S A n fn s).0 (once S A n fn s).1
once-Attempts S A zero fn s = cancelled
once-Attempts S A (suc n) fn s = go (fn s).0 (fn s).1 refl
  where
    go : (r : Result A) (t : S) → fn s ≡ (r, t) → Attempts fn (suc n) s r t
    go (ok a) t e = succeeds e
    go (err x) t e = gives_up e
    go (panic p) t e = panics e

-- One attempt.
abbrev pub retry_once : Retry
retry_once = record { run = once; law = once-Attempts }

-- Decimals with sixteen digits behind the point; floats are integers.
abbrev pub scale : ℕ
scale = 10 ^ 16

abbrev pub fixed_point : DecimalLib
fixed_point = record {
  Float = ℕ;
  Float32 = ℕ;
  Decimal = ℕ;
  is_zero = λ n. n == 0;
  new_from_float = λ n. n * scale;
  new_from_big_int = λ a b. a * scale / 10 ^ b;
  new_from_int = λ n. n * scale;
  mul = λ a b. a * b / scale;
  div = λ a b. a * scale / b;
  shift = λ a n. a * 10 ^ n;
  less_than = ltb;
  float32 = λ a. a / scale;
  below = ltb;
}

abbrev pub first_byte : Bytes → ℕ
first_byte [] = 0
first_byte (b ∷ bs) = b

-- An address below 256 is written as one byte.
abbrev pub geth : GethLib
geth = record {
  hex = λ a. a ∷ [];
  hex_to_address = first_byte;
  from_hex = λ b. b;
  bytes_to_hash = first_byte;
  peggy_denom_string = λ a. codes "peggy" ++ a ∷ [];
}

abbrev pub validator : ℕ → ℕ → BridgeValidator
validator a power = record { power = power; ethereum_address = a ∷ [] }

-- Three validators that share the power evenly.
abbrev pub valset : ℕ → Valset
valset n = record {
  nonce = n;
  members = validator 1 1431655765 ∷ validator 2 1431655765 ∷ validator 3 1431655765 ∷ [];
  height = 70;
  reward_amount = 0;
  reward_token = 0 ∷ [];
}

abbrev pub transfer : ℕ → ℕ → SendToCosmosEvent
transfer n block = record {
  event_nonce = n;
  token_contract = 7;
  sender = 8;
  destination = [];
  amount = 100;
  block_number = block;
}

abbrev pub update : ℕ → ℕ → ValsetUpdatedEvent
update n block = record {
  event_nonce = n;
  new_valset_nonce = n;
  reward_amount = 0;
  reward_token = 0;
  validators = 1 ∷ 2 ∷ 3 ∷ [];
  powers = 1431655765 ∷ 1431655765 ∷ 1431655765 ∷ [];
  block_number = block;
}

-- The log of the contract: two transfers and an update of the validator set.
abbrev pub transfers : List SendToCosmosEvent
transfers = transfer 6 95 ∷ transfer 4 80 ∷ []

abbrev pub updates : List ValsetUpdatedEvent
updates = update 5 90 ∷ update 3 60 ∷ []

-- Injective with a last claim; it accepts every claim.
abbrev pub injective : LastClaimEvent → Injective (Unit {0})
injective claim = record {
  bridge_contract_start_height = pure 50;
  last_claim_event_by_addr = λ a. pure (some claim);
  valset_at = λ n. pure (some (valset n));
  current_valset = pure (some (valset 5));
  oldest_unsigned_valsets = λ a. pure (valset 6 ∷ valset 7 ∷ []);
  latest_valsets = pure (valset 6 ∷ []);
  all_valset_confirms = λ n. pure [];
  oldest_unsigned_transaction_batch = λ a. pure none;
  latest_transaction_batches = pure [];
  unbatched_tokens_with_fees = pure (
      record { token = 7 ∷ []; total_fees = 3000000 }
      ∷ record { token = 8 ∷ []; total_fees = 10 }
      ∷ []);
  transaction_batch_signatures = λ n a. pure [];
  get_block_time = λ h. pure h;
  send_valset_confirm = λ a i v. pure tt;
  send_batch_confirm = λ a i b. pure tt;
  send_request_batch = λ d. pure tt;
  send_old_deposit_claim = λ e. pure tt;
  send_deposit_claim = λ e. pure tt;
  send_withdrawal_claim = λ e. pure tt;
  send_valset_claim = λ e. pure tt;
  send_erc20_deployed_claim = λ e. pure tt;
}

-- Ethereum at block 112.
abbrev pub ethereum : Ethereum (Unit {0})
ethereum = record {
  get_latest_header_number = pure 112;
  get_peggy_id = pure 1;
  get_send_to_cosmos_events =
      λ a b. pure (keep (λ e. leb a e.block_number && leb e.block_number b) transfers);
  get_send_to_injective_events = λ a b. pure [];
  get_peggy_erc20_deployed_events = λ a b. pure [];
  get_valset_updated_events =
      λ a b. pure (keep (λ e. leb a e.block_number && leb e.block_number b) updates);
  get_transaction_batch_executed_events = λ a b. pure [];
  get_valset_nonce = pure 5;
  send_eth_valset_update = λ v w c. pure 1;
  get_tx_batch_nonce = λ a. pure 1;
  send_transaction_batch = λ v b c. pure 1;
  token_decimals = λ a. pure 6;
}

-- The orchestrator of validator 2, in validator mode.
abbrev pub orchestrator : LastClaimEvent → Orchestrator (Unit {0})
orchestrator claim = record {
  retry_lib = retry_once;
  decimal = fixed_point;
  address = geth;
  now = pure 1000;
  cfg = record {
    cosmos_addr = 2 ∷ [];
    ethereum_addr = 2;
    min_batch_fee_usd = 5;
    erc20_contract_mapping = λ a. none;
    relay_valset_offset_dur = 0;
    relay_batch_offset_dur = 0;
    relay_valsets = true;
    relay_batches = true;
    relayer_mode = false;
  };
  max_attempts = 10;
  injective = injective claim;
  ethereum = ethereum;
  query_usd_price = λ a. pure 2;
}
