-- ===== src/Tests/ServiceRuns.antt =====
-- The price service, and a transaction from options.
use peggo.Base.{ℕ, ◌+◌, ◌≡◌, refl, bytes_eq, Bytes, codes, none, some, [], ◌∷◌, take}
use peggo.Effect.{Result, ok, pure}
use peggo.Types.{Address}
use peggo.PriceFeed.{
  Json, Members, number, object, no_members, member, HttpLib, max_resp_bytes, query_usd_price,
  price_of, price_of_entry, usd_of,
}
use peggo.PriceFeed.Reply.{Answers, HasPrice, query_usd_price-HasPrice}
use peggo.EthProvider.{
  RawTx, TransactOpts, RpcLib, transact_fn, gas_limit_of, send_transaction_with_ret,
}
use peggo.EthProvider.Sent.{Follows, Submitted, transact_fn-Submitted}
use peggo.Tests.Fixtures.{fixed_point, geth}

-- The entry of the token 7, with the members of its object.
abbrev reply : Members ℕ → Json ℕ
reply ns = object (member (7 ∷ []) (object ns) no_members)

abbrev service : Members ℕ → HttpLib (Unit {0}) ℕ
service ns = record {
  request_url = λ base path query. ok base;
  get = λ url. pure (pure (1 ∷ []));
  unmarshal = λ body. ok (reply ns);
}

abbrev priced : Members ℕ
priced = member (codes "usd") (number 3) no_members

query_usd_price-HasPrice_example :
    (body : Bytes) × (f : Json ℕ) × Answers fixed_point geth (service priced) none 7 body tt tt
    × ((service priced).unmarshal (take max_resp_bytes body) ≡ ok f)
    × HasPrice (7 ∷ []) 3 f
unfolding query_usd_price price_of price_of_entry usd_of bytes_eq
query_usd_price-HasPrice_example =
    query_usd_price-HasPrice fixed_point geth (service priced) none 7 3 tt tt refl

-- A signed transaction is the transaction.
abbrev rpc : RpcLib ℕ RawTx
rpc = record {
  encode_to_bytes = λ tx. ok (tx.nonce ∷ tx.gas_limit ∷ []);
  hex_encode = λ b. b;
  call = λ method argument s. (ok 99, s + 1);
  pending_nonce_at = λ a. pure 4;
  suggest_gas_price = pure 20;
  pending_code_at = λ a. pure (1 ∷ []);
  estimate_gas = λ a c p v i. pure 21000;
}

abbrev opts : TransactOpts RawTx
opts = record {
  from_address = 3;
  nonce = some 8;
  value = none;
  gas_price = none;
  gas_limit = 50000;
  signer = some (λ a tx. ok tx);
}

abbrev sent_tx : RawTx
sent_tx = record {
  nonce = 8;
  recipient = some 9;
  value = 0;
  gas_limit = 50000;
  gas_price = 20;
  input = 1 ∷ [];
}

transact_fn-Submitted_example :
    (tx : RawTx) × Follows rpc opts (1 ∷ []) tx
    × (signer : Address → RawTx → Result RawTx) × (opts.signer ≡ some signer)
    × (signer 3 tx ≡ ok sent_tx)
    × Submitted rpc sent_tx 99 1
unfolding transact_fn gas_limit_of send_transaction_with_ret
transact_fn-Submitted_example =
    transact_fn-Submitted rpc 9 opts (some 9) (1 ∷ []) 99 sent_tx 0 1 refl
