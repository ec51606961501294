-- ===== src/Tests/CommitterRuns.antt =====
-- Runs of the committer and of the nonce cache.
use peggo.Base.{
  ap, ◌∙◌, inl, inr, Bool-cases, ℕ, ◌+◌, ◌≡◌, refl, arith, codes, contains, starts_with, some, none,
  [], ◌∷◌, ◌==◌, false, if◌then◌else◌,
}
use peggo.Effect.{error_text, Error, failed, ok, err, Result, pure}
use peggo.Types.{Hash}
use peggo.NonceCache.{value, decr, incr, decr-incr, get, sync, load, store}
use peggo.Committer.{
  Transaction, Provider, EthCommitter, State, send_tx, send_serialized, send_loop, classify,
  known_transaction, wrong_nonce, resync_nonces, after_refusal, tx_nonce,
}
use peggo.Committer.Sending.{
  Accepted, NeverKnown, Knows, send_tx-Accepted, send_serialized_ends, known_transaction_diverges,
}

decr-incr_example : value 3 (decr 3 (incr 3 ((3, 41) ∷ [])).1).1 ≡ value 3 ((3, 41) ∷ [])
unfolding get load
decr-incr_example = decr-incr 3 3 ((3, 41) ∷ []) (omega arith)

-- The node expects nonce 7 of the account; it refuses another one as too low.
abbrev node : Provider ℕ
node = record {
  suggest_gas_price = pure 20;
  estimate_gas = λ a p d. pure 21000;
  pending_nonce_at = λ a s. (ok s, s);
  sign = λ tx. ok (tx.nonce ∷ []);
  send_transaction_with_ret = λ tx signed s.
      if tx.nonce == s then (ok 99, s + 1) else (err (failed (codes "nonce too low")), s);
}

abbrev committer : EthCommitter ℕ
committer = record {
  from_address = 3;
  adjust = λ p. p + 6;
  eth_max_gas_price = 500;
  evm_provider = node;
}

-- The cache is behind the node by two nonces.
abbrev behind : State ℕ
behind = record { env = 7; nonce_cache = (3, 5) ∷ [] }

abbrev ahead : State ℕ
ahead = record { env = 8; nonce_cache = (3, 8) ∷ [] }

abbrev tx : Transaction
tx = record { nonce = 0; recipient = 77; gas_limit = 21000; gas_price = 26; tx_data = [] }

too_low-classify : classify (codes "nonce too low") ≡ wrong_nonce
unfolding classify contains starts_with
too_low-classify = refl

known-classify : classify (codes "known transaction: 5") ≡ known_transaction
unfolding classify contains starts_with
known-classify = refl

node-NeverKnown : NeverKnown committer
unfolding error_text
node-NeverKnown sent signed s t x e k =
    let too_low : Error = failed (codes "nonce too low") in
    elim (Bool-cases (sent.nonce == s)) [
      | inl y ↦
          let bad : ◌≡◌ {A = Result Hash × ℕ} (ok 99, s + 1) (err x, t) = rw y at e in
          absurd (ground arith)
      | inr n ↦
          let refused : ◌≡◌ {A = Result Hash × ℕ} (err too_low, s) (err x, t) = rw n at e in
          let same : too_low ≡ x = ground arith in
          let known : classify (codes "nonce too low") ≡ known_transaction =
            ap (λ (z : Error). classify (error_text z)) same ∙ k in
          absurd (ground (arith, too_low-classify))
    ]

-- The first nonce is too low; the second one, from the node, is accepted.
send_tx-Accepted_example : Accepted committer 99 ahead
unfolding send_tx send_serialized send_loop resync_nonces after_refusal tx_nonce error_text classify
    contains starts_with get incr sync load store
send_tx-Accepted_example = send_tx-Accepted committer node-NeverKnown 2 77 [] behind ahead 99 refl

send_serialized_ends_example :
    (r : Result Hash × State ℕ) × (send_serialized committer 2 tx behind ≡ some r)
send_serialized_ends_example = send_serialized_ends committer node-NeverKnown tx behind

-- This node knows every transaction under the nonce 5, and accepts all others.
abbrev stubborn : EthCommitter ℕ
stubborn = record committer {
  evm_provider = record node {
    send_transaction_with_ret = λ tx signed s.
        if tx.nonce == 5 then (err (failed (codes "known transaction: 5")), s) else (ok 99, s);
  };
}

stubborn-Knows : Knows stubborn 5
unfolding tx_nonce error_text
stubborn-Knows sent s e =
    (sent.nonce ∷ [], failed (codes "known transaction: 5"), s, refl, ground arith, known-classify)

known_transaction_diverges_example : send_loop stubborn 1000000 tx 5 false behind ≡ none
known_transaction_diverges_example =
    known_transaction_diverges stubborn 1000000 tx 5 false behind stubborn-Knows
