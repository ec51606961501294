-- ===== src/BatchCreator/Worth.antt =====
-- The batches that the batch creator (orchestrator/batch_creator.go) asks for, and their fees.
use peggo.Base.{
  subst, ℕ, Bool, true, false, Bytes, ◌≡◌, ◌∙◌, refl, ap, sym, inl, inr, ◌⊎◌, Bool-cases, List, [],
  ◌∷◌, Any, arith, if◌then◌else◌,
}
use peggo.Effect.{Result, ok, err, panic, M, pure, for_each, continue}
use peggo.Types.{Address, BatchFees}
use peggo.Network.Recorder.{World, Entry, batch_requested}
use peggo.Orchestrator.{Orchestrator}
use peggo.Orchestrator.Recorded.{recorded, Keeps-retry}
use peggo.BatchCreator.{
  or_return, return_or, get_unbatched_token_fees, get_token_denom, below_min_fee,
  check_min_batch_fee, request_batch, request_token_batch, request_token_batches,
}

-- A batch of the denom was requested.
abbrev pub Requested : Bytes → List Entry → Type 0
Requested denom trace = Any (λ x. x ≡ batch_requested denom) trace

module _ {S A B : Type 0} (Q : S → Type 0) (Goal : Type 0) where
  -- What holds after a function of this form holds after its first call, or after the rest.
  or_return-cases :
      (b : B) (m : M S A) (f : A → M S B) (s : S)
      → Q (or_return b m f s).1
      → (Q (m s).1 → Goal)
      → ((a : A) → m s ≡ (ok a, (m s).1) → Q (f a (m s).1).1 → Goal)
      → Goal
  or_return-cases b m f s q stop more = go (m s).0 (m s).1 refl q
    where
      go : (r : Result A) (t : S) → m s ≡ (r, t) → Q (return_or b r f t).1 → Goal
      go (ok a) t e q = more a (e ∙ ap (λ x. (ok a, x.1)) (sym e)) (rw e q)
      go (err x) t e q = stop (rw e q)
      go (panic x) t e q = stop (rw e q)

-- `AtMost` is the order of the library's decimals, which its `LessThan` decides.
module _ {S : Type 0} (o : Orchestrator S) (AtMost : o.decimal.Decimal → o.decimal.Decimal → Type 0)
    (less_than-AtMost : (x y : o.decimal.Decimal)
      → o.decimal.less_than x y ≡ false
      → AtMost y x) where
  request_batch-Requested :
      (denom d : Bytes) (w : World S)
      → Requested denom (request_batch (recorded o) d w).1.trace
      → Requested denom w.trace ⊎ (denom ≡ d)
  unfolding request_batch
  request_batch-Requested denom d w h =
      or_return-cases (λ (v : World S). Requested denom v.trace)
        (Requested denom w.trace ⊎ (denom ≡ d)) tt ((recorded o).injective.send_request_batch d)
        (λ _. pure tt) w h sent (λ _ _. sent)
    where
      sent : Requested denom (batch_requested d ∷ w.trace) → Requested denom w.trace ⊎ (denom ≡ d)
      sent (inl e) = inr (ground arith)
      sent (inr k) = inl k

  -- The value of the fees at a price.
  abbrev pub fees_value : BatchFees → (token_decimals : ℕ) → o.decimal.Float → o.decimal.Decimal
  fees_value fee d p =
      o.decimal.mul (o.decimal.new_from_big_int fee.total_fees d) (o.decimal.new_from_float p)

  -- The minimum is at most the value of the fees, at a price that the price feed gave.
  abbrev pub Enough : BatchFees → Address → ℕ → Type 0
  Enough fee a d =
      (o.decimal.is_zero o.cfg.min_batch_fee_usd ≡ true)
      ⊎ ((p : o.decimal.Float) × (x : S) × (y : S) × (o.query_usd_price a x ≡ (ok p, y))
          × AtMost (o.decimal.new_from_float o.cfg.min_batch_fee_usd) (fees_value fee d p))

  -- The denom is that of the token of the fees, and for some decimals that Ethereum gave for the
  -- token, either no minimum is set, or the fees reach it at a price that the price feed gave.
  abbrev pub Worth : Bytes → BatchFees → Type 0
  Worth denom fee =
      (denom ≡ get_token_denom o (o.address.hex_to_address fee.token))
      × (d : ℕ) × (s : S) × (t : S) × (o.ethereum.token_decimals
            (o.address.hex_to_address fee.token) s
          ≡ (ok d, t))
      × Enough fee (o.address.hex_to_address fee.token) d

  priced :
      (fee : BatchFees) (a : Address) (d : ℕ) (w v : World S) (r : Result o.decimal.Float) (t : S)
      → o.query_usd_price a w.env ≡ (r, t)
      → return_or false r
          (λ p. if below_min_fee (recorded o) fee d p then pure false else pure true)
          (record { env = t; trace = w.trace })
        ≡ (ok true, v)
      → Enough fee a d
  unfolding below_min_fee
  priced fee a d w v (ok p) t e h = elim (Bool-cases (below_min_fee o fee d p)) [
    | inl y ↦
        let bad : ◌≡◌ {A = Result Bool × World S} (ok false, record { env = t; trace = w.trace })
            (ok true, v) =
          rw y at h in
        absurd (ground arith)
    | inr n ↦
        let reached =
          less_than-AtMost (fees_value fee d p) (o.decimal.new_from_float o.cfg.min_batch_fee_usd)
            n in
        inr (p, w.env, t, e, reached)
  ]
  priced fee a d w v (err x) t e h = absurd (ground arith)
  priced fee a d w v (panic x) t e h = absurd (ground arith)

  checked-Enough :
      (fee : BatchFees) (a : Address) (d : ℕ) (w v : World S)
      → check_min_batch_fee (recorded o) fee a d w ≡ (ok true, v)
      → Enough fee a d
  unfolding check_min_batch_fee
  checked-Enough fee a d w v h = elim (Bool-cases (o.decimal.is_zero o.cfg.min_batch_fee_usd)) [
    | inl z ↦ inl z
    | inr n ↦
        priced fee a d w v (o.query_usd_price a w.env).0 (o.query_usd_price a w.env).1 refl
          (rw n at h)
  ]

  check-trace :
      (fee : BatchFees) (a : Address) (d : ℕ) (w : World S)
      → (check_min_batch_fee (recorded o) fee a d w).1.trace ≡ w.trace
  unfolding check_min_batch_fee
  check-trace fee a d w = ground arith

  request_token_batch-Worth :
      (denom : Bytes) (fee : BatchFees) (w : World S)
      → Requested denom (request_token_batch (recorded o) fee w).1.trace
      → Requested denom w.trace ⊎ Worth denom fee
  unfolding request_token_batch get_token_denom
  request_token_batch-Worth denom fee w h =
      or_return-cases (λ (v : World S). Requested denom v.trace)
        (Requested denom w.trace ⊎ Worth denom fee) tt ((recorded o).ethereum.token_decimals a) _ w
        h inl
        (λ d e q.
          go d (ap (λ (x : Result ℕ × World S). (x.0, x.1.env)) e)
            (check_min_batch_fee (recorded o) fee a d v).0 refl q)
    where
      a : Address
      a = o.address.hex_to_address fee.token

      v : World S
      v = record { env = (o.ethereum.token_decimals a w.env).1; trace = w.trace }

      go :
          (d : ℕ)
          → o.ethereum.token_decimals a w.env ≡ (ok d, v.env)
          → (r : Result Bool) → (check_min_batch_fee (recorded o) fee a d v).0 ≡ r
          → Requested denom
              (continue r
                (λ enough.
                  if enough then request_batch (recorded o) (get_token_denom o a) else pure tt)
                (check_min_batch_fee (recorded o) fee a d v).1).1.trace
          → Requested denom w.trace ⊎ Worth denom fee
      go d e (ok true) k q =
          elim (request_batch-Requested denom (get_token_denom o a)
            (check_min_batch_fee (recorded o) fee a d v).1 q) [
              | inl old ↦ inl (subst (Requested denom) (check-trace fee a d v) old)
              | inr same ↦ inr (
                same,
                d,
                w.env,
                v.env,
                e,
                checked-Enough fee a d v _
                    (λ i. (k i, (check_min_batch_fee (recorded o) fee a d v).1)),
              )
            ]
      go d e (ok false) k q = inl (subst (Requested denom) (check-trace fee a d v) q)
      go d e (err x) k q = inl (subst (Requested denom) (check-trace fee a d v) q)
      go d e (panic x) k q = inl (subst (Requested denom) (check-trace fee a d v) q)

  request_all-Worth :
      (denom : Bytes) (fees : List BatchFees) (w : World S)
      → Requested denom (for_each (request_token_batch (recorded o)) fees w).1.trace
      → Requested denom w.trace ⊎ Any (Worth denom) fees
  unfolding for_each
  request_all-Worth denom [] w h = inl h
  request_all-Worth denom (fee ∷ fees) w h =
      elim (go (request_token_batch (recorded o) fee w).0 (request_all-Worth denom fees v) h) [
        | inl here ↦ elim (request_token_batch-Worth denom fee w here) [
          | inl x ↦ inl x
          | inr y ↦ inr (inl y)
        ]
        | inr later ↦ inr (inr later)
      ]
    where
      v : World S
      v = (request_token_batch (recorded o) fee w).1

      go :
          (r : Result (Unit {0}))
          → (Requested denom (for_each (request_token_batch (recorded o)) fees v).1.trace
              → Requested denom v.trace ⊎ Any (Worth denom) fees)
          → Requested denom
              (continue r (λ _. for_each (request_token_batch (recorded o)) fees) v).1.trace
          → Requested denom v.trace ⊎ Any (Worth denom) fees
      go (ok u) more q = more q
      go (err x) more q = inl q
      go (panic x) more q = inl q

  -- Against any networks, every batch that an iteration of the batch creator newly requests has the
  -- denom of a token whose fees Injective listed in this iteration, and for decimals that Ethereum
  -- gave for the token, either no minimal fee is set or it is at most the value of the fees at a price
  -- that the price feed gave. `AtMost y x` stands for any relation that holds when the
  -- library's `LessThan` says that `x` is not less than `y`.
  pub request_token_batches-Worth :
      (denom : Bytes) (w : World S)
      → Requested denom (request_token_batches (recorded o) w).1.trace
      → Requested denom w.trace
        ⊎ ((fees : List BatchFees) × (v : World S) × (get_unbatched_token_fees (recorded o) w
              ≡ (ok fees, v))
            × Any (Worth denom) fees)
  unfolding request_token_batches get_unbatched_token_fees
  request_token_batches-Worth denom w h =
      or_return-cases (λ (x : World S). Requested denom x.trace) _ tt
        (get_unbatched_token_fees (recorded o))
        (λ fees. for_each (request_token_batch (recorded o)) fees) w h (λ k. inl (old k))
        (λ fees e q. elim (request_all-Worth denom fees v q) [
          | inl k ↦ inl (old k)
          | inr worth ↦ inr (fees, v, e, worth)
        ])
    where
      v : World S
      v = (get_unbatched_token_fees (recorded o) w).1

      old : Requested denom v.trace → Requested denom w.trace
      old =
          Keeps-retry (recorded o)
            (λ (x : World S). Requested denom x.trace → Requested denom w.trace)
            (recorded o).injective.unbatched_tokens_with_fees (λ x k. k) w (λ k. k)
