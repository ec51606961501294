-- ===== src/Broadcast/Accepted.antt =====
-- What Injective has accepted when a claim of an event goes through.
use peggo.Base.{
  ℕ, ◌≡◌, ◌∙◌, refl, sym, ap, subst, Bytes, Bool-cases, inl, inr, List, arith, String, ◌==◌,
  if◌then◌else◌,
}
use peggo.Effect.{failed, wrapped, Result, ok, err, panic, M, pure, raise, lift, wrap, wrap_result}
use peggo.Effect.Keeps.{bind_ok}
use peggo.Types.{BridgeValidator, u64}
use peggo.Broadcast.Messages.{
  Msg, deposit_claim, withdraw_claim, valset_updated_claim, erc20_deployed_claim,
}
use peggo.Broadcast.{
  TxResponse, ChainClient, broadcast, claim_members, send_claim, send_old_deposit_claim,
  send_deposit_claim, send_withdrawal_claim, send_valset_claim, send_erc20_deployed_claim,
}
use peggo.Oracle.Events.{
  Event, old_deposit, deposit, valset_update, withdrawal, erc20_deployment, nonce,
}

abbrev pub block_of : Event → ℕ
block_of (old_deposit e) = e.block_number
block_of (deposit e) = e.block_number
block_of (valset_update e) = e.block_number
block_of (withdrawal e) = e.block_number
block_of (erc20_deployment e) = e.block_number

-- The message claims an event with this nonce, of this block, for this account.
abbrev pub Claims : Bytes → ℕ → ℕ → Msg → Type 0
Claims a n b (deposit_claim m) = (m.event_nonce ≡ n) × (m.block_height ≡ b) × (m.orchestrator ≡ a)
Claims a n b (withdraw_claim m) = (m.event_nonce ≡ n) × (m.block_height ≡ b) × (m.orchestrator ≡ a)
Claims a n b (valset_updated_claim m) =
    (m.event_nonce ≡ n) × (m.block_height ≡ b) × (m.orchestrator ≡ a)
Claims a n b (erc20_deployed_claim m) =
    (m.event_nonce ≡ n) × (m.block_height ≡ b) × (m.orchestrator ≡ a)
Claims a n b _ = ⊥

-- The chain took the message, with the code 0.
abbrev pub Taken : {S : Type 0} → ChainClient S → Msg → S → S → Type 0
Taken c msg s t = (r : TxResponse) × (r.code ≡ 0) × (c.broadcast_msg msg s ≡ (ok r, t))

module _ {S : Type 0} (c : ChainClient S) where
  wrap_call :
      (text : String) (m : M S TxResponse) (s t : S) (a : TxResponse)
      → wrap text m s ≡ (ok a, t)
      → m s ≡ (ok a, t)
  wrap_call text m s t a h = go (m s).0 (m s).1 refl h
    where
      go :
          (r : Result TxResponse) (u : S)
          → m s ≡ (r, u)
          → ◌≡◌ {A = Result TxResponse × S} (wrap_result text r, u) (ok a, t)
          → m s ≡ (ok a, t)
      go (ok x) u e k = e ∙ k
      go (err x) u e k = absurd (ground arith)
      go (panic x) u e k = absurd (ground arith)

  pub broadcast-Taken :
      (text : String) (msg : Msg) (s t : S) (u : Unit {0})
      → broadcast c text msg s ≡ (ok u, t)
      → Taken c msg s t
  unfolding broadcast
  broadcast-Taken text msg s t u h =
      let finish : TxResponse → M S (Unit {0}) =
        λ r. if r.code == 0 then pure tt else raise (wrapped text (failed r.raw_log)) in
      let (r, v, sent, rest) = bind_ok (wrap text (c.broadcast_msg msg)) finish s u t h in
      elim (Bool-cases (r.code == 0)) [
        | inl y ↦
            let stay : ◌≡◌ {A = Result (Unit {0}) × S} (ok tt, v) (ok u, t) = rw y at rest in
            (
              r,
              ground (arith, y),
              wrap_call text (c.broadcast_msg msg) s v r sent ∙ λ i. (ok r, (stay i).1),
            )
        | inr n ↦
            let bad : ◌≡◌ {A = Result (Unit {0}) × S} (err (wrapped text (failed r.raw_log)), v)
                (ok u, t) =
              rw n at rest in
            absurd (ground arith)
      ]

  -- When the claim of an event is sent without an error, the chain has taken, with the code 0, one
  -- message of the client's account that carries the nonce by which the oracle loop orders the event,
  -- and the event's block.
  pub send_claim-Taken :
      (e : Event) (s t : S)
      → send_claim c e s ≡ (ok tt, t)
      → (msg : Msg) × Claims c.from_address (nonce e) (block_of e) msg × Taken c msg s t
  unfolding send_old_deposit_claim send_deposit_claim send_withdrawal_claim
      send_erc20_deployed_claim send_valset_claim nonce
  send_claim-Taken (old_deposit e) s t h = (_, (refl, refl, refl), broadcast-Taken _ _ s t tt h)
  send_claim-Taken (deposit e) s t h = (_, (refl, refl, refl), broadcast-Taken _ _ s t tt h)
  send_claim-Taken (withdrawal e) s t h = (_, (refl, refl, refl), broadcast-Taken _ _ s t tt h)
  send_claim-Taken (erc20_deployment e) s t h =
      (_, (refl, refl, refl), broadcast-Taken _ _ s t tt h)
  send_claim-Taken (valset_update e) s t h =
      let claim : List BridgeValidator → Msg = λ ms. valset_updated_claim (record {
        event_nonce = u64 e.event_nonce;
        valset_nonce = u64 e.new_valset_nonce;
        block_height = e.block_number;
        reward_amount = e.reward_amount;
        reward_token = c.geth.hex e.reward_token;
        members = ms;
        orchestrator = c.from_address;
      }) in
      let (ms, u, built, rest) =
        bind_ok (lift (claim_members c.geth e.validators e.powers))
          (λ x. broadcast c "failed to broadcast MsgValsetUpdatedClaim" (claim x)) s tt t h in
      (
        claim ms,
        (refl, refl, refl),
        subst (λ (x : S). Taken c (claim ms) x t)
            (sym (ap (λ (x : Result (List BridgeValidator) × S). x.1) built))
            (broadcast-Taken _ (claim ms) u t tt rest),
      )
