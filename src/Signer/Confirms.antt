-- ===== src/Signer/Confirms.antt =====
-- What the signer has confirmed when an iteration ends well.
use peggo.Base.{
  arith, ◌≡◌, ◌∙◌, refl, sym, subst, inl, inr, true, Option, none, some, List, [], ◌∷◌, All,
  All-mono, Any,
}
use peggo.Effect.{Result, ok, for_each}
use peggo.Effect.Keeps.{Keeps, Keeps-bind, Keeps-for_each, bind_ok}
use peggo.Types.{Hash, Valset, OutgoingTxBatch}
use peggo.Network.Recorder.{World, Entry, trace-sends, valset_confirmed, batch_confirmed}
use peggo.Orchestrator.{Orchestrator}
use peggo.Orchestrator.Recorded.{recorded, Keeps-retry, retry_ok}
use peggo.Signer.{
  oldest_unsigned_valsets, confirm_valset, sign_validator_sets, oldest_unsigned_batch,
  confirm_batch, sign_new_batch, sign,
}

-- Injective has accepted the confirmation of the set, for this bridge and this signer.
abbrev pub ConfirmedValset : {S : Type 0} → Orchestrator S → Hash → List Entry → Valset → Type 0
ConfirmedValset o id trace vs = Any (λ x. x ≡ valset_confirmed o.cfg.ethereum_addr id vs true) trace

abbrev pub ConfirmedBatch :
    {S : Type 0} → Orchestrator S → Hash → List Entry → Option OutgoingTxBatch → Type 0
ConfirmedBatch o id trace none = Unit
ConfirmedBatch o id trace (some b) =
    Any (λ x. x ≡ batch_confirmed o.cfg.ethereum_addr id b true) trace

module _ {S : Type 0} (o : Orchestrator S) (id : Hash) where
  Any-confirm_valset :
      (Q : Entry → Type 0) (vs : Valset)
      → Keeps (λ (w : World S). Any Q w.trace) (confirm_valset (recorded o) id vs)
  unfolding confirm_valset
  Any-confirm_valset Q vs = Keeps-retry (recorded o) _ _ (λ w h. inr h)

  Any-confirm_batch :
      (Q : Entry → Type 0) (b : Option OutgoingTxBatch)
      → Keeps (λ (w : World S). Any Q w.trace) (confirm_batch (recorded o) id b)
  unfolding confirm_batch
  Any-confirm_batch Q none = λ w h. h
  Any-confirm_batch Q (some b) = Keeps-retry (recorded o) _ _ (λ w h. inr h)

  Any-sign_new_batch :
      (Q : Entry → Type 0) → Keeps (λ (w : World S). Any Q w.trace) (sign_new_batch (recorded o) id)
  unfolding sign_new_batch oldest_unsigned_batch
  Any-sign_new_batch Q =
      Keeps-bind (λ (w : World S). Any Q w.trace) (oldest_unsigned_batch (recorded o) id)
        (confirm_batch (recorded o) id) (Keeps-retry (recorded o) _ _ (λ w h. h))
        (Any-confirm_batch Q)

  confirm_valset-Confirmed :
      (vs : Valset) (w w' : World S) (u : Unit {0})
      → confirm_valset (recorded o) id vs w ≡ (ok u, w')
      → ConfirmedValset o id w'.trace vs
  unfolding confirm_valset
  confirm_valset-Confirmed vs w w' u h =
      let a = o.cfg.ethereum_addr in
      let (v, _, last) =
        retry_ok (recorded o) (λ _. Unit {0}) ((recorded o).injective.send_valset_confirm a id vs)
          (λ s p. tt) w w' u h tt in
      rw
        (trace-sends (valset_confirmed a id vs) (o.injective.send_valset_confirm a id vs) v w' u
          last)
        (inl refl)

  confirm_batch-Confirmed :
      (b : Option OutgoingTxBatch) (w w' : World S) (u : Unit {0})
      → confirm_batch (recorded o) id b w ≡ (ok u, w')
      → ConfirmedBatch o id w'.trace b
  unfolding confirm_batch
  confirm_batch-Confirmed none w w' u h = tt
  confirm_batch-Confirmed (some b) w w' u h =
      let a = o.cfg.ethereum_addr in
      let (v, _, last) =
        retry_ok (recorded o) (λ _. Unit {0}) ((recorded o).injective.send_batch_confirm a id b)
          (λ s p. tt) w w' u h tt in
      rw (trace-sends (batch_confirmed a id b) (o.injective.send_batch_confirm a id b) v w' u last)
        (inl refl)

  for_each-Confirmed :
      (sets : List Valset) (w w' : World S) (u : Unit {0})
      → for_each (confirm_valset (recorded o) id) sets w ≡ (ok u, w')
      → All (ConfirmedValset o id w'.trace) sets
  unfolding for_each
  for_each-Confirmed [] w w' u h = tt
  for_each-Confirmed (vs ∷ sets) w w' u h =
      let (_, v, first, rest) =
        bind_ok (confirm_valset (recorded o) id vs)
          (λ _. for_each (confirm_valset (recorded o) id) sets) w u w' h in
      (
        subst (λ (r : Result (Unit {0}) × World S). ConfirmedValset o id r.1.trace vs) rest
            (Keeps-for_each _ _ (Any-confirm_valset _) sets v
              (confirm_valset-Confirmed vs w v _ first)),
        for_each-Confirmed sets v w' u rest,
      )

  -- When an iteration of the signer ends without an error, all the unsigned validator sets that its
  -- query gave it, and the unsigned batch that it was given then, if any, have been confirmed on
  -- Injective under the signer's address and the id of the bridge, and accepted.
  pub sign-Confirms :
      (w v w' : World S) (sets : List Valset)
      → oldest_unsigned_valsets (recorded o) id w ≡ (ok sets, v)
      → sign (recorded o) id w ≡ (ok tt, w')
      → All (ConfirmedValset o id w'.trace) sets
        × (batch : Option OutgoingTxBatch) × (x : World S) × (y : World S) × (oldest_unsigned_batch
              (recorded o)
              id
              x
            ≡ (ok batch, y))
        × ConfirmedBatch o id w'.trace batch
  unfolding sign sign_validator_sets sign_new_batch
  sign-Confirms w v w' sets asked h =
      let (_, x, signed, rest) =
        bind_ok (sign_validator_sets (recorded o) id) (λ _. sign_new_batch (recorded o) id) w tt w'
          h in
      let (sets', v', asked', each) =
        bind_ok (oldest_unsigned_valsets (recorded o) id)
          (for_each (confirm_valset (recorded o) id)) w _ x signed in
      let (batch, y, given, last) =
        bind_ok (oldest_unsigned_batch (recorded o) id) (confirm_batch (recorded o) id) x tt w'
          rest in
      let same : ◌≡◌ {A = Result (List Valset) × World S} (ok sets', v') (ok sets, v) =
        sym asked' ∙ asked in
      let e : sets' ≡ sets = ground arith in
      (
        subst (λ s. All (ConfirmedValset o id w'.trace) s) e
            (All-mono _ _ sets'
              (λ s c.
                subst (λ (r : Result (Unit {0}) × World S). ConfirmedValset o id r.1.trace s) rest
                  (Any-sign_new_batch _ x c))
              (for_each-Confirmed sets' v' x _ each)),
        batch,
        x,
        y,
        given,
        confirm_batch-Confirmed batch y w' tt last,
      )
