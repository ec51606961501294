-- ===== src/Peggy/Submit/Guards.antt =====
-- When a call of the contract is sent, and with what.
use peggo.Base.{
  ℕ, ◌<◌, Bool, Bytes, List, ◌≡◌, ◌∙◌, ap, arith, Bool-cases, inl, inr, leb, String, if◌then◌else◌,
}
use peggo.Effect.{Error, raised, Result, ok, err, panic, M, raise, lift, wrap, wrap_result, ◌>>=◌}
use peggo.Effect.Keeps.{bind_ok, lift_ok}
use peggo.Types.{Hash, Valset, OutgoingTxBatch, MsgValsetConfirm, MsgConfirmBatch}
use peggo.Peggy.Repack.{Repacked, check_valset_sigs_and_repack, check_batch_sigs_and_repack}
use peggo.Peggy.Repack.Approved.{Approved, repack-Approved}
use peggo.Peggy.Pending.{is_pending_tx_input}
use peggo.Peggy.Pending.Free.{IsFree, is_pending-IsFree}
use peggo.Peggy.Submit.{
  PeggyContract, submit, send_eth_valset_update, send_transaction_batch, current_args, new_args,
  batch_args,
}

wrap_ok : {A : Type 0} (text : String) (r : Result A) (a : A) → wrap_result text r ≡ ok a → r ≡ ok a
wrap_ok text (ok x) a e = e
wrap_ok text (err x) a e = absurd (ground arith)
wrap_ok text (panic x) a e = absurd (ground arith)

-- When the clock was read, no entry of the list had the input, or the first one that had it was as old
-- as the wait; and the committer sent the input to the contract.
abbrev pub Sent : {S : Type 0} → PeggyContract S → Bytes → S → Hash → S → Type 0
Sent {S} p tx s h t =
    (now : ℕ) × (u : S) × (p.now s ≡ (ok now, u))
    × IsFree p.pending_tx_input_list tx p.pending_tx_wait_duration now
    × (p.send_tx p.peggy_address tx u ≡ (ok h, t))

module _ {S : Type 0} (p : PeggyContract S) where
  submit-Sent :
      (text : Error) (tx : Bytes) (s t : S) (h : Hash)
      → submit p text tx s ≡ (ok h, t)
      → Sent p tx s h t
  unfolding submit
  submit-Sent text tx s t h e =
      let pending : ℕ → Bool =
        λ now. is_pending_tx_input p.pending_tx_input_list tx p.pending_tx_wait_duration now in
      let go : ℕ → M S Hash =
        λ now. if pending now then raise text else p.send_tx p.peggy_address tx in
      let (now, u, read, rest) = bind_ok p.now go s h t e in
      elim (Bool-cases (pending now)) [
        | inl y ↦ let bad : raise text u ≡ (ok h, t) = rw y at rest in absurd (ground arith)
        | inr n ↦
            let free =
              is_pending-IsFree p.pending_tx_input_list tx p.pending_tx_wait_duration now n in
            (now, u, read, free, rw n at rest)
      ]

  -- A valset update that goes out has a nonce above that of the current valset, and its input packs the
  -- arguments of the two valsets with arrays that hold, for every member of the current one in order,
  -- its address, its power and the parts of its last confirmation's signature, or zeros; the members
  -- that have confirmed have 66 percent of the power or more; and among the pending transactions none
  -- had the input when the clock was read, or the first one that had it was as old as the wait.
  pub send_eth_valset_update-Sent :
      (old_valset new_valset : Valset) (confirms : List MsgValsetConfirm) (s t : S) (h : Hash)
      → send_eth_valset_update p old_valset new_valset confirms s ≡ (ok h, t)
      → (old_valset.nonce < new_valset.nonce)
        × (r : Repacked) × (tx : Bytes) × Approved
            (λ (c : MsgValsetConfirm). c.eth_address)
            (λ c. c.signature)
            p.decimal
            p.geth
            old_valset
            confirms
            r
        × (p.abi.pack_update_valset
              (new_args p.geth new_valset)
              (current_args p.geth old_valset r)
              r.v
              r.r
              r.s
            ≡ ok tx)
        × Sent p tx s h t
  unfolding send_eth_valset_update check_valset_sigs_and_repack
  send_eth_valset_update-Sent old_valset new_valset confirms s t h e =
      let text = raised "Transaction with same valset input data is already present in mempool" in
      let pack : Repacked → Result Bytes = λ r.
        p.abi.pack_update_valset (new_args p.geth new_valset) (current_args p.geth old_valset r) r.v
          r.r r.s in
      let check = check_valset_sigs_and_repack p.decimal p.geth old_valset confirms in
      let rest : Repacked → M S Hash = λ r. lift (pack r) >>= submit p text in
      elim (Bool-cases (leb new_valset.nonce old_valset.nonce)) [
        | inl stale ↦
            let bad : raise {S = S} {A = Hash}
                  (raised "new valset nonce should be greater than old valset nonce") s
                ≡ (ok h, t) =
              rw stale at e in
            absurd (ground arith)
        | inr fresh ↦
            let e' : (wrap "confirmations check failed" (lift check) >>= rest) s ≡ (ok h, t) =
              rw fresh at e in
            let (r, u, checked, more) =
              bind_ok (wrap "confirmations check failed" (lift check)) rest s h t e' in
            let (tx, u', packed, last) = bind_ok (lift (pack r)) (submit p text) u h t more in
            let (checked', same) =
              lift_ok (wrap_result "confirmations check failed" check) s u r checked in
            let (packed', same') = lift_ok (pack r) u u' tx packed in
            (
              ground arith,
              r,
              tx,
              repack-Approved (λ (c : MsgValsetConfirm). c.eth_address) (λ c. c.signature)
                  "no signatures in valset confirmation" p.decimal p.geth old_valset confirms r
                  (wrap_ok "confirmations check failed" check r checked'),
              packed',
              submit-Sent text tx s t h (ap (λ (v : S). submit p text tx v) (same ∙ same') ∙ last),
            )
      ]

  -- The input of a batch that goes out packs the arguments of the current valset and of the batch with
  -- arrays that hold, for every member of the valset in order, its address, its power and the parts of
  -- its last confirmation's signature, or zeros; the members that have confirmed have 66 percent of the
  -- power or more; and among the pending transactions none had the input when the clock was read, or
  -- the first one that had it was as old as the wait.
  pub send_transaction_batch-Sent :
      (valset : Valset) (batch : OutgoingTxBatch) (confirms : List MsgConfirmBatch) (s t : S)
      (h : Hash)
      → send_transaction_batch p valset batch confirms s ≡ (ok h, t)
      → (r : Repacked) × (tx : Bytes) × Approved
          (λ (c : MsgConfirmBatch). c.eth_signer)
          (λ c. c.signature)
          p.decimal
          p.geth
          valset
          confirms
          r
        × (p.abi.pack_submit_batch
              (current_args p.geth valset r)
              r.v
              r.r
              r.s
              (batch_args p.geth batch)
            ≡ ok tx)
        × Sent p tx s h t
  unfolding send_transaction_batch check_batch_sigs_and_repack
  send_transaction_batch-Sent valset batch confirms s t h e =
      let text = raised "Transaction with same batch input data is already present in mempool" in
      let pack : Repacked → Result Bytes = λ r.
        p.abi.pack_submit_batch (current_args p.geth valset r) r.v r.r r.s
          (batch_args p.geth batch) in
      let check = check_batch_sigs_and_repack p.decimal p.geth valset confirms in
      let rest : Repacked → M S Hash = λ r. lift (pack r) >>= submit p text in
      let (r, u, checked, more) =
        bind_ok (wrap "confirmations check failed" (lift check)) rest s h t e in
      let (tx, u', packed, last) = bind_ok (lift (pack r)) (submit p text) u h t more in
      let (checked', same) =
        lift_ok (wrap_result "confirmations check failed" check) s u r checked in
      let (packed', same') = lift_ok (pack r) u u' tx packed in
      (
        r,
        tx,
        repack-Approved (λ (c : MsgConfirmBatch). c.eth_signer) (λ c. c.signature)
            "no signatures in batch confirmation" p.decimal p.geth valset confirms r
            (wrap_ok "confirmations check failed" check r checked'),
        packed',
        submit-Sent text tx s t h (ap (λ (v : S). submit p text tx v) (same ∙ same') ∙ last),
      )
