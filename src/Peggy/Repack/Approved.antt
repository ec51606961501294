-- ===== src/Peggy/Repack/Approved.antt =====
-- What a check of the confirmations that has passed says of them, in valset_update.go and
-- submit_batch.go of orchestrator/ethereum/peggy.
use peggo.Base.{
  ◌≡◌, ◌∙◌, refl, sym, arith, inl, inr, Bool-cases, false, Bytes, String, Option, none, some, List,
  [], ◌∷◌,
}
use peggo.Effect.{Error, raised, Result, ok, err, panic}
use peggo.Types.{BridgeValidator, Valset}
use peggo.Libraries.{DecimalLib, GethLib}
use peggo.Peggy.Repack.{
  Vrs, sig_to_vrs, peggy_power_to_percent, Repacked, nothing, no_sig, push, push_sig, signer_to_sig,
  push_member, check_power, repack_members, repack,
}
use peggo.Peggy.Repack.Spec.{
  last_confirm, good_sig-eq_last, slot, signed_power, Slots, arrays, repack-arrays,
}

check_power-ok :
    (d : DecimalLib) (x : Result Repacked) (r : Repacked) → check_power d x ≡ ok r → x ≡ ok r
check_power-ok d (ok out) r h =
    elim (Bool-cases (d.below (peggy_power_to_percent d out.power_of_good_sigs) 66)) [
      | inl t ↦
          let bad : err (raised "insufficient voting power") ≡ ok r = rw t at h in
          absurd (ground arith)
      | inr f ↦ rw f at h
    ]
check_power-ok d (err e) r h = absurd (ground arith)
check_power-ok d (panic p) r h = absurd (ground arith)

module _ {C : Type 0} (signer signature : C → Bytes) where
  -- The members that have confirmed have 66 percent of the power or more, each of their last
  -- confirmations has a signature that can be split, and the arrays hold, for every member in order, its
  -- address, its power and the parts of that signature, or zeros.
  abbrev pub Approved : DecimalLib → GethLib → Valset → List C → Repacked → Type 0
  Approved d geth valset cs out =
      (xs : List Vrs) × Slots signer signature geth cs valset.members xs
      × (d.below (peggy_power_to_percent d (signed_power signer signature cs valset.members)) 66
          ≡ false)
      × (out ≡ arrays signer signature geth cs valset.members xs)

  repack_members-err :
      (geth : GethLib) (sigs : List C) (ms : List BridgeValidator) (e : Error)
      → repack_members signer signature geth sigs ms (err e) ≡ err e
  unfolding repack_members
  repack_members-err geth sigs [] e = refl
  repack_members-err geth sigs (m ∷ ms) e = refl

  repack_members-panic :
      (geth : GethLib) (sigs : List C) (ms : List BridgeValidator) (p : String)
      → repack_members signer signature geth sigs ms (panic p) ≡ panic p
  unfolding repack_members
  repack_members-panic geth sigs [] p = refl
  repack_members-panic geth sigs (m ∷ ms) p = refl

  -- The first member has a signature, and the others follow.
  first_slot :
      (geth : GethLib) (cs sigs : List C) (m : BridgeValidator) (ms : List BridgeValidator)
      (out r : Repacked) (o : Option C)
      → last_confirm signer m.ethereum_address cs ≡ o
      → repack_members signer signature geth sigs ms (push_member signer signature geth o m out)
        ≡ ok r
      → (x : Vrs) × (slot signer signature geth cs m ≡ ok x)
        × (next : Repacked) × (repack_members signer signature geth sigs ms (ok next) ≡ ok r)
  first_slot geth cs sigs m ms out r none e h =
      (no_sig, rw (e, slot) refl, push geth m no_sig 0 out, h)
  first_slot geth cs sigs m ms out r (some c) e h = go (sig_to_vrs geth (signature c)) refl h
    where
      go :
          (v : Result Vrs)
          → sig_to_vrs geth (signature c) ≡ v
          → repack_members signer signature geth sigs ms (push_sig geth m v out) ≡ ok r
          → (x : Vrs) × (slot signer signature geth cs m ≡ ok x)
            × (next : Repacked) × (repack_members signer signature geth sigs ms (ok next) ≡ ok r)
      go (ok x) q h = (x, rw (e, slot) q, push geth m x m.power out, h)
      go (err y) q h =
          let bad : err y ≡ ok r = sym (repack_members-err geth sigs ms y) ∙ h in
          absurd (ground arith)
      go (panic y) q h =
          let bad : panic y ≡ ok r = sym (repack_members-panic geth sigs ms y) ∙ h in
          absurd (ground arith)

  repack_members-Slots :
      (geth : GethLib) (cs : List C) (ms : List BridgeValidator) (out r : Repacked)
      → repack_members signer signature geth (signer_to_sig signer [] cs) ms (ok out) ≡ ok r
      → (xs : List Vrs) × Slots signer signature geth cs ms xs
  unfolding repack_members
  repack_members-Slots geth cs [] out r h = ([], tt)
  repack_members-Slots geth cs (m ∷ ms) out r h =
      let (x, is, next, rest) =
        first_slot geth cs (signer_to_sig signer [] cs) m ms out r
          (last_confirm signer m.ethereum_address cs) refl
          (rw (good_sig-eq_last signer cs m) at h) in
      let (xs, slots) = repack_members-Slots geth cs ms next r rest in (x ∷ xs, (is, slots))

  -- A check that returns arrays has found what they need.
  pub repack-Approved :
      (text : String) (d : DecimalLib) (geth : GethLib) (valset : Valset) (cs : List C)
      (r : Repacked)
      → repack signer signature text d geth valset cs ≡ ok r
      → Approved d geth valset cs r
  unfolding repack
  repack-Approved text d geth valset [] r h = absurd (ground arith)
  repack-Approved text d geth valset (c ∷ cs) r h =
      let passed = check_power-ok d _ r h in
      let (xs, slots) = repack_members-Slots geth (c ∷ cs) valset.members nothing r passed in
      let below =
        d.below (peggy_power_to_percent d (signed_power signer signature (c ∷ cs) valset.members))
          66 in
      let held = sym (repack-arrays signer signature text d geth valset c cs xs slots) ∙ h in
      elim (Bool-cases below) [
        | inl t ↦
            let bad : err (raised "insufficient voting power") ≡ ok r = rw t at held in
            absurd (ground arith)
        | inr f ↦
            let same : ok (arrays signer signature geth (c ∷ cs) valset.members xs) ≡ ok r =
              rw f at held in
            (xs, slots, f, sym (ground arith))
      ]
