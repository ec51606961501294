-- ===== src/Peggy/Repack/Spec.antt =====
-- What the repacked arrays hold: for each member of the validator set, in its order, its address, its
-- power and its last confirmation, or zeros; and when the signatures suffice.
use mathlib.Core.List.{append_assoc, append-nil}
use native.Mathlib.Nat.{add_assoc, add-zero}
use peggo.Base.{
  ℕ, ◌+◌, true, Bytes, String, Option, none, some, List, [], ◌∷◌, ◌++◌, map, bytes_eq, bytes_eq_iff,
  ◌≡◌, refl, ◌∙◌, ap, arith, inl, inr, if◌then◌else◌, Option-cases,
}
use peggo.Effect.{raised, Result, ok, err}
use peggo.Types.{BridgeValidator, Valset}
use peggo.Libraries.{DecimalLib, GethLib}
use peggo.Peggy.Repack.{
  Vrs, sig_to_vrs, peggy_power_to_percent, Repacked, nothing, no_sig, push, insert_sig, find_sig,
  signer_to_sig, good_sig, push_member, repack_members, repack,
}

module _ {C : Type 0} (signer : C → Bytes) where
  abbrev pub or_else : Option C → Option C → Option C
  or_else (some x) y = some x
  or_else none y = y

  -- The last confirmation by an address.
  abbrev pub last_confirm : Bytes → List C → Option C
  last_confirm a [] = none
  last_confirm a (c ∷ cs) =
      or_else (last_confirm a cs) (if bytes_eq (signer c) a then some c else none)

  find-insert :
      (c : C) (sigs : List C) (a : Bytes)
      → find_sig signer a (insert_sig signer c sigs)
        ≡ (if bytes_eq (signer c) a then some c else find_sig signer a sigs)
  unfolding find_sig insert_sig
  find-insert c [] a = refl
  find-insert c (x ∷ xs) a = ground (
    arith,
    find-insert c xs a,
    bytes_eq_iff (signer x) (signer c),
    bytes_eq_iff (signer x) a,
    bytes_eq_iff (signer c) a,
  )

  find-signer_to_sig :
      (sigs cs : List C) (a : Bytes)
      → find_sig signer a (signer_to_sig signer sigs cs)
        ≡ or_else (last_confirm a cs) (find_sig signer a sigs)
  unfolding signer_to_sig
  find-signer_to_sig sigs [] a = refl
  find-signer_to_sig sigs (c ∷ cs) a =
      ground (arith, find-signer_to_sig (insert_sig signer c sigs) cs a, find-insert c sigs a)

  last_confirm-signer :
      (a : Bytes) (cs : List C) (c : C) → last_confirm a cs ≡ some c → bytes_eq (signer c) a ≡ true
  last_confirm-signer a [] c h = absurd (ground arith)
  last_confirm-signer a (x ∷ xs) c h = ground (arith, last_confirm-signer a xs c)

  -- The map of the signatures gives each member its last confirmation.
  pub good_sig-eq_last :
      (cs : List C) (m : BridgeValidator)
      → good_sig signer (signer_to_sig signer [] cs) m ≡ last_confirm m.ethereum_address cs
  unfolding good_sig find_sig
  good_sig-eq_last cs m = elim (Option-cases (last_confirm m.ethereum_address cs)) [
    | inl e ↦ ground (arith, find-signer_to_sig [] cs m.ethereum_address)
    | inr (c, e) ↦ ground (
      arith,
      find-signer_to_sig [] cs m.ethereum_address,
      last_confirm-signer m.ethereum_address cs c,
    )
  ]

module _ {C : Type 0} (signer signature : C → Bytes) where
  -- What the arrays hold for a member: the parts of its last confirmation's signature, or zeros.
  abbrev pub slot : GethLib → List C → BridgeValidator → Result Vrs
  slot geth cs m = elim (last_confirm signer m.ethereum_address cs) [
    | none ↦ ok no_sig
    | some c ↦ sig_to_vrs geth (signature c)
  ]

  -- The power that a member has confirmed with.
  abbrev pub power_of : List C → BridgeValidator → ℕ
  power_of cs m = elim (last_confirm signer m.ethereum_address cs) [ none ↦ 0 | some c ↦ m.power ]

  -- The power of the members that have confirmed.
  abbrev pub signed_power : List C → List BridgeValidator → ℕ
  signed_power cs [] = 0
  signed_power cs (m ∷ ms) = power_of cs m + signed_power cs ms

  -- The signatures of all the members, in order.
  abbrev pub Slots : GethLib → List C → List BridgeValidator → List Vrs → Type 0
  Slots geth cs [] [] = Unit
  Slots geth cs (m ∷ ms) (x ∷ xs) = (slot geth cs m ≡ ok x) × Slots geth cs ms xs
  Slots geth cs _ _ = ⊥

  -- `out` with the arrays of the members `ms` behind it.
  abbrev extend : GethLib → List C → Repacked → List BridgeValidator → List Vrs → Repacked
  extend geth cs out ms xs = record {
    validators = out.validators ++ map (λ m. geth.hex_to_address m.ethereum_address) ms;
    powers = out.powers ++ map (λ m. m.power) ms;
    v = out.v ++ map (λ x. x.v) xs;
    r = out.r ++ map (λ x. x.r) xs;
    s = out.s ++ map (λ x. x.s) xs;
    power_of_good_sigs = out.power_of_good_sigs + signed_power cs ms;
  }

  push_member-slot :
      (geth : GethLib) (cs : List C) (m : BridgeValidator) (x : Vrs) (out : Repacked)
      → slot geth cs m ≡ ok x
      → push_member signer signature geth (last_confirm signer m.ethereum_address cs) m out
        ≡ ok (push geth m x (power_of cs m) out)
  push_member-slot geth cs m x out h =
      elim (Option-cases (last_confirm signer m.ethereum_address cs)) [
        | inl e ↦ ground arith
        | inr (c, e) ↦ ground arith
      ]

  repack_members-extend :
      (geth : GethLib) (cs : List C) (ms : List BridgeValidator) (xs : List Vrs) (out : Repacked)
      → Slots geth cs ms xs
      → repack_members signer signature geth (signer_to_sig signer [] cs) ms (ok out)
        ≡ ok (extend geth cs out ms xs)
  unfolding repack_members
  repack_members-extend geth cs [] [] out h = simp (append-nil, add-zero)
  repack_members-extend geth cs (m ∷ ms) (x ∷ xs) out h =
      rw (good_sig-eq_last signer cs m, push_member-slot geth cs m x out h.0)
        (repack_members-extend geth cs ms xs _ h.1 ∙ ap ok (simp (append_assoc, add_assoc)))
  repack_members-extend geth cs [] (x ∷ xs) out h = absurd h
  repack_members-extend geth cs (m ∷ ms) [] out h = absurd h

  -- The arrays of a successful check.
  abbrev pub arrays : GethLib → List C → List BridgeValidator → List Vrs → Repacked
  arrays geth cs ms xs = record {
    validators = map (λ m. geth.hex_to_address m.ethereum_address) ms;
    powers = map (λ m. m.power) ms;
    v = map (λ x. x.v) xs;
    r = map (λ x. x.r) xs;
    s = map (λ x. x.s) xs;
    power_of_good_sigs = signed_power cs ms;
  }

  -- If the signatures of all the members that have confirmed can be split, the check of one or more
  -- confirmations fails exactly when the members that have confirmed have less than 66 percent of the
  -- power, and else returns, for every member in order, its address, its power and the parts of its
  -- last confirmation, or zeros.
  pub repack-arrays :
      (text : String) (d : DecimalLib) (geth : GethLib) (valset : Valset) (c : C) (cs : List C)
      (xs : List Vrs)
      → Slots geth (c ∷ cs) valset.members xs
      → repack signer signature text d geth valset (c ∷ cs) ≡ (
          if d.below (peggy_power_to_percent d (signed_power (c ∷ cs) valset.members)) 66
          then err (raised "insufficient voting power")
          else ok (arrays geth (c ∷ cs) valset.members xs))
  unfolding repack
  repack-arrays text d geth valset c cs xs h =
      rw (repack_members-extend geth (c ∷ cs) valset.members xs nothing h) (ground arith)
