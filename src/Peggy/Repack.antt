-- ===== src/Peggy/Repack.antt =====
-- checkValsetSigsAndRepack (valset_update.go), checkBatchSigsAndRepack (submit_batch.go) and the
-- functions of peggy_contract.go that they use. The two check functions have one text, but for the
-- type of the confirmations: here it is `repack`, over the fields that it reads of them.
pub mod Approved
pub mod Spec
use peggo.Base.{
  ℕ, ◌+◌, ◌-◌, ◌^◌, Bool, true, false, Bytes, String, Option, none, some, List, [], ◌∷◌, ◌++◌,
  bytes_eq, ltb, length, get_elem?, take, drop, ◌==◌, if◌then◌else◌,
}
use peggo.Effect.{Error, raised, Result, ok, err, panic}
use peggo.Types.{Address, Hash, BridgeValidator, Valset, MsgValsetConfirm, MsgConfirmBatch}
use peggo.Libraries.{DecimalLib, GethLib}

pub record Vrs : Type 0 where
  pub v : ℕ
  pub r : Hash
  pub s : Hash

-- `vParam` as the contract wants it.
unfoldable pub adjust_v : ℕ → ℕ
adjust_v v = if v == 0 then 27 else if v == 1 then 28 else v

-- A signature with fewer than 65 bytes has no index 64: a panic.
unfoldable pub split_signature : GethLib → Bytes → Result Vrs
unfolding adjust_v
split_signature geth bytes = elim (get_elem? bytes 64) [
  | none ↦ panic "index out of range [64]"
  | some v ↦ ok (record {
    v = adjust_v v;
    r = geth.bytes_to_hash (take 32 bytes);
    s = geth.bytes_to_hash (take 32 (drop 32 bytes));
  })
]

unfoldable pub sig_to_vrs : GethLib → Bytes → Result Vrs
unfolding split_signature
sig_to_vrs geth sig_hex = split_signature geth (geth.from_hex sig_hex)

abbrev pub total_peggy_power : ℕ
total_peggy_power = 2 ^ 32 - 1

unfoldable pub peggy_power_to_percent : (d : DecimalLib) → ℕ → d.Float32
peggy_power_to_percent d total =
    d.float32 (d.shift (d.div (d.new_from_big_int total 0) (d.new_from_int total_peggy_power)) 2)

-- The arrays that are handed to the contract, with the power of the signatures found.
pub record Repacked : Type 0 where
  pub validators : List Address
  pub powers : List ℕ
  pub v : List ℕ
  pub r : List Hash
  pub s : List Hash
  pub power_of_good_sigs : ℕ

abbrev pub nothing : Repacked
nothing = record { validators = []; powers = []; v = []; r = []; s = []; power_of_good_sigs = 0 }

abbrev pub no_sig : Vrs
no_sig = record { v = 0; r = 0; s = 0 }

-- A member with its signature, or with zeros for a member that did not sign.
abbrev pub push : GethLib → BridgeValidator → Vrs → ℕ → Repacked → Repacked
push geth m sig power out = record {
  validators = out.validators ++ geth.hex_to_address m.ethereum_address ∷ [];
  powers = out.powers ++ m.power ∷ [];
  v = out.v ++ sig.v ∷ [];
  r = out.r ++ sig.r ∷ [];
  s = out.s ++ sig.s ∷ [];
  power_of_good_sigs = out.power_of_good_sigs + power;
}

abbrev pub push_sig : GethLib → BridgeValidator → Result Vrs → Repacked → Result Repacked
push_sig geth m (ok sig) out = ok (push geth m sig m.power out)
push_sig geth m (err e) out = err e
push_sig geth m (panic p) out = panic p

-- `if peggyPowerToPercent(powerOfGoodSigs) < 66`
abbrev pub check_power : DecimalLib → Result Repacked → Result Repacked
check_power d (ok out) =
    if d.below (peggy_power_to_percent d out.power_of_good_sigs) 66
    then err (raised "insufficient voting power")
    else ok out
check_power d (err e) = err e
check_power d (panic p) = panic p

module _ {C : Type 0} (signer : C → Bytes) where
  -- The map `signerToSig`: writing a key again replaces its value.
  unfoldable pub insert_sig : C → List C → List C
  insert_sig c [] = c ∷ []
  insert_sig c (x ∷ xs) = if bytes_eq (signer x) (signer c) then c ∷ xs else x ∷ insert_sig c xs

  unfoldable pub find_sig : Bytes → List C → Option C
  find_sig a [] = none
  find_sig a (x ∷ xs) = if bytes_eq (signer x) a then some x else find_sig a xs

  -- `for _, sig := range confirms { signerToSig[sig.EthSigner] = sig }`
  unfoldable pub signer_to_sig : List C → List C → List C
  unfolding insert_sig
  signer_to_sig sigs [] = sigs
  signer_to_sig sigs (c ∷ cs) = signer_to_sig (insert_sig c sigs) cs

  -- The test `ok && sig.EthSigner == m.EthereumAddress` of the loop.
  unfoldable pub good_sig : List C → BridgeValidator → Option C
  unfolding find_sig
  good_sig sigs m = elim (find_sig m.ethereum_address sigs) [
    | none ↦ none
    | some c ↦ if bytes_eq (signer c) m.ethereum_address then some c else none
  ]

module _ {C : Type 0} (signer signature : C → Bytes) where
  abbrev pub push_member : GethLib → Option C → BridgeValidator → Repacked → Result Repacked
  push_member geth none m out = ok (push geth m no_sig 0 out)
  push_member geth (some c) m out = push_sig geth m (sig_to_vrs geth (signature c)) out

  -- `for _, m := range valset.Members`
  unfoldable pub repack_members :
      GethLib → List C → List BridgeValidator → Result Repacked → Result Repacked
  unfolding good_sig
  repack_members geth sigs [] out = out
  repack_members geth sigs (m ∷ ms) (ok out) =
      repack_members geth sigs ms (push_member geth (good_sig signer sigs m) m out)
  repack_members geth sigs (m ∷ ms) (err e) = err e
  repack_members geth sigs (m ∷ ms) (panic p) = panic p

  unfoldable pub repack : String → DecimalLib → GethLib → Valset → List C → Result Repacked
  unfolding repack_members signer_to_sig
  repack text d geth valset [] = err (raised text)
  repack text d geth valset (c ∷ cs) =
      check_power d
        (repack_members geth (signer_to_sig signer [] (c ∷ cs)) valset.members (ok nothing))

unfoldable pub check_valset_sigs_and_repack :
    DecimalLib → GethLib → Valset → List MsgValsetConfirm → Result Repacked
unfolding repack
check_valset_sigs_and_repack =
    repack (λ c. c.eth_address) (λ c. c.signature) "no signatures in valset confirmation"

unfoldable pub check_batch_sigs_and_repack :
    DecimalLib → GethLib → Valset → List MsgConfirmBatch → Result Repacked
unfolding repack
check_batch_sigs_and_repack =
    repack (λ c. c.eth_signer) (λ c. c.signature) "no signatures in batch confirmation"
