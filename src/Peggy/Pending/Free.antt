-- ===== src/Peggy/Pending/Free.antt =====
-- When an input is not taken for pending, in the list of orchestrator/ethereum/peggy/pending_transactions.go.
use peggo.Base.{
  ℕ, ◌+◌, ◌≤◌, ◌≡◌, ◌≢◌, ◌⊎◌, refl, ap, arith, inl, inr, Bool-cases, false, Bytes, List, [], ◌∷◌,
  ◌++◌, bytes_eq, bytes_eq_iff, All,
}
use peggo.Peggy.Pending.{PendingTxInput, is_pending_tx_input}

-- No entry has the input; or the first one that has it came in at least the wait before `now`.
abbrev pub IsFree : List PendingTxInput → Bytes → (wait now : ℕ) → Type 0
IsFree list input wait now =
    All (λ x. x.input_data ≢ input) list
    ⊎ ((xs : List PendingTxInput) × (x : PendingTxInput) × (ys : List PendingTxInput) × (list
          ≡ xs ++ x ∷ ys)
        × All (λ y. y.input_data ≢ input) xs
        × (x.input_data ≡ input)
        × (x.received_time + wait ≤ now))

pub is_pending-IsFree :
    (list : List PendingTxInput) (input : Bytes) (wait now : ℕ)
    → is_pending_tx_input list input wait now ≡ false
    → IsFree list input wait now
unfolding is_pending_tx_input
is_pending-IsFree [] input wait now h = inl tt
is_pending-IsFree (x ∷ xs) input wait now h = elim (Bool-cases (bytes_eq x.input_data input)) [
  | inl same ↦
      inr ([], x, xs, refl, tt, ground (arith, bytes_eq_iff x.input_data input), ground arith)
  | inr other ↦
      let differs : x.input_data ≢ input = ground (arith, bytes_eq_iff x.input_data input) in
      elim (is_pending-IsFree xs input wait now (rw other at h)) [
        | inl none_has ↦ inl (differs, none_has)
        | inr (zs, y, ys, is, before, has, old) ↦
            inr (x ∷ zs, y, ys, ap (λ r. x ∷ r) is, (differs, before), has, old)
      ]
]
