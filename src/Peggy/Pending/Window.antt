-- ===== src/Peggy/Pending/Window.antt =====
-- The list of pending transactions (orchestrator/ethereum/peggy/pending_transactions.go) and the
-- transactions of the bridge that have arrived.
use peggo.Base.{
  ℕ, zero, suc, ◌+◌, ◌-◌, ◌≤◌, ◌<◌, true, false, Bytes, String, List, [], ◌∷◌, ◌++◌, ◌||◌, ◌≡◌, ◌≢◌,
  refl, sym, ◌∙◌, ap, bytes_eq, bytes_eq_iff, ltb, length, take, drop, All, arith, if◌then◌else◌,
  Bool-cases, inl, inr, length-append, length-drop,
}
use mathlib.Core.List.{append_assoc, append-nil}
use peggo.Effect.{ok, panic}
use peggo.Peggy.Pending.{
  PendingTxInput, MethodIds, is_batch_or_valset_update_tx, max_pending, enqueue,
  add_pending_tx_input, is_pending_tx_input, subscribe,
}

-- The last `n` entries of a list.
abbrev pub last : {A : Type 0} → ℕ → List A → List A
last n xs = drop (length xs - n) xs

-- The entries of the transactions that call submitBatch or updateValset.
abbrev pub bridge_txs : MethodIds → List (ℕ × Bytes) → List PendingTxInput
bridge_txs ids [] = []
bridge_txs ids ((now, input) ∷ txs) =
    let rest = bridge_txs ids txs in
    if bytes_eq ids.submit_batch (take 4 input) || bytes_eq ids.update_valset (take 4 input)
    then record { input_data = input; received_time = now } ∷ rest
    else rest

drop-append :
    {A : Type 0} (n : ℕ) (xs ys : List A) → n ≤ length xs → drop n (xs ++ ys) ≡ drop n xs ++ ys
drop-append zero xs ys h = refl
drop-append (suc n) [] ys h = absurd (omega arith)
drop-append (suc n) (x ∷ xs) ys h = drop-append n xs ys (omega arith)

drop-nil : {A : Type 0} (k : ℕ) → drop {A = A} k [] ≡ []
drop-nil zero = refl
drop-nil (suc k) = refl

drop-drop : {A : Type 0} (m n : ℕ) (xs : List A) → drop m (drop n xs) ≡ drop (n + m) xs
drop-drop m zero xs = ap (λ (k : ℕ). drop k xs) (omega arith)
drop-drop m (suc n) [] = drop-nil m ∙ sym (drop-nil (suc n + m))
drop-drop m (suc n) (x ∷ xs) =
    let e : suc n + m ≡ suc (n + m) = omega arith in rw e (drop-drop m n xs)

-- One more entry moves the window on by one.
enqueue-last :
    (ys : List PendingTxInput) (x : PendingTxInput)
    → enqueue (last max_pending ys) x ≡ last max_pending (ys ++ x ∷ [])
unfolding enqueue
enqueue-last ys x = elim (Bool-cases (ltb (length ys) max_pending)) [
  | inl few ↦
      let e : length ys - 100 ≡ 0 = ground arith in
      let f : length (ys ++ x ∷ []) - 100 ≡ 0 = ground (arith, length-append ys (x ∷ [])) in
      let g : ltb 100 (length (ys ++ x ∷ [])) ≡ false = ground (arith, length-append ys (x ∷ [])) in
      rw (e, f, g)
  | inr many ↦
      let k : ℕ = length ys - 100 in
      let g : ltb 100 (length (drop k ys ++ x ∷ [])) ≡ true =
        ground (arith, length-append (drop k ys) (x ∷ []), length-drop k ys) in
      let f : length (ys ++ x ∷ []) - 100 ≡ k + 1 = ground (arith, length-append ys (x ∷ [])) in
      rw (g, f)
        (ap (drop 1) (sym (drop-append k ys (x ∷ []) (omega arith))) ∙ drop-drop 1 k (ys ++ x ∷ []))
]

-- Starting from the last hundred of an earlier history, and with inputs of at least four bytes each,
-- the list holds the last hundred of the history that the bridge transactions among the new ones
-- continue: no other transaction takes a place, and no bridge transaction is lost before a hundred
-- newer ones have come.
pub subscribe-window :
    (ids : MethodIds) (ys : List PendingTxInput) (txs : List (ℕ × Bytes))
    → All (λ t. 4 ≤ length t.1) txs
    → subscribe ids (ok (last max_pending ys)) txs
      ≡ ok (last max_pending (ys ++ bridge_txs ids txs))
unfolding subscribe
subscribe-window ids ys [] h = rw append-nil
subscribe-window ids ys ((now, input) ∷ txs) h =
    let long : ltb (length input) 4 ≡ false = ground arith in
    elim (Bool-cases
      (bytes_eq ids.submit_batch (take 4 input) || bytes_eq ids.update_valset (take 4 input))) [
        | inl t ↦
            let x : PendingTxInput = record { input_data = input; received_time = now } in
            rw (long, t, enqueue-last ys x, ← append_assoc ys (x ∷ []) (bridge_txs ids txs))
              (subscribe-window ids (ys ++ x ∷ []) txs h.1)
        | inr f ↦ rw (long, f) (subscribe-window ids ys txs h.1)
      ]

subscribe-panic :
    (ids : MethodIds) (t : String) (txs : List (ℕ × Bytes)) → subscribe ids (panic t) txs ≡ panic t
unfolding subscribe
subscribe-panic ids t [] = refl
subscribe-panic ids t ((now, input) ∷ txs) = refl

add_short :
    (ids : MethodIds) (p : List PendingTxInput) (now : ℕ) (input : Bytes)
    → length input < 4
    → add_pending_tx_input ids now p input ≡ panic "slice bounds out of range [:4]"
unfolding add_pending_tx_input
add_short ids p now input s = ground arith

add_long :
    (ids : MethodIds) (p : List PendingTxInput) (now : ℕ) (input : Bytes)
    → 4 ≤ length input
    → (q : List PendingTxInput) × (add_pending_tx_input ids now p input ≡ ok q)
unfolding add_pending_tx_input is_batch_or_valset_update_tx
add_long ids p now input h =
    let long : ltb (length input) 4 ≡ false = ground arith in
    elim (Bool-cases
      (bytes_eq ids.submit_batch (take 4 input) || bytes_eq ids.update_valset (take 4 input))) [
        | inl e ↦ (enqueue p (record { input_data = input; received_time = now }), rw (long, e))
        | inr e ↦ (p, rw (long, e))
      ]

-- A transaction with fewer than four bytes of input, whatever came before it, ends the subscription
-- with a panic, if all before it have four bytes or more.
pub short_input_panics :
    (ids : MethodIds) (p : List PendingTxInput) (txs more : List (ℕ × Bytes)) (now : ℕ)
    (input : Bytes)
    → All (λ t. 4 ≤ length t.1) txs
    → length input < 4
    → subscribe ids (ok p) (txs ++ (now, input) ∷ more) ≡ panic "slice bounds out of range [:4]"
unfolding subscribe
short_input_panics ids p [] more now input h s =
    ap (λ r. subscribe ids r more) (add_short ids p now input s) ∙ subscribe-panic ids _ more
short_input_panics ids p ((t, x) ∷ txs) more now input h s =
    let (q, e) = add_long ids p t x h.0 in
    ap (λ r. subscribe ids r (txs ++ (now, input) ∷ more)) e
    ∙ short_input_panics ids q txs more now input h.1 s

-- Only the first entry with an input counts: once it is older than the wait, the input is not
-- pending, however young the entries behind it are.
pub is_pending-first :
    (xs ys : List PendingTxInput) (x : PendingTxInput) (input : Bytes) (wait now : ℕ)
    → All (λ y. y.input_data ≢ input) xs
    → x.input_data ≡ input
    → is_pending_tx_input (xs ++ x ∷ ys) input wait now ≡ ltb now (x.received_time + wait)
unfolding is_pending_tx_input
is_pending-first [] ys x input wait now h e = ground (arith, bytes_eq_iff x.input_data input)
is_pending-first (z ∷ xs) ys x input wait now h e =
    ground (arith, bytes_eq_iff z.input_data input, is_pending-first xs ys x input wait now)
