-- ===== src/Oracle/Sorting.antt =====
-- The list of events to claim: complete, above the claimed nonce, and in the order of the nonces.
use peggo.Base.{ℕ, suc, ◌≤◌, List, [], ◌∷◌, All, ltb, leb, arith, Bool-cases, inl, inr}
use peggo.Oracle.Events.{Event, nonce, filter_events, insert_event, sort_events}

-- No nonce in the list is below the bound, and the nonces ascend.
abbrev pub Ascending : ℕ → List Event → Type 0
Ascending n [] = Unit
Ascending n (e ∷ es) = (n ≤ nonce e) × Ascending (nonce e) es

pub Ascending-weaken : (m n : ℕ) (es : List Event) → m ≤ n → Ascending n es → Ascending m es
Ascending-weaken m n [] h a = tt
Ascending-weaken m n (e ∷ es) h a = (omega arith, a.1)

pub Ascending-All : (n : ℕ) (es : List Event) → Ascending n es → All (λ e. n ≤ nonce e) es
Ascending-All n [] a = tt
Ascending-All n (e ∷ es) a = (a.0, Ascending-All n es (Ascending-weaken n (nonce e) es a.0 a.1))

insert-Ascending :
    (n : ℕ) (e : Event) (es : List Event)
    → n ≤ nonce e
    → Ascending n es
    → Ascending n (insert_event e es)
unfolding insert_event
insert-Ascending n e [] h a = (h, tt)
insert-Ascending n e (x ∷ xs) h a = elim (Bool-cases (leb (nonce e) (nonce x))) [
  | inl t ↦ rw t (h, (ground arith, a.1))
  | inr f ↦ rw f (a.0, insert-Ascending (nonce x) e xs (ground arith) a.1)
]

sort-Ascending :
    (n : ℕ) (es : List Event) → All (λ e. n ≤ nonce e) es → Ascending n (sort_events es)
unfolding sort_events
sort-Ascending n [] h = tt
sort-Ascending n (e ∷ es) h = insert-Ascending n e (sort_events es) h.0 (sort-Ascending n es h.1)

module _ (P : Event → Type 0) where
  insert-All : (e : Event) (es : List Event) → All P (insert_event e es) → All P (e ∷ es)
  unfolding insert_event
  insert-All e [] h = h
  insert-All e (x ∷ xs) h = elim (Bool-cases (leb (nonce e) (nonce x))) [
    | inl t ↦ rw t at h
    | inr f ↦
        let k : All P (x ∷ insert_event e xs) = rw f at h in
        let r = insert-All e xs k.1 in (r.0, (k.0, r.1))
  ]

  -- What holds of every sorted event holds of every event.
  pub All-of_sort : (es : List Event) → All P (sort_events es) → All P es
  unfolding sort_events
  All-of_sort [] h = tt
  All-of_sort (e ∷ es) h = let r = insert-All e (sort_events es) h in (r.0, All-of_sort es r.1)

  -- What holds of the new events, and of those that are not new, holds of all.
  pub All-of_filter :
      (n : ℕ) (es : List Event)
      → ((e : Event) → nonce e ≤ n → P e)
      → All P (filter_events es n)
      → All P es
  unfolding filter_events
  All-of_filter n [] old h = tt
  All-of_filter n (e ∷ es) old h = elim (Bool-cases (ltb n (nonce e))) [
    | inl t ↦
        let h' : All P (e ∷ filter_events es n) = rw t at h in (h'.0, All-of_filter n es old h'.1)
    | inr f ↦
        let h' : All P (filter_events es n) = rw f at h in
        (old e (ground arith), All-of_filter n es old h')
  ]

filter-above : (n : ℕ) (es : List Event) → All (λ e. suc n ≤ nonce e) (filter_events es n)
unfolding filter_events
filter-above n [] = tt
filter-above n (e ∷ es) = elim (Bool-cases (ltb n (nonce e))) [
  | inl t ↦ rw t (ground arith, filter-above n es)
  | inr f ↦ rw f (filter-above n es)
]

-- The list that the oracle claims from: ascending, and above the claimed nonce.
pub new_events-Ascending :
    (n : ℕ) (es : List Event) → Ascending (suc n) (sort_events (filter_events es n))
new_events-Ascending n es = sort-Ascending (suc n) (filter_events es n) (filter-above n es)

keep-Ascending : (k n : ℕ) (es : List Event) → Ascending n es → Ascending n (filter_events es k)
unfolding filter_events
keep-Ascending k n [] a = tt
keep-Ascending k n (e ∷ es) a = elim (Bool-cases (ltb k (nonce e))) [
  | inl t ↦ rw t (a.0, keep-Ascending k (nonce e) es a.1)
  | inr f ↦ rw f (keep-Ascending k n es (Ascending-weaken n (nonce e) es a.0 a.1))
]

-- Filtering an ascending list again, by a newer claim, leaves it ascending and above that claim.
pub filter-Ascending :
    (k n : ℕ) (es : List Event) → Ascending n es → Ascending (suc k) (filter_events es k)
filter-Ascending k n es a = raise (filter_events es k) (keep-Ascending k n es a) (filter-above k es)
  where
    raise :
        (xs : List Event) → Ascending n xs → All (λ e. suc k ≤ nonce e) xs → Ascending (suc k) xs
    raise [] b h = tt
    raise (x ∷ xs) b h = (h.0, b.1)
