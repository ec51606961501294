-- ===== src/NonceCache.antt =====
-- orchestrator/ethereum/util/noncecache.go. The map from accounts to nonces is an association list.
-- An `int64` is its bit pattern, a number below 2 ^ 64. Each operation holds the account's lock, and
-- so is one step; `Serialize` runs its argument under one more lock, which keeps the calls of two
-- transactions of an account apart.
use peggo.Base.{
  ℕ, ◌+◌, ◌-◌, ◌^◌, ◌<◌, Bool, true, false, Option, none, some, List, [], ◌∷◌, ◌≡◌, refl, arith,
  ◌==◌, if◌then◌else◌,
}
use peggo.Effect.{Result, ok, err, panic}
use peggo.Types.{Address, u64}

abbrev pub Nonces : Type 0
Nonces = List (Address × ℕ)

-- `sync.Map.Load` and `Store`.
unfoldable pub load : Address → Nonces → Option ℕ
load a [] = none
load a ((b, n) ∷ m) = if b == a then some n else load a m

unfoldable pub store : Address → ℕ → Nonces → Nonces
store a n [] = (a, n) ∷ []
store a n ((b, k) ∷ m) = if b == a then (a, n) ∷ m else (b, k) ∷ store a n m

-- `LoadOrStore(account, 0)`: the value, whether it was there, and the map.
unfoldable pub get : Address → Nonces → (ℕ × Bool) × Nonces
unfolding load store
get a m = elim (load a m) [ none ↦ ((0, false), store a 0 m) | some n ↦ ((n, true), m) ]

unfoldable pub set : Address → ℕ → Nonces → Nonces
unfolding store
set a n m = store a n m

unfoldable pub incr : Address → Nonces → ℕ × Nonces
unfolding get
incr a m = let n = u64 ((get a m).0.0 + 1) in (n, store a n (get a m).1)

unfoldable pub decr : Address → Nonces → ℕ × Nonces
unfolding get
decr a m = let n = u64 ((get a m).0.0 + 2 ^ 64 - 1) in (n, store a n (get a m).1)

-- `fetched` is what `syncFn` returns: an error leaves the nonce as it was.
-- A panic of the query, which the source does not recover from, is not followed here and leaves it too.
unfoldable pub sync : Address → Result ℕ → Nonces → Nonces
unfolding store
sync a (ok n) m = store a (u64 n) m
sync a (err e) m = m
sync a (panic p) m = m

pub load-store :
    (a b n : ℕ) (m : Nonces) → load b (store a n m) ≡ (if a == b then some n else load b m)
unfolding load store
load-store a b n [] = refl
load-store a b n ((c, k) ∷ m) = ground (arith, load-store a b n m)

-- Reading a nonce leaves the account with it.
pub load-get : (a : Address) (m : Nonces) → load a (get a m).1 ≡ some (get a m).0.0
unfolding get
load-get a m = ground (arith, load-store a a 0 m)

pub load-incr : (a : Address) (m : Nonces) → load a (incr a m).1 ≡ some (u64 ((get a m).0.0 + 1))
unfolding incr
load-incr a m = ground (arith, load-store a a (u64 ((get a m).0.0 + 1)) (get a m).1)

pub get-load : (a n : ℕ) (m : Nonces) → load a m ≡ some n → get a m ≡ ((n, true), m)
unfolding get
get-load a n m h = ground arith

-- The nonce of an account as `Get` returns it: a missing one is 0.
abbrev pub value : Address → Nonces → ℕ
value a m = (get a m).0.0

value-get : (a b : Address) (m : Nonces) → value b (get a m).1 ≡ value b m
unfolding get
value-get a b m = ground (arith, load-store a b 0 m)

value-store : (a b n : ℕ) (m : Nonces) → value b (store a n m) ≡ (if a == b then n else value b m)
unfolding get
value-store a b n m = ground (arith, load-store a b n m)

value-incr :
    (a b : Address) (m : Nonces)
    → value b (incr a m).1 ≡ (if a == b then u64 (value a m + 1) else value b m)
unfolding incr
value-incr a b m = rw (value-store a b (u64 (value a m + 1)) (get a m).1, value-get a b m) refl

value-decr :
    (a b : Address) (m : Nonces)
    → value b (decr a m).1 ≡ (if a == b then u64 (value a m + 2 ^ 64 - 1) else value b m)
unfolding decr
value-decr a b m =
    rw (value-store a b (u64 (value a m + 2 ^ 64 - 1)) (get a m).1, value-get a b m) refl

-- Incrementing an account's nonce and then decrementing it returns every account to the nonce that it
-- had, a missing one counting as 0, for every 64-bit value, also where the increment wraps.
pub decr-incr :
    (a b : Address) (m : Nonces) → value a m < 2 ^ 64 → value b (decr a (incr a m).1).1 ≡ value b m
decr-incr a b m h = ground (arith, value-decr a b (incr a m).1, value-incr a a m, value-incr a b m)
