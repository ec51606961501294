-- ===== src/Effect/Retry.antt =====
-- retry.Do of github.com/avast/retry-go, a library: a parameter with the behaviour that its
-- documentation gives.
use peggo.Base.{ℕ, suc, ◌≡◌, ◌∙◌, ap, subst, arith}
use peggo.Effect.{Error, Result, ok, err, panic, M}
use peggo.Effect.Keeps.{Keeps}

-- `Attempts fn n s r t`: calling `fn` at most `n` times from state `s` may return `r` in state `t`.
-- The call is repeated while it returns an error; a panic is not caught; the retries may be given
-- up early, and a cancelled context stops them before the next call.
pub data Attempts {S A : Type 0} (fn : M S A) : ℕ → S → Result A → S → Type 0 where
  succeeds : {n : ℕ} {s t : S} {a : A} → fn s ≡ (ok a, t) → Attempts fn (suc n) s (ok a) t
  panics : {n : ℕ} {s t : S} {p : _} → fn s ≡ (panic p, t) → Attempts fn (suc n) s (panic p) t
  gives_up : {n : ℕ} {s t : S} {e e' : Error} → fn s ≡ (err e, t) → Attempts fn (suc n) s (err e') t
  again :
      {n : ℕ} {s t u : S} {e : Error} {r : Result A}
      → fn s ≡ (err e, t)
      → Attempts fn n t r u
      → Attempts fn (suc n) s r u
  cancelled : {n : ℕ} {s : S} {e : Error} → Attempts fn n s (err e) s

pub record Retry : Type 1 where
  pub run : (S A : Type 0) → ℕ → M S A → M S A
  pub law :
      (S A : Type 0) (n : ℕ) (fn : M S A) (s : S)
      → Attempts fn n s (run S A n fn s).0 (run S A n fn s).1

module _ {S A : Type 0} (P : S → Type 0) (fn : M S A) (kept : Keeps P fn) where
  after : {s t : S} {r : Result A} → fn s ≡ (r, t) → P s → P t
  after {s} e h = subst P (ap (λ (x : Result A × S). x.1) e) (kept s h)

  pub Attempts-keeps : {n : ℕ} {s t : S} {r : Result A} → Attempts fn n s r t → P s → P t
  Attempts-keeps (succeeds e) h = after e h
  Attempts-keeps (panics e) h = after e h
  Attempts-keeps (gives_up e) h = after e h
  Attempts-keeps (again e more) h = Attempts-keeps more (after e h)
  Attempts-keeps cancelled h = h

  -- A retry that returns a value has returned it from one last call, made in a state that the
  -- failed calls have left.
  pub Attempts-ok :
      {n : ℕ} {s t : S} {r : Result A} (a : A)
      → Attempts fn n s r t
      → r ≡ ok a
      → P s
      → (u : S) × P u × (fn u ≡ (ok a, t))
  Attempts-ok {s} a (succeeds {t = t} e) q h = (s, h, e ∙ λ i. (q i, t))
  Attempts-ok a (panics e) q h = absurd (ground arith)
  Attempts-ok a (gives_up e) q h = absurd (ground arith)
  Attempts-ok a (again e more) q h = Attempts-ok a more q (after e h)
  Attempts-ok a cancelled q h = absurd (ground arith)
