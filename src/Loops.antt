-- ===== src/Loops.antt =====
-- orchestrator/loops: RunLoop and the Wait of a ParanoidGroup, on the sequence of what their `select`
-- meets.
pub mod Ends
use peggo.Base.{
  ℕ, ◌-◌, Bool, true, false, String, Option, none, some, List, [], ◌∷◌, ◌++◌, leb, if◌then◌else◌,
}
use peggo.Effect.{Error, raised, Result, ok, err, panic, M}

-- A round of the `select` of RunLoop: the timer has fired, or the context is done.
pub data Wake : Type 0 where
  timer done : Wake

-- `delayTimer.Reset`: the wait after an iteration that took `elapsed`.
unfoldable pub delay : (interval elapsed : ℕ) → ℕ
delay interval elapsed = if leb interval elapsed then interval else interval - elapsed

-- `panicRecover`: `panic_error` makes the error of what was recovered.
abbrev pub recover {ℓ} : {A : Type ℓ} → (panic_error : String → Error) → Result A → Result A
recover panic_error (ok a) = ok a
recover panic_error (err e) = err e
recover panic_error (panic p) = err (panic_error p)

module _ {S : Type 0} (is_graceful_stop : Error → Bool) (panic_error : String → Error) where
  -- What RunLoop does with the result of an iteration; `again` is the next round.
  abbrev pub after_iteration :
      (S → Option (Result (Unit {0}) × S)) → Result (Unit {0}) → S → Option (Result (Unit {0}) × S)
  after_iteration again (ok u) t = again t
  after_iteration again (err e) t = if is_graceful_stop e then some (ok tt, t) else some (err e, t)
  after_iteration again (panic p) t = some (recover panic_error (panic p), t)

  -- `none` while the loop goes on. The order of the rounds is arbitrary, and so are the waits.
  unfoldable pub run_loop : M S (Unit {0}) → List Wake → S → Option (Result (Unit {0}) × S)
  run_loop fn [] s = none
  run_loop fn (done ∷ ws) s = some (ok tt, s)
  run_loop fn (timer ∷ ws) s = let (r, t) = fn s in after_iteration (run_loop fn ws) r t

-- What a round of the `select` of Wait finds in the channel of errors; it is closed when all tasks
-- have ended and its errors have been received.
pub data Poll : Type 0 where
  received : Error → Poll
  closed empty : Poll

-- A round of Wait: it goes on with the errors collected, or returns them. No error is `nil`.
pub data Step : Type 0 where
  continues returns : List Error → Step

unfoldable pub wait_step : List Error → Poll → Step
wait_step errs (received e) = continues (errs ++ e ∷ [])
wait_step errs closed = returns []
wait_step [] empty = continues []
wait_step (e ∷ es) empty = returns (e ∷ es)

abbrev pub wait_on : (List Error → Option (List Error)) → Step → Option (List Error)
wait_on again (continues errs) = again errs
wait_on again (returns errs) = some errs

-- The collected errors that Wait returns, or `none` while it polls.
unfoldable pub wait : List Error → List Poll → Option (List Error)
wait errs [] = none
wait errs (p ∷ ps) = wait_on (λ es. wait es ps) (wait_step errs p)
