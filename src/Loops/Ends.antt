-- ===== src/Loops/Ends.antt =====
-- How the loops and the groups of tasks end.
use mathlib.Core.List.{append_assoc, append-nil}
use peggo.Base.{
  ℕ, zero, suc, Bool, false, String, Option, some, List, [], ◌∷◌, ◌++◌, map, ◌≡◌, refl, sym, ap,
  ◌⊎◌, inl, inr, Bool-cases, arith, ◌∙◌,
}
use peggo.Effect.{Error, Result, ok, err, panic, M}
use peggo.Loops.{
  Wake, timer, done, run_loop, after_iteration, Poll, received, closed, empty, wait, wait_step,
}

-- `fn` leads from one state to another by iterations that end well.
pub data Reaches {S : Type 0} (fn : M S (Unit {0})) : S → S → Type 0 where
  here : {s : S} → Reaches fn s s
  later : {s t u : S} → fn s ≡ (ok tt, t) → Reaches fn t u → Reaches fn s u

-- The iteration from this state fails with this error, or with a panic that was recovered as it.
abbrev pub FailsWith :
    {S : Type 0} → (Error → Bool) → (String → Error) → M S (Unit {0}) → Error → S → S → Type 0
FailsWith graceful panic_error fn e u t =
    ((fn u ≡ (err e, t)) × (graceful e ≡ false))
    ⊎ ((p : String) × (fn u ≡ (panic p, t)) × (e ≡ panic_error p))

module _ {S : Type 0} (graceful : Error → Bool) (panic_error : String → Error)
    (fn : M S (Unit {0})) where
  -- When RunLoop returns an error, some number of iterations ended well, and the next one returned
  -- this error, which is not the graceful stop, or made a panic that was recovered as this error;
  -- after it nothing more was run.
  pub run_loop-FailsWith :
      (ws : List Wake) (s t : S) (e : Error)
      → run_loop graceful panic_error fn ws s ≡ some (err e, t)
      → (u : S) × Reaches fn s u × FailsWith graceful panic_error fn e u t
  unfolding run_loop
  run_loop-FailsWith [] s t e h = absurd (ground arith)
  run_loop-FailsWith (done ∷ ws) s t e h = absurd (ground arith)
  run_loop-FailsWith (timer ∷ ws) s t e h =
      go (fn s).0 (fn s).1 refl (λ v k. run_loop-FailsWith ws v t e k) h
    where
      go :
          (r : Result (Unit {0})) (v : S)
          → fn s ≡ (r, v)
          → ((v : S)
              → run_loop graceful panic_error fn ws v ≡ some (err e, t)
              → (u : S) × Reaches fn v u × FailsWith graceful panic_error fn e u t)
          → after_iteration graceful panic_error (run_loop graceful panic_error fn ws) r v
            ≡ some (err e, t)
          → (u : S) × Reaches fn s u × FailsWith graceful panic_error fn e u t
      go (ok x) v k more q = let (u, path, f) = more v q in (u, later k path, f)
      go (err x) v k more q = elim (Bool-cases (graceful x)) [
        | inl y ↦
            let bad : ◌≡◌ {A = Option (Result (Unit {0}) × S)} (some (ok tt, v)) (some (err e, t)) =
              rw y at q in
            absurd (ground arith)
        | inr n ↦
            let same : ◌≡◌ {A = Option (Result (Unit {0}) × S)} (some (err x, v))
                (some (err e, t)) =
              rw n at q in
            (s, here, inl (k ∙ ground arith, ground arith))
      ]
      go (panic p) v k more q = (s, here, inr (p, k ∙ ground arith, ground arith))

wait-received :
    (es errs : List Error) (ps : List Poll)
    → wait errs (map received es ++ ps) ≡ wait (errs ++ es) ps
unfolding wait wait_step
wait-received [] errs ps = ap (λ x. wait x ps) (sym (append-nil errs))
wait-received (e ∷ es) errs ps =
    wait-received es (errs ++ e ∷ []) ps ∙ ap (λ x. wait x ps) (append_assoc errs (e ∷ []) es)

-- `n` rounds that find nothing.
abbrev pub polls : ℕ → List Poll → List Poll
polls zero ps = ps
polls (suc n) ps = empty ∷ polls n ps

wait-polls : (n : ℕ) (ps : List Poll) → wait [] (polls n ps) ≡ wait [] ps
unfolding wait wait_step
wait-polls zero ps = refl
wait-polls (suc n) ps = wait-polls n ps

-- After any number of empty rounds, Wait collects the errors `e ∷ es` that follow, in their order.
-- If it then finds the channel empty, it returns them all; if it finds the channel closed, because
-- the last task has ended in the meantime, it returns no error.
pub wait-loses :
    (n : ℕ) (e : Error) (es : List Error) (ps : List Poll)
    → (wait [] (polls n (map received (e ∷ es) ++ empty ∷ ps)) ≡ some (e ∷ es))
      × (wait [] (polls n (map received (e ∷ es) ++ closed ∷ ps)) ≡ some [])
unfolding wait wait_step
wait-loses n e es ps = (
  wait-polls n _ ∙ wait-received (e ∷ es) [] (empty ∷ ps),
  wait-polls n _ ∙ wait-received (e ∷ es) [] (closed ∷ ps),
)
