-- ===== src/Effect.antt =====
-- Go functions that call the two networks: what they return, and the state that they pass on.
-- A function that returns `(T, error)` returns a `Result`; a panic is a third outcome, because
-- neither `if err != nil` nor a retry stops it.
pub mod Keeps
pub mod Retry
pub mod Returns
use peggo.Base.{codes, ◌++◌, Bytes, String, List, [], ◌∷◌}

-- `failed` carries the text of an error that came from outside; `raised` is one made here, named
-- by its format string; `wrapped` is errors.Wrap.
pub data Error : Type 0 where
  failed : Bytes → Error
  raised : String → Error
  wrapped : String → Error → Error

pub data Result {ℓ} (A : Type ℓ) : Type ℓ where
  ok : A → Result A
  err : Error → Result A
  panic : String → Result A

-- `err.Error()`.
unfoldable pub error_text : Error → Bytes
error_text (failed text) = text
error_text (raised text) = codes text
error_text (wrapped text e) = codes text ++ (codes ": " ++ error_text e)

-- A call that may change the state `S` of the outside world.
abbrev pub M : Type 0 → Type 0 → Type 0
M S A = S → Result A × S

module _ {S A : Type 0} where
  abbrev pub pure : A → M S A
  pure a s = (ok a, s)

  abbrev pub raise : Error → M S A
  raise e s = (err e, s)

  abbrev pub lift : Result A → M S A
  lift r s = (r, s)

module _ {S A B : Type 0} where
  abbrev pub continue : Result A → (A → M S B) → M S B
  continue (ok a) f s = f a s
  continue (err e) f s = (err e, s)
  continue (panic p) f s = (panic p, s)

  infixl 10 ◌>>=◌ ◌>>◌
  abbrev pub ◌>>=◌ : M S A → (A → M S B) → M S B
  ◌>>=◌ m f s = let (r, t) = m s in continue r f t

  abbrev pub ◌>>◌ : M S A → M S B → M S B
  m >> n = m >>= λ _. n

-- `errors.Wrap(err, text)` on the error of a call.
abbrev pub wrap_result {ℓ} : {A : Type ℓ} → String → Result A → Result A
wrap_result text (ok a) = ok a
wrap_result text (err e) = err (wrapped text e)
wrap_result text (panic p) = panic p

module _ {S A : Type 0} where
  abbrev pub wrap : String → M S A → M S A
  wrap text m s = let (r, t) = m s in (wrap_result text r, t)

  -- `for _, x := range xs { if err := f(x); err != nil { return err } }`
  unfoldable pub for_each : (A → M S (Unit {0})) → List A → M S (Unit {0})
  for_each f [] = pure tt
  for_each f (x ∷ xs) = f x >>= λ _. for_each f xs
