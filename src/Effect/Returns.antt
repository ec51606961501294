-- ===== src/Effect/Returns.antt =====
-- What holds of the values that a call returns, with a rule for each way to build a call.
use peggo.Base.{◌≡◌, refl, subst, arith, Bool, true, false, if◌then◌else◌}
use peggo.Effect.{Error, Result, ok, err, panic, M, ◌>>=◌, pure, raise}
use peggo.Effect.Keeps.{bind_ok, pure_ok}

-- Every value that `m` returns without an error satisfies `P`.
abbrev pub Returns : {S A : Type 0} → (A → Type 0) → M S A → Type 0
Returns {S} {A} P m = (s t : S) (a : A) → m s ≡ (ok a, t) → P a

module _ {S A : Type 0} (P : A → Type 0) where
  pub Returns-pure : (a : A) → P a → Returns {S = S} P (pure a)
  Returns-pure a p s t b e = subst P (pure_ok a b s t e).0 p

  pub Returns-raise : (x : Error) → Returns {S = S} P (raise x)
  Returns-raise x s t a e = absurd (ground arith)

  pub Returns-bind :
      {B : Type 0} (m : M S B) (f : B → M S A) → ((b : B) → Returns P (f b)) → Returns P (m >>= f)
  Returns-bind m f k s t a e = let (b, u, _, rest) = bind_ok m f s a t e in k b u t a rest

  pub Returns-if :
      (b : Bool) (m n : M S A) → Returns P m → Returns P n → Returns P (if b then m else n)
  Returns-if true m n p q = p
  Returns-if false m n p q = q

-- What holds of a result: of the value, if it is one.
abbrev pub Ending : {A : Type 0} → (A → Type 0) → Result A → Type 0
Ending P (ok a) = P a
Ending P (err e) = Unit
Ending P (panic p) = Unit

pub Returns-Ending :
    {S A : Type 0} (P : A → Type 0) (m : M S A) (s : S) → Returns P m → Ending P (m s).0
Returns-Ending {S} {A} P m s h = go (m s).0 refl
  where
    go : (r : Result A) → (m s).0 ≡ r → Ending P r
    go (ok a) e = h s (m s).1 a (λ i. (e i, (m s).1))
    go (err x) e = tt
    go (panic p) e = tt
