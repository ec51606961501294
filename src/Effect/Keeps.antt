-- ===== src/Effect/Keeps.antt =====
-- Invariants of calls, with a rule for each way to build a call.
use peggo.Base.{◌≡◌, refl, ap, arith, List, [], ◌∷◌, String}
use peggo.Effect.{
  Result, ok, err, panic, M, ◌>>=◌, for_each, wrap, wrap_result, continue, pure, lift,
}

-- `m` keeps `P`, whatever it returns.
abbrev pub Keeps : {S A : Type 0} → (S → Type 0) → M S A → Type 0
Keeps {S} P m = (s : S) → P s → P (m s).1

module _ {S A B : Type 0} (P : S → Type 0) where
  pub continue_keeps :
      (r : Result A) (f : A → M S B)
      → ((a : A) → Keeps P (f a))
      → (s : S) → P s
      → P (continue r f s).1
  continue_keeps (ok a) f k s h = k a s h
  continue_keeps (err e) f k s h = h
  continue_keeps (panic p) f k s h = h

  pub Keeps-bind :
      (m : M S A) (f : A → M S B) → Keeps P m → ((a : A) → Keeps P (f a)) → Keeps P (m >>= f)
  Keeps-bind m f km kf s h = continue_keeps (m s).0 f kf (m s).1 (km s h)

module _ {S A : Type 0} (P : S → Type 0) where
  pub Keeps-wrap : (text : String) (m : M S A) → Keeps P m → Keeps P (wrap text m)
  Keeps-wrap text m k s h = k s h

  pub Keeps-for_each :
      (f : A → M S (Unit {0})) → ((a : A) → Keeps P (f a)) → (xs : List A) → Keeps P (for_each f xs)
  unfolding for_each
  Keeps-for_each f k [] s h = h
  Keeps-for_each f k (x ∷ xs) s h =
      Keeps-bind P (f x) (λ _. for_each f xs) (k x) (λ _. Keeps-for_each f k xs) s h

module _ {S A B : Type 0} where
  bind_ok_result :
      (r : Result A) (f : A → M S B) (u : S) (b : B) (t : S)
      → continue r f u ≡ (ok b, t)
      → (a : A) × (r ≡ ok a) × (f a u ≡ (ok b, t))
  bind_ok_result (ok a) f u b t h = (a, refl, h)
  bind_ok_result (err e) f u b t h = absurd (ground arith)
  bind_ok_result (panic p) f u b t h = absurd (ground arith)

  -- A chain that returns a value has run both of its parts.
  pub bind_ok :
      (m : M S A) (f : A → M S B) (s : S) (b : B) (t : S)
      → (m >>= f) s ≡ (ok b, t)
      → (a : A) × (u : S) × (m s ≡ (ok a, u)) × (f a u ≡ (ok b, t))
  bind_ok m f s b t h =
      let (a, e, g) = bind_ok_result (m s).0 f (m s).1 b t h in (a, (m s).1, λ i. (e i, (m s).1), g)

pub pure_ok : {S A : Type 0} (a b : A) (s t : S) → pure a s ≡ (ok b, t) → (a ≡ b) × (s ≡ t)
pure_ok {S} {A} a b s t h = (ground arith, ap (λ (x : Result A × S). x.1) h)

-- A call whose outcome is known goes on from there.
pub bind_step :
    {S A B : Type 0} (m : M S A) (f : A → M S B) (s : S) (a : A) (u : S)
    → m s ≡ (ok a, u)
    → (m >>= f) s ≡ f a u
bind_step m f s a u e = λ i. continue (e i).0 f (e i).1

pub lift_ok :
    {S A : Type 0} (r : Result A) (s t : S) (a : A) → lift r s ≡ (ok a, t) → (r ≡ ok a) × (s ≡ t)
lift_ok {S} {A} r s t a e = (ap (λ (x : Result A × S). x.0) e, ap (λ (x : Result A × S). x.1) e)

wrap_result_ok :
    {A : Type 0} (text : String) (r : Result A) (a : A) → wrap_result text r ≡ ok a → r ≡ ok a
wrap_result_ok text (ok b) a h = h
wrap_result_ok text (err e) a h = absurd (ground arith)
wrap_result_ok text (panic p) a h = absurd (ground arith)

-- A wrapped call that returns a value is the call.
pub wrap_ok :
    {S A : Type 0} (text : String) (m : M S A) (s t : S) (a : A)
    → wrap text m s ≡ (ok a, t)
    → m s ≡ (ok a, t)
wrap_ok {S} {A} text m s t a h =
    let q = wrap_result_ok text (m s).0 a (ap (λ (x : Result A × S). x.0) h) in λ i. (q i, (h i).1)
