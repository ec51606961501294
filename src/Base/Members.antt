-- ===== src/Base/Members.antt =====
-- Members of a list, and of the part of it that passes a test.
use mathlib.Core.Path.{◌≡◌, sym, ap, subst, ◌∙◌}
use mathlib.Core.Logic.{inl, inr}
use mathlib.Core.Bool.{Bool, true, false}
use mathlib.Core.List.{List, [], ◌∷◌}
use native.Mathlib.Omega.{arith}
use peggo.Base.Tests.{Bool-cases}
use peggo.Base.Lists.{All, Any, keep}

module _ {A : Type 0} where
  pub keep-none : (p : A → Bool) (xs : List A) → keep p xs ≡ [] → All (λ x. p x ≡ false) xs
  keep-none p [] h = tt
  keep-none p (x ∷ xs) h = elim (Bool-cases (p x)) [
    | inl t ↦ let bad : x ∷ keep p xs ≡ [] = rw t at h in absurd (ground arith)
    | inr f ↦ (f, keep-none p xs (rw f at h))
  ]

  pub Any-keep :
      (p : A → Bool) (e : A) (xs : List A)
      → Any (λ x. x ≡ e) (keep p xs)
      → Any (λ x. x ≡ e) xs × (p e ≡ true)
  Any-keep p e [] h = absurd h
  Any-keep p e (x ∷ xs) h =
      let later : Any (λ y. y ≡ e) (keep p xs) → Any (λ y. y ≡ e) (x ∷ xs) × (p e ≡ true) =
        λ k. let (m, q) = Any-keep p e xs k in (inr m, q) in
      elim (Bool-cases (p x)) [ inl t ↦ go t later (rw t at h) | inr f ↦ later (rw f at h) ]
    where
      go :
          p x ≡ true
          → (Any (λ y. y ≡ e) (keep p xs) → Any (λ y. y ≡ e) (x ∷ xs) × (p e ≡ true))
          → Any (λ y. y ≡ e) (x ∷ keep p xs)
          → Any (λ y. y ≡ e) (x ∷ xs) × (p e ≡ true)
      go t later (inl q) = (inl q, ap p (sym q) ∙ t)
      go t later (inr k) = later k

  pub All-of_keep :
      (Q : A → Type 0) (p : A → Bool) (xs : List A)
      → All Q (keep p xs)
      → All (λ x. p x ≡ true → Q x) xs
  All-of_keep Q p [] h = tt
  All-of_keep Q p (x ∷ xs) h = elim (Bool-cases (p x)) [
    | inl t ↦ let k : All Q (x ∷ keep p xs) = rw t at h in (λ _. k.0, All-of_keep Q p xs k.1)
    | inr f ↦ (λ t. absurd (ground (arith, t, f)), All-of_keep Q p xs (rw f at h))
  ]

  pub All-at : (Q : A → Type 0) (e : A) (xs : List A) → All Q xs → Any (λ x. x ≡ e) xs → Q e
  All-at Q e [] a h = absurd h
  All-at Q e (x ∷ xs) a (inl q) = subst Q q a.0
  All-at Q e (x ∷ xs) a (inr h) = All-at Q e xs a.1 h

  pub All-both :
      (P Q R : A → Type 0) (xs : List A)
      → ((x : A) → P x → Q x → R x)
      → All P xs
      → All Q xs
      → All R xs
  All-both P Q R [] f p q = tt
  All-both P Q R (x ∷ xs) f p q = (f x p.0 q.0, All-both P Q R xs f p.1 q.1)
