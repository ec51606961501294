-- ===== src/Orchestrator/Recorded.antt =====
-- An orchestrator whose networks are recorded, and the rules for its retries.
use peggo.Base.{◌≡◌, ◌∙◌, ap, String, Option, none, some, arith}
use peggo.Effect.{Result, ok, M, ◌>>=◌}
use peggo.Effect.Keeps.{Keeps}
use peggo.Effect.Retry.{Attempts-keeps, Attempts-ok}
use peggo.Network.Recorder.{World, silent, record_injective, record_ethereum}
use peggo.Orchestrator.{Orchestrator, retry, deref}

abbrev pub recorded : {S : Type 0} → Orchestrator S → Orchestrator (World S)
recorded o = record {
  retry_lib = o.retry_lib;
  decimal = o.decimal;
  address = o.address;
  now = silent o.now;
  cfg = o.cfg;
  max_attempts = o.max_attempts;
  injective = record_injective o.injective;
  ethereum = record_ethereum o.ethereum;
  query_usd_price = λ a. silent (o.query_usd_price a);
}

module _ {S A : Type 0} (o : Orchestrator S) (P : S → Type 0) (fn : M S A) where
  pub Keeps-retry : Keeps P fn → Keeps P (retry o fn)
  Keeps-retry k s h = Attempts-keeps P fn k (o.retry_lib.law S A o.max_attempts fn s) h

  pub retry_ok :
      Keeps P fn
      → (s t : S) (a : A) → retry o fn s ≡ (ok a, t)
      → P s
      → (u : S) × P u × (fn u ≡ (ok a, t))
  retry_ok k s t a e h =
      let (u, p, q) =
        Attempts-ok P fn k a (o.retry_lib.law S A o.max_attempts fn s)
          (ap (λ (x : Result A × S). x.0) e) h in
      (u, p, q ∙ λ i. (ok a, (e i).1))

module _ {S A B : Type 0} where
  pub Keeps-deref :
      (P : S → Type 0) (text : String) (x : Option A) (f : A → M S B)
      → ((a : A) → Keeps P (f a))
      → Keeps P (deref text x >>= f)
  Keeps-deref P text none f k s h = h
  Keeps-deref P text (some a) f k s h = k a s h

module _ {S A : Type 0} where
  pub deref_ok :
      (text : String) (x : Option A) (s t : S) (a : A)
      → deref text x s ≡ (ok a, t)
      → (x ≡ some a) × (t ≡ s)
  deref_ok text none s t a h = absurd (ground arith)
  deref_ok text (some b) s t a h = (ground arith, ground arith)
