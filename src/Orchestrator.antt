-- ===== src/Orchestrator.antt =====
-- The struct Orchestrator of orchestrator/orchestrator.go, with what it takes from libraries.
pub mod Recorded
pub mod Start
use peggo.Base.{ℕ, Bool, Bytes, String, Option, none, some}
use peggo.Effect.{M, pure, panic}
use peggo.Effect.Retry.{Retry}
use peggo.Types.{Address}
use peggo.Libraries.{DecimalLib, GethLib}
use peggo.Network.{Injective, Ethereum}

pub record Config (F : Type 0) : Type 0 where
  pub cosmos_addr : Bytes
  pub ethereum_addr : Address
  pub min_batch_fee_usd : F
  pub erc20_contract_mapping : Address → Option Bytes
  pub relay_valset_offset_dur : ℕ
  pub relay_batch_offset_dur : ℕ
  pub relay_valsets : Bool
  pub relay_batches : Bool
  pub relayer_mode : Bool

-- `query_usd_price` is the interface PriceFeed; `now` is time.Now(), in nanoseconds.
pub record Orchestrator (S : Type 0) : Type 1 where
  pub retry_lib : Retry
  pub decimal : DecimalLib
  pub address : GethLib
  pub now : M S ℕ
  pub cfg : Config decimal.Float
  pub max_attempts : ℕ
  pub injective : Injective S
  pub ethereum : Ethereum S
  pub query_usd_price : Address → M S decimal.Float

abbrev pub retry : {S A : Type 0} → Orchestrator S → M S A → M S A
retry {S} {A} s fn = s.retry_lib.run S A s.max_attempts fn

-- A read through a pointer that may be nil.
abbrev pub deref : {S A : Type 0} → String → Option A → M S A
deref text none s = (panic text, s)
deref text (some a) s = pure a s
