-- ===== src/Libraries.antt =====
-- What orchestrator/ takes from libraries outside the repository, as parameters.
use peggo.Base.{ℕ, Bool, Bytes}
use peggo.Types.{Address, Hash}

-- Floating-point numbers, and the decimals of github.com/shopspring/decimal.
pub record DecimalLib : Type 1 where
  pub Float : Type 0  -- float64
  pub Float32 : Type 0
  pub Decimal : Type 0
  pub is_zero : Float → Bool  -- f == 0
  pub new_from_float : Float → Decimal
  pub new_from_big_int : ℕ → ℕ → Decimal  -- NewFromBigInt(a, -b)
  pub new_from_int : ℕ → Decimal
  pub mul : Decimal → Decimal → Decimal
  pub div : Decimal → Decimal → Decimal
  pub shift : Decimal → ℕ → Decimal
  pub less_than : Decimal → Decimal → Bool
  pub float32 : Decimal → Float32  -- float32(f) for f, _ := d.Float64()
  pub below : Float32 → ℕ → Bool  -- f < n

-- github.com/ethereum/go-ethereum/common, and the denoms of sdk-go.
pub record GethLib : Type 0 where
  pub hex : Address → Bytes
  pub hex_to_address : Bytes → Address
  pub from_hex : Bytes → Bytes
  pub bytes_to_hash : Bytes → Hash
  pub peggy_denom_string : Address → Bytes
