-- ===== src/Denom.antt =====
-- Denoms of ERC20 tokens on Injective, orchestrator/ethereum/util/peggy.go.
pub mod Coins
use peggo.Base.{
  ℕ, zero, suc, ◌+◌, Bool, true, false, Bytes, String, codes, Option, List, [], ◌∷◌, ◌++◌, bytes_eq,
  length, leb, ltb, ◌==◌, not, ◌&&◌, ◌||◌, if◌then◌else◌,
}
use peggo.Effect.{Error, raised, wrapped, Result, ok, err, panic}
use peggo.Types.{Address}
use peggo.Libraries.{GethLib}

abbrev pub slash : ℕ
slash = 47

abbrev pub eth_contract_address_len : ℕ
eth_contract_address_len = 42

abbrev pub peggy_denom_len : ℕ
peggy_denom_len = 3 + 1 + eth_contract_address_len

-- One of `0-9a-fA-F`.
unfoldable pub is_hex_digit : ℕ → Bool
is_hex_digit b = (leb 48 b && leb b 57) || ((leb 97 b && leb b 102) || (leb 65 b && leb b 70))

unfoldable pub hex_digits : ℕ → Bytes → Bool
unfolding is_hex_digit
hex_digits zero [] = true
hex_digits zero (b ∷ bs) = false
hex_digits (suc n) [] = false
hex_digits (suc n) (b ∷ bs) = is_hex_digit b && hex_digits n bs

-- A match of `^0x[0-9a-fA-F]{40}$`.
unfoldable pub hex_rx : Bytes → Bool
unfolding hex_digits
hex_rx [] = false
hex_rx (a ∷ []) = false
hex_rx (a ∷ b ∷ bs) = (a == 48) && ((b == 120) && hex_digits 40 bs)

unfoldable pub validate_eth_address : Bytes → Result (Unit {0})
unfolding hex_rx
validate_eth_address a =
    if length a == 0
    then err (raised "empty address provided")
    else if not (hex_rx a)
    then err (raised "address(%s) doesn't match Hex-encoding regex")
    else if not (length a == eth_contract_address_len)
    then err (raised "address(%s) of the wrong length exp(%d) actual(%d)")
    else ok tt

abbrev pub cons_head : ℕ → List Bytes → List Bytes
cons_head b [] = (b ∷ []) ∷ []
cons_head b (part ∷ parts) = (b ∷ part) ∷ parts

-- `strings.Split(s, "/")`.
unfoldable pub split : Bytes → List Bytes
split [] = [] ∷ []
split (b ∷ bs) = let parts = split bs in if b == slash then [] ∷ parts else cons_head b parts

-- The cases of the `switch`, by the prefix and the parts behind it.
abbrev pub check_parts : Bytes → (prefix contract : Bytes) → (more : List Bytes) → Result Bytes
check_parts denom prefix contract (m ∷ more) =
    err (raised "denom(%s) not valid, more seperators(%s) than expected")
check_parts denom prefix contract [] =
    if not (bytes_eq prefix (codes "inj"))
    then err (raised "denom prefix(%s) not equal to expected(%s)")
    else elim (validate_eth_address contract) [
      | err e ↦ err (raised "error(%s) validating ethereum contract address")
      | panic p ↦ panic p
      | ok u ↦
          if not (length denom == peggy_denom_len)
          then err (raised "len(denom)(%d) not equal to PeggyDenomLen(%d)")
          else ok contract
    ]

abbrev pub check_split : Bytes → List Bytes → Result Bytes
check_split denom (prefix ∷ contract ∷ more) = check_parts denom prefix contract more
check_split denom _ = err (raised "denom(%s) not valid, fewer seperators(%s) than expected")

pub record Coin : Type 0 where
  pub denom : Bytes
  pub amount : ℕ

unfoldable pub validate_peggy_coin : Coin → Result Bytes
unfolding split validate_eth_address
validate_peggy_coin v = check_split v.denom (split v.denom)

pub record Erc20Token : Type 0 where
  pub amount : ℕ
  pub contract : Address

unfoldable pub peggy_coin : GethLib → Erc20Token → Coin
peggy_coin geth e = record { denom = codes "inj" ++ slash ∷ geth.hex e.contract; amount = e.amount }

unfoldable pub erc20_from_peggy_coin : GethLib → Coin → Result Erc20Token
unfolding validate_peggy_coin
erc20_from_peggy_coin geth v = elim (validate_peggy_coin v) [
  | ok contract ↦ ok (record { amount = v.amount; contract = geth.hex_to_address contract })
  | err e ↦ err (wrapped "%s isn't a valid peggy coin: %s" e)
  | panic p ↦ panic p
]

-- `Add`: tokens of two contracts do not add up.
unfoldable pub add : Erc20Token → Erc20Token → Result Erc20Token
add e o =
    if not (e.contract == o.contract)
    then panic "invalid contract address"
    else ok (record { amount = e.amount + o.amount; contract = e.contract })
