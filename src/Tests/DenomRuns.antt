-- ===== src/Tests/DenomRuns.antt =====
-- Denoms of one token.
use peggo.Base.{◌≡◌, refl, true, Bytes, codes, bytes_eq, ◌∷◌, ◌++◌}
use peggo.Libraries.{GethLib}
use peggo.Denom.{
  slash, hex_digits, is_hex_digit, hex_rx, validate_eth_address, split, Coin, validate_peggy_coin,
  Erc20Token,
}
use peggo.Denom.Coins.{validate_peggy_coin-form}
use peggo.Tests.Fixtures.{geth}

abbrev contract : Bytes
contract = codes "0xe28b3B32B6c345A34Ff64674606124Dd5Aceca30"

-- Every address is written as that of one token, number 1.
abbrev one_token : GethLib
one_token = record geth { hex = λ a. contract; hex_to_address = λ b. 1 }

abbrev token : Erc20Token
token = record { amount = 250; contract = 1 }

abbrev coin : Coin
coin = record { denom = codes "inj" ++ slash ∷ contract; amount = 250 }

validate_peggy_coin-form_example :
    (coin.denom ≡ codes "inj" ++ slash ∷ contract) × (hex_rx contract ≡ true)
unfolding validate_peggy_coin split validate_eth_address hex_rx hex_digits is_hex_digit bytes_eq
validate_peggy_coin-form_example = validate_peggy_coin-form coin contract refl
