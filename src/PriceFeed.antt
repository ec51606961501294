-- ===== src/PriceFeed.antt =====
-- orchestrator/pricefeed/coingecko.go: the price of a token in USD, from an HTTP service.
pub mod Reply
use peggo.Base.{
  ℕ, ◌*◌, Bool, true, false, Bytes, codes, String, Option, none, some, List, [], ◌∷◌, take,
  bytes_eq, to_lower, is_nonempty, if◌then◌else◌,
}
use peggo.Effect.{Error, raised, Result, ok, err, panic, M, pure, raise, lift, wrap, ◌>>=◌, ◌>>◌}
use peggo.Types.{Address}
use peggo.Libraries.{DecimalLib, GethLib}

-- What json.Unmarshal makes of a text, for the two kinds of values that are looked at.
mutual
  pub data Json (Float : Type 0) : Type 0 where
    null : Json Float
    number : Float → Json Float
    object : Members Float → Json Float
    other_value : Json Float

  pub data Members (Float : Type 0) : Type 0 where
    no_members : Members Float
    member : Bytes → Json Float → Members Float → Members Float

-- The value of a name; of two members with one name, the later one is in the map.
abbrev pub find : {F : Type 0} → Bytes → Members F → Option (Json F)
find k no_members = none
find k (member j v ms) =
    let later = find k ms in
    elim later [ some w ↦ some w | none ↦ if bytes_eq k j then some v else none ]

-- A read of a `map[string]interface{}`: nil for a missing name.
abbrev pub lookup : {F : Type 0} → Bytes → Members F → Json F
lookup k ms = elim (find k ms) [ none ↦ null | some v ↦ v ]

-- The HTTP client and net/url. `request_url` joins the base URL, the path and the query; a URL that
-- does not parse is a panic or ends the process. A response is the read of its body.
pub record HttpLib (S F : Type 0) : Type 0 where
  pub request_url :
      (base_url : Bytes) → (path : Bytes) → (query : List (Bytes × Bytes)) → Result Bytes
  pub get : (url : Bytes) → M S (M S Bytes)
  pub unmarshal : Bytes → Result (Json F)

abbrev pub max_resp_bytes : ℕ
max_resp_bytes = 10 * 1024 * 1024

-- `checkCoingeckoConfig`: the base URL of a configuration that may be nil.
unfoldable pub base_url : Option Bytes → Bytes
base_url none = codes "https://api.coingecko.com/api/v3"
base_url (some []) = codes "https://api.coingecko.com/api/v3"
base_url (some (b ∷ bs)) = b ∷ bs

-- The price in the entry of the contract. A price that is missing or no number is a panic, by the
-- cast `n["usd"].(float64)`.
unfoldable pub usd_of : {F : Type 0} → Json F → Result F
usd_of (number price) = ok price
usd_of null = panic "interface conversion: interface {} is not float64"
usd_of (object ms) = panic "interface conversion: interface {} is not float64"
usd_of other_value = panic "interface conversion: interface {} is not float64"

unfoldable pub price_of_entry : {F : Type 0} → Json F → Result F
price_of_entry null = err (raised "failed to get contract address")
price_of_entry (object ms) = usd_of (lookup (codes "usd") ms)
price_of_entry (number f) = err (raised "failed to cast value type: map[string]interface{}")
price_of_entry other_value = err (raised "failed to cast value type: map[string]interface{}")

-- The price in a reply, for the contract in lower case.
unfoldable pub price_of : {F : Type 0} → (contract : Bytes) → Json F → Result F
price_of contract (object ms) = price_of_entry (lookup contract ms)
price_of contract null = err (raised "failed to cast response type: map[string]interface{}")
price_of contract (number f) = err (raised "failed to cast response type: map[string]interface{}")
price_of contract other_value = err (raised "failed to cast response type: map[string]interface{}")

module _ {S : Type 0} (decimal : DecimalLib) (geth : GethLib) (http : HttpLib S decimal.Float)
    (config : Option Bytes) where
  unfoldable pub query_usd_price : Address → M S decimal.Float
  query_usd_price erc20_contract = do
    url ← lift (
        http.request_url (base_url config) (codes "simple/token_price/ethereum") (
          (codes "contract_addresses", to_lower (geth.hex erc20_contract))
          ∷ (codes "vs_currencies", codes "usd")
          ∷ []))
    read_body ← wrap "failed to fetch price from %s" (http.get url)
    resp_body ← wrap "failed to read response body from %s" read_body
    f ← lift (http.unmarshal (take max_resp_bytes resp_body))
    lift (price_of (to_lower (geth.hex erc20_contract)) f)

  -- Whether the fee, in units of 10 ^ -18 of the token, is worth more than the minimum.
  abbrev exceeds : (total_fee : ℕ) → (min_fee_in_usd price : decimal.Float) → Bool
  exceeds total_fee min_fee_in_usd price =
      decimal.less_than (decimal.new_from_float min_fee_in_usd)
        (decimal.mul (decimal.new_from_big_int total_fee 18) (decimal.new_from_float price))

  -- An error of the query counts as a fee below the minimum.
  abbrev threshold : ℕ → decimal.Float → Result decimal.Float → Result Bool
  threshold total_fee min_fee_in_usd (ok price) = ok (exceeds total_fee min_fee_in_usd price)
  threshold total_fee min_fee_in_usd (err e) = ok false
  threshold total_fee min_fee_in_usd (panic p) = panic p

  unfoldable pub check_fee_threshold :
      Address → (total_fee : ℕ) → (min_fee_in_usd : decimal.Float) → M S Bool
  check_fee_threshold erc20_contract total_fee min_fee_in_usd s = (
    threshold total_fee min_fee_in_usd (query_usd_price erc20_contract s).0,
    (query_usd_price erc20_contract s).1,
  )
