-- ===== src/CommandLine.antt =====
-- cmd/peggo/util.go: the readers of command line values and of the file `.env`.
pub mod Mapping
pub mod Options
pub mod Register
pub mod Startup
use peggo.Base.{
  ℕ, Bool, true, false, not, Bytes, codes, String, Option, none, some, List, [], ◌∷◌, ◌++◌, ◌==◌,
  ◌||◌, bytes_eq, is_nonempty, to_lower, trim_space, starts_with, ends_with, drop, if◌then◌else◌,
}
use peggo.Effect.{Error, Result, ok, err, panic, M}
use peggo.Types.{Address}
use peggo.Libraries.{GethLib}

-- `strings.Split(s, sep)` with a separator of one byte: the first part, and the others.
abbrev pub split_parts : (separator : ℕ) → Bytes → Bytes × List Bytes
split_parts sep [] = ([], [])
split_parts sep (c ∷ cs) =
    let (part, parts) = split_parts sep cs in
    if c == sep then ([], part ∷ parts) else (c ∷ part, parts)

abbrev pub split : (separator : ℕ) → Bytes → List Bytes
split sep s = let (part, parts) = split_parts sep s in part ∷ parts

-- `strings.Trim(s, "\\"")`.
abbrev trim_quotes_left : Bytes → Bytes
trim_quotes_left [] = []
trim_quotes_left (c ∷ cs) = let rest = trim_quotes_left cs in if c == 34 then rest else c ∷ cs

abbrev trim_quotes_right : Bytes → Bytes
trim_quotes_right [] = []
trim_quotes_right (c ∷ cs) =
    let rest = trim_quotes_right cs in
    if is_nonempty rest then c ∷ rest else if c == 34 then [] else c ∷ []

abbrev pub trim_quotes : Bytes → Bytes
trim_quotes s = trim_quotes_right (trim_quotes_left s)

-- The variable that a line of `.env` sets, if it does.
unfoldable pub env_assignment : Bytes → Option (Bytes × Bytes)
env_assignment line = of_parts (split 61 line)
  where
    of_parts : List Bytes → Option (Bytes × Bytes)
    of_parts (name ∷ value ∷ []) = some (name, trim_quotes value)
    of_parts (name ∷ value ∷ third ∷ rest) = none
    of_parts (name ∷ []) = none
    of_parts [] = none

-- The assignments of the lines of `.env`, in their order, each made by `os.Setenv`.
unfoldable pub read_env : (lines : List Bytes) → List (Bytes × Bytes)
read_env [] = []
read_env (l ∷ ls) =
    let rest = read_env ls in elim (env_assignment l) [ none ↦ rest | some a ↦ a ∷ rest ]

-- `scanned` is what fmt.Scanln reads.
unfoldable pub stdin_confirm : (scanned : Result Bytes) → Bool
stdin_confirm (ok response) =
    bytes_eq (to_lower (trim_space response)) (codes "y")
    || bytes_eq (to_lower (trim_space response)) (codes "yes")
stdin_confirm (err e) = false
stdin_confirm (panic p) = false

pub data LogLevel : Type 0 where
  error_level warn_level info_level debug_level fatal_level : LogLevel

unfoldable pub log_level : Bytes → LogLevel
log_level s =
    if bytes_eq s (codes "1") || bytes_eq s (codes "error")
    then error_level
    else if bytes_eq s (codes "2") || bytes_eq s (codes "warn")
    then warn_level
    else if bytes_eq s (codes "3") || bytes_eq s (codes "info")
    then info_level
    else if bytes_eq s (codes "4") || bytes_eq s (codes "debug")
    then debug_level
    else fatal_level

unfoldable pub to_bool : Bytes → Bool
to_bool s =
    bytes_eq (to_lower s) (codes "true")
    || (bytes_eq (to_lower s) (codes "1")
        || (bytes_eq (to_lower s) (codes "t") || bytes_eq (to_lower s) (codes "yes")))

-- `parse_duration` is time.ParseDuration.
unfoldable pub duration : (parse_duration : Bytes → Result ℕ) → Bytes → (defaults : ℕ) → Result ℕ
duration parse_duration s defaults = elim (parse_duration s) [
  | ok dur ↦ ok dur
  | err e ↦ ok defaults
  | panic p ↦ panic p
]

unfoldable pub check_statsd_prefix : Bytes → Bytes
check_statsd_prefix s = if not (ends_with (codes ".") s) then s ++ codes "." else s

-- `decode_string` is hex.DecodeString.
unfoldable pub hex_to_bytes : (decode_string : Bytes → Result Bytes) → Bytes → Result Bytes
hex_to_bytes decode_string str =
    decode_string (if starts_with (codes "0x") str then drop 2 str else str)

-- The Go map from addresses to denoms: the newest entry of an address is first.
abbrev pub denom_of : Address → List (Address × Bytes) → Option Bytes
denom_of a [] = none
denom_of a ((b, denom) ∷ m) = let rest = denom_of a m in if a == b then some denom else rest

-- A pair address:denom; the process ends on any other text.
unfoldable pub parse_item : GethLib → Bytes → Result (Address × Bytes)
parse_item geth item = of_parts (split 58 item)
  where
    of_parts : List Bytes → Result (Address × Bytes)
    of_parts (address ∷ denom ∷ []) =
        if not (is_nonempty address) || (geth.hex_to_address address == 0)
        then panic "failed to parse ERC20 mapping"
        else ok (geth.hex_to_address address, denom)
    of_parts (address ∷ denom ∷ third ∷ rest) = panic "failed to parse ERC20 mapping"
    of_parts (address ∷ []) = panic "failed to parse ERC20 mapping"
    of_parts [] = panic "index out of range [0]"

unfoldable pub parse_from :
    GethLib → List (Address × Bytes) → (items : List Bytes) → Result (List (Address × Bytes))
parse_from geth res [] = ok res
parse_from geth res (item ∷ items) = elim (parse_item geth item) [
  | ok pair ↦ parse_from geth (pair ∷ res) items
  | err e ↦ err e
  | panic p ↦ panic p
]

unfoldable pub parse_erc20_contract_mapping :
    GethLib → (items : List Bytes) → Result (List (Address × Bytes))
parse_erc20_contract_mapping geth items = parse_from geth [] items
