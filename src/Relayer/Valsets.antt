-- ===== src/Relayer/Valsets.antt =====
-- Validator sets in orchestrator/relayer.go: their order, the comparison of the two chains' sets, and
-- the set that an event of the Peggy contract describes.
use peggo.Base.{
  ℕ, Bool, Bytes, Option, none, some, List, [], ◌∷◌, ◌++◌, map, length, bytes_eq, bytes_lt, ltb,
  leb, ◌==◌, not, if◌then◌else◌,
}
use peggo.Effect.{Result, ok, err, panic}
use peggo.Types.{Address, BridgeValidator, Valset, ValsetUpdatedEvent, u64}
use peggo.Libraries.{GethLib}

-- `EthAddrLessThan` of orchestrator/ethereum/util/peggy.go.
unfoldable pub eth_addr_less_than : Bytes → Bytes → Bool
eth_addr_less_than e o = bytes_lt e o

-- The order of `BridgeValidators.Sort`: by falling power, then by address.
unfoldable pub comes_before : BridgeValidator → BridgeValidator → Bool
unfolding eth_addr_less_than
comes_before a b =
    if a.power == b.power
    then eth_addr_less_than a.ethereum_address b.ethereum_address
    else ltb b.power a.power

unfoldable pub insert_validator : BridgeValidator → List BridgeValidator → List BridgeValidator
unfolding comes_before
insert_validator a [] = a ∷ []
insert_validator a (x ∷ xs) = if comes_before x a then x ∷ insert_validator a xs else a ∷ x ∷ xs

-- `sort.Slice` leaves the order of equal validators open; they cannot be told apart.
unfoldable pub sort_validators : List BridgeValidator → List BridgeValidator
unfolding insert_validator
sort_validators [] = []
sort_validators (a ∷ xs) = insert_validator a (sort_validators xs)

-- The keys of the map `m` of `HasDuplicates`.
unfoldable pub insert_address : Bytes → List Bytes → List Bytes
insert_address a [] = a ∷ []
insert_address a (x ∷ xs) = if bytes_eq x a then x ∷ xs else x ∷ insert_address a xs

unfoldable pub address_set : List BridgeValidator → List Bytes → List Bytes
unfolding insert_address
address_set [] m = m
address_set (v ∷ vs) m = address_set vs (insert_address v.ethereum_address m)

unfoldable pub has_duplicates : List BridgeValidator → Bool
unfolding address_set
has_duplicates b = not (length (address_set b []) == length b)

unfoldable pub get_powers : List BridgeValidator → List ℕ
get_powers b = map (λ v. v.power) b

-- What `checkIfValsetsDiffer` logs as an error.
pub data Warning : Type 0 where
  missing_on_cosmos wrong_nonce different_length different_member : Warning

-- The members are compared one by one, each field on its own; the lists have one length.
unfoldable pub member_warnings : List BridgeValidator → List BridgeValidator → List Warning
member_warnings [] ys = []
member_warnings (x ∷ xs) [] = []
member_warnings (x ∷ xs) (y ∷ ys) =
    (if bytes_eq y.ethereum_address x.ethereum_address then [] else different_member ∷ [])
    ++ ((if y.power == x.power then [] else different_member ∷ []) ++ member_warnings xs ys)

-- The warnings, and the Ethereum validator set as the call leaves it: `Sort` works in place.
unfoldable pub check_if_valsets_differ : Option Valset → Valset → List Warning × Valset
unfolding sort_validators member_warnings
check_if_valsets_differ none eth =
    if eth.nonce == 0 then ([], eth) else (missing_on_cosmos ∷ [], eth)
check_if_valsets_differ (some cosmos) eth =
    if not (cosmos.nonce == eth.nonce)
    then (wrong_nonce ∷ [], eth)
    else if not (length cosmos.members == length eth.members)
    then (different_length ∷ [], eth)
    else (
      member_warnings (sort_validators cosmos.members) (sort_validators eth.members),
      record eth { members = sort_validators eth.members },
    )

-- `for idx, p := range event.Powers`: an index past the validators is a panic.
unfoldable pub event_members : GethLib → List Address → List ℕ → Result (List BridgeValidator)
event_members geth vs [] = ok []
event_members geth [] (p ∷ ps) = panic "index out of range"
event_members geth (v ∷ vs) (p ∷ ps) = elim (event_members geth vs ps) [
  | ok ms ↦ ok (record { power = u64 p; ethereum_address = geth.hex v } ∷ ms)
  | err e ↦ err e
  | panic t ↦ panic t
]

-- The validator set of an event, checked against the set that Injective has for its nonce.
unfoldable pub event_valset : GethLib → Option Valset → ValsetUpdatedEvent → Result Valset
unfolding event_members check_if_valsets_differ
event_valset geth cosmos event = elim (event_members geth event.validators event.powers) [
  | ok ms ↦
      ok
        (check_if_valsets_differ cosmos (record {
          nonce = u64 event.new_valset_nonce;
          members = ms;
          height = 0;
          reward_amount = event.reward_amount;
          reward_token = geth.hex event.reward_token;
        })).1
  | err e ↦ err e
  | panic t ↦ panic t
]

-- `sort.Sort(sort.Reverse(PeggyValsetUpdatedEvents(…)))`: the highest nonce first.
unfoldable pub insert_update :
    ValsetUpdatedEvent → List ValsetUpdatedEvent → List ValsetUpdatedEvent
insert_update e [] = e ∷ []
insert_update e (x ∷ xs) =
    if leb x.new_valset_nonce e.new_valset_nonce then e ∷ x ∷ xs else x ∷ insert_update e xs

unfoldable pub sort_updates : List ValsetUpdatedEvent → List ValsetUpdatedEvent
unfolding insert_update
sort_updates [] = []
sort_updates (e ∷ es) = insert_update e (sort_updates es)
