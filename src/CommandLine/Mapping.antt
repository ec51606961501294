-- ===== src/CommandLine/Mapping.antt =====
-- The texts that the readers of cmd/peggo/util.go take apart.
use peggo.Base.{
  ℕ, ◌≡◌, refl, arith, inl, inr, Bool, Bool-cases, true, false, Bytes, codes, none, some, List, [],
  ◌∷◌, ◌++◌, map, ◌==◌, ◌||◌, All, bytes_eq, bytes_eq_refl, is_nonempty, ends_with,
}
use peggo.Effect.{ok}
use peggo.Types.{Address}
use peggo.Libraries.{GethLib}
use peggo.CommandLine.{
  split, split_parts, trim_quotes, env_assignment, check_statsd_prefix, parse_item, parse_from,
  parse_erc20_contract_mapping,
}

-- The text has no such byte.
abbrev pub Without : ℕ → Bytes → Type 0
Without sep = All (λ c. (c == sep) ≡ false)

split_parts-join :
    (sep : ℕ) (xs ys : Bytes)
    → Without sep xs
    → split_parts sep (xs ++ sep ∷ ys) ≡ (xs, split sep ys)
split_parts-join sep [] ys h = let same : (sep == sep) ≡ true = ground arith in rw same refl
split_parts-join sep (x ∷ xs) ys h = rw (h.0, split_parts-join sep xs ys h.1) refl

split_parts-whole : (sep : ℕ) (xs : Bytes) → Without sep xs → split_parts sep xs ≡ (xs, [])
split_parts-whole sep [] h = refl
split_parts-whole sep (x ∷ xs) h = rw (h.0, split_parts-whole sep xs h.1) refl

-- A line NAME=VALUE of `.env` sets the variable to the value without its quotes, when neither part
-- has a sign `=`; and a line whose value has one sets nothing.
pub env_assignment-line :
    (name value more : Bytes)
    → Without 61 name
    → Without 61 value
    → (env_assignment (name ++ 61 ∷ value) ≡ some (name, trim_quotes value))
      × (env_assignment (name ++ 61 ∷ (value ++ 61 ∷ more)) ≡ none)
unfolding env_assignment
env_assignment-line name value more hn hv = (
  rw (split_parts-join 61 name value hn, split_parts-whole 61 value hv) refl,
  rw (split_parts-join 61 name (value ++ 61 ∷ more) hn, split_parts-join 61 value more hv) refl,
)

or_true : (b : Bool) → (b || true) ≡ true
or_true true = refl
or_true false = refl

ends_with-append : (p s : Bytes) → ends_with p (s ++ p) ≡ true
unfolding ends_with bytes_eq
ends_with-append [] [] = refl
ends_with-append (b ∷ p) [] = rw (bytes_eq_refl (b ∷ p)) refl
ends_with-append p (c ∷ s) = rw (ends_with-append p s) (or_true (bytes_eq p (c ∷ (s ++ p))))

-- The prefix that is used ends in a point, and checking it once more changes nothing.
pub check_statsd_prefix-again :
    (s : Bytes)
    → (ends_with (codes ".") (check_statsd_prefix s) ≡ true)
      × (check_statsd_prefix (check_statsd_prefix s) ≡ check_statsd_prefix s)
unfolding check_statsd_prefix
check_statsd_prefix-again s = elim (Bool-cases (ends_with (codes ".") s)) [
  | inl t ↦ rw (t, t) (refl, refl)
  | inr f ↦ let ends = ends_with-append (codes ".") s in rw (f, ends) (refl, refl)
]

-- The command line's text for a token and its denom.
abbrev pub item : GethLib → Address × Bytes → Bytes
item geth (a, denom) = geth.hex a ++ 58 ∷ denom

-- An address that its text gives back, and a denom with no colon.
abbrev pub Printable : GethLib → Address × Bytes → Type 0
Printable geth (a, denom) =
    (geth.hex_to_address (geth.hex a) ≡ a)
    × ((a == 0) ≡ false)
    × (is_nonempty (geth.hex a) ≡ true)
    × Without 58 (geth.hex a)
    × Without 58 denom

abbrev pub onto : {A : Type 0} → List A → List A → List A
onto [] ys = ys
onto (x ∷ xs) ys = onto xs (x ∷ ys)

parse_item-item :
    (geth : GethLib) (pair : Address × Bytes)
    → Printable geth pair
    → parse_item geth (item geth pair) ≡ ok pair
unfolding parse_item
parse_item-item geth (a, denom) (back, nonzero, nonempty, h, d) =
    rw
      (
        split_parts-join 58 (geth.hex a) denom h,
        split_parts-whole 58 denom d,
        nonempty,
        back,
        nonzero,
      )
      refl

parse_from-items :
    (geth : GethLib) (pairs res : List (Address × Bytes))
    → All (Printable geth) pairs
    → parse_from geth res (map (item geth) pairs) ≡ ok (onto pairs res)
unfolding parse_from
parse_from-items geth [] res h = refl
parse_from-items geth (p ∷ ps) res h =
    rw (parse_item-item geth p h.0, parse_from) (parse_from-items geth ps (p ∷ res) h.1)

-- The texts of some pairs of a token and a denom are read back as these pairs, the newest first, when
-- each address is not zero and is what its own text reads as, and no denom has a colon.
pub parse_erc20_contract_mapping-items :
    (geth : GethLib) (pairs : List (Address × Bytes))
    → All (Printable geth) pairs
    → parse_erc20_contract_mapping geth (map (item geth) pairs) ≡ ok (onto pairs [])
unfolding parse_erc20_contract_mapping
parse_erc20_contract_mapping-items geth pairs h = parse_from-items geth pairs [] h
