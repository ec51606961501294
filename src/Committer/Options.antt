-- ===== src/Committer/Options.antt =====
-- The options and the constructor of orchestrator/ethereum/committer: committer.go, and NewEthCommitter
-- of eth_committer.go.
use peggo.Base.{
  ℕ, ◌-◌, Bool, true, false, Bytes, codes, List, [], ◌∷◌, length, take, ends_with, to_lower,
  trim_space, if◌then◌else◌, ◌≡◌, ap, sym, ◌∙◌, arith,
}
use peggo.Effect.{wrapped, Result, ok, err, panic}
use peggo.Types.{Address, u64}
use peggo.NonceCache.{sync, get, load, store, value}
use peggo.Committer.{Provider, EthCommitter, State}

-- The decimals of github.com/shopspring/decimal.
pub record OptionLib : Type 1 where
  pub Decimal : Type 0
  pub new_from_string : Bytes → Result Decimal
  pub new_from_big_int : ℕ → Decimal
  pub shift : Decimal → ℕ → Decimal
  pub int_part : Decimal → ℕ

pub record Options (lib : OptionLib) : Type 0 where
  pub gas_price : lib.Decimal
  pub gas_limit : ℕ
  pub rpc_timeout : ℕ

module _ (lib : OptionLib) where
  abbrev pub CommitterOption : Type 0
  CommitterOption = Options lib → Result (Options lib)

  -- 20 gwei; the text "20" is a decimal, which `twenty` is.
  unfoldable pub default_options : (twenty : lib.Decimal) → Options lib
  default_options twenty = record {
    gas_price = lib.shift twenty 9;
    gas_limit = 1000000;
    rpc_timeout = 10000000000;
  }

  unfoldable pub apply_options : Options lib → List CommitterOption → Result (Options lib)
  apply_options o [] = ok o
  apply_options o (f ∷ fs) = elim (f o) [
    | ok p ↦ apply_options p fs
    | err e ↦ err (wrapped "failed to apply option to EVMCommitter" e)
    | panic p ↦ panic p
  ]

  unfoldable pub option_gas_price_from_string : Bytes → CommitterOption
  option_gas_price_from_string str o = elim (lib.new_from_string str) [
    | ok gas_price ↦ ok (record o { gas_price = gas_price })
    | err e ↦ err (wrapped "unable to parse gas price from string to decimal" e)
    | panic p ↦ panic p
  ]

  unfoldable pub option_gas_price_from_decimal : lib.Decimal → CommitterOption
  option_gas_price_from_decimal gas_price o = ok (record o { gas_price = gas_price })

  unfoldable pub option_gas_price_from_big_int : ℕ → CommitterOption
  option_gas_price_from_big_int i o = ok (record o { gas_price = lib.new_from_big_int i })

  unfoldable pub option_gas_limit : ℕ → CommitterOption
  option_gas_limit limit o = ok (record o { gas_limit = limit })

  unfoldable pub tx_broadcast_timeout : ℕ → CommitterOption
  tx_broadcast_timeout dur o = ok (record o { rpc_timeout = dur })

  -- A text that is no number is a panic.
  abbrev pub parsed : Result lib.Decimal → Result lib.Decimal
  parsed (ok d) = ok d
  parsed (err e) = panic "unable to parse max gas price. max_gas_price should be in gwei"
  parsed (panic p) = panic p

  abbrev pub in_wei : (is_gwei : Bool) → Result lib.Decimal → Result ℕ
  in_wei is_gwei (ok d) = ok (lib.int_part (if is_gwei then lib.shift d 9 else d))
  in_wei is_gwei (err e) = err e
  in_wei is_gwei (panic p) = panic p

  abbrev pub parse_price : (text : Bytes) → Result ℕ
  parse_price text =
      if ends_with (codes "gwei") text
      then in_wei true (parsed (lib.new_from_string (trim_space (take (length text - 4) text))))
      else in_wei false (parsed (lib.new_from_string (trim_space text)))

  unfoldable pub parse_max_gas_price : Bytes → Result ℕ
  parse_max_gas_price max_gas_price_str = parse_price (to_lower (trim_space max_gas_price_str))

value-sync : (a n : ℕ) → value a (sync a (ok n) []) ≡ u64 n
unfolding sync get load store
value-sync a n = ground arith

module _ {S : Type 0} (lib : OptionLib) (twenty : lib.Decimal) (from_address : Address)
    (adjust : ℕ → ℕ) (evm_provider : Provider S) where
  abbrev pub first_sync : S → State S
  first_sync s =
      let (r, t) = evm_provider.pending_nonce_at from_address s in
      record { env = t; nonce_cache = sync from_address r [] }

  -- The options do not enter the model of SendTx, which overwrites those it uses.
  abbrev pub with_options :
      (max : ℕ) → Result (Options lib) → S → Result (EthCommitter S × Options lib) × State S
  with_options max (ok o) s = (
    ok (
      record {
        from_address = from_address;
        adjust = adjust;
        eth_max_gas_price = max;
        evm_provider = evm_provider;
      },
      o,
    ),
    first_sync s,
  )
  with_options max (err e) s = (err e, record { env = s; nonce_cache = [] })
  with_options max (panic p) s = (panic p, record { env = s; nonce_cache = [] })

  abbrev pub with_price :
      Result ℕ → List (CommitterOption lib) → S → Result (EthCommitter S × Options lib) × State S
  with_price (ok max) opts s =
      with_options max (apply_options lib (default_options lib twenty) opts) s
  with_price (err e) opts s = (err e, record { env = s; nonce_cache = [] })
  with_price (panic p) opts s = (panic p, record { env = s; nonce_cache = [] })

  -- The new committer, and the cache after its first sync; an error of the node leaves it empty.
  unfoldable pub new_eth_committer :
      (eth_max_gas_price : Bytes)
      → List (CommitterOption lib)
      → S
      → Result (EthCommitter S × Options lib) × State S
  new_eth_committer eth_max_gas_price committer_opts s =
      with_price (parse_max_gas_price lib eth_max_gas_price) committer_opts s

  options-synced :
      (max : ℕ) (r : Result (Options lib)) (s : S) (x : EthCommitter S × Options lib) (st : State S)
      → with_options max r s ≡ (ok x, st)
      → first_sync s ≡ st
  options-synced max (ok o) s x st h =
      ap (λ (y : Result (EthCommitter S × Options lib) × State S). y.1) h
  options-synced max (err e) s x st h = absurd (ground arith)
  options-synced max (panic p) s x st h = absurd (ground arith)

  price-synced :
      (r : Result ℕ) (opts : List (CommitterOption lib)) (s : S) (x : EthCommitter S × Options lib)
      (st : State S)
      → with_price r opts s ≡ (ok x, st)
      → first_sync s ≡ st
  price-synced (ok max) opts s x st h =
      options-synced max (apply_options lib (default_options lib twenty) opts) s x st h
  price-synced (err e) opts s x st h = absurd (ground arith)
  price-synced (panic p) opts s x st h = absurd (ground arith)

  -- A new committer's first nonce is the one that the node expects, when the node gave it.
  pub new_eth_committer-nonce :
      (eth_max_gas_price : Bytes) (opts : List (CommitterOption lib)) (s t : S)
      (x : EthCommitter S × Options lib) (st : State S) (n : ℕ)
      → new_eth_committer eth_max_gas_price opts s ≡ (ok x, st)
      → evm_provider.pending_nonce_at from_address s ≡ (ok n, t)
      → (value from_address st.nonce_cache ≡ u64 n) × (st.env ≡ t)
  unfolding new_eth_committer
  new_eth_committer-nonce eth_max_gas_price opts s t x st n h e =
      let synced = price-synced (parse_max_gas_price lib eth_max_gas_price) opts s x st h in
      (
        sym (ap (λ (y : State S). value from_address y.nonce_cache) synced)
            ∙ rw e (value-sync from_address n),
        sym (ap (λ (y : State S). y.env) synced) ∙ ap (λ (y : Result ℕ × S). y.1) e,
      )
