-- ===== src/Denom/Coins.antt =====
-- Which denoms are those of ERC20 tokens, and the round trip between tokens and coins.
use peggo.Base.{
  ℕ, ◌≡◌, refl, sym, ap, ◌∙◌, true, Bytes, codes, List, [], ◌∷◌, ◌++◌, bytes_eq, bytes_eq_iff, ◌==◌,
  arith, Bool-cases, inl, inr,
}
use peggo.Effect.{ok}
use peggo.Denom.{
  slash, hex_rx, validate_eth_address, split, cons_head, check_split, Coin, validate_peggy_coin,
}

-- The split gives back the text, with separators between the parts.
abbrev join : List Bytes → Bytes
join [] = []
join (part ∷ []) = part
join (part ∷ q ∷ parts) = part ++ slash ∷ join (q ∷ parts)

join-cons_head : (b : ℕ) (parts : List Bytes) → join (cons_head b parts) ≡ b ∷ join parts
join-cons_head b [] = refl
join-cons_head b (part ∷ []) = refl
join-cons_head b (part ∷ q ∷ parts) = refl

cons_head-some :
    (b : ℕ) (parts : List Bytes) → (q : Bytes) × (qs : List Bytes) × (cons_head b parts ≡ q ∷ qs)
cons_head-some b [] = (_, _, refl)
cons_head-some b (part ∷ parts) = (_, _, refl)

split-some : (bs : Bytes) → (q : Bytes) × (qs : List Bytes) × (split bs ≡ q ∷ qs)
unfolding split
split-some [] = (_, _, refl)
split-some (b ∷ bs) = elim (Bool-cases (b == slash)) [
  | inl t ↦ ([], split bs, rw t refl)
  | inr f ↦ rw f (cons_head-some b (split bs))
]

join-split : (bs : Bytes) → join (split bs) ≡ bs
unfolding split
join-split [] = refl
join-split (b ∷ bs) = elim (Bool-cases (b == slash)) [
  | inl t ↦
      let (q, qs, e) = split-some bs in
      let b-slash : b ≡ slash = ground arith in
      let tail : join (q ∷ qs) ≡ bs = ap join (sym e) ∙ join-split bs in
      rw (t, e, b-slash) (ap (λ x. slash ∷ x) tail)
  | inr f ↦ rw f (join-cons_head b (split bs) ∙ ap (λ x. b ∷ x) (join-split bs))
]

-- A valid coin of an ERC20 token has the denom `inj/` with the contract, which has the form of an
-- address: 0x and forty hexadecimal digits.
pub validate_peggy_coin-form :
    (v : Coin) (contract : Bytes)
    → validate_peggy_coin v ≡ ok contract
    → (v.denom ≡ codes "inj" ++ slash ∷ contract) × (hex_rx contract ≡ true)
unfolding validate_peggy_coin validate_eth_address
validate_peggy_coin-form v contract h = go (split v.denom) refl h
  where
    go :
        (parts : List Bytes)
        → split v.denom ≡ parts
        → check_split v.denom parts ≡ ok contract
        → (v.denom ≡ codes "inj" ++ slash ∷ contract) × (hex_rx contract ≡ true)
    go [] e k = absurd (ground arith)
    go (prefix ∷ []) e k = absurd (ground arith)
    go (prefix ∷ c ∷ m ∷ more) e k = absurd (ground arith)
    go (prefix ∷ c ∷ []) e k = elim (Bool-cases (bytes_eq prefix (codes "inj"))) [
      | inr f ↦ absurd (ground (arith, k, f))
      | inl t ↦ elim (Bool-cases (hex_rx c)) [
        | inr f ↦ absurd (ground (arith, k, f, t))
        | inl y ↦
            let same : c ≡ contract = ground (arith, k, t, y) in
            (
              sym (join-split v.denom)
                  ∙ ap join e
                  ∙ ap (λ x. x ++ slash ∷ c) ((bytes_eq_iff prefix (codes "inj")).0 t)
                  ∙ ap (λ x. codes "inj" ++ slash ∷ x) same,
              ap hex_rx (sym same) ∙ y,
            )
      ]
    ]
