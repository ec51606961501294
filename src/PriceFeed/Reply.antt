-- ===== src/PriceFeed/Reply.antt =====
-- The replies that the price query of orchestrator/pricefeed/coingecko.go answers from.
use peggo.Base.{
  ◌≡◌, ◌∙◌, refl, ap, arith, Bytes, codes, Option, none, some, [], ◌∷◌, take, to_lower,
}
use peggo.Effect.{Result, ok, panic, M, lift, wrap, ◌>>=◌}
use peggo.Effect.Keeps.{bind_ok, lift_ok, wrap_ok}
use peggo.Types.{Address}
use peggo.Libraries.{DecimalLib, GethLib}
use peggo.PriceFeed.{
  Json, Members, null, number, object, other_value, find, HttpLib, max_resp_bytes, base_url, usd_of,
  price_of_entry, price_of, query_usd_price,
}

ok_inj : {A : Type 0} {a b : A} → ok a ≡ ok b → a ≡ b
ok_inj h = ground arith

module _ {F : Type 0} where
  -- The reply has the price for the contract.
  abbrev pub HasPrice : Bytes → F → Json F → Type 0
  HasPrice contract price f =
      (ms : Members F) × (ns : Members F) × (f ≡ object ms)
      × (find contract ms ≡ some (object ns))
      × (find (codes "usd") ns ≡ some (number price))

  usd_of-ok :
      (o : Option (Json F)) (price : F)
      → usd_of (elim o [ none ↦ null | some v ↦ v ]) ≡ ok price
      → o ≡ some (number price)
  unfolding usd_of
  usd_of-ok none price h = absurd (ground arith)
  usd_of-ok (some (number p)) price h =
      let same : p ≡ price = ok_inj h in ap (λ q. some (number q)) same
  usd_of-ok (some null) price h = absurd (ground arith)
  usd_of-ok (some (object ms)) price h = absurd (ground arith)
  usd_of-ok (some other_value) price h = absurd (ground arith)

  entry-ok :
      (o : Option (Json F)) (price : F)
      → price_of_entry (elim o [ none ↦ null | some v ↦ v ]) ≡ ok price
      → (ns : Members F) × (o ≡ some (object ns)) × (find (codes "usd") ns ≡ some (number price))
  unfolding price_of_entry
  entry-ok none price h = absurd (ground arith)
  entry-ok (some (object ns)) price h = (ns, refl, usd_of-ok (find (codes "usd") ns) price h)
  entry-ok (some null) price h = absurd (ground arith)
  entry-ok (some (number f)) price h = absurd (ground arith)
  entry-ok (some other_value) price h = absurd (ground arith)

  price_of-HasPrice :
      (contract : Bytes) (price : F) (f : Json F)
      → price_of contract f ≡ ok price
      → HasPrice contract price f
  unfolding price_of
  price_of-HasPrice contract price (object ms) h =
      let (ns, e, usd) = entry-ok (find contract ms) price h in (ms, ns, refl, e, usd)
  price_of-HasPrice contract price null h = absurd (ground arith)
  price_of-HasPrice contract price (number f) h = absurd (ground arith)
  price_of-HasPrice contract price other_value h = absurd (ground arith)

  price_of-panics :
      (contract : Bytes) (ms ns : Members F)
      → find contract ms ≡ some (object ns)
      → find (codes "usd") ns ≡ none
      → price_of contract (object ms) ≡ panic "interface conversion: interface {} is not float64"
  unfolding price_of price_of_entry usd_of
  price_of-panics contract ms ns e absent =
      let value : Option (Json F) → Json F = λ o. elim o [ none ↦ null | some v ↦ v ] in
      ap (λ o. price_of_entry (value o)) e ∙ ap (λ o. usd_of (value o)) absent

module _ {S : Type 0} (decimal : DecimalLib) (geth : GethLib) (http : HttpLib S decimal.Float)
    (config : Option Bytes) where
  abbrev pub url_of : Address → Result Bytes
  url_of a = http.request_url (base_url config) (codes "simple/token_price/ethereum") (
      (codes "contract_addresses", to_lower (geth.hex a))
      ∷ (codes "vs_currencies", codes "usd")
      ∷ [])

  -- The service's answer to the request for the contract: what the read of the response's body gives,
  -- up to the end of the query.
  abbrev pub Answers : Address → Bytes → S → S → Type 0
  Answers a body s t =
      (url : Bytes) × (read_body : M S Bytes) × (u : S) × (url_of a ≡ ok url)
      × (http.get url s ≡ (ok read_body, u))
      × (read_body u ≡ (ok body, t))

  -- A price is returned only from the service's answer to the request for the contract: this answer,
  -- cut at the largest size, is an object in which the contract's address in lower case has an entry
  -- with that price as its number `usd`.
  pub query_usd_price-HasPrice :
      (a : Address) (price : decimal.Float) (s t : S)
      → query_usd_price decimal geth http config a s ≡ (ok price, t)
      → (body : Bytes) × (f : Json decimal.Float) × Answers a body s t
        × (http.unmarshal (take max_resp_bytes body) ≡ ok f)
        × HasPrice (to_lower (geth.hex a)) price f
  unfolding query_usd_price
  query_usd_price-HasPrice a price s t h =
      let address = to_lower (geth.hex a) in
      let answer : Json decimal.Float → M S decimal.Float = λ f. lift (price_of address f) in
      let of_body : Bytes → M S decimal.Float =
        λ body. lift (http.unmarshal (take max_resp_bytes body)) >>= answer in
      let of_read : M S Bytes → M S decimal.Float =
        λ read_body. wrap "failed to read response body from %s" read_body >>= of_body in
      let fetch : Bytes → M S decimal.Float =
        λ url. wrap "failed to fetch price from %s" (http.get url) >>= of_read in
      let (url, s1, u, h1) = bind_ok (lift (url_of a)) fetch s price t h in
      let (read_body, s2, g, h2) =
        bind_ok (wrap "failed to fetch price from %s" (http.get url)) of_read s1 price t h1 in
      let (body, s3, b, h3) =
        bind_ok (wrap "failed to read response body from %s" read_body) of_body s2 price t h2 in
      let (f, s4, q, h4) =
        bind_ok (lift (http.unmarshal (take max_resp_bytes body))) answer s3 price t h3 in
      let (parsed, same) = lift_ok (http.unmarshal (take max_resp_bytes body)) s3 s4 f q in
      let (priced, end) = lift_ok (price_of address f) s4 t price h4 in
      let (named, begin) = lift_ok (url_of a) s s1 url u in
      let got = wrap_ok "failed to fetch price from %s" (http.get url) s1 s2 read_body g in
      let read = wrap_ok "failed to read response body from %s" read_body s2 s3 body b in
      (
        body,
        f,
        (
          url,
          read_body,
          s2,
          named,
          ap (http.get url) begin ∙ got,
          read ∙ ap (λ (v : S). (ok body, v)) (same ∙ end),
        ),
        parsed,
        price_of-HasPrice address price f priced,
      )

  -- When the service answers with an entry of the contract that has no price in USD, the query panics.
  query_usd_price-panics :
      (a : Address) (s t u : S) (url body : Bytes) (read_body : M S Bytes)
      (ms ns : Members decimal.Float)
      → url_of a ≡ ok url
      → http.get url s ≡ (ok read_body, t)
      → read_body t ≡ (ok body, u)
      → http.unmarshal (take max_resp_bytes body) ≡ ok (object ms)
      → find (to_lower (geth.hex a)) ms ≡ some (object ns)
      → find (codes "usd") ns ≡ none
      → query_usd_price decimal geth http config a s
        ≡ (panic "interface conversion: interface {} is not float64", u)
  unfolding query_usd_price
  query_usd_price-panics a s t u url body read_body ms ns q get reads json entry absent =
      rw (q, get, reads, json, price_of-panics (to_lower (geth.hex a)) ms ns entry absent) refl
