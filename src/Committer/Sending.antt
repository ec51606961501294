-- ===== src/Committer/Sending.antt =====
-- The sending loop of the committer: when it ends, and what a sent transaction and the nonce cache
-- look like then.
use peggo.Base.{
  ℕ, zero, suc, ◌+◌, ◌≤◌, Bool, true, false, Bytes, none, some, ◌≡◌, ◌≢◌, ◌∙◌, sym, ap, refl, arith,
  Bool-cases, inl, inr, ltb,
}
use peggo.Effect.{error_text, Error, raised, Result, ok, err, panic}
use peggo.Types.{Address, Hash, u64}
use peggo.NonceCache.{Nonces, load, get, incr, load-get, load-incr, get-load}
use peggo.Committer.{
  Transaction, EthCommitter, State, Refusal, invalid_sender, wrong_nonce, known_transaction,
  vm_exception, other, classify, tx_nonce, Outcome, resync_nonces, after_refusal, after_send,
  send_signed, send_loop, send_serialized, send_with_limit, send_priced, send_tx,
}

module _ {S : Type 0} (e : EthCommitter S) where
  -- The node never answers that it knows a transaction already.
  abbrev pub NeverKnown : Type 0
  NeverKnown =
      (tx : Transaction) (signed : Bytes) (s t : S) (x : Error)
      → e.evm_provider.send_transaction_with_ret tx signed s ≡ (err x, t)
      → classify (error_text x) ≢ known_transaction

  -- The node took a transaction of this account, at no more than the maximal gas price, and the cache
  -- holds the nonce after the one that the transaction was sent under.
  abbrev pub Accepted : Hash → State S → Type 0
  Accepted h t =
      (tx : Transaction) × (n : ℕ) × (signed : Bytes) × (s : S) × (tx.nonce ≡ tx_nonce n)
      × (tx.gas_price ≤ e.eth_max_gas_price)
      × (e.evm_provider.sign tx ≡ ok signed)
      × (e.evm_provider.send_transaction_with_ret tx signed s ≡ (ok h, t.env))
      × (load e.from_address t.nonce_cache ≡ some (u64 (n + 1)))

  load-incremented :
      (n : ℕ) (m : Nonces)
      → load e.from_address m ≡ some n
      → load e.from_address (incr e.from_address m).1 ≡ some (u64 (n + 1))
  load-incremented n m k =
      load-incr e.from_address m
      ∙ ap (λ (x : (ℕ × Bool) × Nonces). some (u64 (x.0.0 + 1))) (get-load e.from_address n m k)

  module _ (never : NeverKnown) where
    refusal-Accepted :
        (k : Refusal) (x : Error) (n : ℕ) (used : Bool) (again : ℕ → Bool → State S → Outcome S)
        (st t : State S) (h : Hash)
        → k ≢ known_transaction
        → ((n' : ℕ) (used' : Bool) (st' : State S)
            → load e.from_address st'.nonce_cache ≡ some n'
            → again n' used' st' ≡ some (ok h, t)
            → Accepted h t)
        → after_refusal e k x n used again st ≡ some (ok h, t)
        → Accepted h t
    unfolding after_refusal
    refusal-Accepted invalid_sender x n used again st t h ne go p = absurd (ground arith)
    refusal-Accepted wrong_nonce x n true again st t h ne go p = absurd (ground arith)
    refusal-Accepted wrong_nonce x n false again st t h ne go p =
        go _ _ _ (load-get e.from_address (resync_nonces e st).nonce_cache) p
    refusal-Accepted known_transaction x n used again st t h ne go p = absurd (ne refl)
    refusal-Accepted vm_exception x n used again st t h ne go p = absurd (ground arith)
    refusal-Accepted other x n used again st t h ne go p = absurd (ground arith)

    send-Accepted :
        (r : Result Hash) (u : S) (tx : Transaction) (n : ℕ) (used : Bool)
        (again : ℕ → Bool → State S → Outcome S) (signed : Bytes) (st t : State S) (h : Hash)
        → load e.from_address st.nonce_cache ≡ some n
        → tx.nonce ≡ tx_nonce n
        → tx.gas_price ≤ e.eth_max_gas_price
        → e.evm_provider.sign tx ≡ ok signed
        → e.evm_provider.send_transaction_with_ret tx signed st.env ≡ (r, u)
        → ((n' : ℕ) (used' : Bool) (st' : State S)
            → load e.from_address st'.nonce_cache ≡ some n'
            → again n' used' st' ≡ some (ok h, t)
            → Accepted h t)
        → after_send e r n used again (record st { env = u }) ≡ some (ok h, t)
        → Accepted h t
    send-Accepted (ok x) u tx n used again signed st t h known num cheap sg sent go p = (
      tx,
      n,
      signed,
      st.env,
      num,
      cheap,
      sg,
      sent ∙ ground arith,
      sym (ap (load e.from_address) (ground arith)) ∙ load-incremented n st.nonce_cache known,
    )
    send-Accepted (err x) u tx n used again signed st t h known num cheap sg sent go p =
        refusal-Accepted (classify (error_text x)) x n used again _ t h
          (never tx signed st.env u x sent) go p
    send-Accepted (panic x) u tx n used again signed st t h known num cheap sg sent go p =
        absurd (ground arith)

    signed-Accepted :
        (r : Result Bytes) (tx : Transaction) (n : ℕ) (used : Bool)
        (again : ℕ → Bool → State S → Outcome S) (st t : State S) (h : Hash)
        → load e.from_address st.nonce_cache ≡ some n
        → tx.nonce ≡ tx_nonce n
        → tx.gas_price ≤ e.eth_max_gas_price
        → e.evm_provider.sign tx ≡ r
        → ((n' : ℕ) (used' : Bool) (st' : State S)
            → load e.from_address st'.nonce_cache ≡ some n'
            → again n' used' st' ≡ some (ok h, t)
            → Accepted h t)
        → send_signed e r tx n used again st ≡ some (ok h, t)
        → Accepted h t
    signed-Accepted (ok signed) tx n used again st t h known num cheap sg go p =
        send-Accepted (e.evm_provider.send_transaction_with_ret tx signed st.env).0
          (e.evm_provider.send_transaction_with_ret tx signed st.env).1 tx n used again signed st t
          h known num cheap sg refl go p
    signed-Accepted (err x) tx n used again st t h known num cheap sg go p = absurd (ground arith)
    signed-Accepted (panic x) tx n used again st t h known num cheap sg go p = absurd (ground arith)

    loop-Accepted :
        (fuel : ℕ) (tx : Transaction) (n : ℕ) (used : Bool) (st t : State S) (h : Hash)
        → tx.gas_price ≤ e.eth_max_gas_price
        → load e.from_address st.nonce_cache ≡ some n
        → send_loop e fuel tx n used st ≡ some (ok h, t)
        → Accepted h t
    unfolding send_loop
    loop-Accepted zero tx n used st t h cheap known p = absurd (ground arith)
    loop-Accepted (suc fuel) tx n used st t h cheap known p =
        signed-Accepted (e.evm_provider.sign (record tx { nonce = tx_nonce n }))
          (record tx { nonce = tx_nonce n }) n used (send_loop e fuel tx) st t h known refl cheap
          refl (λ n' used' st' k q. loop-Accepted fuel tx n' used' st' t h cheap k q) p

    serialized-Accepted :
        (fuel : ℕ) (tx : Transaction) (st t : State S) (h : Hash)
        → tx.gas_price ≤ e.eth_max_gas_price
        → send_serialized e fuel tx st ≡ some (ok h, t)
        → Accepted h t
    unfolding send_serialized
    serialized-Accepted fuel tx st t h cheap p =
        loop-Accepted fuel tx _ false _ t h cheap (load-get e.from_address st.nonce_cache) p

    limit-Accepted :
        (fuel : ℕ) (r : Result ℕ) (recipient : Address) (data_ : Bytes) (price : ℕ) (st t : State S)
        (h : Hash)
        → price ≤ e.eth_max_gas_price
        → send_with_limit e fuel r recipient data_ price st ≡ some (ok h, t)
        → Accepted h t
    limit-Accepted fuel (ok gas) recipient data_ price st t h cheap p =
        serialized-Accepted fuel _ st t h cheap p
    limit-Accepted fuel (err x) recipient data_ price st t h cheap p = absurd (ground arith)
    limit-Accepted fuel (panic x) recipient data_ price st t h cheap p = absurd (ground arith)

    priced-Accepted :
        (fuel : ℕ) (r : Result ℕ) (recipient : Address) (data_ : Bytes) (st t : State S) (h : Hash)
        → send_priced e fuel r recipient data_ st ≡ some (ok h, t)
        → Accepted h t
    priced-Accepted fuel (ok suggested) recipient data_ st t h p =
        elim (Bool-cases (ltb e.eth_max_gas_price (e.adjust suggested))) [
          | inl dear ↦
              let text = raised "Suggested gas price %v is greater than max gas price %v" in
              let q : some (err text, st) ≡ some (ok h, t) = rw dear at p in absurd (ground arith)
          | inr cheap ↦
              limit-Accepted fuel
                (e.evm_provider.estimate_gas recipient (e.adjust suggested) data_ st.env).0
                recipient data_ (e.adjust suggested) _ t h (ground arith) (rw cheap at p)
        ]
    priced-Accepted fuel (err x) recipient data_ st t h p = absurd (ground arith)
    priced-Accepted fuel (panic x) recipient data_ st t h p = absurd (ground arith)

    -- When SendTx returns a hash, the node has returned it for a signed transaction that SendTx sent
    -- at no more than the maximal gas price, and the nonce that the cache holds next is one more than
    -- the nonce of that transaction; if the node never answers "known transaction".
    pub send_tx-Accepted :
        (fuel : ℕ) (recipient : Address) (tx_data : Bytes) (st t : State S) (h : Hash)
        → send_tx e fuel recipient tx_data st ≡ some (ok h, t)
        → Accepted h t
    unfolding send_tx
    send_tx-Accepted fuel recipient tx_data st t h p =
        priced-Accepted fuel (e.evm_provider.suggest_gas_price st.env).0 recipient tx_data _ t h p

    -- One round is enough once the nonces are synced again, and two before.
    refusal_ends :
        (k : Refusal) (x : Error) (n : ℕ) (used : Bool) (again : ℕ → Bool → State S → Outcome S)
        (st : State S)
        → k ≢ known_transaction
        → (used ≡ false
            → (n' : ℕ) (st' : State S) → (r : Result Hash × State S) × (again n' true st' ≡ some r))
        → (r : Result Hash × State S) × (after_refusal e k x n used again st ≡ some r)
    unfolding after_refusal
    refusal_ends invalid_sender x n used again st ne go = (_, refl)
    refusal_ends wrong_nonce x n true again st ne go = (_, refl)
    refusal_ends wrong_nonce x n false again st ne go = go refl _ _
    refusal_ends known_transaction x n used again st ne go = absurd (ne refl)
    refusal_ends vm_exception x n used again st ne go = (_, refl)
    refusal_ends other x n used again st ne go = (_, refl)

    send_ends :
        (r : Result Hash) (u : S) (tx : Transaction) (n : ℕ) (used : Bool)
        (again : ℕ → Bool → State S → Outcome S) (signed : Bytes) (st st' : State S)
        → e.evm_provider.send_transaction_with_ret tx signed st.env ≡ (r, u)
        → (used ≡ false
            → (n' : ℕ) (st' : State S) → (r : Result Hash × State S) × (again n' true st' ≡ some r))
        → (x : Result Hash × State S) × (after_send e r n used again st' ≡ some x)
    send_ends (ok x) u tx n used again signed st st' sent go = (_, refl)
    send_ends (err x) u tx n used again signed st st' sent go =
        refusal_ends (classify (error_text x)) x n used again st' (never tx signed st.env u x sent)
          go
    send_ends (panic x) u tx n used again signed st st' sent go = (_, refl)

    signed_ends :
        (r : Result Bytes) (tx : Transaction) (n : ℕ) (used : Bool)
        (again : ℕ → Bool → State S → Outcome S) (st : State S)
        → (used ≡ false
            → (n' : ℕ) (st' : State S) → (r : Result Hash × State S) × (again n' true st' ≡ some r))
        → (x : Result Hash × State S) × (send_signed e r tx n used again st ≡ some x)
    signed_ends (ok signed) tx n used again st go =
        send_ends (e.evm_provider.send_transaction_with_ret tx signed st.env).0
          (e.evm_provider.send_transaction_with_ret tx signed st.env).1 tx n used again signed st _
          refl go
    signed_ends (err x) tx n used again st go = (_, refl)
    signed_ends (panic x) tx n used again st go = (_, refl)

    synced_ends :
        (tx : Transaction) (n : ℕ) (st : State S)
        → (r : Result Hash × State S) × (send_loop e 1 tx n true st ≡ some r)
    unfolding send_loop
    synced_ends tx n st =
        signed_ends (e.evm_provider.sign (record tx { nonce = tx_nonce n })) _ n true _ st
          (λ b n' st'. absurd (ground arith))

    -- The loop of SendTx ends within two rounds: a wrong nonce is synced once, and every other answer
    -- ends it; if the node never answers "known transaction".
    pub send_serialized_ends :
        (tx : Transaction) (st : State S)
        → (r : Result Hash × State S) × (send_serialized e 2 tx st ≡ some r)
    unfolding send_serialized send_loop
    send_serialized_ends tx st =
        signed_ends
          (e.evm_provider.sign
            (record tx { nonce = tx_nonce (get e.from_address st.nonce_cache).0.0 }))
          _ (get e.from_address st.nonce_cache).0.0 false (send_loop e 1 tx) _
          (λ b n' st'. synced_ends tx n' st')

  -- The node knows every transaction of this account under the nonce `n` already, and says so.
  abbrev pub Knows : ℕ → Type 0
  Knows n =
      (tx : Transaction) (s : S)
      → tx.nonce ≡ tx_nonce n
      → (signed : Bytes) × (x : Error) × (t : S) × (e.evm_provider.sign tx ≡ ok signed)
        × (e.evm_provider.send_transaction_with_ret tx signed s ≡ (err x, t))
        × (classify (error_text x) ≡ known_transaction)

  -- If the node answers "known transaction" to every transaction under the cached nonce, the loop of
  -- SendTx never ends, whatever the node would say to the next nonce: no number of rounds is enough.
  pub known_transaction_diverges :
      (fuel : ℕ) (tx : Transaction) (n : ℕ) (used : Bool) (st : State S)
      → Knows n
      → send_loop e fuel tx n used st ≡ none
  unfolding send_loop after_refusal
  known_transaction_diverges zero tx n used st k = refl
  known_transaction_diverges (suc fuel) tx n used st k =
      let (signed, x, t, sg, sent, known) = k (record tx { nonce = tx_nonce n }) st.env refl in
      rw (sg, sent, known) (known_transaction_diverges fuel tx n used _ k)
