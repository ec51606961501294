-- ===== src/Relayer/Newest.antt =====
-- The newest of the events that describe validator sets: the head of the sorted list.
use peggo.Base.{
  ◌≤◌, ◌≡◌, sym, refl, subst, inl, inr, Bool-cases, List, [], ◌∷◌, All, All-mono, Any, leb, arith,
}
use peggo.Types.{ValsetUpdatedEvent}
use peggo.Relayer.Valsets.{insert_update, sort_updates}

insert-some :
    (a : ValsetUpdatedEvent) (xs : List ValsetUpdatedEvent)
    → (q : ValsetUpdatedEvent) × (qs : List ValsetUpdatedEvent) × (insert_update a xs ≡ q ∷ qs)
unfolding insert_update
insert-some a [] = (_, _, refl)
insert-some a (x ∷ xs) = elim (Bool-cases (leb x.new_valset_nonce a.new_valset_nonce)) [
  | inl t ↦ (a, x ∷ xs, rw t refl)
  | inr f ↦ (x, insert_update a xs, rw f refl)
]

pub sort-none : (es : List ValsetUpdatedEvent) → sort_updates es ≡ [] → es ≡ []
unfolding sort_updates
sort-none [] h = refl
sort-none (a ∷ es) h = let (q, qs, e) = insert-some a (sort_updates es) in absurd (ground arith)

-- The first of the sorted events is one of them, with the greatest nonce.
pub sort-head :
    (es : List ValsetUpdatedEvent) (e : ValsetUpdatedEvent) (rest : List ValsetUpdatedEvent)
    → sort_updates es ≡ e ∷ rest
    → Any (λ x. x ≡ e) es × All (λ x. x.new_valset_nonce ≤ e.new_valset_nonce) es
unfolding sort_updates insert_update
sort-head [] e rest h = absurd (ground arith)
sort-head (a ∷ es) e rest h = go (sort_updates es) refl (λ x xs. sort-head es x xs) h
  where
    Max : ValsetUpdatedEvent → List ValsetUpdatedEvent → Type 0
    Max e es = Any (λ x. x ≡ e) es × All (λ x. x.new_valset_nonce ≤ e.new_valset_nonce) es

    go :
        (ys : List ValsetUpdatedEvent)
        → sort_updates es ≡ ys
        → ((x : ValsetUpdatedEvent) (xs : List ValsetUpdatedEvent)
            → sort_updates es ≡ x ∷ xs
            → Max x es)
        → insert_update a ys ≡ e ∷ rest
        → Max e (a ∷ es)
    go [] k ih h =
        let same : a ≡ e = ground arith in
        subst (λ (z : ValsetUpdatedEvent). Max z (a ∷ es)) same
          (subst (λ (z : List ValsetUpdatedEvent). Max a (a ∷ z)) (sym (sort-none es k))
            (inl refl, (omega arith, tt)))
    go (x ∷ xs) k ih h =
        let (member, max) = ih x xs k in
        elim (Bool-cases (leb x.new_valset_nonce a.new_valset_nonce)) [
          | inl t ↦
              let first : a ∷ x ∷ xs ≡ e ∷ rest = rw t at h in
              let same : a ≡ e = ground arith in
              subst (λ (z : ValsetUpdatedEvent). Max z (a ∷ es)) same
                (inl refl, (omega arith, All-mono _ _ es (λ y le. ground arith) max))
          | inr f ↦
              let first : x ∷ insert_update a xs ≡ e ∷ rest = rw f at h in
              let same : x ≡ e = ground arith in
              subst (λ (z : ValsetUpdatedEvent). Max z (a ∷ es)) same
                (inr member, (ground arith, max))
        ]
