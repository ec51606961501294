-- ===== src/Keys/KeyStore/Wallets.antt =====
-- The paths of accounts that a scan of orchestrator/ethereum/keystore/keystore.go leaves in the cache.
use peggo.Base.{
  ◌≡◌, ◌∙◌, ◌⊎◌, ap, refl, subst, arith, inl, inr, Bool, Bool-cases, true, false, Bytes, Option,
  none, some, List, [], ◌∷◌, bytes_eq, ◌==◌, All, if◌then◌else◌,
}
use peggo.Effect.{Error, Result, ok, M, lift, ◌>>=◌, ◌>>◌}
use peggo.Effect.Keeps.{Keeps, Keeps-bind, bind_ok, lift_ok}
use peggo.Types.{Address}
use peggo.Keys.Crypto.{CryptoLib}
use peggo.Keys.KeyCache.{load, delete, same_address, set_path}
use peggo.Keys.KeyStore.{
  Files, KeyStore, Visit, WalletSpec, beside, check_address, with_spec, visit_file, visit_all,
  unless_failed, for_each_wallet, for_each_path, logged, note_path, reload_paths_cache,
  sorted_paths, address_from_hex,
}

-- The account has a path.
abbrev pub HasPath : {lib : CryptoLib} → Address → KeyStore lib → Type 0
HasPath a ks = (p : Bytes) × (load same_address a ks.cache.paths ≡ some p)

load-delete_other :
    (a b : Address) (m : List (Address × Bytes))
    → (a == b) ≡ false
    → load same_address a (delete same_address b m) ≡ load same_address a m
load-delete_other a b [] h = refl
load-delete_other a b ((c, p) ∷ m) h = elim (Bool-cases (b == c)) [
  | inl t ↦
      let other : (a == c) ≡ false = ground (arith, h, t) in
      rw (t, other) (load-delete_other a b m h)
  | inr f ↦ elim (Bool-cases (a == c)) [
    | inl s ↦ rw (f, s) refl
    | inr s ↦ rw (f, s) (load-delete_other a b m h)
  ]
]

module _ {S : Type 0} (files : Files S) (lib : CryptoLib) where
  note_path-HasPath :
      (spec : WalletSpec) (s : S) (ks : KeyStore lib)
      → HasPath (files.hex_to_address spec.address) (note_path files lib spec (s, ks)).1.1
  unfolding set_path address_from_hex
  note_path-HasPath spec s ks =
      let a = files.hex_to_address spec.address in
      let same : (a == a) ≡ true = ground arith in (spec.path, rw same refl)

  Keeps-note_path :
      (a : Address) (spec : WalletSpec)
      → Keeps (λ (w : S × KeyStore lib). HasPath a w.1) (note_path files lib spec)
  unfolding set_path address_from_hex
  Keeps-note_path a spec (s, ks) (p, h) =
      let b = files.hex_to_address spec.address in
      elim (Bool-cases (a == b)) [
        | inl t ↦ (spec.path, rw t refl)
        | inr f ↦ (p, rw f (load-delete_other a b ks.cache.paths f ∙ h))
      ]

module _ {S T : Type 0} (files : Files S) (P : T → Type 0) (fn : WalletSpec → M (S × T) (Unit {0}))
    (kept : (spec : WalletSpec) → Keeps (λ (w : S × T). P w.1) (fn spec)) where
  Keeps-with_spec :
      (path : Bytes) (o : Option WalletSpec)
      → Keeps (λ (w : S × T). P w.1) (with_spec files fn path o)
  unfolding with_spec
  Keeps-with_spec path none = λ w h. h
  Keeps-with_spec path (some spec) =
      Keeps-bind (λ (w : S × T). P w.1) (lift (check_address files spec.address)) _ (λ w h. h)
        λ u. kept (record spec { path = path })

  Keeps-visit_file : (path : Bytes) → Keeps (λ (w : S × T). P w.1) (visit_file files fn path)
  unfolding visit_file
  Keeps-visit_file path =
      Keeps-bind (λ (w : S × T). P w.1) (beside files (files.read_file path)) _ (λ w h. h)
        λ contents.
          Keeps-bind (λ (w : S × T). P w.1) (lift (files.unmarshal contents)) _ (λ w h. h)
            (Keeps-with_spec path)

  Keeps-visit_all :
      (root : Bytes) (vs : List Visit) → Keeps (λ (w : S × T). P w.1) (visit_all files root fn vs)
  unfolding visit_all
  Keeps-visit_all root [] = λ w h. h
  Keeps-visit_all root (v ∷ vs) =
      go v.failure (bytes_eq v.path root) v.is_dir (Keeps-visit_all root vs)
    where
      go :
          (e : Option Error) (b d : Bool)
          → Keeps (λ (w : S × T). P w.1) (visit_all files root fn vs)
          → Keeps
              (λ (w : S × T). P w.1)
              (unless_failed files e (
                if b
                then visit_all files root fn vs
                else if d
                then visit_all files root fn vs
                else (visit_file files fn v.path >> visit_all files root fn vs)))
      go (some e) b d rest = λ w h. h
      go none true d rest = rest
      go none false true rest = rest
      go none false false rest =
          Keeps-bind (λ (w : S × T). P w.1) (visit_file files fn v.path)
            (λ _. visit_all files root fn vs) (Keeps-visit_file v.path) (λ u. rest)

  Keeps-for_each_path : (ps : List Bytes) → Keeps (λ (w : S × T). P w.1) (for_each_path files fn ps)
  unfolding for_each_path for_each_wallet
  Keeps-for_each_path [] = λ w h. h
  Keeps-for_each_path (p ∷ ps) =
      Keeps-bind (λ (w : S × T). P w.1) (logged files (for_each_wallet files p fn)) _
        (λ (s, t) h. Keeps-visit_all p (files.visits p s).0 ((files.visits p s).1, t) h)
        λ u. Keeps-for_each_path ps

module _ {S : Type 0} (files : Files S) (lib : CryptoLib) where
  -- A reload of the paths, whatever it reads and wherever it stops, leaves every account that has a
  -- path with a path.
  pub reload-HasPath :
      (a : Address) (s : S) (ks : KeyStore lib)
      → HasPath a ks
      → HasPath a (reload_paths_cache files lib (s, ks)).1.1
  unfolding reload_paths_cache
  reload-HasPath a s ks h =
      Keeps-for_each_path files (HasPath a) (note_path files lib) (Keeps-note_path files lib a)
        (sorted_paths ks) (s, ks) h

  -- The file is read in the state `s`, as the wallet of the account, and leaves the state `u`.
  abbrev pub IsWallet : Bytes → S → Address → S → Type 0
  IsWallet path s a u =
      (contents : Bytes) × (spec : WalletSpec) × (files.read_file path s ≡ (ok contents, u))
      × (files.unmarshal contents ≡ ok (some spec))
      × (a ≡ files.hex_to_address spec.address)

  -- The visits, in their order, read the wallets of these accounts: no visit has failed, and every one
  -- but those of the first path and of directories reads its file, where the one before it has left off.
  pub data Scans (root : Bytes) : List Visit → S → List Address → S → Type 0 where
    finished : {s : S} → Scans root [] s [] s
    passed :
        {v : Visit} {vs : List Visit} {s t : S} {found : List Address}
        → v.failure ≡ none
        → (bytes_eq v.path root ≡ true) ⊎ (v.is_dir ≡ true)
        → Scans root vs s found t
        → Scans root (v ∷ vs) s found t
    wallet :
        {v : Visit} {vs : List Visit} {s t u : S} {a : Address} {found : List Address}
        → v.failure ≡ none
        → bytes_eq v.path root ≡ false
        → v.is_dir ≡ false
        → IsWallet v.path s a u
        → Scans root vs u found t
        → Scans root (v ∷ vs) s (a ∷ found) t

  visit_file-IsWallet :
      (path : Bytes) (s : S) (ks : KeyStore lib) (w' : S × KeyStore lib)
      → visit_file files (note_path files lib) path (s, ks) ≡ (ok tt, w')
      → (a : Address) × IsWallet path s a w'.0 × HasPath a w'.1
  unfolding visit_file with_spec
  visit_file-IsWallet path s ks w' h =
      let fn = note_path files lib in
      let (contents, u, read, rest) =
        bind_ok (beside files (files.read_file path))
          (λ contents. lift (files.unmarshal contents) >>= λ spec. with_spec files fn path spec)
          (s, ks) tt w' h in
      let (o, u', got, done) =
        bind_ok (lift (files.unmarshal contents)) (with_spec files fn path) u tt w' rest in
      let (parsed, same) = lift_ok (files.unmarshal contents) u u' o got in
      noted contents o u'
        (λ i. ((read i).0, ((read ∙ ap (λ (x : S × KeyStore lib). (ok contents, x)) same) i).1.0))
        parsed done
    where
      noted :
          (contents : Bytes) (o : Option WalletSpec) (u : S × KeyStore lib)
          → files.read_file path s ≡ (ok contents, u.0)
          → files.unmarshal contents ≡ ok o
          → with_spec files (note_path files lib) path o u ≡ (ok tt, w')
          → (a : Address) × IsWallet path s a w'.0 × HasPath a w'.1
      noted contents none u r q h = absurd (ground arith)
      noted contents (some spec) u r q h =
          let (x, (v, kv), checked, done) =
            bind_ok (lift (check_address files spec.address))
              (λ _. note_path files lib (record spec { path = path })) u tt w' h in
          let a = files.hex_to_address spec.address in
          let (_, same) = lift_ok (check_address files spec.address) u (v, kv) x checked in
          let kept : u.0 ≡ w'.0 =
            ap (λ (x : S × KeyStore lib). x.0) same
            ∙ ap (λ (r : Result (Unit {0}) × (S × KeyStore lib)). r.1.0) done in
          (
            a,
            (contents, spec, r ∙ ap (λ (y : S). (ok contents, y)) kept, q, refl),
            subst (λ (r : Result (Unit {0}) × (S × KeyStore lib)). HasPath a r.1.1) done
                (note_path-HasPath files lib (record spec { path = path }) v kv),
          )

  -- The visits have read the wallets of these accounts, and each account has a path.
  abbrev pub Noted : Bytes → List Visit → S → S × KeyStore lib → Type 0
  Noted root vs s w' =
      (found : List Address) × Scans root vs s found w'.0 × All (λ a. HasPath a w'.1) found

  visit_all-Noted :
      (root : Bytes) (vs : List Visit) (s : S) (ks : KeyStore lib) (w' : S × KeyStore lib)
      → visit_all files root (note_path files lib) vs (s, ks) ≡ (ok tt, w')
      → Noted root vs s w'
  unfolding visit_all
  visit_all-Noted root [] s ks w' h =
      let end = ap (λ (x : Result (Unit {0}) × (S × KeyStore lib)). x.1.0) h in
      ([], subst (λ (t : S). Scans root [] s [] t) end finished, tt)
  visit_all-Noted root (v ∷ vs) s ks w' h =
      go v.failure (bytes_eq v.path root) v.is_dir refl refl refl (visit_all-Noted root vs) h
    where
      go :
          (e : Option Error) (b d : Bool)
          → v.failure ≡ e
          → bytes_eq v.path root ≡ b
          → v.is_dir ≡ d
          → ((s : S) (ks : KeyStore lib) (u' : S × KeyStore lib)
              → visit_all files root (note_path files lib) vs (s, ks) ≡ (ok tt, u')
              → Noted root vs s u')
          → unless_failed files e
              (if b
                then visit_all files root (note_path files lib) vs
                else if d
                then visit_all files root (note_path files lib) vs
                else (visit_file files (note_path files lib) v.path
                    >> visit_all files root (note_path files lib) vs))
              (s, ks)
            ≡ (ok tt, w')
          → Noted root (v ∷ vs) s w'
      go (some e) b d f p q rec h = absurd (ground arith)
      go none true d f p q rec h =
          let (found, scan, all) = rec s ks w' h in (found, passed f (inl p) scan, all)
      go none false true f p q rec h =
          let (found, scan, all) = rec s ks w' h in (found, passed f (inr q) scan, all)
      go none false false f p q rec h =
          let (x, (u, ku), file, rest) =
            bind_ok (visit_file files (note_path files lib) v.path)
              (λ _. visit_all files root (note_path files lib) vs) (s, ks) tt w' h in
          let (a, is, has) = visit_file-IsWallet v.path s ks (u, ku) file in
          let (found, scan, all) = rec u ku w' rest in
          let still =
            subst (λ (r : Result (Unit {0}) × (S × KeyStore lib)). HasPath a r.1.1) rest
              (Keeps-visit_all files (HasPath a) (note_path files lib) (Keeps-note_path files lib a)
                root vs (u, ku) has) in
          (a ∷ found, wallet f p q is scan, (still, all))

  -- When the scan of a directory ends without an error, no visit of it has failed, and every visit but
  -- those of the first path and of directories has read its file as a wallet, one after the other;
  -- after the scan the account of each of these wallets has a path.
  pub for_each_wallet-Noted :
      (root : Bytes) (s : S) (ks : KeyStore lib) (w' : S × KeyStore lib)
      → for_each_wallet files root (note_path files lib) (s, ks) ≡ (ok tt, w')
      → Noted root (files.visits root s).0 (files.visits root s).1 w'
  unfolding for_each_wallet
  for_each_wallet-Noted root s ks w' h =
      visit_all-Noted root (files.visits root s).0 (files.visits root s).1 ks w' h
