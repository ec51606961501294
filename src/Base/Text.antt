-- ===== src/Base/Text.antt =====
-- Go strings and byte slices: lists of byte values.
use Prim.Native.Nat.{ℕ, ◌+◌}
use Prim.Native.Char.{code}
use Prim.Native.String.{String}
use mathlib.Core.Path.{◌≡◌, refl}
use mathlib.Core.Logic.{◌↔◌}
use mathlib.Core.Bool.{Bool, true, false, ◌&&◌, ◌||◌}
use mathlib.Core.List.{List, [], ◌∷◌}
use native.Mathlib.Omega.{arith}
use peggo.Base.Tests.{◌==◌, ltb, leb, if◌then◌else◌}

-- A `string` or `[]byte` of Go.
abbrev pub Bytes : Type 0
Bytes = List ℕ

-- The bytes of an ASCII literal.
abbrev pub codes : String → Bytes
codes String.[] = []
codes (String.◌∷◌ c s) = code c ∷ codes s

-- `a == b` on strings, and `bytes.Equal`.
unfoldable pub bytes_eq : Bytes → Bytes → Bool
bytes_eq [] [] = true
bytes_eq [] (y ∷ ys) = false
bytes_eq (x ∷ xs) [] = false
bytes_eq (x ∷ xs) (y ∷ ys) = (x == y) && bytes_eq xs ys

bytes_eq→eq : (xs ys : Bytes) → bytes_eq xs ys ≡ true → xs ≡ ys
unfolding bytes_eq
bytes_eq→eq [] [] h = refl
bytes_eq→eq [] (y ∷ ys) h = ground arith
bytes_eq→eq (x ∷ xs) [] h = ground arith
bytes_eq→eq (x ∷ xs) (y ∷ ys) h = ground (arith, bytes_eq→eq xs ys)

pub bytes_eq_refl : (xs : Bytes) → bytes_eq xs xs ≡ true
unfolding bytes_eq
bytes_eq_refl [] = refl
bytes_eq_refl (x ∷ xs) = ground (arith, bytes_eq_refl xs)

pub bytes_eq_iff : (xs ys : Bytes) → (bytes_eq xs ys ≡ true) ↔ (xs ≡ ys)
bytes_eq_iff xs ys = (bytes_eq→eq xs ys, λ e. backwards e)
  where
    backwards : xs ≡ ys → bytes_eq xs ys ≡ true
    backwards e = rw e (bytes_eq_refl ys)

-- `bytes.Compare(a, b) == -1`.
unfoldable pub bytes_lt : Bytes → Bytes → Bool
bytes_lt xs [] = false
bytes_lt [] (y ∷ ys) = true
bytes_lt (x ∷ xs) (y ∷ ys) = ltb x y || ((x == y) && bytes_lt xs ys)

-- `strings.HasPrefix(s, p)`, with the prefix first.
unfoldable pub starts_with : Bytes → Bytes → Bool
starts_with [] s = true
starts_with (p ∷ ps) [] = false
starts_with (p ∷ ps) (c ∷ s) = (p == c) && starts_with ps s

-- `strings.Contains(s, p)`, with the text sought first.
unfoldable pub contains : Bytes → Bytes → Bool
unfolding starts_with
contains p [] = starts_with p []
contains p (c ∷ s) = starts_with p (c ∷ s) || contains p s

-- `strings.HasSuffix(s, p)`, with the suffix first.
unfoldable pub ends_with : Bytes → Bytes → Bool
ends_with p [] = bytes_eq p []
ends_with p (c ∷ s) = bytes_eq p (c ∷ s) || ends_with p s

-- `strings.ToLower`, on ASCII text.
abbrev pub lower_byte : ℕ → ℕ
lower_byte c = if leb 65 c && leb c 90 then c + 32 else c

abbrev pub to_lower : Bytes → Bytes
to_lower [] = []
to_lower (c ∷ cs) = lower_byte c ∷ to_lower cs

-- `strings.TrimSpace`, on text whose spaces are ASCII.
abbrev pub is_space : ℕ → Bool
is_space c = (c == 32) || (leb 9 c && leb c 13)

abbrev trim_left : Bytes → Bytes
trim_left [] = []
trim_left (c ∷ cs) = let rest = trim_left cs in if is_space c then rest else c ∷ cs

abbrev pub is_nonempty : Bytes → Bool
is_nonempty [] = false
is_nonempty (b ∷ bs) = true

abbrev trim_right : Bytes → Bytes
trim_right [] = []
trim_right (c ∷ cs) =
    let rest = trim_right cs in
    if is_nonempty rest then c ∷ rest else if is_space c then [] else c ∷ []

abbrev pub trim_space : Bytes → Bytes
trim_space text = trim_right (trim_left text)
