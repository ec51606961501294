-- ===== src/Keys/PassReader.antt =====
-- The type passReader of orchestrator/cosmos/keyring.go, which cmd/peggo/keys.go declares once more:
-- a reader that gives the passphrase and a line end, again and again. Its state is its buffer.
pub mod Stream
use peggo.Base.{
  ℕ, zero, suc, Bool, true, false, Bytes, List, [], ◌∷◌, ◌++◌, ◌||◌, take, drop, if◌then◌else◌,
}

-- What `Read` returns: the bytes that it puts in the slice, and whether the error is io.EOF.
pub record Read : Type 0 where
  pub bytes : Bytes
  pub eof : Bool

-- `Read` of bytes.Buffer, into a slice of length `n`.
unfoldable pub buffer_read : ℕ → Bytes → Read × Bytes
buffer_read zero [] = (record { bytes = []; eof = false }, [])
buffer_read (suc n) [] = (record { bytes = []; eof = true }, [])
buffer_read n (b ∷ bs) = (record { bytes = take n (b ∷ bs); eof = false }, drop n (b ∷ bs))

-- What the reader gives.
abbrev pub line : (pass : Bytes) → Bytes
line pass = pass ++ 10 ∷ []

abbrev is_empty : Bytes → Bool
is_empty [] = true
is_empty (b ∷ bs) = false

abbrev again : (pass : Bytes) → ℕ → Read × Bytes → Read × Bytes
again pass n (r, buf) =
    if r.eof || is_empty r.bytes then buffer_read n (buf ++ line pass) else (r, buf)

unfoldable pub read : (pass : Bytes) → ℕ → Bytes → Read × Bytes
read pass n buf = again pass n (buffer_read n buf)

-- Several reads: all that they give, and the buffer they leave.
abbrev pub reads : (pass : Bytes) → List ℕ → Bytes → Bytes × Bytes
reads pass [] buf = ([], buf)
reads pass (n ∷ ns) buf =
    let (r, left) = read pass n buf in
    let (bytes, last) = reads pass ns left in (r.bytes ++ bytes, last)
