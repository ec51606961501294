-- ===== src/Keys/PassReader/Stream.antt =====
-- What the reader of a passphrase gives, over any sequence of reads.
use peggo.Base.{
  ℕ, zero, suc, ◌+◌, ◌≤◌, ◌<◌, ◌≡◌, ◌∙◌, refl, sym, ap, arith, false, Bytes, List, [], ◌∷◌, ◌++◌,
  length, take, drop, All, length-append,
}
use mathlib.Core.List.{append_assoc, append-nil}
use peggo.Keys.PassReader.{Read, buffer_read, line, read, reads}

-- The passphrase and its line end, `k` times.
abbrev pub lines : ℕ → Bytes → Bytes
lines zero pass = []
lines (suc k) pass = line pass ++ lines k pass

take-drop : (n : ℕ) (xs : Bytes) → take n xs ++ drop n xs ≡ xs
take-drop zero xs = refl
take-drop (suc n) [] = refl
take-drop (suc n) (x ∷ xs) = ap (λ r. x ∷ r) (take-drop n xs)

buffer_read-all : (n : ℕ) (buf : Bytes) → (buffer_read n buf).0.bytes ++ (buffer_read n buf).1 ≡ buf
unfolding buffer_read
buffer_read-all zero [] = refl
buffer_read-all (suc n) [] = refl
buffer_read-all n (b ∷ bs) = take-drop n (b ∷ bs)

-- A read gives the front of the buffer, or of the buffer with one more line.
abbrev One : (pass : Bytes) → Bytes → Read × Bytes → Type 0
One pass buf (r, left) = (k : ℕ) × (r.bytes ++ left ≡ buf ++ lines k pass)

buffer_read-One :
    (pass : Bytes) (n k : ℕ) (buf more : Bytes)
    → more ≡ buf ++ lines k pass
    → One pass buf (buffer_read n more)
buffer_read-One pass n k buf more e = (k, buffer_read-all n more ∙ e)

read-One : (pass : Bytes) (n : ℕ) (buf : Bytes) → One pass buf (read pass n buf)
unfolding read buffer_read
read-One pass zero [] = buffer_read-One pass 0 1 [] (line pass) (sym (append-nil (line pass)))
read-One pass (suc n) [] =
    buffer_read-One pass (suc n) 1 [] (line pass) (sym (append-nil (line pass)))
read-One pass zero (b ∷ bs) =
    buffer_read-One pass 0 1 (b ∷ bs) (b ∷ bs ++ line pass)
      (ap (λ r. b ∷ bs ++ r) (sym (append-nil (line pass))))
read-One pass (suc n) (b ∷ bs) =
    buffer_read-One pass (suc n) 0 (b ∷ bs) (b ∷ bs) (sym (append-nil (b ∷ bs)))

-- A read with room for a byte gives one, and is not the end of the input.
abbrev Gives : Read → Type 0
Gives r = (0 < length r.bytes) × (r.eof ≡ false)

line-Gives : (pass : Bytes) (n : ℕ) → Gives (buffer_read (suc n) (line pass)).0
unfolding buffer_read
line-Gives [] n = (omega arith, refl)
line-Gives (b ∷ bs) n = (omega arith, refl)

read-Gives : (pass : Bytes) (n : ℕ) (buf : Bytes) → Gives (read pass (suc n) buf).0
unfolding read buffer_read
read-Gives pass n [] = line-Gives pass n
read-Gives pass n (b ∷ bs) = (omega arith, refl)

lines-add : (k m : ℕ) (pass : Bytes) → lines (k + m) pass ≡ lines k pass ++ lines m pass
lines-add zero m pass = let same : 0 + m ≡ m = omega arith in ap (λ n. lines n pass) same
lines-add (suc k) m pass =
    let next : suc k + m ≡ suc (k + m) = omega arith in
    ap (λ n. lines n pass) next
    ∙ ap (λ r. line pass ++ r) (lines-add k m pass)
    ∙ sym (append_assoc (line pass) (lines k pass) (lines m pass))

-- Over any reads, what they give and then the buffer that they leave is the first buffer and a
-- number of lines, each the passphrase with a line end: no byte is lost, repeated or out of order.
pub reads-lines :
    (pass : Bytes) (ns : List ℕ) (buf : Bytes)
    → (k : ℕ) × ((reads pass ns buf).0 ++ (reads pass ns buf).1 ≡ buf ++ lines k pass)
reads-lines pass [] buf = (0, sym (append-nil buf))
reads-lines pass (n ∷ ns) buf =
    let (r, left) = read pass n buf in
    let (bytes, last) = reads pass ns left in
    let (k, first) = read-One pass n buf in
    let (m, rest) = reads-lines pass ns left in
    (
      k + m,
      append_assoc r.bytes bytes last
          ∙ ap (λ x. r.bytes ++ x) rest
          ∙ sym (append_assoc r.bytes left (lines m pass))
          ∙ ap (λ x. x ++ lines m pass) first
          ∙ append_assoc buf (lines k pass) (lines m pass)
          ∙ ap (λ x. buf ++ x) (sym (lines-add k m pass)),
    )

-- Reads into slices with room give a byte each at least, so that a reader of lines gets to the end
-- of the passphrase.
pub reads-progress :
    (pass : Bytes) (ns : List ℕ) (buf : Bytes)
    → All (λ n. 0 < n) ns
    → length ns ≤ length (reads pass ns buf).0
reads-progress pass [] buf h = omega arith
reads-progress pass (zero ∷ ns) buf h = absurd (omega (arith, h.0))
reads-progress pass (suc n ∷ ns) buf h =
    let (r, left) = read pass (suc n) buf in
    omega (
      arith,
      length-append r.bytes (reads pass ns left).0,
      read-Gives pass n buf,
      reads-progress pass ns left h.1,
    )
