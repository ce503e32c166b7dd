-- ===== src/Stream.antt =====
-- `io.Reader` and `io.ByteReader` over the bytes that are still to come, as Go's `io` and
-- `encoding/binary` read from them. A failed read is the last one, so it carries no rest.
use sing.Common.{
  ℕ, ◌+◌, ◌*◌, ◌/◌, ◌%◌, ◌<◌, ◌≡◌, refl, List, [], ◌∷◌, ◌++◌, length, take, drop, ltb, ◌==◌,
  if◌then◌else◌, arith, length-append, take-append, drop-append, ap,
}
use sing.Common.Outcome.{eof, unexpected_eof, Outcome, ok, err, panic, ◌>>=◌}

abbrev pub Reader {ℓ} : Type ℓ → Type ℓ
Reader A = List ℕ → Outcome (A × List ℕ)

-- `ReadByte`
abbrev pub next : Reader ℕ
next [] = err eof
next (x ∷ xs) = ok (x, xs)

-- `io.ReadFull` into a slice of `n` bytes.
pub read_full : ℕ → Reader (List ℕ)
read_full n src =
    if n == 0
    then ok ([], src)
    else if length src == 0
    then err eof
    else if ltb (length src) n
    then err unexpected_eof
    else ok (take n src, drop n src)

-- `binary.Read` of a byte and of a big-endian `uint16`; `binary.BigEndian` writes the latter.
pub read_uint8 : Reader ℕ
read_uint8 src = do (bs, rest) ← read_full 1 src; elim bs [ x ∷ [] ↦ ok (x, rest) | _ ↦ panic ]

pub read_uint16 : Reader ℕ
read_uint16 src = do
  (bs, rest) ← read_full 2 src
  elim bs [ x ∷ y ∷ [] ↦ ok (x * 256 + y, rest) | _ ↦ panic ]

abbrev pub uint16_bytes : ℕ → List ℕ
uint16_bytes n = n / 256 % 256 ∷ n % 256 ∷ []

pub read_full-append : (xs rest : List ℕ) → read_full (length xs) (xs ++ rest) ≡ ok (xs, rest)
unfolding read_full
read_full-append [] rest = refl
read_full-append (x ∷ xs) rest =
    ground (arith, length-append xs rest, take-append (x ∷ xs) rest, drop-append (x ∷ xs) rest)

pub read_full_short :
    (n : ℕ) (src : List ℕ)
    → length src < n
    → read_full n src ≡ err (if length src == 0 then eof else unexpected_eof)
unfolding read_full
read_full_short n src h = ground arith

pub read_uint8-cons : (x : ℕ) (rest : List ℕ) → read_uint8 (x ∷ rest) ≡ ok (x, rest)
unfolding read_uint8
read_uint8-cons x rest = rw (read_full-append (x ∷ []) rest)

pub read_uint8-nil : read_uint8 [] ≡ err eof
unfolding read_uint8 read_full
read_uint8-nil = refl

pub read_uint16-bytes :
    (n : ℕ) (rest : List ℕ) → n < 65536 → read_uint16 (uint16_bytes n ++ rest) ≡ ok (n, rest)
unfolding read_uint16
read_uint16-bytes n rest h =
    rw (read_full-append (uint16_bytes n) rest) (ap (λ k. ok (k, rest)) (omega arith))
