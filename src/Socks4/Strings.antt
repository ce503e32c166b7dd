-- ===== src/Socks4/Strings.antt =====
-- Strings that end at a zero byte.
use sing.Common.{
  ℕ, ◌+◌, ◌≤◌, ◌<◌, ◌≡◌, ◌≢◌, List, [], ◌∷◌, ◌++◌, length, arith, append_assoc, append-nil,
  length-append,
}
use sing.Common.Outcome.{new, ok, err}
use sing.Socks4.{read_string_loop, read_string}

abbrev pub NoZero : List ℕ → Type 0
NoZero [] = Unit {0}
NoZero (x ∷ xs) = (x ≢ 0) × NoZero xs

read_string_loop-zero :
    (s buffer rest : List ℕ)
    → NoZero s
    → length buffer + length s ≤ 255
    → read_string_loop buffer (s ++ (0 ∷ rest)) ≡ ok (buffer ++ s, rest)
unfolding read_string_loop
read_string_loop-zero [] buffer rest nz h = rw append-nil
read_string_loop-zero (x ∷ xs) buffer rest nz h = ground (
  arith,
  nz.0,
  length-append buffer (x ∷ []),
  append_assoc buffer (x ∷ []) xs,
  read_string_loop-zero xs (buffer ++ (x ∷ [])) rest nz.1,
)

-- A string of at most 255 bytes, none of them zero, is read up to the zero behind it.
pub read_string-zero :
    (s rest : List ℕ) → NoZero s → length s ≤ 255 → read_string (s ++ (0 ∷ rest)) ≡ ok (s, rest)
unfolding read_string
read_string-zero s rest nz h = read_string_loop-zero s [] rest nz (omega arith)

read_string_loop-long :
    (s buffer rest : List ℕ)
    → NoZero s
    → length buffer ≤ 255
    → 255 < length buffer + length s
    → read_string_loop buffer (s ++ rest) ≡ err (new "string too long")
unfolding read_string_loop
read_string_loop-long [] buffer rest nz h k = absurd (omega arith)
read_string_loop-long (x ∷ xs) buffer rest nz h k = ground (
  arith,
  nz.0,
  length-append buffer (x ∷ []),
  read_string_loop-long xs (buffer ++ (x ∷ [])) rest nz.1,
)

-- A longer one is refused, whatever follows its first 256 bytes.
pub read_string-long :
    (s rest : List ℕ)
    → NoZero s
    → 255 < length s
    → read_string (s ++ rest) ≡ err (new "string too long")
unfolding read_string
read_string-long s rest nz h = read_string_loop-long s [] rest nz (omega arith) (omega arith)
