-- ===== src/Abx/Bytes.antt =====
-- The state of a `Reader` of common/abx, and reads that leave it changed where they fail.
use sing.Common.{
  ℕ, ◌≡◌, refl, List, [], ◌∷◌, ◌++◌, length, take, drop, ltb, ◌==◌, if◌then◌else◌, arith,
  length-append, take-append, drop-append,
}
use sing.Common.Outcome.{eof, unexpected_eof, Outcome, ok, err, panic}

-- The bytes to come, and the strings that were interned.
pub record Source : Type 0 where
  pub rest : List ℕ
  pub string_refs : List (List ℕ)

abbrev pub Read : Type 0 → Type 0
Read A = Source → (Outcome A) × Source

infixl 5 ◌>>=◌
abbrev pub ◌>>=◌ : {A B : Type 0} → Read A → (A → Read B) → Read B
◌>>=◌ m f s = let (o, s) = m s in elim o [ ok a ↦ f a s | err e ↦ (err e, s) | panic ↦ (panic, s) ]

abbrev pub give : {A : Type 0} → A → Read A
give a s = (ok a, s)

-- `ReadByte`
abbrev read_byte_of : List ℕ → List (List ℕ) → (Outcome ℕ) × Source
read_byte_of [] refs = (err eof, record { rest = []; string_refs = refs })
read_byte_of (b ∷ xs) refs = (ok b, record { rest = xs; string_refs = refs })

abbrev pub read_byte : Read ℕ
read_byte s = read_byte_of s.rest s.string_refs

-- `UnreadByte` behind a `ReadByte` that has read this byte.
abbrev pub unread_byte : ℕ → Source → Source
unread_byte b s = record s { rest = b ∷ s.rest }

-- `io.ReadFull` into a slice of `n` bytes, which `binary.Read` calls too.
unfoldable pub read_some : ℕ → Read (List ℕ)
read_some n s =
    if n == 0
    then (ok [], s)
    else if length s.rest == 0
    then (err eof, s)
    else if ltb (length s.rest) n
    then (err unexpected_eof, record s { rest = [] })
    else (ok (take n s.rest), record s { rest = drop n s.rest })

pub read_some-append :
    (xs ys : List ℕ) (refs : List (List ℕ))
    → read_some (length xs) (record { rest = xs ++ ys; string_refs = refs })
      ≡ (ok xs, record { rest = ys; string_refs = refs })
unfolding read_some
read_some-append [] ys refs = refl
read_some-append (x ∷ xs) ys refs =
    ground (arith, length-append xs ys, take-append (x ∷ xs) ys, drop-append (x ∷ xs) ys)
