-- ===== src/Domain/Reversal.antt =====
-- `reverseDomain`, which reverses a string by its runes.
pub mod Ascii
use sing.Common.{
  ℕ, zero, suc, ◌+◌, ◌-◌, ◌*◌, ◌/◌, ◌%◌, Bool, true, false, ◌&&◌, ◌||◌, not, List, [], ◌∷◌, ◌++◌,
  length, drop, splice, replicate, ltb, leb, ◌==◌, if◌then◌else◌,
}
use sing.Common.Outcome.{Outcome, ok, panic, ◌>>=◌}

abbrev in_range : ℕ → ℕ → ℕ → Bool
in_range lo hi b = leb lo b && leb b hi

abbrev rune_error : ℕ
rune_error = 0xfffd

-- A lead byte, the bounds of the second byte, and whether there are that many continuation bytes.
abbrev second_lo : ℕ → ℕ
second_lo b = if b == 0xe0 then 0xa0 else if b == 0xf0 then 0x90 else 0x80

abbrev second_hi : ℕ → ℕ
second_hi b = if b == 0xed then 0x9f else if b == 0xf4 then 0x8f else 0xbf

abbrev continues : ℕ → Bool
continues = in_range 0x80 0xbf

abbrev seconds : ℕ → ℕ → Bool
seconds b = in_range (second_lo b) (second_hi b)

-- `utf8.DecodeRuneInString`: the rune and its size. What is no rune is the error rune, of size 1.
unfoldable pub decode_rune : List ℕ → ℕ × ℕ
decode_rune [] = (rune_error, 0)
decode_rune (b ∷ []) = if ltb b 0x80 then (b, 1) else (rune_error, 1)
decode_rune (b ∷ c ∷ []) =
    if ltb b 0x80
    then (b, 1)
    else if in_range 0xc2 0xdf b && continues c
    then (b % 32 * 64 + c % 64, 2)
    else (rune_error, 1)
decode_rune (b ∷ c ∷ d ∷ []) =
    if ltb b 0x80
    then (b, 1)
    else if in_range 0xc2 0xdf b && continues c
    then (b % 32 * 64 + c % 64, 2)
    else if in_range 0xe0 0xef b && (seconds b c && continues d)
    then (b % 16 * 4096 + c % 64 * 64 + d % 64, 3)
    else (rune_error, 1)
decode_rune (b ∷ c ∷ d ∷ e ∷ _) =
    if ltb b 0x80
    then (b, 1)
    else if in_range 0xc2 0xdf b && continues c
    then (b % 32 * 64 + c % 64, 2)
    else if in_range 0xe0 0xef b && (seconds b c && continues d)
    then (b % 16 * 4096 + c % 64 * 64 + d % 64, 3)
    else if in_range 0xf0 0xf4 b && (seconds b c && (continues d && continues e))
    then (b % 8 * 262144 + c % 64 * 4096 + d % 64 * 64 + e % 64, 4)
    else (rune_error, 1)

-- The bytes that `utf8.EncodeRune` writes for a rune that was decoded.
unfoldable pub rune_bytes : ℕ → List ℕ
rune_bytes r =
    if ltb r 0x80
    then r ∷ []
    else if ltb r 0x800
    then (0xc0 + r / 64) ∷ (0x80 + r % 64) ∷ []
    else if ltb r 0x10000
    then (0xe0 + r / 4096) ∷ (0x80 + r / 64 % 64) ∷ (0x80 + r % 64) ∷ []
    else (0xf0 + r / 262144) ∷ (0x80 + r / 4096 % 64) ∷ (0x80 + r / 64 % 64) ∷ (0x80 + r % 64) ∷ []

-- `utf8.EncodeRune(b[lo:], r)`, which panics where the bytes do not fit.
unfoldable pub encode_rune : ℕ → ℕ → List ℕ → Outcome (List ℕ)
unfolding rune_bytes
encode_rune lo r b =
    let bs = rune_bytes r in if ltb (length b) (lo + length bs) then panic else ok (splice lo bs b)

-- The loop, at `i`, for at most so many turns: a rune has at least one byte.
unfoldable pub reverse_loop : ℕ → List ℕ → ℕ → List ℕ → Outcome (List ℕ)
unfolding decode_rune encode_rune
reverse_loop zero domain i b = ok b
reverse_loop (suc turns) domain i b = elim (ltb i (length domain)) [
  | false ↦ ok b
  | true ↦ do
    let (r, n) = decode_rune (drop i domain)
    b ← encode_rune (length domain - (i + n)) r b
    reverse_loop turns domain (i + n) b
]

unfoldable pub reverse_domain : List ℕ → Outcome (List ℕ)
unfolding reverse_loop
reverse_domain domain = reverse_loop (length domain) domain 0 (replicate (length domain) 0)
