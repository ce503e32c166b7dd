-- ===== src/Varbin.antt =====
-- common/varbin/uvarint.go: numbers of a variable length.
pub mod Uvarint
mod Tests
use sing.Common.{
  true, false, ℕ, zero, suc, ◌+◌, ◌*◌, ◌/◌, ◌%◌, ◌^◌, List, [], ◌∷◌, ltb, leb, if◌then◌else◌,
}
use sing.Common.Outcome.{new, eof, unexpected_eof, Outcome, ok, err, panic, ◌>>=◌}
use sing.Stream.{Reader}

-- A `uint64` has at most ten groups of seven bits.
abbrev pub max_len : ℕ
max_len = 10

-- `io.ByteWriter`: a parameter.
module _ {W : Type 0} (write_byte : ℕ → W → Outcome W) where
  -- The loop of `WriteUvarint`, for at most so many turns, and what follows it.
  pub write_loop : ℕ → ℕ → W → Outcome (ℕ × W)
  write_loop zero value w = panic
  write_loop (suc turns) value w = elim (leb 128 value) [
    | true ↦ do
      w ← write_byte (value % 128 + 128) w
      (n, w) ← write_loop turns (value / 128) w
      ok (n + 1, w)
    | false ↦ do w ← write_byte value w; ok (1, w)
  ]

  -- The count of bytes that an error carries is left out.
  pub write_uvarint : ℕ → W → Outcome (ℕ × W)
  unfolding write_loop
  write_uvarint value w = write_loop max_len value w

pub uvarint_len : ℕ → ℕ
uvarint_len x =
    if ltb x (2 ^ 7)
    then 1
    else if ltb x (2 ^ 14)
    then 2
    else if ltb x (2 ^ 21)
    then 3
    else if ltb x (2 ^ 28)
    then 4
    else if ltb x (2 ^ 35)
    then 5
    else if ltb x (2 ^ 42)
    then 6
    else if ltb x (2 ^ 49)
    then 7
    else 8

-- `binary.ReadUvarint`, for so many more bytes: `x` is read, and the next seven bits count `unit`.
-- They are above those of `x`, so that `|` is a sum.
pub read_loop : ℕ → ℕ → ℕ → Reader ℕ
read_loop zero x unit src = err (new "binary: varint overflows a 64-bit integer")
read_loop (suc turns) x unit [] = if leb 10 (suc turns) then err eof else err unexpected_eof
read_loop (suc turns) x unit (b ∷ src) =
    let rest = read_loop turns (x + b % 128 * unit) (unit * 128) src in
    if ltb b 128
    then (if ltb turns 1
        then (if ltb 1 b
            then err (new "binary: varint overflows a 64-bit integer")
            else ok (x + b * unit, src))
        else ok (x + b * unit, src))
    else rest

pub read_uvarint : Reader ℕ
unfolding read_loop
read_uvarint src = read_loop max_len 0 1 src
