-- ===== src/Buf/Pool.antt =====
-- common/buf/alloc.go: the allocator, pools of arrays of twelve sizes.
pub mod Sizes
pub mod Stores
mod Tests
use sing.Common.{
  ℕ, ◌+◌, ◌-◌, ◌%◌, ◌^◌, Bool, true, false, not, ◌||◌, List, [], ◌∷◌, Option, none, some, length,
  replicate, ltb, leb, ◌==◌, if◌then◌else◌,
}
use sing.Common.Outcome.{new, Outcome, ok, err, panic, ◌>>=◌}

abbrev pub max_pooled_buffer_size : ℕ
max_pooled_buffer_size = 73728

-- The size of the arrays of a pool.
pub class_size : ℕ → ℕ
class_size index = if index == 11 then max_pooled_buffer_size else 2 ^ (6 + index)

-- The arrays that each pool holds.
abbrev pub Pools : Type 0
Pools = ℕ → List (List ℕ)

abbrev pub set_pool : ℕ → List (List ℕ) → Pools → Pools
set_pool index arrays pools i = if i == index then arrays else pools i

-- `sync.Pool.Get`, as a choice: none of the arrays, which makes a new one, or one of them and those
-- that stay.
abbrev pub Pick : Type 0
Pick = List (List ℕ) → Option (List ℕ × List (List ℕ))

-- The assertion of the array's type in the `switch`.
abbrev pub as_array : ℕ → List ℕ → Outcome (List ℕ)
as_array index raw =
    if ltb 11 index then panic else if length raw == class_size index then ok raw else panic

-- `Put` of a slice over an array.
abbrev pub put_at : ℕ → List ℕ → Pools → Outcome Pools
put_at index raw pools = do
  array ← as_array index raw
  ok (set_pool index (array ∷ pools index) pools)

-- `bits.Len32` is a parameter.
module _ (len32 : ℕ → ℕ) where
  -- A `uint16`.
  abbrev pub msb : ℕ → ℕ
  msb size = (len32 (size % 2 ^ 32) + 65535) % 65536

  abbrev pub round_up : ℕ → ℕ
  round_up size = (if size == 2 ^ msb size then msb size else msb size + 1) - 6

  pub index_of : ℕ → ℕ
  index_of size = if ltb 64 size then (if ltb 65536 size then 11 else round_up size) else 0

  -- The array behind the slice of `size` bytes, and the pools that stay. `ok none` is a nil slice.
  pub get : Pick → ℕ → Pools → Outcome (Option (List ℕ) × Pools)
  unfolding index_of class_size
  get pick size pools =
      let index = index_of size in
      if size == 0 || ltb max_pooled_buffer_size size
      then ok (none, pools)
      else elim (pick (pools index)) [
        | none ↦ do raw ← as_array index (replicate (class_size index) 0); ok (some raw, pools)
        | some (array, rest) ↦ do
          raw ← as_array index array
          ok (some raw, set_pool index rest pools)
      ]

  pub put : List ℕ → Pools → Outcome Pools
  unfolding class_size
  put raw pools =
      let cap = length raw in
      if cap == max_pooled_buffer_size
      then put_at 11 raw pools
      else if ltb cap 64 || (ltb 65536 cap || not (cap == 2 ^ msb cap))
      then err (new "allocator Put() incorrect buffer size")
      else put_at (msb cap - 6) raw pools
