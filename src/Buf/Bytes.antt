-- ===== src/Buf/Bytes.antt =====
-- The invariant of `buf.Buffer`, and what its contents are.
use sing.Common.{
  ℕ, ◌-◌, ◌≤◌, ◌≡◌, List, [], some, length, slice, arith, length-slice, length-replicate,
  Option-cases, inl, inr,
}
use sing.Common.Outcome.{ok}
use sing.Buf.{Buffer, Alloc, new_size, bytes, len}

-- The cursors are in order, and the capacity lies inside the slice and its array.
pub record IsValid (b : Buffer) : Type 0 where
  pub ordered : b.start ≤ b.end
  pub within : b.end ≤ b.capacity
  pub sliced : b.capacity ≤ b.raw_len
  pub backed : b.raw_len ≤ length b.raw

-- The contents as a list.
abbrev pub contents : Buffer → List ℕ
contents b = slice b.start b.end b.raw

-- The bytes that can still be written.
abbrev pub room : Buffer → ℕ
room b = b.capacity - b.end

-- Under the invariant `Bytes` does not panic, and returns the contents, which are `Len` long.
pub bytes-contents :
    {b : Buffer} → IsValid b → (bytes b ≡ ok (contents b)) × (length (contents b) ≡ len b)
unfolding bytes len
bytes-contents {b} v = ground (arith, length-slice b.start b.end b.raw)

-- What `buf.Get` promises: a slice of `size` bytes lies in an array that holds them.
abbrev pub Serves : Alloc → Type 0
Serves get = (size : ℕ) (raw : List ℕ) → get size ≡ some raw → size ≤ length raw

-- The array of a new buffer holds the size that was asked for, and nothing refers to the buffer.
pub new_size-raw :
    (get : Alloc) (size : ℕ)
    → Serves get
    → ((new_size get size).raw_len ≡ size)
      × (size ≤ length (new_size get size).raw)
      × ((new_size get size).refs ≡ 0)
unfolding new_size
new_size-raw get size h = elim (Option-cases (get size)) [
  | inl e ↦ ground (arith, e, length-replicate {A = ℕ} size 0)
  | inr (raw, e) ↦ ground (arith, e, h size raw e)
]

-- `NewSize` makes a valid buffer with no contents and room for exactly `size` bytes.
pub new_size-IsValid :
    (get : Alloc) (size : ℕ)
    → Serves get
    → IsValid (new_size get size)
      × (contents (new_size get size) ≡ [])
      × (room (new_size get size) ≡ size)
unfolding new_size
new_size-IsValid get size h = elim (Option-cases (get size)) [
  | inl e ↦ ground (arith, e, length-replicate {A = ℕ} size 0)
  | inr (raw, e) ↦ ground (arith, e, h size raw e)
]
