-- ===== src/Buf/Cursors.antt =====
-- The operations that move the cursors: windows in front and behind, trimming, the reserve.
use sing.Common.{
  ℕ, ◌+◌, ◌-◌, ◌^◌, ◌≤◌, ◌<◌, ◌≡◌, refl, List, ◌++◌, length, take, slice, splice, arith,
  slice-take-drop, length-slice, slice-splice_front, slice-splice, length-splice, take-length, true,
  Bool, Bool-cases, inl, inr, ltb, ◌&&◌, false, ap, slice_self, sym, subst, ◌∙◌,
}
use sing.Common.Outcome.{ok, panic, ◌>>=◌}
use sing.Buf.{
  Buffer, Alloc, extend, extend_header, fill, advance, truncate, reserve, over_cap, inc_ref,
  dec_ref, release, copy_contents, to_owned, new_size, zero_buffer,
}
use sing.Buf.Bytes.{IsValid, contents, room, Serves, new_size-raw}
use sing.Buf.Writes.{Appends, splice-Appends_of}
use sing.Buf.Reads.{Takes, skip-Takes}

-- `Extend` hands out the bytes behind the contents, as many as there is room for, and what is copied
-- into them is appended to the contents.
pub extend-fill :
    {b : Buffer} (src : List ℕ)
    → IsValid b
    → length src ≤ room b
    → (b' : Buffer) × ((do (w, e) ← extend (length src) b; ok (fill w src e)) ≡ ok b')
      × Appends b src b'
unfolding extend fill
extend-fill {b} src v h = (
  record b {
    raw = splice b.end (take (b.end + length src - b.end) src) b.raw;
    end = b.end + length src;
  },
  ground arith,
  splice-Appends_of (length src) src _ v h (take-length _ src (omega arith)) refl,
)

-- `Extend` panics where the bytes do not fit behind the contents, and `ExtendHeader` where they do
-- not fit in front.
pub extend-panic :
    (n : ℕ) (b : Buffer)
    → b.capacity < b.end + n
    → b.start < n
    → (extend n b ≡ panic) × (extend_header n b ≡ panic)
unfolding extend extend_header
extend-panic n b h k = ground arith

-- `b'` is `b` with `src` in front of its contents.
pub record Prepends (b : Buffer) (src : List ℕ) (b' : Buffer) : Type 0 where
  pub valid : IsValid b'
  pub prepended : contents b' ≡ src ++ contents b
  pub kept : room b' ≡ room b

-- `ExtendHeader` hands out the bytes in front of the contents, at most as many as the start leaves,
-- and what is copied into them stands in front of the contents then.
pub extend_header-fill :
    {b : Buffer} (src : List ℕ)
    → IsValid b
    → length src ≤ b.start
    → (b' : Buffer) × ((do (w, e) ← extend_header (length src) b; ok (fill w src e)) ≡ ok b')
      × Prepends b src b'
unfolding extend_header fill
extend_header-fill {b} src v h = (
  record b { raw = splice lo (take (lo + length src - lo) src) b.raw; start = lo },
  ground arith,
  subst (λ s. Prepends b src (record b { raw = splice lo s b.raw; start = lo }))
      (sym (take-length (lo + length src - lo) src (omega arith))) put,
)
  where
    lo : ℕ
    lo = b.start - length src

    put : Prepends b src (record b { raw = splice lo src b.raw; start = lo })
    put = ground (
      arith,
      length-splice lo src b.raw,
      slice-splice_front lo b.end src b.raw (omega arith) (omega arith),
    )

-- `Advance` drops bytes from the front of the contents, and `Truncate` keeps the first ones.
pub advance-Takes :
    {b : Buffer} (n : ℕ) → IsValid b → n ≤ length (contents b) → Takes b n (advance n b)
unfolding advance
advance-Takes {b} n v h = ground (arith, length-slice b.start b.end b.raw, skip-Takes n v)

pub truncate_lem :
    {b : Buffer} (n : ℕ)
    → IsValid b
    → n ≤ length (contents b)
    → IsValid (truncate n b) × (contents (truncate n b) ≡ take n (contents b))
unfolding truncate
truncate_lem {b} n v h =
    ground (arith, length-slice b.start b.end b.raw, slice-take-drop b.start b.end n b.raw)

-- `Reserve` takes `n` bytes of room away, and `OverCap` gives them back: together they do nothing.
pub over_cap-reserve :
    {b : Buffer} (n : ℕ)
    → IsValid b
    → n ≤ room b
    → (b' : Buffer) × (reserve n b ≡ ok b')
      × IsValid b'
      × (contents b' ≡ contents b)
      × (room b' + n ≡ room b)
      × (over_cap n b' ≡ ok b)
unfolding reserve over_cap
over_cap-reserve {b} n v h = (
  record b { capacity = b.capacity - n },
  ground arith,
  ground arith,
  ground arith,
  ground arith,
  ground arith,
)

-- A buffer that is referenced, or that no allocator handed out, is kept by `Release` as it is.
-- Any other is emptied for good, if the allocator takes its array back.
pub release_cases :
    (put : ℕ → Bool) (b : Buffer)
    → b.refs < 2 ^ 31
    → (b.managed ≡ false → release put b ≡ ok b)
      × (0 < b.refs → release put b ≡ ok b)
      × (b.managed ≡ true → b.refs ≡ 0 → put (length b.raw) ≡ true → release put b ≡ ok zero_buffer)
unfolding release
release_cases put b h = ground arith

-- As many `DecRef` as `IncRef` leave the count as it was.
pub dec_ref-inc_ref : (b : Buffer) → b.refs < 2 ^ 32 → dec_ref (inc_ref b) ≡ b
unfolding dec_ref inc_ref
dec_ref-inc_ref b h = ground arith

-- Where every array is taken back, a release returns.
pub release_lem :
    (put : ℕ → Bool) (b : Buffer)
    → ((n : ℕ) → put n ≡ true)
    → (b' : Buffer) × (release put b ≡ ok b')
unfolding release
release_lem put b h = elim (Bool-cases b.managed) [
  | inl m ↦ elim (Bool-cases (ltb 0 b.refs && ltb b.refs (2 ^ 31))) [
    | inl r ↦ (b, ground (arith, m, r))
    | inr r ↦ (zero_buffer, ground (arith, m, r, h (length b.raw)))
  ]
  | inr m ↦ (b, ground (arith, m))
]

-- A copy of the contents lies between any bytes that the new array held.
slice-splice_copy :
    (lo hi : ℕ) (xs ys : List ℕ)
    → lo ≤ hi
    → hi ≤ length xs
    → hi ≤ length ys
    → slice lo hi (splice lo (slice lo hi xs) ys) ≡ slice lo hi xs
slice-splice_copy lo hi xs ys o hx hy =
    subst (λ k. slice lo k (splice lo (slice lo hi xs) ys) ≡ slice lo hi xs) e
      (slice-splice lo lo (slice lo hi xs) ys (omega arith) (omega (arith, e))
        ∙ ap (λ r. r ++ slice lo hi xs) (slice_self lo ys))
  where
    e : lo + length (slice lo hi xs) ≡ hi
    e = omega (arith, length-slice lo hi xs hx)

copy_contents_lem :
    (n : Buffer) {b : Buffer}
    → IsValid b
    → n.raw_len ≡ b.raw_len
    → b.raw_len ≤ length n.raw
    → n.refs ≡ 0
    → (b' : Buffer) × (copy_contents n b ≡ ok b')
      × IsValid b'
      × (contents b' ≡ contents b)
      × (room b' ≡ room b)
      × (b'.start ≡ b.start)
      × (b'.refs ≡ 0)
copy_contents_lem n {b} v l h r = (
  record n {
    raw = splice b.start (contents b) n.raw;
    start = b.start;
    end = b.end;
    capacity = b.capacity;
  },
  ground arith,
  ground (arith, length-splice b.start (contents b) n.raw),
  slice-splice_copy b.start b.end b.raw n.raw v.ordered (omega arith) (omega arith),
  refl,
  refl,
  r,
)

-- `ToOwned` copies a valid buffer: the same contents and room, under no reference.
pub to_owned_lem :
    (get : Alloc) {b : Buffer}
    → Serves get
    → IsValid b
    → (b' : Buffer) × (to_owned get b ≡ ok b')
      × IsValid b'
      × (contents b' ≡ contents b)
      × (room b' ≡ room b)
      × (b'.start ≡ b.start)
      × (b'.refs ≡ 0)
unfolding to_owned
to_owned_lem get {b} serves v = copy_contents_lem n v len held free
  where
    n : Buffer
    n = new_size get b.raw_len

    len : n.raw_len ≡ b.raw_len
    len = (new_size-raw get b.raw_len serves).0

    held : b.raw_len ≤ length n.raw
    held = (new_size-raw get b.raw_len serves).1

    free : n.refs ≡ 0
    free = (new_size-raw get b.raw_len serves).2
