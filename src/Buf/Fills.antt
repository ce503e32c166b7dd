-- ===== src/Buf/Fills.antt =====
-- The operations that fill a buffer from a reader, and a buffer that is used again.
use sing.Common.{
  ℕ, ◌+◌, ◌-◌, ◌≤◌, ◌≡◌, refl, List, [], ◌++◌, length, take, slice, splice, arith, length-splice,
  take-length, length-slice, ap, ap₂, sym, ◌∙◌,
}
use sing.Common.Outcome.{ok}
use sing.Stream.{read_full-append}
use sing.Buf.{Buffer, Window, with_bytes, extend_header, extend, fill, reset, read_full_from}
use sing.Buf.Bytes.{IsValid, contents, room}
use sing.Buf.Writes.{Appends, splice-Appends_of}

-- `ReadFullFrom` appends the next bytes of the stream, if there is room for them, and keeps the
-- buffer's array.
pub read_full_from_lem :
    {b : Buffer} (src rest : List ℕ)
    → IsValid b
    → length src ≤ room b
    → (b' : Buffer) × (read_full_from (length src) b (src ++ rest) ≡ ok (b', rest))
      × Appends b src b'
      × (b'.raw_len ≡ b.raw_len)
      × (length b'.raw ≡ length b.raw)
unfolding extend fill read_full_from
read_full_from_lem {b} src rest v h = (
  record b {
    raw = splice b.end (take (b.end + length src - b.end) src) b.raw;
    end = b.end + length src;
  },
  ground (arith, read_full-append src rest),
  splice-Appends_of (length src) src _ v h (take-length _ src (omega arith)) refl,
  refl,
  length-splice b.end (take (b.end + length src - b.end) src) b.raw,
)

-- A reset buffer has no contents, and room for its whole slice, which it keeps.
pub reset_lem :
    (b : Buffer)
    → b.raw_len ≤ length b.raw
    → IsValid (reset b)
      × (contents (reset b) ≡ [])
      × (room (reset b) ≡ b.raw_len)
      × ((reset b).raw_len ≡ b.raw_len)
      × (length (reset b).raw ≡ length b.raw)
unfolding reset
reset_lem b h = ground arith

-- The window in front of the contents, and what it is as a buffer.
pub extend_header_window :
    (n : ℕ) {b : Buffer}
    → IsValid b
    → n ≤ b.start
    → (w : Window) × (e : Buffer) × (extend_header n b ≡ ok (w, e))
      × IsValid (with_bytes (slice w.lo w.hi e.raw) (w.hi - w.lo))
      × (contents (with_bytes (slice w.lo w.hi e.raw) (w.hi - w.lo)) ≡ [])
      × (room (with_bytes (slice w.lo w.hi e.raw) (w.hi - w.lo)) ≡ n)
      × (w.hi - w.lo ≡ n)
unfolding extend_header with_bytes
extend_header_window n {b} v h =
    let lo : ℕ = b.start - n in
    (
      record { lo = lo; hi = lo + n },
      record b { start = lo },
      ground arith,
      ground (arith, length-slice lo (lo + n) b.raw (omega arith)),
      refl,
      omega arith,
      omega arith,
    )

pub with_bytes_capacity : (raw : List ℕ) (n : ℕ) → (with_bytes raw n).capacity ≡ n
unfolding with_bytes
with_bytes_capacity raw n = refl

-- Of a full buffer's array only its contents are copied into a window of its capacity.
pub fill_full :
    (w : Window) {h : Buffer} (src : List ℕ) (e : Buffer)
    → IsValid h
    → contents h ≡ src
    → h.capacity ≡ length src
    → w.hi - w.lo ≡ length src
    → fill w h.raw e ≡ fill w src e
unfolding fill
fill_full w {h} src e v c k m =
    ap (λ s. record e { raw = splice w.lo s e.raw })
      (ap (λ n. take n h.raw) m
        ∙ ap (λ n. take n h.raw) minus_zero
        ∙ sym (ap₂ (λ lo hi. slice lo hi h.raw) starts ends)
        ∙ c
        ∙ sym (take-length (w.hi - w.lo) src (omega arith)))
  where
    long : length (contents h) ≡ h.end - h.start
    long = length-slice h.start h.end h.raw (omega (arith, v.within, v.sliced, v.backed))

    same : length (contents h) ≡ length src
    same = ap length c

    starts : h.start ≡ 0
    starts = omega (arith, long, same, v.ordered, v.within)

    ends : h.end ≡ length src
    ends = omega (arith, long, same, v.ordered, v.within)

    minus_zero : length src ≡ length src - 0
    minus_zero = omega arith
