-- ===== src/Buf/Reads.antt =====
-- What the reading operations return, and what they leave.
use sing.Common.{
  ℕ, ◌+◌, ◌-◌, ◌≤◌, ◌<◌, min, ◌≡◌, List, [], ◌∷◌, length, take, drop, arith, slice-take-drop,
  length-slice, get_elem?-lt, slice-cons, ap,
}
use sing.Common.Outcome.{eof, ok, err}
use sing.Buf.{Buffer, read_byte, read_bytes, read}
use sing.Buf.Bytes.{IsValid, contents, room}

-- `b'` is `b` with the first `n` bytes of its contents read.
pub record Takes (b : Buffer) (n : ℕ) (b' : Buffer) : Type 0 where
  pub valid : IsValid b'
  pub rest : contents b' ≡ drop n (contents b)
  pub kept : room b' ≡ room b

pub skip-Takes :
    {b : Buffer} (n : ℕ)
    → IsValid b
    → n ≤ b.end - b.start
    → Takes b n (record b { start = b.start + n })
skip-Takes {b} n v h = ground (arith, slice-take-drop b.start b.end n b.raw)

-- `ReadBytes` returns the next `n` bytes and leaves the rest, or is refused where there are fewer.
pub read_bytes_lem :
    {b : Buffer} (n : ℕ)
    → IsValid b
    → (n ≤ length (contents b)
        → (b' : Buffer) × (read_bytes n b ≡ ok (take n (contents b), b')) × Takes b n b')
      × (length (contents b) < n → read_bytes n b ≡ err eof)
unfolding read_bytes
read_bytes_lem {b} n v = (
  (λ h. (
    record b { start = b.start + n },
    ground (arith, l, slice-take-drop b.start b.end n b.raw),
    skip-Takes n v (omega (arith, l)),
  )),
  (λ h. ground (arith, l)),
)
  where
    l : length (contents b) ≡ b.end - b.start
    l = length-slice b.start b.end b.raw (omega arith)

-- `Read` fills as much of its destination as there is, and reports the end on empty contents.
pub read_lem :
    {b : Buffer} (size : ℕ)
    → IsValid b
    → let n = min size (length (contents b)) in
      (0 < length (contents b)
        → (b' : Buffer) × (read size b ≡ ok (take n (contents b), b')) × Takes b n b')
      × (length (contents b) ≡ 0 → read size b ≡ err eof)
unfolding read
read_lem {b} size v = (
  (λ h. (
    record b { start = b.start + min size (b.end - b.start) },
    ground (arith, l),
    rw l (skip-Takes _ v (omega arith)),
  )),
  (λ h. ground (arith, l)),
)
  where
    l : length (contents b) ≡ b.end - b.start
    l = length-slice b.start b.end b.raw (omega arith)

-- `ReadByte` takes the first byte off the contents, or reports their end.
pub read_byte_lem :
    {b : Buffer}
    → IsValid b
    → ((x : ℕ) (rest : List ℕ)
        → contents b ≡ x ∷ rest
        → (b' : Buffer) × (read_byte b ≡ ok (x, b')) × Takes b 1 b' × (contents b' ≡ rest))
      × (contents b ≡ [] → read_byte b ≡ err eof)
unfolding read_byte
read_byte_lem {b} v = (
  (λ x rest e.
      let (y, at) = get_elem?-lt b.raw b.start (omega (arith, l, ap length e)) in
      (
        record b { start = b.start + 1 },
        ground (arith, at, l, ap length e, e, slice-cons b.start b.end b.raw (lt x rest e) at),
        skip-Takes 1 v (omega (arith, l, ap length e)),
        ground (arith, e, slice-cons b.start b.end b.raw (lt x rest e) at),
      )),
  (λ e. ground (arith, l, ap length e)),
)
  where
    l : length (contents b) ≡ b.end - b.start
    l = length-slice b.start b.end b.raw (omega arith)

    lt : (x : ℕ) (rest : List ℕ) → contents b ≡ x ∷ rest → b.start < b.end
    lt x rest e = omega (arith, l, ap length e)
