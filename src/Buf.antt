-- ===== src/Buf.antt =====
-- common/buf/buffer.go: a byte buffer with room in front of and behind its contents.
-- A Go `int` that counts bytes is a natural number: the callers pass no negative one. An error
-- return leaves the buffer as it was, so `err` carries none.
pub mod Bytes
pub mod Writes
pub mod Reads
pub mod Cursors
pub mod Queue
pub mod Emit
pub mod Fills
pub mod Pool
use sing.Common.{
  ℕ, ◌+◌, ◌-◌, ◌%◌, ◌^◌, min, Bool, true, false, ◌&&◌, List, [], ◌∷◌, Option, none, some, length,
  get_elem?, take, splice, replicate, slice, ltb, leb, ◌==◌, if◌then◌else◌,
}
use sing.Stream.{read_full}
use sing.Common.Outcome.{Error, eof, short_buffer, Outcome, ok, err, panic, ◌>>=◌}

-- `raw` holds the `cap(data)` bytes behind the slice `data`, and `raw_len` is `len(data)`.
-- `refs` is the bit pattern of the `int32`.
pub record Buffer : Type 0 where
  pub raw : List ℕ
  pub raw_len : ℕ
  pub start : ℕ
  pub end : ℕ
  pub capacity : ℕ
  pub refs : ℕ
  pub managed : Bool

abbrev pub zero_buffer : Buffer
zero_buffer = record {
  raw = [];
  raw_len = 0;
  start = 0;
  end = 0;
  capacity = 0;
  refs = 0;
  managed = false;
}

-- What a slice expression of the buffer's array returns: the bytes that it covers.
pub record Window : Type 0 where
  pub lo : ℕ
  pub hi : ℕ

-- `buf.Get`, with the bytes that a pooled array happens to hold: `none` is a nil slice.
abbrev pub Alloc : Type 0
Alloc = ℕ → Option (List ℕ)

pub new_size : Alloc → ℕ → Buffer
new_size get size = if size == 0 then zero_buffer else elim (get size) [
  | none ↦ record zero_buffer { raw = replicate size 0; raw_len = size; capacity = size }
  | some raw ↦ record zero_buffer { raw = raw; raw_len = size; capacity = size; managed = true }
]

-- `UDPBufferSize`, where memory is not short.
abbrev pub udp_buffer_size : ℕ
udp_buffer_size = 16384

-- `NewPacket`: a nil slice has no array.
pub new_packet : Alloc → Buffer
new_packet get = elim (get udp_buffer_size) [
  | none ↦ record zero_buffer { capacity = udp_buffer_size; managed = true }
  | some raw ↦ record zero_buffer {
    raw = raw;
    raw_len = udp_buffer_size;
    capacity = udp_buffer_size;
    managed = true;
  }
]

-- `As(data)` and `With(data)`, for a slice of `n` bytes over the array `raw`.
pub as_bytes : List ℕ → ℕ → Buffer
as_bytes raw n = record zero_buffer { raw = raw; raw_len = n; end = n; capacity = n }

pub with_bytes : List ℕ → ℕ → Buffer
with_bytes raw n = record zero_buffer { raw = raw; raw_len = n; capacity = n }

pub len : Buffer → ℕ
len b = b.end - b.start

pub is_empty : Buffer → Bool
is_empty b = b.end - b.start == 0

pub is_full : Buffer → Bool
is_full b = b.end == b.capacity

pub free_len : Buffer → ℕ
free_len b = b.capacity - b.end

-- `b.data[lo:hi]` panics outside the array, `b.data[i]` outside the slice.
abbrev pub in_cap : Buffer → ℕ → ℕ → Bool
in_cap b lo hi = leb lo hi && leb hi (length b.raw)

abbrev pub index : Buffer → ℕ → Outcome ℕ
index b i =
    if ltb i b.raw_len then (elim (get_elem? b.raw i) [ none ↦ panic | some x ↦ ok x ]) else panic

abbrev pub window : Buffer → ℕ → ℕ → Outcome (List ℕ)
window b lo hi = if in_cap b lo hi then ok (slice lo hi b.raw) else panic

pub bytes : Buffer → Outcome (List ℕ)
bytes b = window b b.start b.end

pub from : ℕ → Buffer → Outcome (List ℕ)
from n b = window b (b.start + n) b.end

pub to : ℕ → Buffer → Outcome (List ℕ)
to n b = window b b.start (b.start + n)

pub range : ℕ → ℕ → Buffer → Outcome (List ℕ)
range start end b = window b (b.start + start) (b.start + end)

pub byte : ℕ → Buffer → Outcome ℕ
byte i b = index b (b.start + i)

pub set_byte : ℕ → ℕ → Buffer → Outcome Buffer
set_byte i value b =
    if ltb (b.start + i) b.raw_len
    then ok (record b { raw = splice (b.start + i) (value ∷ []) b.raw })
    else panic

pub extend : ℕ → Buffer → Outcome (Window × Buffer)
extend n b =
    let end = b.end + n in
    if ltb b.capacity end
    then panic
    else if in_cap b b.end end
    then ok (record { lo = b.end; hi = end }, record b { end = end })
    else panic

pub advance : ℕ → Buffer → Buffer
advance from b =
    let start = b.start + from in
    record b { start = start; end = if ltb b.end start then start else b.end }

pub truncate : ℕ → Buffer → Buffer
truncate to b = record b { end = b.start + to }

-- `n = copy(b.data[b.end:b.capacity], data); b.end += n`
abbrev pub copy_free : List ℕ → Buffer → Outcome (ℕ × Buffer)
copy_free src b =
    let n = min (b.capacity - b.end) (length src) in
    if in_cap b b.end b.capacity
    then ok (n, record b { raw = splice b.end (take n src) b.raw; end = b.end + n })
    else panic

pub write : List ℕ → Buffer → Outcome (ℕ × Buffer)
unfolding is_full
write src b =
    if length src == 0 then ok (0, b) else if is_full b then err short_buffer else copy_free src b

pub write_string : List ℕ → Buffer → Outcome (ℕ × Buffer)
unfolding is_full
write_string s b =
    if length s == 0 then ok (0, b) else if is_full b then err short_buffer else copy_free s b

pub extend_header : ℕ → Buffer → Outcome (Window × Buffer)
extend_header n b =
    let start = b.start - n in
    if ltb b.start n
    then panic
    else if in_cap b start (start + n)
    then ok (record { lo = start; hi = start + n }, record b { start = start })
    else panic

-- `b.data[b.end] = d; b.end++`
abbrev pub push_byte : ℕ → Buffer → Outcome Buffer
push_byte d b =
    if ltb b.end b.raw_len
    then ok (record b { raw = splice b.end (d ∷ []) b.raw; end = b.end + 1 })
    else panic

pub write_byte : ℕ → Buffer → Outcome Buffer
unfolding is_full
write_byte d b = if is_full b then err short_buffer else push_byte d b

pub write_zero : Buffer → Outcome Buffer
unfolding is_full
write_zero b = if is_full b then err short_buffer else push_byte 0 b

-- `copy` or `clear` on a window that an operation returned.
pub fill : Window → List ℕ → Buffer → Buffer
fill w src b = record b { raw = splice w.lo (take (w.hi - w.lo) src) b.raw }

pub write_zero_n : ℕ → Buffer → Outcome Buffer
unfolding extend fill
write_zero_n n b =
    if ltb b.capacity (b.end + n)
    then err short_buffer
    else do (w, b') ← extend n b; ok (fill w (replicate n 0) b')

pub read_byte : Buffer → Outcome (ℕ × Buffer)
unfolding is_empty
read_byte b =
    if is_empty b
    then err eof
    else do nb ← index b b.start; ok (nb, record b { start = b.start + 1 })

pub read_bytes : ℕ → Buffer → Outcome (List ℕ × Buffer)
read_bytes n b =
    if ltb (b.end - b.start) n
    then err eof
    else do nb ← window b b.start (b.start + n); ok (nb, record b { start = b.start + n })

-- `Read(data)` for a destination of `size` bytes: the bytes that it receives.
pub read : ℕ → Buffer → Outcome (List ℕ × Buffer)
unfolding is_empty
read size b =
    let n = min size (b.end - b.start) in
    if is_empty b
    then err eof
    else do all ← window b b.start b.end; ok (take n all, record b { start = b.start + n })

-- `ReadFullFrom` of what a reader has still to give, and what it has then. The bytes of a read that
-- fails are not modelled.
pub read_full_from : ℕ → Buffer → List ℕ → Outcome (Buffer × List ℕ)
unfolding extend fill
read_full_from size b src =
    if ltb b.capacity (b.end + size)
    then err short_buffer
    else do (w, b') ← extend size b; (bs, src) ← read_full size src; ok (fill w bs b', src)

pub resize : ℕ → ℕ → Buffer → Buffer
resize start end b = record b { start = start; end = start + end }

pub reserve : ℕ → Buffer → Outcome Buffer
reserve n b = if ltb b.capacity n then panic else ok (record b { capacity = b.capacity - n })

pub over_cap : ℕ → Buffer → Outcome Buffer
over_cap n b =
    if ltb b.raw_len (b.capacity + n) then panic else ok (record b { capacity = b.capacity + n })

pub reset : Buffer → Buffer
reset b = record b { start = 0; end = 0; capacity = b.raw_len }

pub inc_ref : Buffer → Buffer
inc_ref b = record b { refs = (b.refs + 1) % 2 ^ 32 }

pub dec_ref : Buffer → Buffer
dec_ref b = record b { refs = (b.refs + 2 ^ 32 - 1) % 2 ^ 32 }

-- `put` is `buf.Put`, by the array's size: whether it takes the array back.
pub release : (ℕ → Bool) → Buffer → Outcome Buffer
release put b =
    if b.managed
    then (if ltb 0 b.refs && ltb b.refs (2 ^ 31)
        then ok b
        else if put (length b.raw)
        then ok zero_buffer
        else panic)
    else ok b

-- `copy(n.data[b.start:b.end], b.data[b.start:b.end])`, and the cursors of `b`.
abbrev pub copy_contents : Buffer → Buffer → Outcome Buffer
copy_contents n b =
    if in_cap n b.start b.end && in_cap b b.start b.end
    then ok (record n {
      raw = splice b.start (slice b.start b.end b.raw) n.raw;
      start = b.start;
      end = b.end;
      capacity = b.capacity;
    })
    else panic

pub to_owned : Alloc → Buffer → Outcome Buffer
to_owned get b = copy_contents (new_size get b.raw_len) b
