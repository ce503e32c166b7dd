-- ===== src/Domain/Stored.antt =====
-- common/domain: the stored form of a matcher (`Write` and `ReadMatcher`, and in set.go the reads and
-- writes of a succinct set).
pub mod RoundTrip
mod Tests
use sing.Common.{
  ℕ, zero, suc, ◌+◌, ◌*◌, ◌/◌, ◌%◌, ◌^◌, List, [], take, drop, ◌∷◌, ◌++◌, length, ltb, ◌==◌,
  if◌then◌else◌,
}
use sing.Common.Outcome.{Outcome, ok, err, panic, ◌>>=◌}
use sing.Stream.{Reader, next, read_full}
use sing.Varbin.{write_uvarint, read_uvarint}
use sing.Domain.{SuccinctSet}

-- A `uint64` in eight bytes, the highest first.
abbrev pub big_endian : ℕ → ℕ → List ℕ
big_endian zero w = []
big_endian (suc n) w = w / 256 ^ n % 256 ∷ big_endian n w

abbrev pub words_bytes : List ℕ → List ℕ
words_bytes [] = []
words_bytes (w ∷ ws) = big_endian 8 w ++ words_bytes ws

-- `binary.Read` of so many of them.
abbrev pub from_big_endian : ℕ → List ℕ → ℕ
from_big_endian x [] = x
from_big_endian x (b ∷ bs) = from_big_endian (x * 256 + b) bs

abbrev pub words_of : ℕ → List ℕ → List ℕ
words_of zero bs = []
words_of (suc n) bs = from_big_endian 0 (take 8 bs) ∷ words_of n (drop 8 bs)

-- A slice of zeros, of so many bytes: `make` panics where there is no memory for them.
module _ (max_alloc : ℕ) where
  abbrev pub make : ℕ → Outcome {0} Unit
  make size = if ltb max_alloc size then panic else ok tt

  pub read_uint64_slice : Reader (List ℕ)
  read_uint64_slice src = do
    (length, src) ← read_uvarint src
    (if length == 0 then ok ([], src) else (do
      _ ← make (8 * length)
      (bs, src) ← read_full (8 * length) src
      ok (words_of length bs, src)))

  pub read_byte_slice : Reader (List ℕ)
  read_byte_slice src = do
    (length, src) ← read_uvarint src
    (if length == 0 then ok ([], src) else (do _ ← make length; read_full length src))

  -- `readSuccinctSet`, where the parameter is `init`: the index on the bitmap, as the two calls that
  -- use it. The version is not looked at.
  pub read_succinct_set : (List ℕ → (ℕ → Outcome ℕ) × (ℕ → Outcome ℕ)) → Reader SuccinctSet
  unfolding read_uint64_slice read_byte_slice
  read_succinct_set init src = do
    (_, src) ← next src
    (leaves, src) ← read_uint64_slice src
    (label_bitmap, src) ← read_uint64_slice src
    (labels, src) ← read_byte_slice src
    let (count_zeros, select_ith_one) = init label_bitmap
    ok (
      record {
        leaves = leaves;
        label_bitmap = label_bitmap;
        labels = labels;
        count_zeros = count_zeros;
        select_ith_one = select_ith_one;
      },
      src,
    )

  -- `ReadMatcher`: a matcher is its set.
  pub read_matcher : (List ℕ → (ℕ → Outcome ℕ) × (ℕ → Outcome ℕ)) → Reader SuccinctSet
  unfolding read_succinct_set
  read_matcher init src = read_succinct_set init src

-- A `varbin.Writer`: its `WriteByte` and `Write`.
pub record Writer (W : Type 0) : Type 0 where
  pub write_byte : ℕ → W → Outcome W
  pub write : List ℕ → W → Outcome W

module _ {W : Type 0} (writer : Writer W) where
  pub write_uint64_slice : List ℕ → W → Outcome W
  write_uint64_slice value w = do
    (_, w) ← write_uvarint writer.write_byte (length value) w
    (if length value == 0 then ok w else writer.write (words_bytes value) w)

  pub write_byte_slice : List ℕ → W → Outcome W
  write_byte_slice value w = do
    (_, w) ← write_uvarint writer.write_byte (length value) w
    (if length value == 0 then ok w else writer.write value w)

  pub write_succinct_set : SuccinctSet → W → Outcome W
  unfolding write_uint64_slice write_byte_slice
  write_succinct_set set w = do
    w ← writer.write_byte 0 w
    w ← write_uint64_slice set.leaves w
    w ← write_uint64_slice set.label_bitmap w
    write_byte_slice set.labels w

  -- `Matcher.Write`
  pub write_matcher : SuccinctSet → W → Outcome W
  unfolding write_succinct_set
  write_matcher set w = write_succinct_set set w
