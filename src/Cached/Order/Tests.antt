-- ===== src/Cached/Order/Tests.antt =====
-- A buffer with three bytes in front of two more.
use sing.Common.{ℕ, false, List, [], ◌∷◌, some}
use sing.Buf.{Buffer, zero_buffer}
use sing.Cached.{CachedReader}

abbrev three : Buffer
three = record zero_buffer {
  raw = 0 ∷ 1 ∷ 2 ∷ 3 ∷ 0 ∷ [];
  raw_len = 5;
  start = 1;
  end = 4;
  capacity = 5;
}

abbrev all_bytes : List ℕ
all_bytes = 1 ∷ 2 ∷ 3 ∷ 4 ∷ 5 ∷ []

abbrev in_front : CachedReader
in_front = record { taken = false; buffer = some three }
