-- ===== src/Cached.antt =====
-- common/bufio/cache.go: readers with a buffer in front (CachedReader and CachedConn).
pub mod Order
use sing.Common.{ℕ, Bool, true, false, List, Option, none, some, if◌then◌else◌}
use sing.Common.Outcome.{Outcome, ok, err, panic, ◌>>=◌}
use sing.Buf
use sing.Buf.{Buffer, inc_ref, dec_ref, release}

-- The buffer is a value: those who share it with the reader are not followed.
pub record CachedReader : Type 0 where
  pub taken : Bool
  pub buffer : Option Buffer

pub new_cached_reader : Buffer → CachedReader
new_cached_reader buffer = record { taken = false; buffer = some (inc_ref buffer) }

pub read_cached : CachedReader → Option Buffer × CachedReader
read_cached r = if r.taken then (none, r) else (
  elim r.buffer [ none ↦ none | some b ↦ some (dec_ref b) ],
  record { taken = true; buffer = none },
)

-- `put` is `buf.Put`, and what is behind the reader has any state `S`.
module _ (put : ℕ → Bool) where
  pub read :
      {S : Type 0}
      → (ℕ → S → Outcome (List ℕ × S))
      → ℕ
      → CachedReader × S
      → Outcome (List ℕ × CachedReader × S)
  read upstream size (r, s) = elim r.buffer [
    | none ↦ do (p, s) ← upstream size s; ok (p, r, s)
    | some b ↦ elim (Buf.read size b) [
      | ok (p, b) ↦ ok (p, record r { buffer = some b }, s)
      | err e ↦ do
        _ ← release put (dec_ref b)
        (p, s) ← upstream size s
        ok (p, record r { buffer = none }, s)
      | panic ↦ panic
    ]
  ]

  -- `Close`, but for the connection behind a `CachedConn`.
  pub close : CachedReader → Outcome CachedReader
  close r = if r.taken then ok r else elim r.buffer [
    | none ↦ ok (record r { taken = true })
    | some b ↦ do _ ← release put (dec_ref b); ok (record { taken = true; buffer = none })
  ]
