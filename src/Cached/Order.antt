-- ===== src/Cached/Order.antt =====
-- The buffer is read before what is behind it, and all of it once.
mod Tests
use sing.Common.{
  ℕ, zero, suc, ◌≤◌, ◌+◌, ◌≡◌, ◌⊎◌, true, false, List, [], ◌∷◌, ◌++◌, take, drop, Option, none,
  some,
}
use sing.Common.Outcome.{Outcome, eof, ok, err, panic, ◌>>=◌}
use sing.Buf
use sing.Buf.{Buffer}
use sing.Buf.Bytes.{IsValid, contents}
use sing.Buf.Reads.{Takes}
use sing.Cached.{CachedReader}

-- A reader of these bytes.
abbrev pub read_list : ℕ → List ℕ → Outcome (List ℕ × List ℕ)
read_list size [] = err eof
read_list size (x ∷ xs) = ok (take size (x ∷ xs), drop size (x ∷ xs))

abbrev pub cached : Option Buffer → List ℕ
cached none = []
cached (some b) = contents b

abbrev pub IsCached : Option Buffer → Type 0
IsCached none = Unit
IsCached (some b) = IsValid b

-- What one read of `bytes` does: some of them are returned and the others are left, or there is none.
abbrev Reads : List ℕ → Outcome (List ℕ × CachedReader × List ℕ) → Type 0
Reads bytes o =
    ((bytes ≡ []) × (o ≡ err eof))
    ⊎ ((p : List ℕ) × (r : CachedReader) × (src : List ℕ) × (o ≡ ok (p, r, src))
        × IsCached r.buffer
        × (p ++ (cached r.buffer ++ src) ≡ bytes))
