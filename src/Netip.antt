-- ===== src/Netip.antt =====
-- Go's `net/netip`: what the library uses of an address.
use sing.Common.{ℕ, Bool, true, false, ◌&&◌, List, [], ◌∷◌, length, take, drop, ◌==◌, ◌≡◌}

-- `netip.Addr`: the zero value, four bytes, or sixteen bytes with a zone.
pub data Addr : Type 0 where
  invalid : Addr
  v4 : List ℕ → Addr
  v6 : List ℕ → List ℕ → Addr

abbrev all_zero : List ℕ → Bool
all_zero [] = true
all_zero (x ∷ xs) = x == 0 && all_zero xs

-- `::ffff:0:0/96`: ten zeros and two 0xff in front of the last four bytes.
abbrev pub mapped : List ℕ → Bool
mapped bs =
    all_zero (take 10 bs) && (elim (drop 10 bs) [ x ∷ y ∷ r ↦ (x == 255 && y == 255) | _ ↦ false ])

abbrev pub is_valid : Addr → Bool
is_valid invalid = false
is_valid (v4 bs) = true
is_valid (v6 bs zone) = true

abbrev pub is4 : Addr → Bool
is4 invalid = false
is4 (v4 bs) = true
is4 (v6 bs zone) = false

abbrev pub is6 : Addr → Bool
is6 invalid = false
is6 (v4 bs) = false
is6 (v6 bs zone) = true

abbrev pub is4_in6 : Addr → Bool
is4_in6 invalid = false
is4_in6 (v4 bs) = false
is4_in6 (v6 bs zone) = mapped bs

abbrev pub as_slice : Addr → List ℕ
as_slice invalid = []
as_slice (v4 bs) = bs
as_slice (v6 bs zone) = bs

-- `Zone`
abbrev pub zone_of : Addr → List ℕ
zone_of invalid = []
zone_of (v4 bs) = []
zone_of (v6 bs zone) = zone

-- Four bytes or sixteen.
abbrev pub IsSized : Addr → Type 0
IsSized invalid = Unit {0}
IsSized (v4 bs) = length bs ≡ 4
IsSized (v6 bs zone) = length bs ≡ 16

-- `As4` of a mapped address: its last four bytes.
abbrev pub as4 : Addr → List ℕ
as4 invalid = []
as4 (v4 bs) = bs
as4 (v6 bs zone) = drop 12 bs
