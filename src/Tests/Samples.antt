-- ===== src/Tests/Samples.antt =====
-- Concrete values: an allocator, a parser of addresses, addresses and buffers.
use sing.Common.{ℕ, List, [], ◌∷◌, Option, none, some, replicate, arith, length-replicate}
use sing.Buf.{Buffer, Alloc, zero_buffer}
use sing.Buf.Bytes.{IsValid, Serves}
use sing.Netip.{Addr, invalid, v4}
use sing.Metadata.{Socksaddr}
use sing.Metadata.Serializer.RoundTrip.{Parses}

-- An allocator that hands out arrays of the size asked for, filled with 7s.
abbrev pub sevens : Alloc
sevens size = some (replicate size 7)

pub sevens-Serves : Serves sevens
sevens-Serves size raw e = ground (arith, e, length-replicate {A = ℕ} size 7)

-- A parser that knows no address.
abbrev pub no_parse : List ℕ → Option Addr
no_parse s = none

pub no_parse-Parses : Parses no_parse
no_parse-Parses s a e = cc

abbrev pub localhost : Socksaddr
localhost = record { addr = v4 (127 ∷ 0 ∷ 0 ∷ 1 ∷ []); port = 1080; fqdn = [] }

-- "go.dev"
abbrev pub name : List ℕ
name = b'g' ∷ b'o' ∷ b'.' ∷ b'd' ∷ b'e' ∷ b'v' ∷ []

abbrev pub site : Socksaddr
site = record { addr = invalid; port = 443; fqdn = name }

-- Ten bytes: two in front, the contents 1 2 3, and room for five.
abbrev pub small : Buffer
small = record zero_buffer {
  raw = 0 ∷ 0 ∷ 1 ∷ 2 ∷ 3 ∷ 0 ∷ 0 ∷ 0 ∷ 0 ∷ 0 ∷ [];
  raw_len = 10;
  start = 2;
  end = 5;
  capacity = 10;
}

pub small-IsValid : IsValid small
small-IsValid = omega arith
