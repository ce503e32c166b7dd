-- ===== src/Uot/RoundTrip.antt =====
-- A UDP over TCP request that is written is read back.
use sing.Common.{ℕ, ◌+◌, ◌<◌, ◌≡◌, Bool, true, false, List, [], ◌∷◌, ◌++◌, Option, arith, inr}
use sing.Common.Outcome.{ok}
use sing.Buf.{Alloc}
use sing.Buf.Bytes.{Serves}
use sing.Buf.Emit.{Emits-bind, Emits-must, Emits-write, new_size-Emits}
use sing.Netip.{Addr}
use sing.Stream.{read_uint8-cons}
use sing.Metadata.{is_valid}
use sing.Metadata.Serializer.{socksaddr_serializer, family_of, addr_port_len}
use sing.Metadata.Serializer.Wire.{
  Fits, addr_port_wire, write_addr_port-Emits, addr_port_len_lem, socksaddr_serializer-family,
}
use sing.Metadata.Serializer.RoundTrip.{Parses, canonical, read_addr_port-wire}
use sing.Uot.{Request, bool_byte, read_bool, read_request, encode_request, write_request}

-- The byte of the flag, in front of the address and the port.
abbrev pub uot_wire : Request → List ℕ
uot_wire r =
    bool_byte r.is_connect
    ∷ addr_port_wire socksaddr_serializer (family_of r.destination) r.destination

uot_write_request_lem :
    (get : Alloc) (r : Request)
    → Serves get
    → Fits r.destination
    → is_valid r.destination ≡ true
    → write_request get r ≡ ok (uot_wire r)
unfolding write_request encode_request
uot_write_request_lem get r serves fits valid =
    new_size-Emits get (1 + addr_port_len socksaddr_serializer r.destination) (uot_wire r) serves
      (Emits-bind (bool_byte r.is_connect ∷ [])
        (addr_port_wire socksaddr_serializer (family_of r.destination) r.destination)
        (Emits-must _ (Emits-write (bool_byte r.is_connect ∷ [])))
        (write_addr_port-Emits socksaddr_serializer r.destination fits (family_of r.destination)
          ((socksaddr_serializer-family r.destination).0 valid).0))
      (omega (
        arith,
        addr_port_len_lem socksaddr_serializer r.destination fits (family_of r.destination)
            (inr valid),
      ))

read_bool-byte : (b : Bool) (rest : List ℕ) → read_bool (bool_byte b ∷ rest) ≡ ok (b, rest)
read_bool-byte true rest = rw (read_uint8-cons 1 rest)
read_bool-byte false rest = rw (read_uint8-cons 0 rest)

-- With a parser of addresses that keeps its promises and an allocator that serves what it is asked
-- for: a request for a valid destination that fits, with a port of 16 bits, is written without error
-- or panic, and what is written, in front of any bytes, is read back with the same flag and with the
-- destination in canonical form, up to those bytes.
pub uot_request-write :
    (parse : List ℕ → Option Addr)
    → Parses parse
    → (get : Alloc) → Serves get
    → (r : Request) → Fits r.destination
    → is_valid r.destination ≡ true
    → r.destination.port < 65536
    → (w : List ℕ) × (write_request get r ≡ ok w)
      × ((rest : List ℕ)
          → read_request parse (w ++ rest)
            ≡ ok (
              record r { destination = canonical parse socksaddr_serializer r.destination },
              rest,
            ))
unfolding read_request
uot_request-write parse promise get serves r fits valid port = (
  uot_wire r,
  uot_write_request_lem get r serves fits valid,
  λ rest. rw (
    read_bool-byte r.is_connect
        (addr_port_wire socksaddr_serializer (family_of r.destination) r.destination ++ rest),
    read_addr_port-wire parse socksaddr_serializer r.destination fits.0 (family_of r.destination)
        rest promise ((socksaddr_serializer-family r.destination).0 valid).1 port,
  ),
)
