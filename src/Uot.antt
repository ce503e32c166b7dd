-- ===== src/Uot.antt =====
-- common/uot/protocol.go: the request in front of UDP packets that are sent over TCP.
pub mod Packets
pub mod Server
pub mod RoundTrip
mod Tests
use sing.Common.{ℕ, ◌+◌, Bool, true, false, not, List, [], ◌∷◌, Option, ◌==◌, if◌then◌else◌}
use sing.Common.Outcome.{Outcome, ok, err, must, ◌>>=◌}
use sing.Buf.{Buffer, Alloc, new_size, bytes}
use sing.Buf.Emit.{write_all}
use sing.Netip.{Addr}
use sing.Stream.{Reader, read_uint8}
use sing.Metadata.{Socksaddr, no_addr}
use sing.Metadata.Serializer.{
  Serializer, new_serializer, address_family_byte, socksaddr_serializer, ipv4, ipv6, fqdn_family,
  addr_port_len, write_addr_port, read_addr_port,
}

-- "sp.v2.udp-over-tcp.arpa" and "sp.udp-over-tcp.arpa"
abbrev over_tcp : List ℕ
over_tcp =
    b'u' ∷ b'd' ∷ b'p' ∷ b'-' ∷ b'o' ∷ b'v' ∷ b'e' ∷ b'r' ∷ b'-' ∷ b't' ∷ b'c' ∷ b'p' ∷ b'.' ∷ b'a'
    ∷ b'r' ∷ b'p' ∷ b'a' ∷ []

abbrev pub magic_address : List ℕ
magic_address = b's' ∷ b'p' ∷ b'.' ∷ b'v' ∷ b'2' ∷ b'.' ∷ over_tcp

abbrev pub legacy_magic_address : List ℕ
legacy_magic_address = b's' ∷ b'p' ∷ b'.' ∷ over_tcp

-- The addresses of the packets.
unfoldable pub addr_parser : Serializer
unfolding new_serializer address_family_byte
addr_parser = new_serializer (
    address_family_byte 0x00 ipv4
    ∷ address_family_byte 0x01 ipv6
    ∷ address_family_byte 0x02 fqdn_family
    ∷ [])

pub request_destination : ℕ → Socksaddr
request_destination version =
    if version == 0
    then record no_addr { fqdn = magic_address }
    else if version == 2
    then record no_addr { fqdn = magic_address }
    else record no_addr { fqdn = legacy_magic_address }

pub record Request : Type 0 where
  pub is_connect : Bool
  pub destination : Socksaddr

-- `binary.Write` and `binary.Read` of a `bool`.
abbrev pub bool_byte : Bool → ℕ
bool_byte b = if b then 1 else 0

abbrev pub read_bool : Reader Bool
read_bool src = do (x, src) ← read_uint8 src; ok (not (x == 0), src)

-- `netip.ParseAddr` is a parameter.
pub read_request : (List ℕ → Option Addr) → Reader Request
read_request parse src = do
  (is_connect, src) ← read_bool src
  (destination, src) ← read_addr_port parse socksaddr_serializer src
  ok (record { is_connect = is_connect; destination = destination }, src)

pub encode_request : Alloc → Request → Outcome Buffer
encode_request get request = do
  buffer ← must (
      write_all (bool_byte request.is_connect ∷ [])
        (new_size get (1 + addr_port_len socksaddr_serializer request.destination)))
  write_addr_port socksaddr_serializer request.destination buffer

pub write_request : Alloc → Request → Outcome (List ℕ)
unfolding encode_request
write_request get request = do buffer ← encode_request get request; bytes buffer
