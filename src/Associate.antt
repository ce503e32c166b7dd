-- ===== src/Associate.antt =====
-- protocol/socks/packet.go: packets of a SOCKS 5 UDP association.
pub mod InPlace
pub mod RoundTrip
mod Tests
use sing.Common.{ℕ, ◌+◌, ◌-◌, List, [], ◌∷◌, Option, length, drop, slice, ltb, if◌then◌else◌}
use sing.Common.Outcome.{Error, new, Outcome, ok, err, must, ◌>>=◌}
use sing.Buf.{
  Buffer, Window, Alloc, new_size, with_bytes, bytes, len, advance, extend_header, fill,
  write_zero_n,
}
use sing.Buf.Emit.{write_all}
use sing.Netip.{Addr}
use sing.Metadata.{Socksaddr, UdpAddr, udp_addr}
use sing.Metadata.Serializer.{socksaddr_serializer, addr_port_len, write_addr_port, read_addr_port}

abbrev pub err_invalid_packet : Error
err_invalid_packet = new "socks5: invalid packet"

-- The last address that a packet came from.
pub record AssociatePacketConn : Type 0 where
  pub remote_addr : Socksaddr

abbrev pub header_len : Socksaddr → ℕ
header_len destination = 3 + addr_port_len socksaddr_serializer destination

-- The zeros, the address and the port.
abbrev pub write_header : Socksaddr → Buffer → Outcome Buffer
write_header destination buffer = do
  buffer ← must (write_zero_n 3 buffer)
  write_addr_port socksaddr_serializer destination buffer

-- `WriteTo`, with the address as `SocksaddrFromNet` gives it: the datagram that is written.
pub write_to : Alloc → List ℕ → Socksaddr → Outcome (List ℕ)
write_to get p destination = do
  buffer ← write_header destination (new_size get (header_len destination + length p))
  buffer ← write_all p buffer
  bytes buffer

pub write : Alloc → AssociatePacketConn → List ℕ → Outcome (List ℕ)
unfolding write_to
write get c p = write_to get p c.remote_addr

-- `WritePacket`: the header is written into the buffer's own array, in the window in front of its
-- contents. As a buffer it has the window's length for its capacity.
pub write_packet : Buffer → Socksaddr → Outcome (List ℕ)
write_packet buffer destination = do
  (w, buffer) ← extend_header (header_len destination) buffer
  header ← write_header destination (with_bytes (slice w.lo w.hi buffer.raw) (w.hi - w.lo))
  bytes (fill w header.raw buffer)

-- `netip.ParseAddr` is a parameter.
module _ (parse : List ℕ → Option Addr) where
  -- `ReadFrom`, of a datagram that the connection received, with the address that it returns.
  pub read_from : AssociatePacketConn → List ℕ → Outcome ((List ℕ × UdpAddr) × AssociatePacketConn)
  read_from c packet = if ltb (length packet) 3 then err err_invalid_packet else do
    (destination, src) ← read_addr_port parse socksaddr_serializer (drop 3 packet)
    ok ((src, udp_addr destination), record { remote_addr = destination })

  pub read : AssociatePacketConn → List ℕ → Outcome (List ℕ × AssociatePacketConn)
  unfolding read_from
  read c packet = do ((p, _), c) ← read_from c packet; ok (p, c)

  -- `ReadPacket`, of the buffer that `ReadBuffer` filled. The reads of the address take their bytes
  -- from the front of its contents.
  pub read_packet :
      AssociatePacketConn → Buffer → Outcome ((Buffer × Socksaddr) × AssociatePacketConn)
  read_packet c buffer = if ltb (len buffer) 3 then err err_invalid_packet else do
    let buffer : Buffer = advance 3 buffer
    front ← bytes buffer
    (destination, src) ← read_addr_port parse socksaddr_serializer front
    ok (
      (advance (length front - length src) buffer, destination),
      record { remote_addr = destination },
    )
