-- ===== src/Uot/Packets.antt =====
-- common/uot/conn.go: packets as frames of a stream.
pub mod RoundTrip
use sing.Common.{
  ℕ, ◌+◌, ◌%◌, Bool, true, false, not, List, [], ◌∷◌, Option, length, ltb, if◌then◌else◌,
}
use sing.Common.Outcome.{short_buffer, cause, Outcome, ok, err, must, ◌>>=◌}
use sing.Buf.{Buffer, Alloc, new_size, bytes, len, read_full_from}
use sing.Buf.Emit.{write_all}
use sing.Netip.{Addr}
use sing.Stream.{Reader, read_full, read_uint16, uint16_bytes}
use sing.Metadata.{Socksaddr, UdpAddr, udp_addr}
use sing.Metadata.Serializer.{addr_port_len, write_addr_port, read_addr_port, with_cause}
use sing.Uot.{addr_parser, Request}

-- `vectorised` says that the connection has a `writer`, which takes several buffers at once.
pub record Conn : Type 0 where
  pub is_connect : Bool
  pub destination : Socksaddr
  pub vectorised : Bool

pub new_conn : Bool → Request → Conn
new_conn vectorised request = record {
  is_connect = request.is_connect;
  destination = request.destination;
  vectorised = vectorised;
}

-- The header of a packet of `n` bytes.
abbrev pub write_header : Conn → Socksaddr → ℕ → Buffer → Outcome Buffer
write_header c destination n buffer = do
  buffer ← if not c.is_connect then write_addr_port addr_parser destination buffer else ok buffer
  must (write_all (uint16_bytes (n % 65536)) buffer)

abbrev pub header_len : Conn → Socksaddr → ℕ → ℕ
header_len c destination n =
    (if not c.is_connect then addr_port_len addr_parser destination else 0)
    + 2
    + (if c.vectorised then 0 else n)

-- The header and the packet's bytes, in one write or as two buffers.
abbrev pub write_behind : Bool → List ℕ → Buffer → Outcome (List (List ℕ))
write_behind vectorised p buffer =
    if vectorised
    then (do header ← bytes buffer; ok (header ∷ p ∷ []))
    else (do buffer ← must (write_all p buffer); all ← bytes buffer; ok (all ∷ []))

-- The packet's bytes `p` are `n`. The buffers that are written, in order.
pub write_frame : Alloc → Conn → Socksaddr → ℕ → List ℕ → Outcome (List (List ℕ))
write_frame get c destination n p = do
  buffer ← write_header c destination n (new_size get (header_len c destination n))
  write_behind c.vectorised p buffer

-- `WriteTo`, with the address as `SocksaddrFromNet` gives it, and `Write`.
pub write_to : Alloc → Conn → List ℕ → Socksaddr → Outcome (List (List ℕ))
unfolding write_frame
write_to get c p destination = write_frame get c destination (length p) p

pub write : Alloc → Conn → List ℕ → Outcome (List (List ℕ))
unfolding write_to
write get c p = write_to get c p c.destination

pub write_packet : Alloc → Conn → Buffer → Socksaddr → Outcome (List (List ℕ))
unfolding write_frame
write_packet get c buffer destination = do
  p ← bytes buffer
  write_frame get c destination (len buffer) p

-- `netip.ParseAddr` is a parameter.
module _ (parse : List ℕ → Option Addr) (c : Conn) where
  -- The address and the length in front of a packet.
  abbrev pub read_header : Reader (Socksaddr × ℕ)
  read_header src = do
    (destination, src) ←
        (if c.is_connect then ok (c.destination, src) else read_addr_port parse addr_parser src)
    (n, src) ← read_uint16 src
    ok ((destination, n), src)

  -- `ReadFrom` into a slice of `size` bytes, with the address that it returns.
  pub read_from : ℕ → Reader (List ℕ × UdpAddr)
  read_from size src = do
    ((destination, n), src) ← read_header src
    (if ltb size n
        then err (cause short_buffer "UoT read")
        else (do (p, src) ← read_full n src; ok ((p, udp_addr destination), src)))

  -- `Read`
  pub read : ℕ → Reader (List ℕ)
  unfolding read_from
  read size src = do ((p, _), src) ← read_from size src; ok (p, src)

  pub read_packet : Buffer → Reader (Buffer × Socksaddr)
  read_packet buffer src = do
    ((destination, n), src) ← read_header src
    (buffer, src) ← with_cause "UoT read" (read_full_from n buffer src)
    ok ((buffer, destination), src)
