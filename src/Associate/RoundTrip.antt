-- ===== src/Associate/RoundTrip.antt =====
-- A packet that is written is read back, from a slice and in a buffer.
use sing.Common.{
  ℕ, ◌+◌, ◌<◌, ◌≡◌, sym, ◌∙◌, true, false, List, ◌∷◌, ◌++◌, Option, length, ltb, arith,
  length-append, inr, replicate,
}
use sing.Common.Outcome.{ok, >>=_assoc}
use sing.Buf.{Alloc, new_size, bytes}
use sing.Buf.Bytes.{Serves}
use sing.Buf.Emit.{
  Emits, Emits-bind, Emits-must, Emits-write_zero_n, Emits-write, new_size-Emits, write_all,
}
use sing.Netip.{Addr}
use sing.Metadata.{Socksaddr, udp_addr, is_valid}
use sing.Metadata.Serializer.{socksaddr_serializer, family_of}
use sing.Metadata.Serializer.Wire.{
  Fits, addr_port_wire, write_addr_port-Emits, addr_port_len_lem, socksaddr_serializer-family,
}
use sing.Metadata.Serializer.RoundTrip.{Parses, canonical, read_addr_port-wire}
use sing.Associate.{AssociatePacketConn, header_len, write_header, write_to, read_from}

-- The header of RFC 1928: no fragment, the address and the port.
abbrev pub header_wire : Socksaddr → List ℕ
header_wire d = 0 ∷ 0 ∷ 0 ∷ addr_port_wire socksaddr_serializer (family_of d) d

module _ (d : Socksaddr) (fits : Fits d) (valid : is_valid d ≡ true) where
  pub write_header-Emits : Emits (write_header d) (header_wire d)
  write_header-Emits =
      Emits-bind (replicate 3 0) (addr_port_wire socksaddr_serializer (family_of d) d)
        (Emits-must _ (Emits-write_zero_n 3))
        (write_addr_port-Emits socksaddr_serializer d fits (family_of d)
          ((socksaddr_serializer-family d).0 valid).0)

  pub header_len_lem : length (header_wire d) ≡ header_len d
  header_len_lem =
      omega (arith, addr_port_len_lem socksaddr_serializer d fits (family_of d) (inr valid))

  pub write_to_lem :
      (get : Alloc) (p : List ℕ) → Serves get → write_to get p d ≡ ok (header_wire d ++ p)
  unfolding write_to
  write_to_lem get p serves =
      sym (>>=_assoc (write_header d (new_size get (header_len d + length p))) (write_all p) bytes)
      ∙ new_size-Emits get (header_len d + length p) (header_wire d ++ p) serves
          (Emits-bind (header_wire d) p write_header-Emits (Emits-write p))
          (omega (arith, header_len_lem, length-append (header_wire d) p))

-- With a parser of addresses that keeps its promises and an allocator that serves what it is asked
-- for: a packet for a valid destination that fits, with a port of 16 bits, is written without error
-- or panic as one datagram, which is read as the same packet, with, as a UDP address, without a name,
-- the destination in canonical form. Whole, with its name, that is the remote address then.
pub associate_read_from-write_to :
    (parse : List ℕ → Option Addr)
    → Parses parse
    → (get : Alloc) → Serves get
    → (c : AssociatePacketConn) (p : List ℕ) (d : Socksaddr) → Fits d
    → is_valid d ≡ true
    → d.port < 65536
    → (w : List ℕ) × (write_to get p d ≡ ok w)
      × (read_from parse c w
          ≡ ok (
            (p, udp_addr (canonical parse socksaddr_serializer d)),
            record { remote_addr = canonical parse socksaddr_serializer d },
          ))
unfolding read_from
associate_read_from-write_to parse promise get serves c p d fits valid port = (
  header_wire d ++ p,
  write_to_lem d fits valid get p serves,
  rw (
    long_enough,
    read_addr_port-wire parse socksaddr_serializer d fits.0 (family_of d) p promise
        ((socksaddr_serializer-family d).0 valid).1 port,
  ),
)
  where
    long_enough : ltb (length (header_wire d ++ p)) 3 ≡ false
    long_enough = ground arith
