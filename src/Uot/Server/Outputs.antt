-- ===== src/Uot/Server/Outputs.antt =====
-- What the server sends back is what the client reads.
use sing.Common.{
  ℕ, ◌%◌, ◌≤◌, ◌<◌, ◌≡◌, sym, ap, ◌∙◌, true, List, [], ◌∷◌, ◌++◌, Option, length, arith,
  append_assoc, append-nil, Bool-cases, inl, inr,
}
use sing.Common.Outcome.{ok}
use sing.Buf.{Alloc}
use sing.Buf.Bytes.{Serves}
use sing.Netip.{Addr}
use sing.Stream.{uint16_bytes}
use sing.Metadata.{Socksaddr, udp_addr, is_valid}
use sing.Metadata.Serializer.Wire.{Fits, addr_port_wire, write_addr_port_bytes_lem}
use sing.Metadata.Serializer.RoundTrip.{Parses}
use sing.Uot.{addr_parser}
use sing.Uot.Packets.{Conn, read_from}
use sing.Uot.Packets.RoundTrip.{
  frame_wire, join, arrives_at, parser_byte, addr_parser-family, read_from-frame,
}
use sing.Uot.Server.{output}

output_lem :
    (get : Alloc) (c : Conn) (d : Socksaddr) (p : List ℕ)
    → Serves get
    → Fits d
    → is_valid d ≡ true
    → length p < 65536
    → (ws : List (List ℕ)) × (output get c.is_connect (p, d) ≡ ok ws) × (join ws ≡ frame_wire c d p)
unfolding output
output_lem get c d p serves fits valid h = elim (Bool-cases c.is_connect) [
  | inl connected ↦ (
    uint16_bytes (length p) ∷ p ∷ [],
    rw connected (ap (λ k. ok (uint16_bytes k ∷ p ∷ [])) same),
    rw connected (ap (λ s. uint16_bytes (length p) ++ s) (append-nil p)),
  )
  | inr packets ↦ (
    wire ∷ uint16_bytes (length p) ∷ p ∷ [],
    rw
        (
          packets,
          write_addr_port_bytes_lem addr_parser d fits get (parser_byte d) serves
              (addr_parser-family d valid).0 (inr valid),
        )
        (ap (λ k. ok (wire ∷ uint16_bytes k ∷ p ∷ [])) same),
    rw packets (
        ap (λ s. wire ++ (uint16_bytes (length p) ++ s)) (append-nil p)
        ∙ sym (append_assoc wire (uint16_bytes (length p)) p)),
  )
]
  where
    wire : List ℕ
    wire = addr_port_wire addr_parser (parser_byte d) d

    same : length p % 65536 ≡ length p
    same = omega arith

-- With a parser of addresses that keeps its promises and an allocator that serves what it is asked
-- for: a packet of less than 65536 bytes from a valid address that fits, with a port of 16 bits, that
-- the server sends back, in front of any bytes, is read by a client with the same setting, into any
-- slice that is long enough, as that packet, with the address in canonical form, or its own
-- destination if it is connected.
pub read_from-output :
    (parse : List ℕ → Option Addr)
    → Parses parse
    → (get : Alloc) → Serves get
    → (c : Conn) (d : Socksaddr) (p : List ℕ) (size : ℕ) → Fits d
    → is_valid d ≡ true
    → d.port < 65536
    → length p < 65536
    → length p ≤ size
    → (ws : List (List ℕ)) × (output get c.is_connect (p, d) ≡ ok ws)
      × ((rest : List ℕ)
          → read_from parse c size (join ws ++ rest)
            ≡ ok ((p, udp_addr (arrives_at parse c d)), rest))
read_from-output parse promise get serves c d p size fits valid port h k =
    let (ws, w, j) = output_lem get c d p serves fits valid h in
    (
      ws,
      w,
      λ rest.
          ap (λ s. read_from parse c size (s ++ rest)) j
          ∙ read_from-frame parse promise c d p size rest fits valid port h k,
    )
