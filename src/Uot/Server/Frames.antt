-- ===== src/Uot/Server/Frames.antt =====
-- What the server's loop makes of the frames that a client writes.
use sing.Common.{
  ℕ, zero, suc, ◌-◌, ◌≤◌, ◌<◌, ◌≡◌, refl, ap, ◌∙◌, true, false, List, [], ◌∷◌, ◌++◌, Option, none,
  some, length, ◌==◌, arith, append_assoc,
}
use sing.Common.Outcome.{ok}
use sing.Buf.{Buffer}
use sing.Buf.Bytes.{bytes-contents}
use sing.Buf.Fills.{read_full_from_lem, reset_lem}
use sing.Netip.{Addr}
use sing.Stream.{read_uint16-bytes, uint16_bytes}
use sing.Metadata.{Socksaddr, is_valid}
use sing.Metadata.Serializer.{read_addr_port}
use sing.Metadata.Serializer.Wire.{Fits, addr_port_wire}
use sing.Metadata.Serializer.RoundTrip.{Parses, canonical, read_addr_port-wire, read_addr_port-nil}
use sing.Uot.{addr_parser}
use sing.Uot.Packets.{Conn}
use sing.Uot.Packets.RoundTrip.{frame_wire, parser_byte, addr_parser-family}
use sing.Uot.Server.{
  ServerConn, Packet, read_destination, resolved, forward, after_packet, in_front, continue_with,
  turn, loop,
}
use sing.Uot.Server.Runs.{turn_of}

-- A buffer's array holds its slice of at least `n` bytes.
pub record Holds (n : ℕ) (b : Buffer) : Type 0 where
  pub large : n ≤ b.raw_len
  pub backed : b.raw_len ≤ length b.raw

module _ (parse : List ℕ → Option Addr) (resolve : Socksaddr → Option Socksaddr) where
  forward_lem :
      (c : ServerConn) (b : Buffer) (a : Socksaddr) (p rest : List ℕ) (n : ℕ)
      → length p < 65536
      → length p ≤ n
      → Holds n b
      → 0 < c.writes
      → (b' : Buffer) × (forward parse resolve c b a (uint16_bytes (length p) ++ (p ++ rest))
          ≡ ok (record { buffer = b'; src = rest; packet = some (p, a) }))
        × Holds n b'
  forward_lem c b a p rest n h k holds open_still =
      let (v, empty, room, len_kept, raw_kept) = reset_lem b holds.backed in
      let (b', filled, appends, same_len, same_raw) =
        read_full_from_lem p rest v (omega (arith, room, holds.large)) in
      (
        b',
        rw (read_uint16-bytes (length p) (p ++ rest) h, filled)
            (rw ((bytes-contents appends.valid).0) (rw (appends.appended, empty, not_broken) refl)),
        record {
          large = omega (arith, same_len, len_kept, holds.large);
          backed = omega (arith, same_len, same_raw, len_kept, raw_kept, holds.backed);
        },
      )
    where
      not_broken : (c.writes == 0) ≡ false
      not_broken = ground arith

  read_destination-wire :
      (s : ServerConn) (c : Conn) (d : Socksaddr) (p rest : List ℕ)
      → Parses parse
      → s.is_connect ≡ false
      → c.is_connect ≡ false
      → Fits d
      → is_valid d ≡ true
      → d.port < 65536
      → read_destination parse resolve s (frame_wire c d p ++ rest)
        ≡ ok (canonical parse addr_parser d, uint16_bytes (length p) ++ (p ++ rest))
  read_destination-wire s c d p rest promise datagrams datagrams' fits valid port =
      rw (datagrams, datagrams')
        (ap (read_addr_port parse addr_parser) (
            append_assoc (wire ++ uint16_bytes (length p)) p rest
            ∙ append_assoc wire (uint16_bytes (length p)) (p ++ rest))
          ∙ read_addr_port-wire parse addr_parser d fits.0 (parser_byte d) _ promise
              (addr_parser-family d valid).1 port)
    where
      wire : List ℕ
      wire = addr_port_wire addr_parser (parser_byte d) d

  -- A packet that the loop can take: it fits the header and a buffer of `n` bytes, and its address
  -- fits and is resolved to `address`.
  pub record Sendable (n : ℕ) (address : Socksaddr → Socksaddr) (packet : Packet) : Type 0 where
    pub short : length (packet.0) < 65536
    pub held : length (packet.0) ≤ n
    pub address_fits : Fits packet.1
    pub address_valid : is_valid packet.1 ≡ true
    pub port_small : packet.1.port < 65536
    pub known :
        resolved parse resolve (canonical parse addr_parser packet.1) ≡ some (address packet.1)

  abbrev pub AllSendable : ℕ → (Socksaddr → Socksaddr) → List Packet → Type 0
  AllSendable n address [] = Unit {0}
  AllSendable n address (packet ∷ packets) =
      Sendable n address packet × AllSendable n address packets

  turn-packet :
      (s : ServerConn) (c : Conn) (b : Buffer) (packet : Packet) (rest : List ℕ) (n : ℕ)
      (address : Socksaddr → Socksaddr)
      → Parses parse
      → s.is_connect ≡ false
      → c.is_connect ≡ false
      → Holds n b
      → 0 < s.writes
      → Sendable n address packet
      → (b' : Buffer) × (turn parse resolve s b (frame_wire c packet.1 packet.0 ++ rest)
          ≡ ok (record { buffer = b'; src = rest; packet = some (packet.0, address packet.1) }))
        × Holds n b'
  turn-packet s c b packet rest n address promise datagrams datagrams' holds open_still can =
      let (b', e, holds') =
        forward_lem s b (address packet.1) packet.0 rest n can.short can.held holds open_still in
      (
        b',
        turn_of parse resolve s b _ _ (canonical parse addr_parser packet.1)
              (some (address packet.1))
              (read_destination-wire s c packet.1 packet.0 rest promise datagrams datagrams'
                can.address_fits can.address_valid can.port_small)
              can.known
            ∙ e,
        holds',
      )

  -- With a parser of addresses that keeps its promises and a server that is not connected: a packet
  -- for a valid destination that fits, but that is not resolved, is not skipped as a whole. The turn
  -- returns no packet and takes only the address off the stream: the packet's length and its bytes are
  -- what comes next.
  pub turn-unresolved :
      (s : ServerConn) (c : Conn) (b : Buffer) (d : Socksaddr) (p rest : List ℕ)
      → Parses parse
      → s.is_connect ≡ false
      → c.is_connect ≡ false
      → Fits d
      → is_valid d ≡ true
      → d.port < 65536
      → resolved parse resolve (canonical parse addr_parser d) ≡ none
      → turn parse resolve s b (frame_wire c d p ++ rest)
        ≡ ok (record { buffer = b; src = uint16_bytes (length p) ++ (p ++ rest); packet = none })
  turn-unresolved s c b d p rest promise datagrams datagrams' fits valid port lost =
      turn_of parse resolve s b _ _ (canonical parse addr_parser d) none
        (read_destination-wire s c d p rest promise datagrams datagrams' fits valid port) lost

  -- The frames of the packets, one behind another, and the packets with their resolved addresses.
  abbrev pub frames : Conn → List Packet → List ℕ
  frames c [] = []
  frames c (packet ∷ packets) = frame_wire c packet.1 packet.0 ++ frames c packets

  abbrev pub addressed : (Socksaddr → Socksaddr) → List Packet → List Packet
  addressed address [] = []
  addressed address (packet ∷ packets) = (packet.0, address packet.1) ∷ addressed address packets

  loop-nil :
      (s : ServerConn) (b : Buffer) (turns : ℕ)
      → s.is_connect ≡ false
      → loop parse resolve (suc turns) s b [] ≡ some (ok [])
  unfolding loop turn addr_parser
  loop-nil s b turns datagrams = rw (datagrams, read_addr_port-nil parse addr_parser refl)

  -- With a parser of addresses that keeps its promises, a server that is not connected and a buffer
  -- of at least `n` bytes: from the frames of packets that each fit and whose addresses are resolved,
  -- the loop writes those packets to their addresses, in order and none else, and then ends. It needs
  -- one turn more than there are packets, and a packet connection that takes as many.
  pub loop-frames :
      (packets : List Packet) (s : ServerConn) (c : Conn) (b : Buffer) (turns n : ℕ)
      (address : Socksaddr → Socksaddr)
      → Parses parse
      → s.is_connect ≡ false
      → c.is_connect ≡ false
      → Holds n b
      → AllSendable n address packets
      → length packets ≤ s.writes
      → length packets < turns
      → loop parse resolve turns s b (frames c packets) ≡ some (ok (addressed address packets))
  unfolding loop
  loop-frames packets s c b zero n address promise d d' holds all few enough = absurd (omega arith)
  loop-frames [] s c b (suc turns) n address promise d d' holds all few enough =
      loop-nil s b turns d
  loop-frames (packet ∷ packets) s c b (suc turns) n address promise d d' holds all few enough =
      let (b', e, holds') =
        turn-packet s c b packet (frames c packets) n address promise d d' holds (omega arith)
          all.0 in
      let rest =
        loop-frames packets (record s { writes = s.writes - 1 }) c b' turns n address promise d d'
          holds' all.1 (omega arith) (omega arith) in
      ap
        (λ o. continue_with o (λ t.
          in_front t.packet (loop parse resolve turns (after_packet s t.packet) t.buffer t.src)))
        e
      ∙ ap (in_front (some (packet.0, address packet.1))) rest
