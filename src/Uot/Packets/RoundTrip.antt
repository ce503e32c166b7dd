-- ===== src/Uot/Packets/RoundTrip.antt =====
-- A packet that is written as a frame is read back.
use sing.Common.{
  ℕ, ◌+◌, ◌%◌, ◌≤◌, ◌<◌, ◌≡◌, ap, ◌∙◌, subst, Bool, true, false, not, List, [], ◌∷◌, ◌++◌, Option,
  some, length, ltb, if◌then◌else◌, arith, append_assoc, append-nil, length-append, Bool-cases, inl,
  inr,
}
use sing.Common.Outcome.{ok, ◌>>=◌}
use sing.Buf.{Buffer, Alloc}
use sing.Buf.Bytes.{Serves, IsValid, contents, room, bytes-contents}
use sing.Buf.Writes.{Appends}
use sing.Buf.Fills.{read_full_from_lem}
use sing.Buf.Emit.{Emits, Emits-nil, Emits-bind, Emits-must, Emits-if, Emits-write, new_size-run}
use sing.Netip
use sing.Netip.{Addr}
use sing.Stream.{read_full-append, read_uint16-bytes, uint16_bytes}
use sing.Metadata.{Socksaddr, udp_addr, is_valid, is_ipv4, is_ipv6}
use sing.Metadata.Serializer.{family_of}
use sing.Metadata.Serializer.Wire.{Fits, addr_port_wire, write_addr_port-Emits, addr_port_len_lem}
use sing.Metadata.Serializer.RoundTrip.{Parses, canonical, read_addr_port-wire}
use sing.Uot.{addr_parser}
use sing.Uot.Packets.{
  Conn, write_header, write_behind, header_len, write_frame, write_to, read_header, read_from,
  read_packet,
}

-- The byte of a family in these frames.
abbrev pub parser_byte : Socksaddr → ℕ
parser_byte a = if is_ipv4 a then 0 else if is_ipv6 a then 1 else 2

pub addr_parser-family :
    (a : Socksaddr)
    → is_valid a ≡ true
    → (addr_parser.family_byte_map (family_of a) ≡ some (parser_byte a))
      × (addr_parser.family_map (parser_byte a) ≡ some (family_of a))
unfolding addr_parser is_valid is_ipv4 is_ipv6
addr_parser-family a valid = ground (arith, valid)

abbrev pub address_wire : Conn → Socksaddr → List ℕ
address_wire c d = if not c.is_connect then addr_port_wire addr_parser (parser_byte d) d else []

abbrev pub frame_wire : Conn → Socksaddr → List ℕ → List ℕ
frame_wire c d p = (address_wire c d ++ uint16_bytes (length p)) ++ p

-- What goes out of several buffers.
abbrev pub join : List (List ℕ) → List ℕ
join [] = []
join (w ∷ ws) = w ++ join ws

write_behind_lem :
    (vectorised : Bool) (p : List ℕ) (b : Buffer) (header : List ℕ)
    → IsValid b
    → contents b ≡ header
    → (if vectorised then 0 else length p) ≤ room b
    → (ws : List (List ℕ)) × (write_behind vectorised p b ≡ ok ws) × (join ws ≡ header ++ p)
write_behind_lem true p b header v e h = (
  header ∷ p ∷ [],
  rw ((bytes-contents v).0) (ap (λ x. ok (x ∷ p ∷ [])) e),
  ap (λ s. header ++ s) (append-nil p),
)
write_behind_lem false p b header v e h =
    let (b', w, a) = Emits-write p b v h in
    (
      (header ++ p) ∷ [],
      rw w (
          rw ((bytes-contents a.valid).0)
            (ap (λ x. ok (x ∷ [])) (a.appended ∙ ap (λ s. s ++ p) e))),
      append-nil (header ++ p),
    )

module _ (get : Alloc) (serves : Serves get) (c : Conn) (d : Socksaddr) (fits : Fits d)
    (valid : is_valid d ≡ true) where
  write_header-Emits :
      (n : ℕ) → n < 65536 → Emits (write_header c d n) (address_wire c d ++ uint16_bytes n)
  write_header-Emits n h =
      subst (λ k. Emits (write_header c d n) (address_wire c d ++ uint16_bytes k)) (omega arith)
        (Emits-bind (address_wire c d) (uint16_bytes (n % 65536))
          (Emits-if (not c.is_connect) (addr_port_wire addr_parser (parser_byte d) d) []
            (write_addr_port-Emits addr_parser d fits (parser_byte d)
              (addr_parser-family d valid).0)
            Emits-nil)
          (Emits-must _ (Emits-write (uint16_bytes (n % 65536)))))

  header_len_lem :
      (p : List ℕ)
      → length (address_wire c d ++ uint16_bytes (length p))
          + (if c.vectorised then 0 else length p)
        ≡ header_len c d (length p)
  header_len_lem p = ground (
    arith,
    length-append (address_wire c d) (uint16_bytes (length p)),
    addr_port_len_lem addr_parser d fits (parser_byte d) (inr valid),
  )

  write_to_lem :
      (p : List ℕ)
      → length p < 65536
      → (ws : List (List ℕ)) × (write_to get c p d ≡ ok ws) × (join ws ≡ frame_wire c d p)
  unfolding write_to write_frame
  write_to_lem p h =
      let header = address_wire c d ++ uint16_bytes (length p) in
      let (b, w, v, e, r) =
        new_size-run get (header_len c d (length p)) header serves (write_header-Emits (length p) h)
          (omega (arith, header_len_lem p)) in
      let (ws, written, joined) =
        write_behind_lem c.vectorised p b header v e (omega (arith, header_len_lem p, r)) in
      (ws, ap (λ m. m >>= write_behind c.vectorised p) w ∙ written, joined)

-- What is read in front of a packet.
read_header-wire :
    (parse : List ℕ → Option Addr) (c : Conn) (d : Socksaddr) (n : ℕ) (rest : List ℕ)
    → Parses parse
    → Netip.IsSized d.addr
    → is_valid d ≡ true
    → d.port < 65536
    → n < 65536
    → read_header parse c ((address_wire c d ++ uint16_bytes n) ++ rest)
      ≡ ok ((if c.is_connect then c.destination else canonical parse addr_parser d, n), rest)
read_header-wire parse c d n rest promise sized valid port h = elim (Bool-cases c.is_connect) [
  | inl connected ↦ rw (connected, read_uint16-bytes n rest h)
  | inr packets ↦ rw (
    packets,
    append_assoc (addr_port_wire addr_parser (parser_byte d) d) (uint16_bytes n) rest,
    read_addr_port-wire parse addr_parser d sized (parser_byte d) (uint16_bytes n ++ rest) promise
        (addr_parser-family d valid).1 port,
    read_uint16-bytes n rest h,
  )
]

-- The destination that a packet arrives with: that of the connection, or its own.
abbrev pub arrives_at : (List ℕ → Option Addr) → Conn → Socksaddr → Socksaddr
arrives_at parse c d = if c.is_connect then c.destination else canonical parse addr_parser d

pub read_from-frame :
    (parse : List ℕ → Option Addr)
    → Parses parse
    → (c : Conn) (d : Socksaddr) (p : List ℕ) (size : ℕ) (rest : List ℕ) → Fits d
    → is_valid d ≡ true
    → d.port < 65536
    → length p < 65536
    → length p ≤ size
    → read_from parse c size (frame_wire c d p ++ rest)
      ≡ ok ((p, udp_addr (arrives_at parse c d)), rest)
unfolding read_from
read_from-frame parse promise c d p size rest fits valid port h k = rw (
  append_assoc (address_wire c d ++ uint16_bytes (length p)) p rest,
  read_header-wire parse c d (length p) (p ++ rest) promise fits.0 valid port h,
  fits_in,
  read_full-append p rest,
)
  where
    fits_in : ltb size (length p) ≡ false
    fits_in = ground arith

read_packet-frame :
    (parse : List ℕ → Option Addr)
    → Parses parse
    → (c : Conn) (d : Socksaddr) (p : List ℕ) (b : Buffer) (rest : List ℕ) → Fits d
    → is_valid d ≡ true
    → d.port < 65536
    → length p < 65536
    → IsValid b
    → length p ≤ room b
    → (b' : Buffer) × (read_packet parse c b (frame_wire c d p ++ rest)
        ≡ ok ((b', arrives_at parse c d), rest))
      × Appends b p b'
unfolding read_packet
read_packet-frame parse promise c d p b rest fits valid port h v k =
    let (b', e, a, _, _) = read_full_from_lem p rest v k in
    (
      b',
      rw (
        append_assoc (address_wire c d ++ uint16_bytes (length p)) p rest,
        read_header-wire parse c d (length p) (p ++ rest) promise fits.0 valid port h,
        e,
      ),
      a,
    )

-- With a parser of addresses that keeps its promises and an allocator that serves what it is asked
-- for: a packet of less than 65536 bytes for a valid destination that fits, with a port of 16 bits,
-- is written without error or panic, with or without a vectorised writer. What is written, in front
-- of any bytes, is read up to those bytes, in two ways. `ReadFrom` into a slice that is long enough
-- returns the packet and, as a UDP address, without a name, the destination in canonical form, or
-- that of the connection if it is connected. `ReadPacket` appends the packet to a valid buffer that
-- has room for it and returns that destination whole, with its name.
pub read_from-write_to :
    (parse : List ℕ → Option Addr)
    → Parses parse
    → (get : Alloc) → Serves get
    → (c : Conn) (d : Socksaddr) (p : List ℕ) (size : ℕ) (b : Buffer) → Fits d
    → is_valid d ≡ true
    → d.port < 65536
    → length p < 65536
    → length p ≤ size
    → IsValid b
    → length p ≤ room b
    → (ws : List (List ℕ)) × (write_to get c p d ≡ ok ws)
      × ((rest : List ℕ)
          → read_from parse c size (join ws ++ rest)
            ≡ ok ((p, udp_addr (arrives_at parse c d)), rest))
      × ((rest : List ℕ)
          → (b' : Buffer) × (read_packet parse c b (join ws ++ rest)
              ≡ ok ((b', arrives_at parse c d), rest))
            × Appends b p b')
read_from-write_to parse promise get serves c d p size b fits valid port h k v l =
    let (ws, w, j) = write_to_lem get serves c d fits valid p h in
    (
      ws,
      w,
      λ rest.
          ap (λ s. read_from parse c size (s ++ rest)) j
          ∙ read_from-frame parse promise c d p size rest fits valid port h k,
      λ rest.
          let (b', e, a) = read_packet-frame parse promise c d p b rest fits valid port h v l in
          (b', ap (λ s. read_packet parse c b (s ++ rest)) j ∙ e, a),
    )
