-- ===== src/Uot/Server.antt =====
-- common/uot/server.go: the server's loop from the stream to the packet connection.
pub mod Runs
pub mod Frames
pub mod Outputs
use sing.Common.{
  ◌%◌, ◌++◌, not, ℕ, zero, suc, ◌+◌, ◌-◌, Bool, true, false, List, [], ◌∷◌, Option, none, some,
  length, ◌==◌, if◌then◌else◌,
}
use sing.Common.Outcome.{broken, Outcome, ok, err, panic, ◌>>=◌}
use sing.Buf.{Buffer, Alloc, new_packet, reset, bytes, read_full_from}
use sing.Netip.{Addr}
use sing.Stream.{Reader, read_uint16, uint16_bytes}
use sing.Metadata.{Socksaddr, no_addr, is_domain}
use sing.Metadata.Serializer.{read_addr_port, write_addr_port_bytes}
use sing.Uot.{addr_parser, Request, read_request}

-- Where a request has the packets go, and the number of packets that the packet connection takes
-- before it breaks.
pub record ServerConn : Type 0 where
  pub is_connect : Bool
  pub destination : Socksaddr
  pub writes : ℕ

-- One packet that is written: its bytes and its address.
abbrev pub Packet : Type 0
Packet = List ℕ × Socksaddr

-- What a turn of the loop leaves: the buffer, the stream, and the packet that it wrote, none where
-- the name of the destination was not resolved.
pub record Turn : Type 0 where
  pub buffer : Buffer
  pub src : List ℕ
  pub packet : Option Packet

abbrev pub after_packet : ServerConn → Option Packet → ServerConn
after_packet c none = c
after_packet c (some p) = record c { writes = c.writes - 1 }

abbrev pub in_front :
    Option Packet → Option (Outcome (List Packet)) → Option (Outcome (List Packet))
in_front none rest = rest
in_front (some p) none = none
in_front (some p) (some (ok ps)) = some (ok (p ∷ ps))
in_front (some p) (some (err e)) = some (err e)
in_front (some p) (some panic) = some panic

abbrev pub continue_with :
    Outcome Turn → (Turn → Option (Outcome (List Packet))) → Option (Outcome (List Packet))
continue_with o next = elim o [ err e ↦ some (ok []) | panic ↦ some panic | ok t ↦ next t ]

-- `netip.ParseAddr` and `net.ResolveUDPAddr` of an address's string are parameters.
module _ (parse : List ℕ → Option Addr) (resolve : Socksaddr → Option Socksaddr) where
  abbrev pub read_destination : ServerConn → Reader Socksaddr
  read_destination c src =
      if c.is_connect then ok (c.destination, src) else read_addr_port parse addr_parser src

  abbrev pub resolved : Socksaddr → Option Socksaddr
  resolved destination = if is_domain destination then resolve destination else some destination

  -- The rest of a turn, to a resolved destination.
  abbrev pub forward : ServerConn → Buffer → Socksaddr → List ℕ → Outcome Turn
  forward c buffer destination src = do
    (n, src) ← read_uint16 src
    (buffer, src) ← read_full_from n (reset buffer) src
    p ← bytes buffer
    (if c.writes == 0
        then err broken
        else ok (record { buffer = buffer; src = src; packet = some (p, destination) }))

  -- A name that is not resolved is a `continue`.
  abbrev pub deliver : ServerConn → Buffer → List ℕ → Option Socksaddr → Outcome Turn
  deliver c buffer src none = ok (record { buffer = buffer; src = src; packet = none })
  deliver c buffer src (some address) = forward c buffer address src

  -- An error is a `break`.
  pub turn : ServerConn → Buffer → List ℕ → Outcome Turn
  turn c buffer src = do
    (destination, src) ← read_destination c src
    deliver c buffer src (resolved destination)

  -- The loop, for at most so many turns: `none` where they are not enough, else the packets that
  -- were written up to the `break`.
  pub loop : ℕ → ServerConn → Buffer → List ℕ → Option (Outcome (List Packet))
  unfolding turn
  loop zero c buffer src = none
  loop (suc turns) c buffer src =
      continue_with (turn c buffer src)
        (λ t. in_front t.packet (loop turns (after_packet c t.packet) t.buffer t.src))

  -- `loopInput`
  pub loop_input : Alloc → ℕ → ℕ → ℕ → List ℕ → Option (Outcome (List Packet))
  unfolding loop
  loop_input get version writes turns src =
      if version == 2
      then (elim (read_request parse src) [
        | err e ↦ some (ok [])
        | panic ↦ some panic
        | ok (request, src) ↦
            loop turns
              (record {
                is_connect = request.is_connect;
                destination = request.destination;
                writes = writes;
              })
              (new_packet get) src
      ])
      else loop turns (record { is_connect = false; destination = no_addr; writes = writes })
          (new_packet get) src

-- A turn of `loopOutput` on a packet that the packet connection received: the writes to the stream.
pub output : Alloc → Bool → Packet → Outcome (List (List ℕ))
output get is_connect (p, source) = do
  address ←
      (if not is_connect
        then (do w ← write_addr_port_bytes addr_parser get source; ok (w ∷ []))
        else ok [])
  ok (address ++ (uint16_bytes (length p % 65536) ∷ p ∷ []))
