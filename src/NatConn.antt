-- ===== src/NatConn.antt =====
-- common/bufio/nat.go: packet connections that put one destination in the place of another.
pub mod Laws
mod Tests
use sing.Common.{
  ℕ, Bool, true, false, ◌||◌, not, List, [], ◌∷◌, length, ℕ_discrete, ◌==◌, if◌then◌else◌,
}
use sing.Common.Outcome.{invalid_argument, Outcome, ok, err, ◌>>=◌}
use sing.Netip.{Addr, invalid, v4, v6}
use sing.Metadata.{Socksaddr, UdpAddr, udp_addr}
use mathlib.Core.Logic.{ite}

-- `==` on addresses, and on `Socksaddr` with all its fields.
pub Addr-discrete : Discrete Addr
Addr-discrete = hlevel (ℕ_discrete)

pub Socksaddr-discrete : Discrete Socksaddr
Socksaddr-discrete = hlevel (ℕ_discrete, Addr-discrete)

-- A packet connection, with the state `S` of all that stands behind it: a packet is its bytes. The
-- address that `ReadFrom` returns is what `SocksaddrFromNet` makes of it.
pub record PacketConn (S : Type 0) : Type 0 where
  pub read_packet : S → Outcome ((List ℕ × Socksaddr) × S)
  pub write_packet : List ℕ → Socksaddr → S → Outcome S
  pub read_from : S → Outcome ((List ℕ × Socksaddr) × S)
  pub write_to : List ℕ → UdpAddr → S → Outcome S

-- `socksaddrWithoutPort`
abbrev pub without_port : Socksaddr → Socksaddr
without_port d = record d { port = 0 }

-- What the three types of connections hold.
pub record NatConn : Type 0 where
  pub origin : Socksaddr
  pub destination : Socksaddr

-- `NewUnidirectionalNATPacketConn` and `NewNATPacketConn`
pub new_nat_conn : Socksaddr → Socksaddr → NatConn
new_nat_conn origin destination = record {
  origin = without_port origin;
  destination = without_port destination;
}

pub new_destination_nat_conn : Socksaddr → Socksaddr → NatConn
new_destination_nat_conn origin destination = record { origin = origin; destination = destination }

-- `from` without regard to the port is replaced by `to`, with the port kept.
abbrev pub replace_host : Socksaddr → Socksaddr → Socksaddr → Socksaddr
replace_host from to d =
    ite (Socksaddr-discrete (without_port d) from)
      (record { addr = to.addr; fqdn = to.fqdn; port = d.port }) d

abbrev pub replace_whole : Socksaddr → Socksaddr → Socksaddr → Socksaddr
replace_whole from to d = ite (Socksaddr-discrete d from) to d

-- `UpdateDestination` of all three.
pub update_destination : Addr → NatConn → NatConn
update_destination address c = record c {
  destination = record { addr = address; fqdn = []; port = c.destination.port };
}

module _ {S : Type 0} (below : PacketConn S) where
  -- `WritePacket` of the first two.
  pub write_packet : NatConn → List ℕ → Socksaddr → S → Outcome S
  write_packet c p destination s =
      below.write_packet p (replace_host c.destination c.origin destination) s

  -- `ReadPacket` of the bidirectional one; the unidirectional one has that below.
  pub read_packet : NatConn → S → Outcome ((List ℕ × Socksaddr) × S)
  read_packet c s = do
    ((p, destination), s) ← below.read_packet s
    ok ((p, replace_host c.origin c.destination destination), s)

  -- `WriteTo` of the first two, with the address as `SocksaddrFromNet` gives it. What is passed on is a
  -- UDP address, which has no name.
  pub write_to : NatConn → List ℕ → Socksaddr → S → Outcome S
  write_to c p destination s =
      below.write_to p (udp_addr (replace_host c.destination c.origin destination)) s

  -- `ReadFrom` of the bidirectional one, with the address that it returns.
  pub read_from : NatConn → S → Outcome ((List ℕ × UdpAddr) × S)
  read_from c s = do
    ((p, destination), s) ← below.read_from s
    ok ((p, udp_addr (replace_host c.origin c.destination destination)), s)

  pub destination_write_packet : NatConn → List ℕ → Socksaddr → S → Outcome S
  destination_write_packet c p destination s =
      below.write_packet p (replace_whole c.destination c.origin destination) s

  pub destination_read_packet : NatConn → S → Outcome ((List ℕ × Socksaddr) × S)
  destination_read_packet c s = do
    ((p, destination), s) ← below.read_packet s
    ok ((p, replace_whole c.origin c.destination destination), s)

-- A batch writer below: the packets and their destinations.
abbrev pub BatchWriter : Type 0 → Type 0
BatchWriter S = List (List ℕ) → List Socksaddr → S → Outcome S

-- The loop over the destinations, which replaces them in place.
pub replace_all : (Socksaddr → Socksaddr) → List Socksaddr → List Socksaddr
replace_all f [] = []
replace_all f (d ∷ ds) = f d ∷ replace_all f ds

module _ {S : Type 0} (writer : BatchWriter S) where
  abbrev pub write_batch_with :
      (Socksaddr → Socksaddr) → List (List ℕ) → List Socksaddr → S → Outcome S
  write_batch_with f buffers destinations s =
      if length buffers == 0 || not (length buffers == length destinations)
      then err invalid_argument
      else writer buffers (replace_all f destinations) s

  -- `WritePacketBatch` of the first two, and of the last.
  pub write_packet_batch : NatConn → List (List ℕ) → List Socksaddr → S → Outcome S
  unfolding replace_all
  write_packet_batch c = write_batch_with (replace_host c.destination c.origin)

  pub destination_write_packet_batch : NatConn → List (List ℕ) → List Socksaddr → S → Outcome S
  unfolding replace_all
  destination_write_packet_batch c = write_batch_with (replace_whole c.destination c.origin)
