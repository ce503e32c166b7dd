-- ===== src/Uot/Tests.antt =====
-- The theorem on requests at a concrete request.
use sing.Common.{[], ◌∷◌, Option, none, some, false, ℕ, ◌≡◌, refl, true, List, ◌++◌, arith}
use sing.Common.Outcome.{ok}
use sing.Metadata.{
  Socksaddr, udp_addr, no_addr, is_valid, is_ip, is_domain, parse_socksaddr_host_port,
  unwrap_ipv6_address,
}
use sing.Metadata.Serializer.RoundTrip.{canonical}
use sing.Uot.{Request}
use sing.Stream.{uint16_bytes}
use sing.Uot.{addr_parser}
use sing.Uot.Packets.{Conn, write_to, read_from, read_packet}
use sing.Buf.{Buffer}
use sing.Buf.Writes.{Appends}
use sing.Uot.Packets.RoundTrip.{join, arrives_at, frame_wire, read_from-write_to}
use sing.Uot.Server.{ServerConn, Packet, resolved, turn, loop, output}
use sing.Uot.Server.Runs.{loop-diverges}
use sing.Uot.Server.Frames.{Sendable, AllSendable, frames, addressed, loop-frames, turn-unresolved}
use sing.Uot.Server.Outputs.{read_from-output}
use sing.Tests.Samples.{
  sevens, sevens-Serves, no_parse, no_parse-Parses, site, localhost, small, small-IsValid,
}

abbrev associated : Request
associated = record { is_connect = true; destination = site }

associated_valid : is_valid site ≡ true
unfolding is_valid
associated_valid = refl

abbrev hello : List ℕ
hello = b'h' ∷ b'i' ∷ []

-- A connection for datagrams, that takes several buffers at once.
abbrev datagrams : Conn
datagrams = record { is_connect = false; destination = no_addr; vectorised = true }

read_from-write_to_example :
    (ws : List (List ℕ)) × (write_to sevens datagrams hello site ≡ ok ws)
    × ((rest : List ℕ)
        → read_from no_parse datagrams 1500 (join ws ++ rest)
          ≡ ok ((hello, udp_addr (arrives_at no_parse datagrams site)), rest))
    × ((rest : List ℕ)
        → (b : Buffer) × (read_packet no_parse datagrams small (join ws ++ rest)
            ≡ ok ((b, arrives_at no_parse datagrams site), rest))
          × Appends small hello b)
read_from-write_to_example =
    read_from-write_to no_parse no_parse-Parses sevens sevens-Serves datagrams site hello 1500 small
      (omega arith) associated_valid (omega arith) (omega arith) (omega arith) small-IsValid
      (omega arith)

-- No name is resolved.
abbrev unresolved : Socksaddr → Option Socksaddr
unresolved a = none

abbrev to_site : ServerConn
to_site = record { is_connect = true; destination = site; writes = 9 }

is_name : is_domain site ≡ true
unfolding is_domain
is_name = refl

loop-diverges_example : loop no_parse unresolved 1000 to_site small hello ≡ none
loop-diverges_example = loop-diverges no_parse unresolved 1000 to_site small hello refl is_name refl

abbrev home : Packet
home = (hello, localhost)

abbrev server : ServerConn
server = record { is_connect = false; destination = no_addr; writes = 2 }

-- The address itself.
abbrev itself : Socksaddr → Socksaddr
itself a = a

home-Sendable : Sendable no_parse unresolved 4 itself home
unfolding is_valid is_ip is_domain addr_parser
home-Sendable = record {
  short = omega arith;
  held = omega arith;
  address_fits = omega arith;
  address_valid = refl;
  port_small = omega arith;
  known = refl;
}

homes-AllSendable : AllSendable no_parse unresolved 4 itself (home ∷ home ∷ [])
homes-AllSendable = (home-Sendable, (home-Sendable, tt))

loop-frames_example :
    loop no_parse unresolved 3 server small
      (frames no_parse unresolved datagrams (home ∷ home ∷ []))
    ≡ some (ok (addressed no_parse unresolved itself (home ∷ home ∷ [])))
loop-frames_example =
    loop-frames no_parse unresolved (home ∷ home ∷ []) server datagrams small 3 4 itself
      no_parse-Parses refl refl (omega arith) homes-AllSendable (omega arith) (omega arith)

site_lost : resolved no_parse unresolved (canonical no_parse addr_parser site) ≡ none
unfolding is_domain parse_socksaddr_host_port unwrap_ipv6_address
site_lost = refl

-- A packet of three bytes for a name that is not resolved: what is left of it.
turn-unresolved_example :
    turn no_parse unresolved server small (frame_wire datagrams site (1 ∷ 2 ∷ 3 ∷ []) ++ [])
    ≡ ok
        (record { buffer = small; src = uint16_bytes 3 ++ ((1 ∷ 2 ∷ 3 ∷ []) ++ []); packet = none })
turn-unresolved_example =
    turn-unresolved no_parse unresolved server datagrams small site (1 ∷ 2 ∷ 3 ∷ []) []
      no_parse-Parses refl refl (omega arith) associated_valid (omega arith) site_lost

home_valid : is_valid localhost ≡ true
unfolding is_valid is_ip is_domain
home_valid = refl

hello-read_from-output :
    (ws : List (List ℕ)) × (output sevens false (hello, localhost) ≡ ok ws)
    × ((rest : List ℕ)
        → read_from no_parse datagrams 1500 (join ws ++ rest)
          ≡ ok ((hello, udp_addr (arrives_at no_parse datagrams localhost)), rest))
hello-read_from-output =
    read_from-output no_parse no_parse-Parses sevens sevens-Serves datagrams localhost hello 1500
      (omega arith) home_valid (omega arith) (omega arith) (omega arith)
