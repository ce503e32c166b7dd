-- ===== src/Associate/Tests.antt =====
-- The theorems on packets at concrete packets.
use sing.Common.{ℕ, ◌≤◌, ◌≡◌, refl, true, List, [], ◌∷◌, ◌++◌, replicate, arith}
use sing.Common.Outcome.{ok}
use sing.Buf.{Buffer, zero_buffer}
use sing.Buf.Bytes.{IsValid, contents}
use sing.Metadata.{udp_addr, no_addr, is_valid}
use sing.Metadata.Serializer.{socksaddr_serializer, addr_port_len, address_len}
use sing.Metadata.Serializer.RoundTrip.{canonical}
use sing.Associate.{AssociatePacketConn, header_len, write_to, write_packet, read_from}
use sing.Associate.RoundTrip.{associate_read_from-write_to}
use sing.Associate.InPlace.{write_packet-eq-write_to}
use sing.Tests.Samples.{sevens, sevens-Serves, no_parse, no_parse-Parses, site, localhost}

abbrev hello : List ℕ
hello = b'h' ∷ b'i' ∷ []

abbrev fresh : AssociatePacketConn
fresh = record { remote_addr = no_addr }

site_valid : is_valid site ≡ true
unfolding is_valid
site_valid = refl

localhost_valid : is_valid localhost ≡ true
unfolding is_valid
localhost_valid = refl

associate_read_from-write_to_example :
    (w : List ℕ) × (write_to sevens hello site ≡ ok w)
    × (read_from no_parse fresh w
        ≡ ok (
          (hello, udp_addr (canonical no_parse socksaddr_serializer site)),
          record { remote_addr = canonical no_parse socksaddr_serializer site },
        ))
associate_read_from-write_to_example =
    associate_read_from-write_to no_parse no_parse-Parses sevens sevens-Serves fresh hello site
      (omega arith) site_valid (omega arith)

-- Twelve bytes in front of the contents "hi".
abbrev roomy : Buffer
roomy = record zero_buffer {
  raw = replicate 12 0 ++ hello;
  raw_len = 14;
  start = 12;
  end = 14;
  capacity = 14;
}

roomy-IsValid : IsValid roomy
roomy-IsValid = omega arith

roomy_room : header_len localhost ≤ roomy.start
unfolding addr_port_len address_len socksaddr_serializer is_valid
roomy_room = omega arith

write_packet-eq-write_to_example :
    write_packet roomy localhost ≡ write_to sevens (contents roomy) localhost
write_packet-eq-write_to_example =
    write_packet-eq-write_to sevens roomy localhost sevens-Serves roomy-IsValid (omega arith)
      localhost_valid roomy_room
