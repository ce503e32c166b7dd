-- ===== src/Tests/MetadataTests.antt =====
-- The theorems on the serializer at concrete addresses.
use sing.Common.{◌≡◌, refl, some, [], ◌∷◌, ◌++◌, arith}
use sing.Common.Outcome.{ok}
use sing.Buf.Emit.{Emits}
use sing.Metadata.{is_valid, is_ipv4, is_ipv6}
use sing.Metadata.Serializer.{
  Serializer, family_of, ipv4, fqdn_family, socksaddr_serializer, new_serializer,
  address_family_byte, port_then_address, write_addr_port, read_addr_port,
}
use sing.Metadata.Serializer.Wire.{addr_port_wire, write_addr_port-Emits}
use sing.Metadata.Serializer.RoundTrip.{canonical, read_addr_port-wire}
use sing.Tests.Samples.{localhost, site, no_parse, no_parse-Parses}

-- Port first, as a protocol of its own would have it.
abbrev backwards : Serializer
backwards =
    new_serializer (
      address_family_byte 0x01 ipv4 ∷ address_family_byte 0x02 fqdn_family ∷ port_then_address ∷ [])

site_family : socksaddr_serializer.family_byte_map (family_of site) ≡ some 3
unfolding socksaddr_serializer is_valid is_ipv4 is_ipv6
site_family = refl

site_byte : socksaddr_serializer.family_map 3 ≡ some (family_of site)
unfolding socksaddr_serializer is_valid is_ipv4 is_ipv6
site_byte = refl

wire_site :
    addr_port_wire socksaddr_serializer 3 site
    ≡ 3 ∷ 6 ∷ b'g' ∷ b'o' ∷ b'.' ∷ b'd' ∷ b'e' ∷ b'v' ∷ 1 ∷ 187 ∷ []
unfolding socksaddr_serializer is_valid
wire_site = refl

wire_backwards : addr_port_wire backwards 1 localhost ≡ 4 ∷ 56 ∷ 1 ∷ 127 ∷ 0 ∷ 0 ∷ 1 ∷ []
unfolding new_serializer address_family_byte port_then_address
wire_backwards = refl

write_addr_port-Emits_example :
    Emits (write_addr_port socksaddr_serializer site) (addr_port_wire socksaddr_serializer 3 site)
write_addr_port-Emits_example =
    write_addr_port-Emits socksaddr_serializer site (omega arith) 3 site_family

read_addr_port-wire_example :
    read_addr_port no_parse socksaddr_serializer
      (addr_port_wire socksaddr_serializer 3 site ++ (9 ∷ []))
    ≡ ok (canonical no_parse socksaddr_serializer site, 9 ∷ [])
read_addr_port-wire_example =
    read_addr_port-wire no_parse socksaddr_serializer site tt 3 (9 ∷ []) no_parse-Parses site_byte
      (omega arith)
