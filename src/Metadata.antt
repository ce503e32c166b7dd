-- ===== src/Metadata.antt =====
-- common/metadata: socks addresses. `addr.go` and `family.go` here, `serializer.go` below.
pub mod Serializer
use sing.Common.{
  ℕ, ◌-◌, Bool, false, ◌&&◌, ◌||◌, List, [], ◌∷◌, Option, none, some, length, get_elem?, slice, ltb,
  ◌==◌, not, if◌then◌else◌,
}
use sing.Netip
use sing.Netip.{Addr, invalid, v4}

-- `Fqdn` by its bytes.
pub record Socksaddr : Type 0 where
  pub addr : Addr
  pub port : ℕ
  pub fqdn : List ℕ

abbrev pub no_addr : Socksaddr
no_addr = record { addr = invalid; port = 0; fqdn = [] }

unfoldable pub is_ip : Socksaddr → Bool
is_ip ap = Netip.is_valid ap.addr

unfoldable pub is_ipv4 : Socksaddr → Bool
is_ipv4 ap = Netip.is4 ap.addr

unfoldable pub is_ipv6 : Socksaddr → Bool
is_ipv6 ap = Netip.is6 ap.addr

unfoldable pub is_domain : Socksaddr → Bool
is_domain ap = not (length ap.fqdn == 0)

unfoldable pub is_valid : Socksaddr → Bool
unfolding is_ip is_domain
is_valid ap = is_ip ap || is_domain ap

unfoldable pub unwrap : Socksaddr → Socksaddr
unwrap ap =
    if Netip.is4_in6 ap.addr
    then record { addr = v4 (Netip.as4 ap.addr); port = ap.port; fqdn = [] }
    else ap

-- `net.UDPAddr`
pub record UdpAddr : Type 0 where
  pub ip : List ℕ
  pub port : ℕ
  pub zone : List ℕ

-- `UDPAddr`, which keeps no name. The check of debug builds is left out.
abbrev pub udp_addr : Socksaddr → UdpAddr
udp_addr ap = record { ip = Netip.as_slice ap.addr; port = ap.port; zone = Netip.zone_of ap.addr }

-- `netip.Addr.String` is a parameter.
unfoldable pub addr_string : (Addr → List ℕ) → Socksaddr → List ℕ
addr_string show ap = if Netip.is_valid ap.addr then show ap.addr else ap.fqdn

abbrev at_is : List ℕ → ℕ → ℕ → Bool
at_is s i c = elim (get_elem? s i) [ none ↦ false | some x ↦ x == c ]

-- Takes the brackets off `[...]`.
unfoldable pub unwrap_ipv6_address : List ℕ → List ℕ
unwrap_ipv6_address s =
    if ltb 2 (length s) && at_is s 0 b'[' && at_is s (length s - 1) b']'
    then slice 1 (length s - 1) s
    else s

-- `netip.ParseAddr` is a parameter: `none` is its error.
unfoldable pub parse_socksaddr_host_port : (List ℕ → Option Addr) → List ℕ → ℕ → Socksaddr
parse_socksaddr_host_port parse host port = elim (parse (unwrap_ipv6_address host)) [
  | none ↦ record { addr = invalid; port = port; fqdn = host }
  | some a ↦ record { addr = a; port = port; fqdn = [] }
]
