-- ===== src/Metadata/Serializer.antt =====
-- common/metadata/serializer.go: socks addresses as bytes.
-- A failed write leaves a part of its bytes in the buffer; every caller then drops the buffer, so
-- `err` carries none.
pub mod Wire
pub mod RoundTrip
use sing.Common.{
  ℕ, ◌+◌, Bool, true, false, ◌&&◌, ◌||◌, List, [], ◌∷◌, Option, none, some, length, ltb, ◌==◌, not,
  if◌then◌else◌,
}
use sing.Common.Outcome.{Error, new, new_byte, cause, Outcome, ok, err, panic, ◌>>=◌}
use Prim.Native.String.{String}
use sing.Buf.{Buffer, Alloc, new_size, bytes, write_byte, write_string}
use sing.Buf.Emit.{write_all, write_string_all}
use sing.Netip
use sing.Netip.{Addr, v4, v6}
use sing.Stream.{Reader, read_full, read_uint8, read_uint16, uint16_bytes}
use sing.Metadata.{
  Socksaddr, no_addr, is_ipv4, is_ipv6, is_valid, unwrap, parse_socksaddr_host_port,
}

-- `Family`
abbrev pub ipv4 : ℕ
ipv4 = 0x01

abbrev pub ipv6 : ℕ
ipv6 = 0x04

abbrev pub fqdn_family : ℕ
fqdn_family = 0x03

abbrev pub empty : ℕ
empty = 0xff

-- The two maps as functions: `none` is a missing key.
pub record Serializer : Type 0 where
  pub family_map : ℕ → Option ℕ
  pub family_byte_map : ℕ → Option ℕ
  pub port_first : Bool

abbrev update : (ℕ → Option ℕ) → ℕ → ℕ → ℕ → Option ℕ
update m k v j = if j == k then some v else m j

unfoldable pub address_family_byte : ℕ → ℕ → Serializer → Serializer
address_family_byte b f s = record s {
  family_map = update s.family_map b f;
  family_byte_map = update s.family_byte_map f b;
}

unfoldable pub port_then_address : Serializer → Serializer
port_then_address s = record s { port_first = true }

abbrev apply_options : Serializer → List (Serializer → Serializer) → Serializer
apply_options s [] = s
apply_options s (o ∷ os) = apply_options (o s) os

unfoldable pub new_serializer : List (Serializer → Serializer) → Serializer
new_serializer options =
    apply_options
      (record { family_map = λ _. none; family_byte_map = λ _. none; port_first = false }) options

-- `SocksaddrSerializer` of socksaddr.go.
unfoldable pub socksaddr_serializer : Serializer
unfolding new_serializer address_family_byte
socksaddr_serializer = new_serializer (
    address_family_byte 0x01 ipv4
    ∷ address_family_byte 0x04 ipv6
    ∷ address_family_byte 0x03 fqdn_family
    ∷ [])

pub write_socks_string : List ℕ → Buffer → Outcome Buffer
write_socks_string str buffer =
    if ltb 255 (length str)
    then err (new "fqdn too long")
    else do buffer ← write_byte (length str) buffer; write_string_all str buffer

pub read_sock_string : Reader (List ℕ)
read_sock_string src = do (str_len, src) ← read_uint8 src; read_full str_len src

-- The family that `WriteAddress` picks.
abbrev pub family_of : Socksaddr → ℕ
family_of addr =
    if not (is_valid addr)
    then empty
    else if is_ipv4 addr
    then ipv4
    else if is_ipv6 addr
    then ipv6
    else fqdn_family

abbrev pub write_family : ℕ → Socksaddr → Buffer → Outcome Buffer
write_family af addr buffer =
    if af == ipv4 || af == ipv6
    then write_all (Netip.as_slice addr.addr) buffer
    else if af == fqdn_family
    then write_socks_string addr.fqdn buffer
    else ok buffer

-- `E.Cause` on the error of a read.
abbrev pub with_cause {ℓ} : {A : Type ℓ} → String → Outcome A → Outcome A
with_cause text (ok a) = ok a
with_cause text (err e) = err (cause e text)
with_cause text panic = panic

module _ (s : Serializer) where
  pub write_address : Socksaddr → Buffer → Outcome Buffer
  unfolding is_valid is_ipv4 is_ipv6
  write_address addr buffer = elim (s.family_byte_map (family_of addr)) [
    | none ↦ err (new "unsupported address")
    | some af_byte ↦ write_byte af_byte buffer >>= write_family (family_of addr) addr
  ]

  unfoldable pub address_len : Socksaddr → ℕ
  unfolding is_valid is_ipv4 is_ipv6
  address_len addr =
      if not (is_valid addr)
      then 1
      else if is_ipv4 addr
      then 5
      else if is_ipv6 addr
      then 17
      else 2 + length addr.fqdn

  unfoldable pub addr_port_len : Socksaddr → ℕ
  addr_port_len destination =
      if is_valid destination then address_len destination + 2 else address_len destination

  -- On a buffer `binary.Write` is one `Write` of two bytes.
  pub write_port : ℕ → Buffer → Outcome Buffer
  write_port port = write_all (uint16_bytes port)

  -- `WriteAddrPort` into a buffer.
  abbrev pub write_first : Socksaddr → Buffer → Outcome Buffer
  write_first destination buffer =
      if not s.port_first
      then write_address destination buffer
      else write_port destination.port buffer

  abbrev pub write_second : Socksaddr → Buffer → Outcome Buffer
  write_second destination buffer =
      if s.port_first
      then write_address destination buffer
      else if is_valid destination
      then write_port destination.port buffer
      else ok buffer

  pub write_addr_port : Socksaddr → Buffer → Outcome Buffer
  write_addr_port destination buffer = write_first destination buffer >>= write_second destination

  -- `WriteAddrPort` to any other writer: the bytes that it is given in its one `Write`.
  pub write_addr_port_bytes : Alloc → Socksaddr → Outcome (List ℕ)
  write_addr_port_bytes get destination = do
    buffer ← write_addr_port destination (new_size get (addr_port_len destination))
    bytes buffer

  pub read_port : Reader ℕ
  read_port src = with_cause "read port" (read_uint16 src)

-- `netip.ParseAddr` is a parameter.
module _ (parse : List ℕ → Option Addr) (s : Serializer) where
  abbrev read_fqdn : Reader Socksaddr
  read_fqdn src = do
    (fqdn, src) ← with_cause "read fqdn" (read_sock_string src)
    ok (parse_socksaddr_host_port parse fqdn 0, src)

  abbrev read_ipv4 : Reader Socksaddr
  read_ipv4 src = do
    (addr, src) ← with_cause "read ipv4 address" (read_full 4 src)
    ok (record no_addr { addr = v4 addr }, src)

  abbrev read_ipv6 : Reader Socksaddr
  read_ipv6 src = do
    (addr, src) ← with_cause "read ipv6 address" (read_full 16 src)
    ok (unwrap (record no_addr { addr = v6 addr [] }), src)

  -- A byte with no family is the family 0.
  abbrev read_family : ℕ → ℕ → Reader Socksaddr
  read_family family af src =
      if family == fqdn_family
      then read_fqdn src
      else if family == ipv4
      then read_ipv4 src
      else if family == ipv6
      then read_ipv6 src
      else if family == empty
      then ok (no_addr, src)
      else err (new_byte "unknown address family: " af)

  pub read_address : Reader Socksaddr
  read_address src = do
    (af, src) ← read_uint8 src
    read_family (elim (s.family_map af) [ none ↦ 0 | some f ↦ f ]) af src

  abbrev pub read_address_first : Reader Socksaddr
  read_address_first src = do
    (addr, src) ← read_address src
    (port, src) ← if is_valid addr then read_port s src else ok (0, src)
    ok (record addr { port = port }, src)

  abbrev pub read_port_first : Reader Socksaddr
  read_port_first src = do
    (port, src) ← read_port s src
    (addr, src) ← read_address src
    ok (record addr { port = port }, src)

  pub read_addr_port : Reader Socksaddr
  read_addr_port src = if not s.port_first then read_address_first src else read_port_first src
