-- ===== src/Socks5.antt =====
-- protocol/socks/socks5/protocol.go: the messages of SOCKS version 5.
-- A message is written by one `Write` of a buffer's contents: a writer returns those bytes.
pub mod Writes
pub mod RoundTrip
use sing.Common.{ℕ, ◌+◌, ◌%◌, Bool, not, List, [], ◌∷◌, Option, length, ◌==◌, if◌then◌else◌}
use sing.Common.Outcome.{new_byte, Outcome, ok, err, must, ◌>>=◌}
use Prim.Native.String.{String}
use sing.Buf.{Buffer, Alloc, new_size, bytes, write_byte, write_zero}
use sing.Buf.Emit.{write_all}
use sing.Netip.{Addr, v4}
use sing.Stream.{Reader, next, read_full}
use sing.Metadata.{Socksaddr, no_addr, is_valid}
use sing.Metadata.Serializer.{
  socksaddr_serializer, write_socks_string, read_sock_string, addr_port_len, write_addr_port,
  read_addr_port,
}

abbrev pub version : ℕ
version = 5

abbrev pub auth_type_not_required : ℕ
auth_type_not_required = 0x00

abbrev pub auth_type_username_password : ℕ
auth_type_username_password = 0x02

abbrev pub auth_type_no_accepted_methods : ℕ
auth_type_no_accepted_methods = 0xff

abbrev pub username_password_status_success : ℕ
username_password_status_success = 0x00

abbrev pub username_password_status_failure : ℕ
username_password_status_failure = 0x01

abbrev pub command_connect : ℕ
command_connect = 0x01

abbrev pub command_udp_associate : ℕ
command_udp_associate = 0x03

abbrev pub reply_code_success : ℕ
reply_code_success = 0

abbrev pub reply_code_unsupported : ℕ
reply_code_unsupported = 7

-- A version byte that is read and compared.
abbrev pub expect : ℕ → String → Reader (Unit {0})
expect v text src = do (x, src) ← next src; if x == v then ok (tt, src) else err (new_byte text x)

pub record AuthRequest : Type 0 where
  pub methods : List ℕ

pub write_auth_request : Alloc → AuthRequest → Outcome (List ℕ)
write_auth_request get request = do
  buffer ← must (do
    b ← write_byte version (new_size get (length request.methods + 2))
    b ← write_byte (length request.methods % 256) b
    write_all request.methods b)
  bytes buffer

pub read_auth_request0 : Reader AuthRequest
read_auth_request0 src = do
  (method_len, src) ← next src
  (methods, src) ← read_full method_len src
  ok (record { methods = methods }, src)

pub read_auth_request : Reader AuthRequest
read_auth_request src = do
  (_, src) ← expect version "expected socks version 5, got " src
  read_auth_request0 src

pub record AuthResponse : Type 0 where
  pub method : ℕ

unfoldable pub write_auth_response : AuthResponse → Outcome (List ℕ)
write_auth_response response = ok (version ∷ response.method ∷ [])

unfoldable pub read_auth_response : Reader AuthResponse
read_auth_response src = do
  (_, src) ← expect version "expected socks version 5, got " src
  (method, src) ← next src
  ok (record { method = method }, src)

pub record UsernamePasswordAuthRequest : Type 0 where
  pub username : List ℕ
  pub password : List ℕ

pub write_username_password_auth_request : Alloc → UsernamePasswordAuthRequest → Outcome (List ℕ)
write_username_password_auth_request get request = do
  buffer ← must (do
    b ← write_byte 1 (new_size get (3 + length request.username + length request.password))
    b ← write_socks_string request.username b
    write_socks_string request.password b)
  bytes buffer

pub read_username_password_auth_request : Reader UsernamePasswordAuthRequest
read_username_password_auth_request src = do
  (_, src) ← expect 1 "excepted password request version 1, got " src
  (username, src) ← read_sock_string src
  (password, src) ← read_sock_string src
  ok (record { username = username; password = password }, src)

pub record UsernamePasswordAuthResponse : Type 0 where
  pub status : ℕ

unfoldable pub write_username_password_auth_response :
    UsernamePasswordAuthResponse → Outcome (List ℕ)
write_username_password_auth_response response = ok (1 ∷ response.status ∷ [])

unfoldable pub read_username_password_auth_response : Reader UsernamePasswordAuthResponse
read_username_password_auth_response src = do
  (_, src) ← expect 1 "excepted password request version 1, got " src
  (status, src) ← next src
  ok (record { status = status }, src)

-- The version, a byte and a zero, in front of an address and its port.
abbrev pub write_head : ℕ → Buffer → Outcome Buffer
write_head x buffer = must (do b ← write_byte version buffer; b ← write_byte x b; write_zero b)

pub record Request : Type 0 where
  pub command : ℕ
  pub destination : Socksaddr

pub write_request : Alloc → Request → Outcome (List ℕ)
write_request get request = do
  buffer ←
      write_head request.command
        (new_size get (3 + addr_port_len socksaddr_serializer request.destination))
  buffer ← write_addr_port socksaddr_serializer request.destination buffer
  bytes buffer

pub record Response : Type 0 where
  pub reply_code : ℕ
  pub bind : Socksaddr

-- `netip.IPv4Unspecified()` in place of no address.
pub bind_of : Response → Socksaddr
bind_of response =
    if is_valid response.bind
    then response.bind
    else record no_addr { addr = v4 (0 ∷ 0 ∷ 0 ∷ 0 ∷ []) }

pub write_response : Alloc → Response → Outcome (List ℕ)
write_response get response = do
  buffer ←
      write_head response.reply_code
        (new_size get (3 + addr_port_len socksaddr_serializer (bind_of response)))
  buffer ← write_addr_port socksaddr_serializer (bind_of response) buffer
  bytes buffer

-- `netip.ParseAddr` is a parameter.
module _ (parse : List ℕ → Option Addr) where
  -- Version, code, the reserved byte, and an address with its port.
  abbrev read_message : Reader (ℕ × Socksaddr)
  read_message src = do
    (_, src) ← expect version "expected socks version 5, got " src
    (code, src) ← next src
    (_, src) ← next src
    (addr, src) ← read_addr_port parse socksaddr_serializer src
    ok ((code, addr), src)

  pub read_request : Reader Request
  read_request src = do
    ((command, destination), src) ← read_message src
    ok (record { command = command; destination = destination }, src)

  pub read_response : Reader Response
  read_response src = do
    ((reply_code, bind), src) ← read_message src
    ok (record { reply_code = reply_code; bind = bind }, src)
