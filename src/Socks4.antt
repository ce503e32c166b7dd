-- ===== src/Socks4.antt =====
-- protocol/socks/socks4/protocol.go: the messages of SOCKS version 4 and 4a.
pub mod Strings
pub mod Requests
pub mod Responses
pub mod RoundTrip
mod Tests
use sing.Common.{
  ℕ, ◌+◌, Bool, true, false, ◌&&◌, not, List, [], ◌∷◌, ◌++◌, Option, length, ltb, ◌==◌,
  if◌then◌else◌,
}
use sing.Common.Outcome.{eof, new, new_byte, Outcome, ok, err, must, ◌>>=◌}
use sing.Buf.{Buffer, Alloc, new_size, bytes, write_byte, write_zero, write_zero_n}
use sing.Buf.Emit.{write_all, write_string_all}
use sing.Netip
use sing.Netip.{Addr, v4}
use sing.Stream.{Reader, next, read_full, read_uint16, uint16_bytes}
use sing.Metadata.{Socksaddr, no_addr, is_ipv4, addr_string, unwrap, parse_socksaddr_host_port}
use sing.Metadata.Serializer.{with_cause}

abbrev pub version : ℕ
version = 4

abbrev pub command_connect : ℕ
command_connect = 1

abbrev pub reply_code_granted : ℕ
reply_code_granted = 90

abbrev pub reply_code_rejected_or_failed : ℕ
reply_code_rejected_or_failed = 91

pub record Request : Type 0 where
  pub command : ℕ
  pub destination : Socksaddr
  pub username : List ℕ

-- `buffer` holds the bytes of the string so far.
pub read_string_loop : List ℕ → List ℕ → Outcome (List ℕ × List ℕ)
read_string_loop buffer [] = err eof
read_string_loop buffer (b ∷ src) =
    let rest = read_string_loop (buffer ++ (b ∷ [])) src in
    if b == 0
    then ok (buffer, src)
    else if ltb 255 (length buffer + 1)
    then err (new "string too long")
    else rest

pub read_string : Reader (List ℕ)
unfolding read_string_loop
read_string src = read_string_loop [] src

-- 0.0.0.x, with x other than 0: a host name follows.
abbrev pub is_host_marker : List ℕ → Bool
is_host_marker (a ∷ b ∷ c ∷ d ∷ []) = a == 0 && (b == 0 && (c == 0 && not (d == 0)))
is_host_marker _ = false

-- `netip.ParseAddr` is a parameter.
module _ (parse : List ℕ → Option Addr) where
  abbrev pub read_host : ℕ → ℕ → List ℕ → Reader Request
  read_host command port username src = do
    (fqdn, src) ← with_cause "reading hostname" (read_string src)
    ok (
      record {
        command = command;
        destination = unwrap (parse_socksaddr_host_port parse fqdn port);
        username = username;
      },
      src,
    )

  pub read_request0 : Reader Request
  read_request0 src = do
    (command, src) ← next src
    (port, src) ← read_uint16 src
    (dst_ip, src) ← read_full 4 src
    (username, src) ← with_cause "reading username" (read_string src)
    let plain : Request = record {
      command = command;
      destination = record no_addr { addr = v4 dst_ip; port = port };
      username = username;
    }
    (if is_host_marker dst_ip then read_host command port username src else ok (plain, src))

  pub read_request : Reader Request
  read_request src = do
    (x, src) ← next src
    (if x == version then read_request0 src else err (new_byte "excepted socks version 4, got " x))

-- `netip.Addr.String` is a parameter.
module _ (show : Addr → List ℕ) where
  pub request_len : Request → ℕ
  request_len request =
      9
      + (if not (is_ipv4 request.destination)
          then length (addr_string show request.destination) + 1
          else 0)
      + length request.username

  abbrev pub write_fixed : Request → Buffer → Outcome Buffer
  write_fixed request buffer = must (do
    b ← write_byte version buffer
    b ← write_byte request.command b
    write_all (uint16_bytes request.destination.port) b)

  abbrev pub write_ip : Request → Buffer → Outcome Buffer
  write_ip request buffer =
      if is_ipv4 request.destination
      then must (write_all (Netip.as_slice request.destination.addr) buffer)
      else (do b ← must (write_zero_n 3 buffer); must (write_byte 1 b))

  abbrev pub write_username : Request → Buffer → Outcome Buffer
  write_username request buffer =
      if length request.username == 0
      then ok buffer
      else if ltb 255 (length request.username)
      then err (new "username too long")
      else must (write_string_all request.username buffer)

  abbrev pub write_host : Request → Buffer → Outcome Buffer
  write_host request buffer =
      if is_ipv4 request.destination
      then ok buffer
      else if ltb 255 (length (addr_string show request.destination))
      then err (new "destination hostname too long")
      else (do
        b ← must (write_string_all (addr_string show request.destination) buffer)
        must (write_zero b))

  abbrev pub write_parts : Request → Buffer → Outcome Buffer
  write_parts request buffer = do
    b ← write_fixed request buffer
    b ← write_ip request b
    b ← write_username request b
    b ← must (write_zero b)
    write_host request b

  pub write_request : Alloc → Request → Outcome (List ℕ)
  write_request get request = do
    buffer ← write_parts request (new_size get (request_len request))
    bytes buffer

pub record Response : Type 0 where
  pub reply_code : ℕ
  pub destination : Socksaddr

abbrev read_reply : Reader Response
read_reply src = do
  (reply_code, src) ← next src
  (port, src) ← read_uint16 src
  (dst_ip, src) ← read_full 4 src
  ok (
    record {
      reply_code = reply_code;
      destination = record no_addr { addr = v4 dst_ip; port = port };
    },
    src,
  )

pub read_response : Reader Response
read_response src = do
  (x, src) ← next src
  (if x == 0 then read_reply src else err (new_byte "excepted socks4 response version 0, got " x))

abbrev pub write_reply : Response → Buffer → Outcome Buffer
write_reply response buffer = do
  b ← write_byte 0 buffer
  b ← write_byte response.reply_code b
  write_all (uint16_bytes response.destination.port) b

pub write_response : Alloc → Response → Outcome (List ℕ)
write_response get response = do
  buffer ← must (do
    b ← write_reply response (new_size get 8)
    write_all (Netip.as_slice response.destination.addr) b)
  bytes buffer
