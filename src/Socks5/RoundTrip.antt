-- ===== src/Socks5/RoundTrip.antt =====
-- Reading back the SOCKS 5 messages that are written, and what the readers refuse.
use sing.Common.{
  ℕ, ◌≤◌, ◌<◌, ◌%◌, ◌≡◌, ◌≢◌, true, Option, List, ◌∷◌, ◌++◌, length, arith, append_assoc,
}
use sing.Common.Outcome.{new_byte, ok, err}
use sing.Buf.{Alloc}
use sing.Buf.Bytes.{Serves}
use sing.Netip
use sing.Netip.{Addr}
use sing.Stream.{read_full-append}
use sing.Metadata.{Socksaddr, is_valid}
use sing.Metadata.Serializer.{socksaddr_serializer, family_of}
use sing.Metadata.Serializer.Wire.{string_wire, Fits, socksaddr_serializer-family}
use sing.Metadata.Serializer.RoundTrip.{
  Parses, canonical, read_sock_string-wire, read_addr_port-wire,
}
use sing.Socks5.{
  UsernamePasswordAuthRequest, Response, bind_of, write_auth_request, read_auth_request0,
  read_auth_request, write_username_password_auth_request, read_username_password_auth_request,
  write_request, write_response, read_message, read_request, read_response,
}
use sing.Socks5.Writes.{
  write_auth_request_lem, password_wire, write_username_password_auth_request_lem, message_wire,
  request_to, write_request_lem, write_response_lem, bind_valid, bind-Fits, bind_port,
}

pub read_auth_request0-lem :
    (methods rest : List ℕ)
    → read_auth_request0 (length methods ∷ methods ++ rest)
      ≡ ok (record { methods = methods }, rest)
unfolding read_auth_request0
read_auth_request0-lem methods rest = rw (read_full-append methods rest)

-- With an allocator that serves what it is asked for: a request of at most 255 methods is written
-- without error or panic, and is read back, in front of any bytes, up to those bytes.
pub read_auth_request-write :
    (get : Alloc) (methods : List ℕ)
    → Serves get
    → length methods ≤ 255
    → (w : List ℕ) × (write_auth_request get (record { methods = methods }) ≡ ok w)
      × ((rest : List ℕ) → read_auth_request (w ++ rest) ≡ ok (record { methods = methods }, rest))
unfolding read_auth_request read_auth_request0
read_auth_request-write get methods serves h = (
  5 ∷ length methods % 256 ∷ methods,
  write_auth_request_lem get methods serves,
  λ rest. rw (fits, read_full-append methods rest),
)
  where
    fits : length methods % 256 ≡ length methods
    fits = omega arith

-- With an allocator that serves what it is asked for: a user name and a password of at most 255
-- bytes each are written without error or panic, and are read back, in front of any bytes, up to
-- those bytes.
pub read_username_password_auth_request-write :
    (get : Alloc) (username password : List ℕ)
    → Serves get
    → length username ≤ 255
    → length password ≤ 255
    → let request : UsernamePasswordAuthRequest = record {
      username = username;
      password = password;
    } in
      (w : List ℕ) × (write_username_password_auth_request get request ≡ ok w)
      × ((rest : List ℕ) → read_username_password_auth_request (w ++ rest) ≡ ok (request, rest))
unfolding read_username_password_auth_request
read_username_password_auth_request-write get username password serves hu hp = (
  password_wire username password,
  write_username_password_auth_request_lem get username password serves hu hp,
  λ rest. rw (
    append_assoc (string_wire username) (string_wire password) rest,
    read_sock_string-wire username (string_wire password ++ rest),
    read_sock_string-wire password rest,
  ),
)

module _ (parse : List ℕ → Option Addr) (promise : Parses parse) where
  read_message-wire :
      (code : ℕ) (a : Socksaddr) (rest : List ℕ)
      → Netip.IsSized a.addr
      → is_valid a ≡ true
      → a.port < 65536
      → read_message parse (message_wire code a ++ rest)
        ≡ ok ((code, canonical parse socksaddr_serializer a), rest)
  read_message-wire code a rest sized valid hp = rw (
      read_addr_port-wire parse socksaddr_serializer a sized (family_of a) rest promise
        ((socksaddr_serializer-family a).0 valid).1 hp)

  module _ (get : Alloc) (serves : Serves get) where
    -- With a parser of addresses that keeps its promises and an allocator that serves what it is asked
    -- for: a request for a valid destination that fits, with a port of 16 bits, is written without
    -- error or panic, and is read back, in front of any bytes, up to those bytes, with the destination
    -- in canonical form.
    pub read_request-write :
        (command : ℕ) (a : Socksaddr)
        → Fits a
        → is_valid a ≡ true
        → a.port < 65536
        → (w : List ℕ) × (write_request get (request_to command a) ≡ ok w)
          × ((rest : List ℕ)
              → read_request parse (w ++ rest)
                ≡ ok (request_to command (canonical parse socksaddr_serializer a), rest))
    unfolding read_request
    read_request-write command a fits valid hp = (
      message_wire command a,
      (write_request_lem get command a serves).0 fits valid,
      λ rest. rw (read_message-wire command a rest fits.0 valid hp),
    )

    -- With a parser of addresses that keeps its promises and an allocator that serves what it is asked for:
    -- a response whose address fits, with a port of 16 bits, is
    -- written without error or panic, and is read back, in front of any bytes, up to those bytes, with
    -- its address in canonical form, or 0.0.0.0 in place of none.
    pub read_response-write :
        (response : Response)
        → Fits response.bind
        → response.bind.port < 65536
        → (w : List ℕ) × (write_response get response ≡ ok w)
          × ((rest : List ℕ)
              → read_response parse (w ++ rest)
                ≡ ok (
                  record {
                    reply_code = response.reply_code;
                    bind = canonical parse socksaddr_serializer (bind_of response);
                  },
                  rest,
                ))
    unfolding read_response
    read_response-write response fits hp = (
      message_wire response.reply_code (bind_of response),
      write_response_lem get response serves fits,
      λ rest. rw (
          read_message-wire response.reply_code (bind_of response) rest (bind-Fits response fits).0
            (bind_valid response) (bind_port response hp)),
    )

-- A message of another version is refused at its first byte, whatever follows.
pub read-version :
    (parse : List ℕ → Option Addr) (v : ℕ) (rest : List ℕ)
    → v ≢ 5
    → (read_request parse (v ∷ rest) ≡ err (new_byte "expected socks version 5, got " v))
      × (read_response parse (v ∷ rest) ≡ err (new_byte "expected socks version 5, got " v))
      × (read_auth_request (v ∷ rest) ≡ err (new_byte "expected socks version 5, got " v))
unfolding read_request read_response read_auth_request
read-version parse v rest h = ground arith
