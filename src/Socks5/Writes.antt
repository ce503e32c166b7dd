-- ===== src/Socks5/Writes.antt =====
-- What the writers of SOCKS 5 messages write: the layouts of RFC 1928 and RFC 1929.
use sing.Common.{
  ℕ, ◌+◌, ◌≤◌, ◌<◌, ◌%◌, ◌≡◌, true, false, List, [], ◌∷◌, ◌++◌, length, arith, length-append,
  Bool-cases, inl, inr, ap, sym, ◌∙◌, subst,
}
use sing.Common.Outcome.{Error, new, Outcome, ok, err, ◌>>=◌, >>=_assoc}
use sing.Buf.{Buffer, Alloc, new_size, bytes}
use sing.Buf.Bytes.{Serves, IsValid, room}
use sing.Buf.Emit.{
  Emits, Emits-bind, Emits-must, Emits-write_byte, Emits-write_zero, Emits-write, new_size-Emits,
  new_size-Emits-fail,
}
use sing.Netip.{invalid}
use sing.Metadata.{Socksaddr, is_valid}
use sing.Metadata.Serializer.{socksaddr_serializer, family_of, addr_port_len, write_addr_port}
use sing.Metadata.Serializer.Wire.{
  string_wire, Fits, addr_port_wire, write_socks_string-Emits, write_addr_port-Emits,
  addr_port_len_lem, socksaddr_serializer-family, write_addr_port-invalid, write_addr_port-long,
  addr_port_len_pos, is_valid-v4,
}
use sing.Socks5.{
  Request, Response, bind_of, write_head, write_auth_request, write_username_password_auth_request,
  write_request, write_response,
}

-- `WriteAuthRequest` never panics. It writes the version, the number of methods in a byte, and the
-- methods.
pub write_auth_request_lem :
    (get : Alloc) (methods : List ℕ)
    → Serves get
    → write_auth_request get (record { methods = methods })
      ≡ ok (5 ∷ length methods % 256 ∷ methods)
unfolding write_auth_request
write_auth_request_lem get methods serves =
    new_size-Emits get (length methods + 2) (5 ∷ length methods % 256 ∷ methods) serves
      (Emits-must _ (
        Emits-bind (5 ∷ []) _ (Emits-write_byte 5) (
          Emits-bind (length methods % 256 ∷ []) methods (Emits-write_byte (length methods % 256))
            (Emits-write methods))))
      (omega arith)

abbrev pub password_wire : List ℕ → List ℕ → List ℕ
password_wire username password = 1 ∷ string_wire username ++ string_wire password

-- With a user name and a password of at most 255 bytes the request is written by RFC 1929.
pub write_username_password_auth_request_lem :
    (get : Alloc) (username password : List ℕ)
    → Serves get
    → length username ≤ 255
    → length password ≤ 255
    → write_username_password_auth_request get (record { username = username; password = password })
      ≡ ok (password_wire username password)
unfolding write_username_password_auth_request
write_username_password_auth_request_lem get username password serves hu hp =
    new_size-Emits get (3 + length username + length password) (password_wire username password)
      serves
      (Emits-must _ (
        Emits-bind (1 ∷ []) _ (Emits-write_byte 1) (
          Emits-bind (string_wire username) (string_wire password)
            (write_socks_string-Emits username hu) (write_socks_string-Emits password hp))))
      (omega (arith, length-append (string_wire username) (string_wire password)))

-- The head of a request or a response, and the address behind it.
abbrev pub message_wire : ℕ → Socksaddr → List ℕ
message_wire code a = 5 ∷ code ∷ 0 ∷ addr_port_wire socksaddr_serializer (family_of a) a

pub write_head-Emits : (x : ℕ) → Emits (write_head x) (5 ∷ x ∷ 0 ∷ [])
write_head-Emits x = Emits-must _ (
    Emits-bind (5 ∷ []) _ (Emits-write_byte 5)
      (Emits-bind (x ∷ []) (0 ∷ []) (Emits-write_byte x) Emits-write_zero))

-- A valid address of a name of at most 255 bytes is written behind the head, in a buffer of
-- exactly the size that `AddrPortLen` tells.
write_message-wire :
    (get : Alloc) (code : ℕ) (a : Socksaddr)
    → Serves get
    → Fits a
    → is_valid a ≡ true
    → (do
      b ← write_head code (new_size get (3 + addr_port_len socksaddr_serializer a))
      b ← write_addr_port socksaddr_serializer a b
      bytes b)
      ≡ ok (message_wire code a)
write_message-wire get code a serves fits valid =
    sym (>>=_assoc (write_head code buffer) (write_addr_port socksaddr_serializer a) bytes)
    ∙ new_size-Emits get (3 + addr_port_len socksaddr_serializer a) (message_wire code a) serves
        (Emits-bind (5 ∷ code ∷ 0 ∷ []) (addr_port_wire socksaddr_serializer (family_of a) a)
          (write_head-Emits code)
          (write_addr_port-Emits socksaddr_serializer a fits (family_of a)
            ((socksaddr_serializer-family a).0 valid).0))
        (omega (arith, addr_port_len_lem socksaddr_serializer a fits (family_of a) (inr valid)))
  where
    buffer : Buffer
    buffer = new_size get (3 + addr_port_len socksaddr_serializer a)

pub bind_valid : (response : Response) → is_valid (bind_of response) ≡ true
unfolding bind_of
bind_valid response = elim (Bool-cases (is_valid response.bind)) [
  | inl valid ↦ ground (arith, valid)
  | inr empty ↦ rw empty (is_valid-v4 (0 ∷ 0 ∷ 0 ∷ 0 ∷ []) 0 [])
]

pub bind-Fits : (response : Response) → Fits response.bind → Fits (bind_of response)
unfolding bind_of
bind-Fits response fits = elim (Bool-cases (is_valid response.bind)) [
  | inl valid ↦ rw valid fits
  | inr empty ↦ rw empty (omega arith)
]

head_fails :
    (get : Alloc) (code n : ℕ) (e : Error) {k : Buffer → Outcome (List ℕ)}
    → Serves get
    → ((b : Buffer) → IsValid b → n ≤ room b → k b ≡ err e)
    → (write_head code (new_size get (3 + n)) >>= k) ≡ err e
head_fails get code n e serves fails =
    new_size-Emits-fail get (3 + n) (5 ∷ code ∷ 0 ∷ []) e serves (write_head-Emits code)
      (omega arith) (λ b v h. fails b v (omega arith))

abbrev pub request_to : ℕ → Socksaddr → Request
request_to command a = record { command = command; destination = a }

-- `WriteRequest` never panics. A valid destination is written in the layout of RFC 1928.
-- No destination, and one by a name of more than 255 bytes, are refused.
pub write_request_lem :
    (get : Alloc) (command : ℕ) (a : Socksaddr)
    → Serves get
    → (Fits a
        → is_valid a ≡ true
        → write_request get (request_to command a) ≡ ok (message_wire command a))
      × (is_valid a ≡ false
          → write_request get (request_to command a) ≡ err (new "unsupported address"))
      × (a.addr ≡ invalid
          → 255 < length a.fqdn
          → write_request get (request_to command a) ≡ err (new "fqdn too long"))
unfolding write_request
write_request_lem get command a serves = (
  write_message-wire get command a serves,
  λ h.
      head_fails get command n _ serves
        (λ b v r. ap (λ m. m >>= bytes) (write_addr_port-invalid a b h)),
  λ e long. head_fails get command n _ serves (λ b v r.
      ap (λ m. m >>= bytes)
        (subst (λ ad. write_addr_port socksaddr_serializer (record a { addr = ad }) b ≡ too_long)
          (sym e)
          (write_addr_port-long a.port a.fqdn b v
            (omega (arith, addr_port_len_pos socksaddr_serializer a)) long))),
)
  where
    n : ℕ
    n = addr_port_len socksaddr_serializer a

    too_long : Outcome Buffer
    too_long = err (new "fqdn too long")

-- `WriteResponse` writes the address that it is given, or 0.0.0.0 with port 0 in place of none.
pub write_response_lem :
    (get : Alloc) (response : Response)
    → Serves get
    → Fits response.bind
    → write_response get response ≡ ok (message_wire response.reply_code (bind_of response))
unfolding write_response
write_response_lem get response serves fits =
    write_message-wire get response.reply_code (bind_of response) serves (bind-Fits response fits)
      (bind_valid response)

pub bind_port : (response : Response) → response.bind.port < 65536 → (bind_of response).port < 65536
unfolding bind_of
bind_port response h = ground arith
