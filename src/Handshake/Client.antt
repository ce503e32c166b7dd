-- ===== src/Handshake/Client.antt =====
-- ClientHandshake4 and ClientHandshake5 of protocol/socks/handshake.go.
use sing.Common.{ℕ, Bool, List, [], ◌∷◌, Option, length, ◌==◌, if◌then◌else◌, replicate, ◌++◌}
use sing.Common.Outcome.{new, new_byte}
use sing.Buf.{Alloc}
use sing.Netip
use sing.Netip.{Addr, v4, v6}
use sing.Metadata.{Socksaddr}
use sing.Socks4
use sing.Socks5
use sing.Handshake.Conns.{Session, ◌>>=◌, done, fail, receive, send}
pub mod Runs

-- `netip.ParseAddr`, `netip.Addr.String` and the buffer allocator are parameters.
module _ (parse : List ℕ → Option Addr) (show : Addr → List ℕ) (get : Alloc) where
  -- A response that comes with an error is left out.
  pub client_handshake4 : ℕ → Socksaddr → List ℕ → Session Socks4.Response
  client_handshake4 command destination username = do
    _ ← send (
        Socks4.write_request show get
          (record { command = command; destination = destination; username = username }))
    response ← receive Socks4.read_response
    (if response.reply_code == Socks4.reply_code_granted
        then done response
        else fail (new_byte "socks4: request rejected, code= " response.reply_code))

abbrev pub method_of : List ℕ → ℕ
method_of username =
    if length username == 0
    then Socks5.auth_type_not_required
    else Socks5.auth_type_username_password

-- The answer to the methods.
pub client_authenticate : Alloc → List ℕ → List ℕ → ℕ → Session (Unit {0})
client_authenticate get username password method =
    if method == Socks5.auth_type_username_password
    then (do
      _ ← send (
          Socks5.write_username_password_auth_request get
            (record { username = username; password = password }))
      response ← receive Socks5.read_username_password_auth_response
      (if response.status == Socks5.username_password_status_success
          then done tt
          else fail (new "socks5: incorrect user name or password")))
    else if method == Socks5.auth_type_not_required
    then done tt
    else fail (new_byte "socks5: unsupported auth method: " method)

-- `netip.Addr.IsPrivate` and `netip.Addr.IsGlobalUnicast` are parameters.
module _ (is_private is_global_unicast : Addr → Bool) where
  abbrev pub local_addr : Addr → Addr
  local_addr addr =
      if is_private addr
      then (if Netip.is6 addr
          then v4 (127 ∷ 0 ∷ 0 ∷ 1 ∷ [])
          else v6 (replicate 15 0 ++ (1 ∷ [])) [])
      else if is_global_unicast addr
      then (if Netip.is6 addr then v6 (replicate 16 0) [] else v4 (replicate 4 0))
      else v6 (replicate 16 0) []

  -- The destination of a UDP association is the address to send from, any port of it.
  pub destination_of : ℕ → Socksaddr → Socksaddr
  destination_of command destination =
      if command == Socks5.command_udp_associate
      then record destination { addr = local_addr destination.addr; port = 0 }
      else destination

  module _ (parse : List ℕ → Option Addr) (get : Alloc) where
    pub client_request : ℕ → Socksaddr → Session Socks5.Response
    client_request command destination = do
      _ ← send (
          Socks5.write_request get
            (record { command = command; destination = destination_of command destination }))
      response ← receive (Socks5.read_response parse)
      (if response.reply_code == Socks5.reply_code_success
          then done response
          else fail (new_byte "socks5: request rejected, code=" response.reply_code))

    pub client_handshake5 : ℕ → Socksaddr → List ℕ → List ℕ → Session Socks5.Response
    client_handshake5 command destination username password = do
      _ ← send (Socks5.write_auth_request get (record { methods = method_of username ∷ [] }))
      response ← receive Socks5.read_auth_response
      _ ← client_authenticate get username password response.method
      client_request command destination
