-- ===== src/Handshake.antt =====
-- protocol/socks/handshake.go: the server's and the client's part of a socks handshake.
-- A connection is what is still to come from the peer, what has been sent to it, and the number of
-- writes that it will take before it breaks.
pub mod Conns
pub mod Ensures
pub mod Safety
pub mod Exchange
pub mod Client
pub mod Lazy
mod Tests
use sing.Common.{
  ℕ, Bool, true, false, ◌&&◌, not, List, [], ◌∷◌, Option, none, some, length, ◌==◌, if◌then◌else◌,
}
use sing.Common.Outcome.{new, new_byte, cause, invalid_argument, Outcome, ok, err, broken}
use sing.Buf.{Alloc}
use sing.Netip
use sing.Netip.{Addr, v4, v6}
use sing.Stream.{next}
use sing.Metadata.{Socksaddr, no_addr, unwrap}
use sing.Auth.{Authenticator, verify}
use sing.Socks4
use sing.Socks5
use sing.Handshake.Conns.{Conn, Session, ◌>>=◌, done, fail, receive, send, lift, caused}

-- What the handler is given: the user in the context, and where to.
pub data Event : Type 0 where
  new_connection : Option (List ℕ) → ℕ → Socksaddr → Event
  new_packet_connection : Option (List ℕ) → Socksaddr → Event

-- A list of methods has this one.
pub offers : ℕ → List ℕ → Bool
offers m [] = false
offers m (x ∷ xs) = if x == m then true else offers m xs

-- `authenticator != nil && !authenticator.Verify(...)`
abbrev pub refuses : Option Authenticator → List ℕ → List ℕ → Bool
refuses none username password = false
refuses (some au) username password = not (verify au username password)

-- `authenticator != nil && !common.Contains(methods, AuthTypeUsernamePassword)`
abbrev pub unacceptable : Option Authenticator → List ℕ → Bool
unacceptable none methods = false
unacceptable (some au) methods = not (offers Socks5.auth_type_username_password methods)

abbrev pub auth_method : Option Authenticator → ℕ
auth_method none = Socks5.auth_type_not_required
auth_method (some au) = Socks5.auth_type_username_password

abbrev pub status_of : Bool → ℕ
status_of accepted =
    if accepted
    then Socks5.username_password_status_success
    else Socks5.username_password_status_failure

-- The method is settled: `none` is no user in the context.
pub authenticate : Option Authenticator → Session (Option (List ℕ))
authenticate none = done none
authenticate (some au) = do
  request ← receive Socks5.read_username_password_auth_request
  _ ← send (
      Socks5.write_username_password_auth_response
        (record { status = status_of (verify au request.username request.password) }))
  (if verify au request.username request.password
      then done (some request.username)
      else fail (new "socks5: authentication failed, username="))

pub negotiate : Option Authenticator → Session (Unit {0})
negotiate authenticator = do
  request ← receive Socks5.read_auth_request0
  _ ←
      (if unacceptable authenticator request.methods
        then send
            (Socks5.write_auth_response (record { method = Socks5.auth_type_no_accepted_methods }))
        else done tt)
  send (Socks5.write_auth_response (record { method = auth_method authenticator }))

-- `netip.ParseAddr` and the buffer allocator are parameters. So are what `ListenPacket` returns (the
-- local address of the socket) and what the associated connection returns for the first packet (its
-- destination).
module _ (parse : List ℕ → Option Addr) (get : Alloc)
    (listen first_packet : Outcome Socksaddr) where
  abbrev pub reject4 : Session (Unit {0})
  reject4 = send (
      Socks4.write_response get
        (record { reply_code = Socks4.reply_code_rejected_or_failed; destination = no_addr }))

  -- The printed user names and passwords are left out of the errors.
  pub handle_socks4 : Option Authenticator → Session Event
  handle_socks4 authenticator = do
    request ← receive (Socks4.read_request0 parse)
    (if request.command == Socks4.command_connect
        then (if refuses authenticator request.username []
            then (do _ ← reject4; fail (new "socks4: authentication failed, username="))
            else done (new_connection (some request.username) Socks4.version request.destination))
        else (do _ ← reject4; fail (new_byte "socks4: unsupported command " request.command)))

  -- The deadlines on the socket are left out.
  pub associate : Option (List ℕ) → Session Event
  associate user = do
    local ← caused "socks5: listen udp" (lift listen)
    _ ← caused "socks5: write response" (
        send (
          Socks5.write_response get
            (record { reply_code = Socks5.reply_code_success; bind = unwrap local })))
    destination ← caused "socks5: read first packet" (lift first_packet)
    done (new_packet_connection user destination)

  pub serve : Option (List ℕ) → Session Event
  serve user = do
    request ← receive (Socks5.read_request parse)
    (if request.command == Socks5.command_connect
        then done (new_connection user Socks5.version request.destination)
        else if request.command == Socks5.command_udp_associate
        then associate user
        else (do
          _ ← send (
              Socks5.write_response get
                (record { reply_code = Socks5.reply_code_unsupported; bind = no_addr }))
          fail (new_byte "socks5: unsupported command " request.command)))

  pub handle_socks5 : Option Authenticator → Session Event
  handle_socks5 authenticator = do
    _ ← negotiate authenticator
    user ← authenticate authenticator
    serve user

  pub handle_connection : Option Authenticator → Session Event
  handle_connection authenticator = do
    version ← receive next
    (if version == Socks4.version
        then handle_socks4 authenticator
        else if version == Socks5.version
        then handle_socks5 authenticator
        else fail invalid_argument)
