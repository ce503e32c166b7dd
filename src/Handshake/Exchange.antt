-- ===== src/Handshake/Exchange.antt =====
-- What the server answers to the messages of a client, and whom it hands over.
use sing.Common.{
  ℕ, suc, ◌≤◌, ◌<◌, ◌≡◌, refl, ap, ◌∙◌, true, false, List, [], ◌∷◌, ◌++◌, Option, some, length,
  arith, if◌then◌else◌,
}
use sing.Common.Outcome.{Outcome, ok}
use sing.Buf.{Alloc}
use sing.Buf.Bytes.{Serves}
use sing.Netip.{Addr}
use sing.Stream.{next}
use sing.Metadata.{Socksaddr, is_valid}
use sing.Metadata.Serializer.{socksaddr_serializer}
use sing.Metadata.Serializer.Wire.{Fits}
use sing.Metadata.Serializer.RoundTrip.{Parses, canonical}
use sing.Auth.{Authenticator, verify}
use sing.Socks5
use sing.Socks5.Writes.{request_to, write_auth_request_lem}
use sing.Socks5.RoundTrip.{
  read_request-write, read_username_password_auth_request-write, read_auth_request0-lem,
}
use sing.Handshake.{
  offers, unacceptable, auth_method, authenticate, negotiate, serve, handle_socks5,
  handle_connection,
}
use sing.Handshake.Event.{new_connection}
use sing.Handshake.Conns.{bind-ok, receive-ok, after, ◌>>=◌, done, receive, send}

abbrev hello : List ℕ → List ℕ → List ℕ
hello methods rest = length methods ∷ methods ++ rest

-- The last step of the negotiation, behind those that go well.
negotiate-read :
    (authenticator : Option Authenticator) (methods rest sent : List ℕ) (n : ℕ)
    → negotiate authenticator (after (hello methods rest) sent n)
      ≡ (do
        _ ←
            (if unacceptable authenticator methods
              then send (
                  Socks5.write_auth_response
                    (record { method = Socks5.auth_type_no_accepted_methods }))
              else done tt)
        send (Socks5.write_auth_response (record { method = auth_method authenticator })))
          (after rest sent n)
unfolding negotiate
negotiate-read authenticator methods rest sent n =
    bind-ok (receive Socks5.read_auth_request0) _ _ (after rest sent n)
      (record { methods = methods })
      (receive-ok Socks5.read_auth_request0 (after (hello methods rest) sent n) _ _
        (read_auth_request0-lem methods rest))

-- With an authenticator and a client that offers a user name and password: one answer.
negotiate-offered :
    (au : Authenticator) (methods rest sent : List ℕ) (n : ℕ)
    → offers 2 methods ≡ true
    → negotiate (some au) (after (hello methods rest) sent (suc n))
      ≡ (ok tt, after rest (sent ++ (5 ∷ 2 ∷ [])) n)
unfolding send Socks5.write_auth_response
negotiate-offered au methods rest sent n o =
    negotiate-read (some au) methods rest sent (suc n)
    ∙ rw o (bind-ok (done tt) _ (after rest sent (suc n)) (after rest sent (suc n)) tt refl)

-- On a connection that takes two writes: a server with an authenticator that is offered no user
-- name and password answers that no method is accepted, and then, in a second answer, that it has
-- chosen the user name and password, and goes on.
pub negotiate-twice :
    (au : Authenticator) (methods rest sent : List ℕ) (n : ℕ)
    → offers 2 methods ≡ false
    → negotiate
        (some au)
        (record { src = length methods ∷ methods ++ rest; sent = sent; writes = suc (suc n) })
      ≡ (ok tt, record { src = rest; sent = (sent ++ (5 ∷ 255 ∷ [])) ++ (5 ∷ 2 ∷ []); writes = n })
unfolding send Socks5.write_auth_response
negotiate-twice au methods rest sent n o =
    negotiate-read (some au) methods rest sent (suc (suc n))
    ∙ rw o (
        bind-ok _ _ (after rest sent (suc (suc n))) (after rest (sent ++ (5 ∷ 255 ∷ [])) (suc n)) tt
          refl)

module _ (parse : List ℕ → Option Addr) (promise : Parses parse) (get : Alloc) (serves : Serves get)
    (listen first_packet : Outcome Socksaddr) (au : Authenticator) where
  authenticate-accepts :
      (u p login rest sent : List ℕ) (n : ℕ)
      → Socks5.read_username_password_auth_request (login ++ rest)
        ≡ ok (record { username = u; password = p }, rest)
      → verify au u p ≡ true
      → authenticate (some au) (after (login ++ rest) sent (suc n))
        ≡ (ok (some u), after rest (sent ++ (1 ∷ 0 ∷ [])) n)
  unfolding authenticate send Socks5.write_username_password_auth_response
  authenticate-accepts u p login rest sent n r v =
      bind-ok (receive Socks5.read_username_password_auth_request) _ _ (after rest sent (suc n))
        (record { username = u; password = p })
        (receive-ok Socks5.read_username_password_auth_request (after (login ++ rest) sent (suc n))
          _ _ r)
      ∙ rw v (bind-ok _ _ (after rest sent (suc n)) (after rest (sent ++ (1 ∷ 0 ∷ [])) n) tt refl)

  serve-connects :
      (user : Option (List ℕ)) (d : Socksaddr) (request rest sent : List ℕ) (n : ℕ)
      → Socks5.read_request parse (request ++ rest) ≡ ok (request_to 1 d, rest)
      → serve parse get listen first_packet user (after (request ++ rest) sent n)
        ≡ (ok (new_connection user 5 d), after rest sent n)
  unfolding serve
  serve-connects user d request rest sent n r =
      bind-ok (receive (Socks5.read_request parse)) _ _ (after rest sent n) (request_to 1 d)
        (receive-ok (Socks5.read_request parse) (after (request ++ rest) sent n) _ _ r)

  handle_connection-accepts :
      (methods u p login request rest : List ℕ) (d : Socksaddr) (n : ℕ)
      → offers 2 methods ≡ true
      → verify au u p ≡ true
      → ((more : List ℕ)
          → Socks5.read_username_password_auth_request (login ++ more)
            ≡ ok (record { username = u; password = p }, more))
      → Socks5.read_request parse (request ++ rest) ≡ ok (request_to 1 d, rest)
      → handle_connection parse get listen first_packet
          (some au)
          (after (5 ∷ hello methods (login ++ (request ++ rest))) [] (suc (suc n)))
        ≡ (ok (new_connection (some u) 5 d), after rest (5 ∷ 2 ∷ 1 ∷ 0 ∷ []) n)
  unfolding handle_connection handle_socks5
  handle_connection-accepts methods u p login request rest d n o v rl rr =
      bind-ok (receive next) _
        (after (5 ∷ hello methods (login ++ (request ++ rest))) [] (suc (suc n)))
        (after (hello methods (login ++ (request ++ rest))) [] (suc (suc n))) 5 refl
      ∙ bind-ok (negotiate (some au)) _ _ _ tt
          (negotiate-offered au methods (login ++ (request ++ rest)) [] (suc n) o)
      ∙ bind-ok (authenticate (some au)) _ _ _ (some u)
          (authenticate-accepts u p login (request ++ rest) (5 ∷ 2 ∷ []) n (rl (request ++ rest)) v)
      ∙ serve-connects (some u) d request rest (5 ∷ 2 ∷ 1 ∷ 0 ∷ []) n rr

  -- With a parser of addresses that keeps its promises and an allocator that serves what it is asked
  -- for: a client that writes a request of at most 255 methods, the user name and password among
  -- them, a user name and password of at most 255 bytes each that the authenticator accepts, and a
  -- request to connect to a valid destination that fits, on a connection that takes two writes, is
  -- answered 5 2 and 1 0, and its connection is handed over with its name, to the destination in
  -- canonical form, with what it sends next unread.
  pub handle_connection-login :
      (methods u p : List ℕ) (d : Socksaddr) (n : ℕ)
      → length methods ≤ 255
      → offers 2 methods ≡ true
      → length u ≤ 255
      → length p ≤ 255
      → verify au u p ≡ true
      → Fits d
      → is_valid d ≡ true
      → d.port < 65536
      → (hello_wire login_wire request_wire : List ℕ) × (Socks5.write_auth_request get
            (record { methods = methods })
          ≡ ok hello_wire)
        × (Socks5.write_username_password_auth_request get (record { username = u; password = p })
            ≡ ok login_wire)
        × (Socks5.write_request get (request_to 1 d) ≡ ok request_wire)
        × ((rest : List ℕ)
            → handle_connection parse get listen first_packet (some au) (record {
              src = hello_wire ++ (login_wire ++ (request_wire ++ rest));
              sent = [];
              writes = suc (suc n);
            })
              ≡ (
                ok (new_connection (some u) 5 (canonical parse socksaddr_serializer d)),
                record { src = rest; sent = 5 ∷ 2 ∷ 1 ∷ 0 ∷ []; writes = n },
              ))
  handle_connection-login methods u p d n hm o hu hp v fits valid port =
      let (login, wl, rl) = read_username_password_auth_request-write get u p serves hu hp in
      let (request, wr, rr) = read_request-write parse promise get serves 1 d fits valid port in
      (
        5 ∷ length methods ∷ methods,
        login,
        request,
        write_auth_request_lem get methods serves ∙ ap (λ k. ok (5 ∷ k ∷ methods)) (omega arith),
        wl,
        wr,
        λ rest.
            handle_connection-accepts methods u p login request rest
              (canonical parse socksaddr_serializer d) n o v rl (rr rest),
      )
