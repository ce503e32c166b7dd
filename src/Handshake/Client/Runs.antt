-- ===== src/Handshake/Client/Runs.antt =====
-- What a client sends to a server that accepts it, and what it makes of the answers.
use sing.Common.{
  append_assoc, some, ℕ, suc, ◌≤◌, ◌<◌, ◌≡◌, refl, ap, ◌∙◌, Bool, true, List, [], ◌∷◌, ◌++◌, Option,
  length, arith,
}
use sing.Common.Outcome.{Outcome, ok}
use sing.Auth.{Authenticator, verify}
use sing.Handshake.{offers, handle_connection}
use sing.Handshake.Event.{new_connection}
use sing.Handshake.Exchange.{handle_connection-login}
use sing.Buf.{Alloc}
use sing.Buf.Bytes.{Serves}
use sing.Netip.{Addr}
use sing.Metadata.{Socksaddr, is_valid}
use sing.Metadata.Serializer.{socksaddr_serializer}
use sing.Metadata.Serializer.Wire.{Fits}
use sing.Metadata.Serializer.RoundTrip.{Parses, canonical}
use sing.Socks5
use sing.Socks5.{bind_of}
use sing.Socks5.RoundTrip.{read_response-write}
use sing.Handshake.Conns.{receive, after, bind-ok, receive-ok, send-ok}
use sing.Handshake.Client.{
  method_of, client_authenticate, destination_of, client_request, client_handshake5,
}

client_authenticate-accepted :
    (get : Alloc) (u p login rest sent : List ℕ) (n : ℕ)
    → Socks5.write_username_password_auth_request get (record { username = u; password = p })
      ≡ ok login
    → client_authenticate get u p 2 (after (1 ∷ 0 ∷ rest) sent (suc n))
      ≡ (ok tt, after rest (sent ++ login) n)
unfolding client_authenticate Socks5.read_username_password_auth_response
client_authenticate-accepted get u p login rest sent n w =
    bind-ok _ _ (after (1 ∷ 0 ∷ rest) sent (suc n)) (after (1 ∷ 0 ∷ rest) (sent ++ login) n) tt
      (send-ok _ login (1 ∷ 0 ∷ rest) sent n w)
    ∙ bind-ok (receive Socks5.read_username_password_auth_response) _
        (after (1 ∷ 0 ∷ rest) (sent ++ login) n) (after rest (sent ++ login) n)
        (record { status = 0 }) refl

module _ (is_private is_global_unicast : Addr → Bool) (parse : List ℕ → Option Addr)
    (get : Alloc) where
  client_request-granted :
      (command : ℕ) (d b : Socksaddr) (request response rest sent : List ℕ) (n : ℕ)
      → Socks5.write_request get (record {
        command = command;
        destination = destination_of is_private is_global_unicast command d;
      })
        ≡ ok request
      → Socks5.read_response parse (response ++ rest)
        ≡ ok (record { reply_code = 0; bind = b }, rest)
      → client_request is_private is_global_unicast parse get command d
          (after (response ++ rest) sent (suc n))
        ≡ (ok (record { reply_code = 0; bind = b }), after rest (sent ++ request) n)
  unfolding client_request
  client_request-granted command d b request response rest sent n w r =
      bind-ok _ _ (after (response ++ rest) sent (suc n))
        (after (response ++ rest) (sent ++ request) n) tt
        (send-ok _ request (response ++ rest) sent n w)
      ∙ bind-ok (receive (Socks5.read_response parse)) _
          (after (response ++ rest) (sent ++ request) n) (after rest (sent ++ request) n)
          (record { reply_code = 0; bind = b })
          (receive-ok (Socks5.read_response parse) (after (response ++ rest) (sent ++ request) n) _
            _ r)

  client_handshake5-runs :
      (command : ℕ) (d b : Socksaddr) (u p hello login request response rest : List ℕ) (n : ℕ)
      → Socks5.write_auth_request get (record { methods = method_of u ∷ [] }) ≡ ok hello
      → Socks5.write_username_password_auth_request get (record { username = u; password = p })
        ≡ ok login
      → Socks5.write_request get (record {
        command = command;
        destination = destination_of is_private is_global_unicast command d;
      })
        ≡ ok request
      → Socks5.read_response parse (response ++ rest)
        ≡ ok (record { reply_code = 0; bind = b }, rest)
      → client_handshake5 is_private is_global_unicast parse get command d u p
          (after (5 ∷ 2 ∷ 1 ∷ 0 ∷ (response ++ rest)) [] (suc (suc (suc n))))
        ≡ (ok (record { reply_code = 0; bind = b }), after rest ((hello ++ login) ++ request) n)
  unfolding client_handshake5 Socks5.read_auth_response
  client_handshake5-runs command d b u p hello login request response rest n wh wl wr rr =
      let src = 5 ∷ 2 ∷ 1 ∷ 0 ∷ (response ++ rest) in
      bind-ok _ _ (after src [] (suc (suc (suc n)))) (after src hello (suc (suc n))) tt
        (send-ok _ hello src [] (suc (suc n)) wh)
      ∙ bind-ok (receive Socks5.read_auth_response) _ (after src hello (suc (suc n)))
          (after (1 ∷ 0 ∷ (response ++ rest)) hello (suc (suc n))) (record { method = 2 }) refl
      ∙ bind-ok (client_authenticate get u p 2) _ _ _ tt
          (client_authenticate-accepted get u p login (response ++ rest) hello (suc n) wl)
      ∙ client_request-granted command d b request response rest (hello ++ login) n wr rr

method_of_named : (u : List ℕ) → 0 < length u → method_of u ≡ 2
method_of_named u h = ground (arith, h)

-- With a parser of addresses that keeps its promises, an allocator that serves what it is asked for,
-- and a user name that is not empty and a password, of at most 255 bytes each, that the server's
-- authenticator accepts: the client's and the server's part of a SOCKS 5 connect to a valid
-- destination that fits agree. There are bytes `sent` such that the server, given these and anything
-- behind them, answers 5 2 1 0 and hands over the connection for the user and the destination in
-- canonical form; and the client, given that answer and the response of success that the server
-- writes for any bound address that fits, sends exactly `sent` and returns the response. The server
-- needs two writes and the client three.
pub client_handshake5-agrees :
    (is_private is_global_unicast : Addr → Bool) (parse : List ℕ → Option Addr)
    → Parses parse
    → (get : Alloc) → Serves get
    → (listen first_packet : Outcome Socksaddr) (au : Authenticator) (u p : List ℕ) (d : Socksaddr)
      (bound : Socks5.Response) (n : ℕ)
    → 0 < length u
    → length u ≤ 255
    → length p ≤ 255
    → verify au u p ≡ true
    → Fits d
    → is_valid d ≡ true
    → d.port < 65536
    → bound.reply_code ≡ 0
    → Fits bound.bind
    → bound.bind.port < 65536
    → (sent response : List ℕ) × (Socks5.write_response get bound ≡ ok response)
      × ((rest : List ℕ)
          → handle_connection parse get listen first_packet
              (some au)
              (record { src = sent ++ rest; sent = []; writes = suc (suc n) })
            ≡ (
              ok (new_connection (some u) 5 (canonical parse socksaddr_serializer d)),
              record { src = rest; sent = 5 ∷ 2 ∷ 1 ∷ 0 ∷ []; writes = n },
            ))
      × ((rest : List ℕ)
          → client_handshake5 is_private is_global_unicast parse get 1 d u p (record {
            src = 5 ∷ 2 ∷ 1 ∷ 0 ∷ (response ++ rest);
            sent = [];
            writes = suc (suc (suc n));
          })
            ≡ (
              ok (record {
                reply_code = 0;
                bind = canonical parse socksaddr_serializer (bind_of bound);
              }),
              record { src = rest; sent = sent; writes = n },
            ))
unfolding offers destination_of
client_handshake5-agrees private unicast parse promise get serves listen first_packet au u p d bound
      n named hu hp v fits valid port granted bfits bport =
    let (hello, login, request, wh, wl, wr, server) =
      handle_connection-login parse promise get serves listen first_packet au (2 ∷ []) u p d n
        (omega arith) refl hu hp v fits valid port in
    let (response, ws, rs) = read_response-write parse promise get serves bound bfits bport in
    (
      (hello ++ login) ++ request,
      response,
      ws,
      λ rest.
          ap
            (λ s.
              handle_connection parse get listen first_packet (some au) (after s [] (suc (suc n))))
            (append_assoc (hello ++ login) request rest
              ∙ append_assoc hello login (request ++ rest))
          ∙ server rest,
      λ rest.
          client_handshake5-runs private unicast parse get 1 d
            (canonical parse socksaddr_serializer (bind_of bound)) u p hello login request response
            rest n (rw (method_of_named u named) wh) wl wr
            (rs rest
              ∙ ap
                  (λ c. ok (
                    record {
                      reply_code = c;
                      bind = canonical parse socksaddr_serializer (bind_of bound);
                    },
                    rest,
                  ))
                  granted),
    )
