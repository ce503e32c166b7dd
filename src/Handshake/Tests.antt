-- ===== src/Handshake/Tests.antt =====
-- The server's part of the handshake at concrete clients.
use sing.Common.{ℕ, ◌≡◌, refl, Bool, true, false, List, [], ◌∷◌, ◌++◌, some, arith}
use sing.Common.Outcome.{ok, err, broken}
use sing.Metadata.{is_valid}
use sing.Metadata.Serializer.{socksaddr_serializer}
use sing.Metadata.Serializer.RoundTrip.{canonical}
use sing.Socks5
use sing.Socks5.RoundTrip.{read_response-write}
use sing.Metadata.{unwrap}
use sing.Handshake.Lazy.{success_response, new_lazy_conn}
use sing.Handshake.Lazy.Runs.{Use, use_all, payloads, use_all-answered}
use sing.Handshake.Lazy.Runs.Use.{read_up_to, fail_with, write_bytes}
use sing.Socks5.{bind_of}
use sing.Netip.{Addr}
use sing.Handshake.Client.{client_handshake5}
use sing.Handshake.Client.Runs.{client_handshake5-agrees}
use sing.Socks5.Writes.{request_to}
use sing.Handshake.Exchange.{handle_connection-login, negotiate-twice}
use sing.Auth.{Authenticator, verify, same, contains}
use sing.Handshake.{offers, negotiate, handle_connection}
use sing.Handshake.Event.{new_connection}
use sing.Handshake.Safety.{Shows, handle_connection-verify}
use sing.Tests.Samples.{sevens, sevens-Serves, no_parse, no_parse-Parses, site, name}

abbrev secret : List ℕ
secret = 112 ∷ 119 ∷ []

abbrev keeper : Authenticator
keeper = record { user_map = (name, secret ∷ []) ∷ [] }

keeper_knows : verify keeper name secret ≡ true
unfolding verify contains same
keeper_knows = refl

offered : offers 2 (0 ∷ 2 ∷ []) ≡ true
unfolding offers
offered = refl

site_valid_address : is_valid site ≡ true
unfolding is_valid
site_valid_address = refl

not_offered : offers 2 (0 ∷ []) ≡ false
unfolding offers
not_offered = refl

handle_connection-login_example :
    (hello_wire login_wire request_wire : List ℕ) × (Socks5.write_auth_request sevens
        (record { methods = 0 ∷ 2 ∷ [] })
      ≡ ok hello_wire)
    × (Socks5.write_username_password_auth_request sevens
          (record { username = name; password = secret })
        ≡ ok login_wire)
    × (Socks5.write_request sevens (request_to 1 site) ≡ ok request_wire)
    × ((rest : List ℕ)
        → handle_connection no_parse sevens (err broken) (err broken) (some keeper) (record {
          src = hello_wire ++ (login_wire ++ (request_wire ++ rest));
          sent = [];
          writes = 2;
        })
          ≡ (
            ok (new_connection (some name) 5 (canonical no_parse socksaddr_serializer site)),
            record { src = rest; sent = 5 ∷ 2 ∷ 1 ∷ 0 ∷ []; writes = 0 },
          ))
handle_connection-login_example =
    handle_connection-login no_parse no_parse-Parses sevens sevens-Serves (err broken) (err broken)
      keeper (0 ∷ 2 ∷ []) name secret site 0 (omega arith) offered (omega arith) (omega arith)
      keeper_knows (omega arith) site_valid_address (omega arith)

-- Of the client that has just been let in, with a byte behind its messages.
abbrev login_bytes : List ℕ
login_bytes =
    handle_connection-login_example.0
    ++ (handle_connection-login_example.1 ++ (handle_connection-login_example.2 ++ (9 ∷ [])))

handle_connection-verify_example :
    (u p : List ℕ) × (some name ≡ some u)
    × Shows no_parse login_bytes u p
    × (verify keeper u p ≡ true)
handle_connection-verify_example =
    handle_connection-verify no_parse sevens (err broken) (err broken) keeper
      (record { src = login_bytes; sent = []; writes = 2 })
      (record { src = 9 ∷ []; sent = 5 ∷ 2 ∷ 1 ∷ 0 ∷ []; writes = 0 })
      (new_connection (some name) 5 (canonical no_parse socksaddr_serializer site))
      (handle_connection-login_example.6 (9 ∷ []))

negotiate-twice_example :
    negotiate (some keeper) (record { src = 1 ∷ 0 ∷ 9 ∷ []; sent = []; writes = 2 })
    ≡ (ok tt, record { src = 9 ∷ []; sent = 5 ∷ 255 ∷ 5 ∷ 2 ∷ []; writes = 0 })
negotiate-twice_example = negotiate-twice keeper (0 ∷ []) (9 ∷ []) [] 0 not_offered

abbrev success : Socks5.Response
success = record { reply_code = 0; bind = site }

-- A predicate on addresses that holds of none.
abbrev never : Addr → Bool
never a = false

client_handshake5-agrees_example :
    (sent response : List ℕ) × (Socks5.write_response sevens success ≡ ok response)
    × ((rest : List ℕ)
        → handle_connection no_parse sevens
            (err broken)
            (err broken)
            (some keeper)
            (record { src = sent ++ rest; sent = []; writes = 2 })
          ≡ (
            ok (new_connection (some name) 5 (canonical no_parse socksaddr_serializer site)),
            record { src = rest; sent = 5 ∷ 2 ∷ 1 ∷ 0 ∷ []; writes = 0 },
          ))
    × ((rest : List ℕ)
        → client_handshake5 never never no_parse sevens 1 site name secret
            (record { src = 5 ∷ 2 ∷ 1 ∷ 0 ∷ (response ++ rest); sent = []; writes = 3 })
          ≡ (
            ok (record {
              reply_code = 0;
              bind = canonical no_parse socksaddr_serializer (bind_of success);
            }),
            record { src = rest; sent = sent; writes = 0 },
          ))
client_handshake5-agrees_example =
    client_handshake5-agrees never never no_parse no_parse-Parses sevens sevens-Serves (err broken)
      (err broken) keeper name secret site success 0 (omega arith) (omega arith) (omega arith)
      keeper_knows (omega arith) site_valid_address (omega arith) refl (omega arith) (omega arith)

-- What goes out first on a lazy connection of version 5 that is written to.
first_answer : (w : List ℕ) × (success_response sevens site 5 ≡ ok w)
unfolding success_response unwrap
first_answer =
    let r =
      read_response-write no_parse no_parse-Parses sevens sevens-Serves
        (record { reply_code = 0; bind = unwrap site }) (omega arith) (omega arith) in
    (r.0, r.1)

abbrev later : List Use
later = read_up_to 1 ∷ fail_with 1 ∷ write_bytes (8 ∷ []) ∷ []

use_all-answered_example :
    (use_all sevens site
      (write_bytes (7 ∷ []) ∷ later)
      (new_lazy_conn (record { src = 9 ∷ []; sent = []; writes = 3 }) 5)).conn.sent
    ≡ first_answer.0 ++ payloads 2 (write_bytes (7 ∷ []) ∷ later)
use_all-answered_example =
    use_all-answered sevens site 5 (write_bytes (7 ∷ [])) later (9 ∷ []) first_answer.0 2
      first_answer.1
