-- ===== src/Tests/Socks5Tests.antt =====
-- The theorems on SOCKS 5 messages at concrete messages.
use sing.Common.{ℕ, ◌≡◌, refl, true, List, [], ◌∷◌, ◌++◌, arith}
use sing.Common.Outcome.{new_byte, ok, err}
use sing.Metadata.{is_valid}
use sing.Metadata.Serializer.{socksaddr_serializer}
use sing.Metadata.Serializer.RoundTrip.{canonical}
use sing.Socks5.{Response, read_auth_request, write_request, read_request, read_response}
use sing.Socks5.Writes.{request_to}
use sing.Socks5.RoundTrip.{read_request-write, read-version}
use sing.Tests.Samples.{site, localhost, sevens, sevens-Serves, no_parse, no_parse-Parses}

site_valid : is_valid site ≡ true
unfolding is_valid
site_valid = refl

read_request-write_example :
    (w : List ℕ) × (write_request sevens (request_to 1 site) ≡ ok w)
    × ((rest : List ℕ)
        → read_request no_parse (w ++ rest)
          ≡ ok (request_to 1 (canonical no_parse socksaddr_serializer site), rest))
read_request-write_example =
    read_request-write no_parse no_parse-Parses sevens sevens-Serves 1 site (omega arith) site_valid
      (omega arith)

abbrev granted : Response
granted = record { reply_code = 0; bind = localhost }

read-version_example :
    (read_request no_parse (4 ∷ 1 ∷ []) ≡ err (new_byte "expected socks version 5, got " 4))
    × (read_response no_parse (4 ∷ 1 ∷ []) ≡ err (new_byte "expected socks version 5, got " 4))
    × (read_auth_request (4 ∷ 1 ∷ []) ≡ err (new_byte "expected socks version 5, got " 4))
read-version_example = read-version no_parse 4 (1 ∷ []) (omega arith)
