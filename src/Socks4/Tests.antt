-- ===== src/Socks4/Tests.antt =====
-- The theorems on SOCKS 4 messages at concrete messages.
use sing.Common.{ℕ, ◌≤◌, ◌≡◌, refl, false, List, [], ◌∷◌, ◌++◌, length, arith}
use sing.Common.Outcome.{eof, ok, err}
use sing.Netip.{Addr, invalid}
use sing.Metadata.{is_ipv4, addr_string, unwrap, parse_socksaddr_host_port}
use sing.Socks4.{Request, write_request, read_request, write_response, read_response}
use sing.Socks4.Strings.{NoZero}
use sing.Socks4.RoundTrip.{socks4_request-host}
use sing.Socks4.Responses.{read_response-write_no_addr}
use sing.Tests.Samples.{sevens, sevens-Serves, no_parse, name, site}

-- A printer that knows no address: only names are printed below.
abbrev no_show : Addr → List ℕ
no_show a = []

abbrev home : List ℕ
home = 127 ∷ 0 ∷ 0 ∷ 1 ∷ []

abbrev to_site : Request
to_site = record { command = 1; destination = site; username = 109 ∷ 101 ∷ [] }

site_plain : is_ipv4 site ≡ false
unfolding is_ipv4
site_plain = refl

site_short : length (addr_string no_show site) ≤ 255
unfolding addr_string
site_short = omega arith

name-NoZero : NoZero name
name-NoZero = ground arith

user-NoZero : NoZero to_site.username
user-NoZero = ground arith

site-NoZero : NoZero (addr_string no_show site)
unfolding addr_string
site-NoZero = name-NoZero

socks4_request-host_example :
    (w : List ℕ) × (write_request no_show sevens to_site ≡ ok w)
    × ((rest : List ℕ)
        → read_request no_parse (w ++ rest)
          ≡ ok (
            record to_site {
              destination =
                  unwrap (parse_socksaddr_host_port no_parse (addr_string no_show site) 443);
            },
            rest,
          ))
socks4_request-host_example =
    socks4_request-host no_parse no_show sevens sevens-Serves to_site site_plain (omega arith)
      user-NoZero (omega arith) site-NoZero site_short

read_response-write_no_addr_example :
    (w : List ℕ) × (write_response sevens
        (record { reply_code = 91; destination = record { addr = invalid; port = 0; fqdn = [] } })
      ≡ ok w)
    × (length w ≡ 4)
    × (read_response w ≡ err eof)
read_response-write_no_addr_example =
    read_response-write_no_addr sevens 91 0 [] sevens-Serves (omega arith)
