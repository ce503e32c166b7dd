-- ===== src/Socks4/RoundTrip.antt =====
-- A SOCKS 4 request that is written is read back.
use sing.Common.{
  ℕ, ◌≤◌, ◌<◌, ◌≡◌, false, List, [], ◌∷◌, ◌++◌, Option, length, arith, append_assoc, ap, ◌∙◌,
}
use sing.Common.Outcome.{ok}
use sing.Buf.{Alloc}
use sing.Buf.Bytes.{Serves}
use sing.Netip.{Addr, v4}
use sing.Stream.{uint16_bytes}
use sing.Metadata.{no_addr, is_ipv4, addr_string, unwrap, parse_socksaddr_host_port}
use sing.Socks4.{Request, is_host_marker, read_request, write_request}
use sing.Socks4.Strings.{NoZero}
use sing.Socks4.Requests.{request_wire, write_request_wire, read_request-v4, read_request-name}

abbrev pub to_v4 : ℕ → List ℕ → ℕ → List ℕ → Request
to_v4 command ip port username = record {
  command = command;
  destination = record no_addr { addr = v4 ip; port = port };
  username = username;
}

module _ (parse : List ℕ → Option Addr) (show : Addr → List ℕ) (get : Alloc)
    (serves : Serves get) where
  -- With an allocator that serves what it is asked for: a request for an IPv4 address of four
  -- bytes that is not of the form 0.0.0.x with x other than 0, with a port of 16 bits and a user
  -- name of at most 255 bytes, none of them zero, is written without error or panic, and what is
  -- written, in front of any bytes, is read back as the request, up to those bytes.
  pub socks4_request-ip :
      (command port : ℕ) (ip username : List ℕ)
      → length ip ≡ 4
      → is_host_marker ip ≡ false
      → port < 65536
      → NoZero username
      → length username ≤ 255
      → (w : List ℕ) × (write_request show get (to_v4 command ip port username) ≡ ok w)
        × ((rest : List ℕ)
            → read_request parse (w ++ rest) ≡ ok (to_v4 command ip port username, rest))
  unfolding is_ipv4
  socks4_request-ip command port ip username sized plain hp nz hu = (
    _,
    write_request_wire show (to_v4 command ip port username) get serves
        (record { name_fits = hu; host_fits = λ no4. ground (arith, no4); sized = λ yes4. sized }),
    λ rest.
        ap (λ s. read_request parse (4 ∷ command ∷ (uint16_bytes port ++ s)))
          (append_assoc ip (username ++ (0 ∷ [])) rest
            ∙ ap (λ s. ip ++ s) (append_assoc username (0 ∷ []) rest))
        ∙ read_request-v4 parse command port hp ip username rest sized plain nz hu,
  )

  -- With an allocator that serves what it is asked for: a request whose destination is no IPv4
  -- address and prints as a host name of at most 255 bytes, none of them zero, with a port of 16
  -- bits and a user name of at most 255 bytes, none of them zero, is written without error or panic, and what is written, in front of any bytes, is read back with
  -- the destination that the name and the port parse to.
  pub socks4_request-host :
      (r : Request)
      → is_ipv4 r.destination ≡ false
      → r.destination.port < 65536
      → NoZero r.username
      → length r.username ≤ 255
      → NoZero (addr_string show r.destination)
      → length (addr_string show r.destination) ≤ 255
      → (w : List ℕ) × (write_request show get r ≡ ok w)
        × ((rest : List ℕ)
            → read_request parse (w ++ rest)
              ≡ ok (
                record r {
                  destination = unwrap (
                      parse_socksaddr_host_port parse
                        (addr_string show r.destination)
                        r.destination.port);
                },
                rest,
              ))
  socks4_request-host r no4 hp nzu hu nzh hh = (
    request_wire show r,
    write_request_wire show r get serves
        (record { name_fits = hu; host_fits = λ same. hh; sized = λ yes4. cc }),
    λ rest.
        ap (λ s. read_request parse (s ++ rest)) wire
        ∙ ap
            (λ s.
              read_request parse
                (4 ∷ r.command ∷ (uint16_bytes r.destination.port ++ (0 ∷ 0 ∷ 0 ∷ 1 ∷ s))))
            (shape rest)
        ∙ read_request-name parse r.command r.destination.port hp (addr_string show r.destination)
            r.username rest nzu hu nzh hh,
  )
    where
      host : List ℕ
      host = addr_string show r.destination

      wire :
          request_wire show r
          ≡ 4
            ∷ r.command
            ∷ (uint16_bytes r.destination.port
                ++ (0 ∷ 0 ∷ 0 ∷ 1 ∷ (r.username ++ (0 ∷ (host ++ (0 ∷ []))))))
      wire = ground (arith, no4)

      shape :
          (rest : List ℕ)
          → (r.username ++ (0 ∷ (host ++ (0 ∷ [])))) ++ rest
            ≡ r.username ++ (0 ∷ (host ++ (0 ∷ rest)))
      shape rest =
          append_assoc r.username (0 ∷ (host ++ (0 ∷ []))) rest
          ∙ ap (λ s. r.username ++ (0 ∷ s)) (append_assoc host (0 ∷ []) rest)
