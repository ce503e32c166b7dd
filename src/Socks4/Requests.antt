-- ===== src/Socks4/Requests.antt =====
-- What is written as a SOCKS 4 request, and that it is read back.
use sing.Common.{
  ℕ, ◌≤◌, ◌<◌, ◌≡◌, true, false, List, [], ◌∷◌, ◌++◌, Option, length, ltb, ◌==◌, if◌then◌else◌,
  arith, length-append, Bool-cases, inl, inr, replicate,
}
use sing.Common.Outcome.{new, ok, err, must}
use sing.Buf.{Alloc}
use sing.Buf.Bytes.{Serves}
use sing.Buf.Emit.{
  Emits, Emits-nil, Emits-if, write_string_all, Emits-bind, Emits-must, Emits-write_byte,
  Emits-write_zero, Emits-write_zero_n, Emits-write, Emits-write_string, new_size-Emits,
}
use sing.Netip
use sing.Netip.{Addr, invalid, v4, v6}
use sing.Stream.{uint16_bytes, read_full, read_full-append, read_uint16-bytes}
use sing.Metadata.{no_addr, is_ipv4, addr_string, unwrap, parse_socksaddr_host_port}
use sing.Metadata.Serializer.Wire.{suc-eq_zero}
use sing.Socks4.{
  Request, is_host_marker, read_request, read_request0, request_len, write_fixed, write_ip,
  write_username, write_host, write_request,
}
use sing.Socks4.Strings.{NoZero, read_string-zero}

not_long : (s : List ℕ) → length s ≤ 255 → ltb 255 (length s) ≡ false
not_long s h = ground arith

optional_string-Emits :
    (s : List ℕ)
    → length s ≤ 255
    → Emits
        (λ b.
          if length s == 0
          then ok b
          else if ltb 255 (length s)
          then err (new "username too long")
          else must (write_string_all s b))
        s
optional_string-Emits [] h = Emits-nil
optional_string-Emits (x ∷ xs) h =
    rw (suc-eq_zero, not_long (x ∷ xs) h) (Emits-must _ (Emits-write_string (x ∷ xs)))

module _ (show : Addr → List ℕ) (r : Request) where
  -- The name of the destination, as the request carries it behind the user name.
  abbrev pub host : List ℕ
  host = addr_string show r.destination

  abbrev pub ip_wire : List ℕ
  ip_wire = if is_ipv4 r.destination then Netip.as_slice r.destination.addr else 0 ∷ 0 ∷ 0 ∷ 1 ∷ []

  abbrev pub host_wire : List ℕ
  host_wire = if is_ipv4 r.destination then [] else host ++ (0 ∷ [])

  abbrev pub request_wire : List ℕ
  request_wire =
      (4 ∷ r.command ∷ uint16_bytes r.destination.port)
      ++ (ip_wire ++ (r.username ++ ((0 ∷ []) ++ host_wire)))

  -- The lengths that a request is not refused for, and an IPv4 address of four bytes.
  pub record Fits : Type 0 where
    pub name_fits : length r.username ≤ 255
    pub host_fits : is_ipv4 r.destination ≡ false → length host ≤ 255
    pub sized : is_ipv4 r.destination ≡ true → length (Netip.as_slice r.destination.addr) ≡ 4

  write_fixed-Emits : Emits (write_fixed show r) (4 ∷ r.command ∷ uint16_bytes r.destination.port)
  write_fixed-Emits = Emits-must _ (
      Emits-bind (4 ∷ []) _ (Emits-write_byte 4) (
        Emits-bind (r.command ∷ []) _ (Emits-write_byte r.command)
          (Emits-write (uint16_bytes r.destination.port))))

  write_ip-Emits : Emits (write_ip show r) ip_wire
  write_ip-Emits =
      Emits-if (is_ipv4 r.destination) (Netip.as_slice r.destination.addr) (0 ∷ 0 ∷ 0 ∷ 1 ∷ [])
        (Emits-must _ (Emits-write (Netip.as_slice r.destination.addr)))
        (Emits-bind (replicate 3 0) (1 ∷ []) (Emits-must _ (Emits-write_zero_n 3))
          (Emits-must _ (Emits-write_byte 1)))

  write_username-Emits : length r.username ≤ 255 → Emits (write_username show r) r.username
  write_username-Emits h = optional_string-Emits r.username h

  write_host-Emits :
      (is_ipv4 r.destination ≡ false → length host ≤ 255) → Emits (write_host show r) host_wire
  write_host-Emits h = elim (Bool-cases (is_ipv4 r.destination)) [
    | inl yes4 ↦ rw yes4 Emits-nil
    | inr no4 ↦
        rw (no4, not_long host (h no4))
          (Emits-bind host (0 ∷ []) (Emits-must _ (Emits-write_string host))
            (Emits-must _ Emits-write_zero))
  ]

  request_len_lem : Fits → length request_wire ≡ request_len show r
  unfolding request_len
  request_len_lem f = elim (Bool-cases (is_ipv4 r.destination)) [
    | inl yes4 ↦ ground (
      arith,
      yes4,
      f.sized yes4,
      length-append (Netip.as_slice r.destination.addr) (r.username ++ (0 ∷ [])),
      length-append r.username (0 ∷ []),
    )
    | inr no4 ↦
        ground (
          arith,
          no4,
          length-append r.username (0 ∷ (host ++ (0 ∷ []))),
          length-append host (0 ∷ []),
        )
  ]

  -- `WriteRequest` never panics, and with lengths that fit it writes the layout of SOCKS 4, or of
  -- SOCKS 4a where the destination is no IPv4 address, in a buffer of exactly that size.
  pub write_request_wire :
      (get : Alloc) → Serves get → Fits → write_request show get r ≡ ok request_wire
  unfolding write_request
  write_request_wire get serves f =
      new_size-Emits get (request_len show r) request_wire serves
        (Emits-bind (4 ∷ r.command ∷ uint16_bytes r.destination.port) _ write_fixed-Emits (
          Emits-bind ip_wire _ write_ip-Emits (
            Emits-bind r.username _ (write_username-Emits f.name_fits) (
              Emits-bind (0 ∷ []) host_wire (Emits-must _ Emits-write_zero)
                (write_host-Emits f.host_fits)))))
        (omega (arith, request_len_lem f))

-- What the reader makes of the bytes behind the port.
module _ (parse : List ℕ → Option Addr) (command port : ℕ) (hp : port < 65536) where
  pub read_request-v4 :
      (ip username rest : List ℕ)
      → length ip ≡ 4
      → is_host_marker ip ≡ false
      → NoZero username
      → length username ≤ 255
      → read_request parse ((4 ∷ command ∷ uint16_bytes port) ++ (ip ++ (username ++ (0 ∷ rest))))
        ≡ ok (
          record {
            command = command;
            destination = record no_addr { addr = v4 ip; port = port };
            username = username;
          },
          rest,
        )
  unfolding read_request read_request0
  read_request-v4 ip username rest sized plain nz hu = rw (
    read_uint16-bytes port _ hp,
    four (username ++ (0 ∷ rest)),
    read_string-zero username rest nz hu,
    plain,
  )
    where
      four : (more : List ℕ) → read_full 4 (ip ++ more) ≡ ok (ip, more)
      four more = rw (← sized) (read_full-append ip more)

  pub read_request-name :
      (name username rest : List ℕ)
      → NoZero username
      → length username ≤ 255
      → NoZero name
      → length name ≤ 255
      → read_request parse (
          (4 ∷ command ∷ uint16_bytes port)
          ++ ((0 ∷ 0 ∷ 0 ∷ 1 ∷ []) ++ (username ++ (0 ∷ (name ++ (0 ∷ rest))))))
        ≡ ok (
          record {
            command = command;
            destination = unwrap (parse_socksaddr_host_port parse name port);
            username = username;
          },
          rest,
        )
  unfolding read_request read_request0
  read_request-name name username rest nzu hu nzn hn = rw (
    read_uint16-bytes port _ hp,
    read_full-append (0 ∷ 0 ∷ 0 ∷ 1 ∷ []) _,
    read_string-zero username _ nzu hu,
    read_string-zero name rest nzn hn,
  )
