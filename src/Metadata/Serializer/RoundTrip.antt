-- ===== src/Metadata/Serializer/RoundTrip.antt =====
-- Reading back what `serializer.go` writes.
use sing.Common.{
  ℕ, ◌<◌, ◌≡◌, refl, true, false, ◌||◌, List, [], ◌∷◌, ◌++◌, Option, some, length, if◌then◌else◌,
  arith, append-nil, append_assoc, Bool-cases, inl, inr, Option-cases,
}
use sing.Common.Outcome.{eof, ok, err}
use sing.Netip
use sing.Netip.{Addr, invalid, v4, v6}
use sing.Stream.{
  read_uint8-nil, uint16_bytes, read_full, read_full-append, read_uint8-cons, read_uint16-bytes,
}
use sing.Metadata.{
  Socksaddr, no_addr, is_valid, is_ipv4, is_ipv6, is_ip, is_domain, unwrap, unwrap_ipv6_address,
  parse_socksaddr_host_port,
}
use sing.Metadata.Serializer.{
  Serializer, family_of, read_sock_string, read_family, read_address, read_port, read_addr_port,
}
use sing.Metadata.Serializer.Wire.{string_wire, body, address_wire, addr_port_wire, suc-eq_zero}

-- A name is read back up to its end.
pub read_sock_string-wire :
    (s rest : List ℕ) → read_sock_string (string_wire s ++ rest) ≡ ok (s, rest)
unfolding read_sock_string
read_sock_string-wire s rest = rw (read_uint8-cons, read_full-append)

-- What `netip.ParseAddr` promises: it does not return the zero address as a success.
abbrev pub Parses : (List ℕ → Option Addr) → Type 0
Parses parse = (s : List ℕ) (a : Addr) → parse s ≡ some a → Netip.is_valid a ≡ true

module _ (parse : List ℕ → Option Addr) where
  -- What an address is after a round trip: a name that reads as an address has become one, a mapped
  -- address is unwrapped, and a zone is gone.
  abbrev pub decoded : Addr → List ℕ → Socksaddr
  decoded invalid [] = no_addr
  decoded invalid (x ∷ xs) = parse_socksaddr_host_port parse (x ∷ xs) 0
  decoded (v4 bs) f = record no_addr { addr = v4 bs }
  decoded (v6 bs zone) f = unwrap (record no_addr { addr = v6 bs [] })

  -- The port comes back too, unless it was left out behind no address.
  abbrev pub canonical : Serializer → Socksaddr → Socksaddr
  canonical s a = record (decoded a.addr a.fqdn) {
    port = if s.port_first || is_valid a then a.port else 0;
  }

  read_full_of :
      (n : ℕ) (xs rest : List ℕ) → length xs ≡ n → read_full n (xs ++ rest) ≡ ok (xs, rest)
  read_full_of n xs rest e = rw (← e) (read_full-append xs rest)

  read_family-body :
      (s : Serializer) (ad : Addr) (p : ℕ) (f : List ℕ) (af : ℕ) (rest : List ℕ)
      → Netip.IsSized ad
      → let a : Socksaddr = record { addr = ad; port = p; fqdn = f } in
        read_family parse s (family_of a) af (body ad f ++ rest) ≡ ok (decoded ad f, rest)
  unfolding is_valid is_ipv4 is_ipv6
  read_family-body s invalid p [] af rest h = refl
  read_family-body s invalid p (x ∷ xs) af rest h =
      rw (suc-eq_zero, read_sock_string-wire (x ∷ xs) rest)
  read_family-body s (v4 bs) p f af rest h = rw (read_full_of 4 bs rest h)
  read_family-body s (v6 bs zone) p f af rest h = rw (read_full_of 16 bs rest h)

  -- An address is still one after a round trip.
  is_valid-decoded :
      (ad : Addr) (p : ℕ) (f : List ℕ)
      → Parses parse
      → is_valid (decoded ad f) ≡ is_valid (record { addr = ad; port = p; fqdn = f })
  unfolding is_valid is_ip is_domain unwrap parse_socksaddr_host_port
  is_valid-decoded invalid p [] ph = refl
  is_valid-decoded invalid p (x ∷ xs) ph =
      elim (Option-cases (parse (unwrap_ipv6_address (x ∷ xs)))) [
        | inl e ↦ ground (arith, e)
        | inr (a, e) ↦ ground (arith, e, ph (unwrap_ipv6_address (x ∷ xs)) a e)
      ]
  is_valid-decoded (v4 bs) p f ph = refl
  is_valid-decoded (v6 bs zone) p f ph = ground arith

  -- At the end of the stream there is no address.
  pub read_addr_port-nil :
      (s : Serializer) → s.port_first ≡ false → read_addr_port parse s [] ≡ err eof
  unfolding read_addr_port read_address
  read_addr_port-nil s last = rw (last, read_uint8-nil)

  module _ (s : Serializer) (a : Socksaddr) (sized : Netip.IsSized a.addr) (af : ℕ) where
    -- `ReadAddress` reads back an address, its family byte being known, and stops behind it.
    pub read_address-wire :
        (rest : List ℕ)
        → s.family_map af ≡ some (family_of a)
        → read_address parse s (address_wire af a ++ rest) ≡ ok (decoded a.addr a.fqdn, rest)
    unfolding read_address
    read_address-wire rest e =
        rw (read_uint8-cons, e) (read_family-body s a.addr a.port a.fqdn af rest sized)

    pub read_port-bytes :
        (rest : List ℕ)
        → a.port < 65536
        → read_port s (uint16_bytes a.port ++ rest) ≡ ok (a.port, rest)
    unfolding read_port
    read_port-bytes rest h = rw (read_uint16-bytes a.port rest h)

    -- With a parser of addresses that keeps its promises: `ReadAddrPort` reads the wire form of a sized
    -- address, whose family byte the serializer knows, and of a port of 16 bits, in either order, as
    -- the address in canonical form, and stops behind it.
    pub read_addr_port-wire :
        (rest : List ℕ)
        → Parses parse
        → s.family_map af ≡ some (family_of a)
        → a.port < 65536
        → read_addr_port parse s (addr_port_wire s af a ++ rest) ≡ ok (canonical s a, rest)
    unfolding read_addr_port
    read_addr_port-wire rest ph e hp = elim (Bool-cases s.port_first) [
      | inl first ↦
          simp (first, read_port-bytes (address_wire af a ++ rest) hp, read_address-wire rest e)
      | inr last ↦ elim (Bool-cases (is_valid a)) [
        | inl valid ↦ simp (
          last,
          valid,
          append_assoc,
          read_address-wire (uint16_bytes a.port ++ rest) e,
          vd,
          read_port-bytes rest hp,
        )
        | inr empty ↦
            rw (no_port last empty) (simp (last, read_address-wire rest e, vd) (simp empty))
      ]
    ]
      where
        vd : is_valid (decoded a.addr a.fqdn) ≡ is_valid a
        vd = is_valid-decoded a.addr a.port a.fqdn ph

        no_port :
            s.port_first ≡ false → is_valid a ≡ false → addr_port_wire s af a ≡ address_wire af a
        no_port l n = simp (l, n) (append-nil (address_wire af a))
