-- ===== src/Metadata/Serializer/Wire.antt =====
-- The bytes of an address on the wire, and that `serializer.go` writes exactly those.
use sing.Common.{
  ℕ, suc, ◌≤◌, ◌<◌, ◌≡◌, refl, Bool, true, false, List, [], ◌∷◌, ◌++◌, none, some, length, ltb,
  ◌==◌, not, if◌then◌else◌, arith, length-append, ◌⊎◌, Bool-cases, inl, inr, ap, ◌∙◌,
}
use sing.Common.Outcome.{new, Outcome, ok, err, ◌>>=◌}
use sing.Buf.{Buffer, Alloc, write_byte}
use sing.Buf.Bytes.{IsValid, room, Serves}
use sing.Buf.Emit.{
  Emits, Emits-nil, Emits-bind, Emits-write_byte, Emits-write, Emits-write_string, new_size-Emits,
}
use sing.Netip
use sing.Netip.{Addr, invalid, v4, v6}
use sing.Stream.{uint16_bytes}
use sing.Metadata.{Socksaddr, is_valid, is_ipv4, is_ipv6, is_ip, is_domain}
use sing.Metadata.Serializer.{
  Serializer, socksaddr_serializer, family_of, write_family, write_second, write_socks_string,
  write_address, write_port, write_addr_port, address_len, addr_port_len, write_addr_port_bytes,
}

-- A name by its length and bytes.
abbrev pub string_wire : List ℕ → List ℕ
string_wire s = length s ∷ s

-- What follows the family byte.
abbrev pub body : Addr → List ℕ → List ℕ
body invalid [] = []
body invalid (x ∷ xs) = string_wire (x ∷ xs)
body (v4 bs) f = bs
body (v6 bs zone) f = bs

-- An address of this library: its bytes have the right number, and its name fits a length byte.
abbrev pub Fits : Socksaddr → Type 0
Fits a = Netip.IsSized a.addr × (length a.fqdn ≤ 255)

-- The wire form, with the family byte `af`.
abbrev pub address_wire : ℕ → Socksaddr → List ℕ
address_wire af a = af ∷ body a.addr a.fqdn

abbrev pub addr_port_wire : Serializer → ℕ → Socksaddr → List ℕ
addr_port_wire s af a =
    if s.port_first
    then uint16_bytes a.port ++ address_wire af a
    else address_wire af a ++ (if is_valid a then uint16_bytes a.port else [])

pub suc-eq_zero : (n : ℕ) → (suc n == 0) ≡ false
suc-eq_zero n = ground arith

pub write_socks_string-Emits :
    (s : List ℕ) → length s ≤ 255 → Emits (write_socks_string s) (string_wire s)
unfolding write_socks_string
write_socks_string-Emits s h =
    rw short (Emits-bind (length s ∷ []) s (Emits-write_byte (length s)) (Emits-write_string s))
  where
    short : ltb 255 (length s) ≡ false
    short = ground arith

write_family-Emits :
    (ad : Addr) (p : ℕ) (f : List ℕ)
    → length f ≤ 255
    → let a : Socksaddr = record { addr = ad; port = p; fqdn = f } in
      Emits (write_family (family_of a) a) (body ad f)
unfolding is_valid is_ipv4 is_ipv6
write_family-Emits invalid p [] h = Emits-nil
write_family-Emits invalid p (x ∷ xs) h = rw suc-eq_zero (write_socks_string-Emits (x ∷ xs) h)
write_family-Emits (v4 bs) p f h = Emits-write bs
write_family-Emits (v6 bs zone) p f h = Emits-write bs

-- A valid address has one of three families, and no other has a family byte in
-- `SocksaddrSerializer`, which maps each to itself.
pub socksaddr_serializer-family :
    (a : Socksaddr)
    → (is_valid a ≡ true
        → (socksaddr_serializer.family_byte_map (family_of a) ≡ some (family_of a))
          × (socksaddr_serializer.family_map (family_of a) ≡ some (family_of a)))
      × (is_valid a ≡ false → socksaddr_serializer.family_byte_map (family_of a) ≡ none)
unfolding socksaddr_serializer
socksaddr_serializer-family a = ground arith

-- The two orders of address and port.
order-Emits :
    {m k r : Buffer → Outcome Buffer} (first : Bool) (xs ys zs : List ℕ)
    → Emits m xs
    → Emits k ys
    → Emits r zs
    → Emits
        (λ b. (if not first then m b else k b) >>= λ c. if first then m c else r c)
        (if first then ys ++ xs else xs ++ zs)
order-Emits true xs ys zs hm hk hr = Emits-bind ys xs hk hm
order-Emits false xs ys zs hm hk hr = Emits-bind xs zs hm hr

optional-Emits :
    {m : Buffer → Outcome Buffer} (present : Bool) (xs : List ℕ)
    → Emits m xs
    → Emits (λ b. if present then m b else ok b) (if present then xs else [])
optional-Emits true xs hm = hm
optional-Emits false xs hm = Emits-nil

family_len :
    (ad : Addr) (p : ℕ) (f : List ℕ) (s : Serializer) (af : ℕ)
    → Netip.IsSized ad
    → address_len s (record { addr = ad; port = p; fqdn = f }) ≡ suc (length (body ad f))
unfolding address_len is_valid is_ipv4 is_ipv6
family_len invalid p [] s af h = refl
family_len invalid p (x ∷ xs) s af h = rw suc-eq_zero (omega arith)
family_len (v4 bs) p f s af h = omega arith
family_len (v6 bs zone) p f s af h = omega arith

module _ (s : Serializer) (a : Socksaddr) (fits : Fits a) where
  -- With a byte for its family, an address is written as its wire form.
  pub write_address-Emits :
      (af : ℕ)
      → s.family_byte_map (family_of a) ≡ some af
      → Emits (write_address s a) (address_wire af a)
  unfolding write_address
  write_address-Emits af e b v h =
      rw (e, write_address)
        (Emits-bind (af ∷ []) (body a.addr a.fqdn) (Emits-write_byte af)
          (write_family-Emits a.addr a.port a.fqdn fits.1) b v h)

  write_port-Emits : Emits (write_port s a.port) (uint16_bytes a.port)
  unfolding write_port
  write_port-Emits = Emits-write (uint16_bytes a.port)

  -- For an address that fits and has a byte for its family, `WriteAddrPort` appends the wire form of
  -- address and port to any valid buffer with room for it, without error or panic.
  pub write_addr_port-Emits :
      (af : ℕ)
      → s.family_byte_map (family_of a) ≡ some af
      → Emits (write_addr_port s a) (addr_port_wire s af a)
  unfolding write_addr_port
  write_addr_port-Emits af e =
      order-Emits s.port_first (address_wire af a) (uint16_bytes a.port) _
        (write_address-Emits af e) write_port-Emits
        (optional-Emits (is_valid a) (uint16_bytes a.port) write_port-Emits)

  -- `AddrPortLen` is the length of what `WriteAddrPort` writes, unless a port stands before an
  -- address that is not valid.
  pub addr_port_len_lem :
      (af : ℕ)
      → (s.port_first ≡ false) ⊎ (is_valid a ≡ true)
      → addr_port_len s a ≡ length (addr_port_wire s af a)
  unfolding addr_port_len
  addr_port_len_lem af h = elim (Bool-cases s.port_first) [
    | inl first ↦ elim h [ inl last ↦ cc | inr valid ↦ rw (len, first, valid) (omega arith) ]
    | inr last ↦ elim (Bool-cases (is_valid a)) [
      | inl valid ↦
          rw (len, last, valid)
            (omega (arith, length-append (address_wire af a) (uint16_bytes a.port)))
      | inr empty ↦ rw (len, last, empty) (omega (arith, length-append (address_wire af a) []))
    ]
  ]
    where
      len : address_len s a ≡ suc (length (body a.addr a.fqdn))
      len = family_len a.addr a.port a.fqdn s af fits.0

  -- For an address that fits and has a byte for its family, in the order that puts it first or a valid one, and with an allocator that
  -- serves what it is asked for: to a writer that is no buffer `WriteAddrPort` writes exactly the wire
  -- form, in one piece. The buffer of `AddrPortLen` bytes is large enough.
  pub write_addr_port_bytes_lem :
      (get : Alloc) (af : ℕ)
      → Serves get
      → s.family_byte_map (family_of a) ≡ some af
      → (s.port_first ≡ false) ⊎ (is_valid a ≡ true)
      → write_addr_port_bytes s get a ≡ ok (addr_port_wire s af a)
  unfolding write_addr_port_bytes
  write_addr_port_bytes_lem get af serves e h =
      new_size-Emits get (addr_port_len s a) (addr_port_wire s af a) serves
        (write_addr_port-Emits af e) (omega (arith, addr_port_len_lem af h))

write_address-none :
    (s : Serializer) (a : Socksaddr) (b : Buffer)
    → s.family_byte_map (family_of a) ≡ none
    → write_address s a b ≡ err (new "unsupported address")
unfolding write_address
write_address-none s a b e = rw (e, write_address)

-- `SocksaddrSerializer` refuses an address that is not valid.
pub write_addr_port-invalid :
    (a : Socksaddr) (b : Buffer)
    → is_valid a ≡ false
    → write_addr_port socksaddr_serializer a b ≡ err (new "unsupported address")
unfolding write_addr_port socksaddr_serializer
write_addr_port-invalid a b h =
    ap (λ m. m >>= write_second socksaddr_serializer a)
      (write_address-none socksaddr_serializer a b ((socksaddr_serializer-family a).1 h))

write_family-long :
    (p : ℕ) (f : List ℕ) (b : Buffer)
    → 255 < length f
    → let a : Socksaddr = record { addr = invalid; port = p; fqdn = f } in
      write_family (family_of a) a b ≡ err (new "fqdn too long")
unfolding write_socks_string is_valid is_ipv4 is_ipv6
write_family-long p [] b h = absurd (omega arith)
write_family-long p (x ∷ xs) b h = rw suc-eq_zero (ground arith)

write_address-some :
    (s : Serializer) (a : Socksaddr) (b : Buffer) (af : ℕ)
    → s.family_byte_map (family_of a) ≡ some af
    → write_address s a b ≡ (write_byte af b >>= write_family (family_of a) a)
unfolding write_address
write_address-some s a b af e = rw (e, write_address)

pub is_valid-long :
    (p : ℕ) (f : List ℕ)
    → 255 < length f
    → is_valid (record { addr = invalid; port = p; fqdn = f }) ≡ true
unfolding is_valid is_ip is_domain
is_valid-long p [] long = absurd (omega arith)
is_valid-long p (x ∷ xs) long = rw suc-eq_zero

pub is_valid-v4 :
    (bs : List ℕ) (p : ℕ) (f : List ℕ)
    → is_valid (record { addr = v4 bs; port = p; fqdn = f }) ≡ true
unfolding is_valid is_ip
is_valid-v4 bs p f = refl

-- On a buffer with room for the family byte a name of more than 255 bytes is refused.
pub write_addr_port-long :
    (p : ℕ) (f : List ℕ) (b : Buffer)
    → IsValid b
    → 0 < room b
    → 255 < length f
    → write_addr_port socksaddr_serializer (record { addr = invalid; port = p; fqdn = f }) b
      ≡ err (new "fqdn too long")
unfolding write_addr_port socksaddr_serializer
write_addr_port-long p f b v h long =
    let a : Socksaddr = record { addr = invalid; port = p; fqdn = f } in
    let (b', w, _) = Emits-write_byte (family_of a) b v (omega arith) in
    let byte = ((socksaddr_serializer-family a).0 (is_valid-long p f long)).0 in
    let refused : write_address socksaddr_serializer a b ≡ err (new "fqdn too long") =
      write_address-some socksaddr_serializer a b (family_of a) byte
      ∙ rw w (write_family-long p f b' long) in
    ap (λ m. m >>= write_second socksaddr_serializer a) refused

pub addr_port_len_pos : (s : Serializer) (a : Socksaddr) → 0 < addr_port_len s a
unfolding addr_port_len address_len
addr_port_len_pos s a = ground arith
