-- ===== src/Socks4/Responses.antt =====
-- What is written as a SOCKS 4 response, and what is read of it.
use sing.Common.{
  ℕ, ◌<◌, min, ◌≡◌, refl, List, [], ◌∷◌, ◌++◌, length, take, arith, inl, ap, ap₂, ◌∙◌, sym,
  append-nil, take-min, take-length,
}
use sing.Common.Outcome.{eof, ok, err, must, ◌>>=◌}
use sing.Buf.{Buffer, Alloc, bytes}
use sing.Buf.Bytes.{Serves, IsValid, contents, room, bytes-contents}
use sing.Buf.Writes.{write_lem, write_nil}
use sing.Buf.Emit.{Emits, Emits-bind, Emits-write_byte, Emits-write, new_size-run, write_all}
use sing.Netip
use sing.Netip.{Addr, invalid, v4, v6}
use sing.Stream.{uint16_bytes, read_full, read_full-append, read_full_short, read_uint16-bytes}
use sing.Metadata.{no_addr}
use sing.Socks4.{Response, write_reply, write_response, read_response}

abbrev pub reply_wire : Response → List ℕ
reply_wire r = 0 ∷ r.reply_code ∷ uint16_bytes r.destination.port

write_reply-Emits : (r : Response) → Emits (write_reply r) (reply_wire r)
write_reply-Emits r = Emits-bind (0 ∷ []) _ (Emits-write_byte 0) (
    Emits-bind (r.reply_code ∷ []) _ (Emits-write_byte r.reply_code)
      (Emits-write (uint16_bytes r.destination.port)))

-- `Write` into a buffer with room for four bytes.
write_four :
    (src : List ℕ) (b : Buffer) (front : List ℕ)
    → IsValid b
    → contents b ≡ front
    → room b ≡ 4
    → (do b' ← must (write_all src b); bytes b') ≡ ok (front ++ take 4 src)
write_four [] b front v e r =
    rw (write_nil b) ((bytes-contents v).0 ∙ ap ok (e ∙ sym (append-nil front)))
write_four (x ∷ xs) b front v e r =
    let (b', w, a) = (write_lem (x ∷ xs) v).0 (inl (omega arith)) in
    rw w (
      (bytes-contents a.valid).0
      ∙ ap ok (
          a.appended
          ∙ ap₂ ◌++◌ e (ap (λ k. take (min k (length (x ∷ xs))) (x ∷ xs)) r ∙ take-min 4 (x ∷ xs))))

-- `WriteResponse` never panics. It writes eight bytes at most: of the address those that fit.
pub write_response_lem :
    (get : Alloc) (r : Response)
    → Serves get
    → write_response get r ≡ ok (reply_wire r ++ take 4 (Netip.as_slice r.destination.addr))
unfolding write_response
write_response_lem get r serves =
    let (b, w, v, e, m) =
      new_size-run get 8 (reply_wire r) serves (write_reply-Emits r) (omega arith) in
    rw w (write_four (Netip.as_slice r.destination.addr) b (reply_wire r) v e (omega arith))

-- With an allocator that serves what it is asked for: a response with an IPv4 address of four bytes
-- and a port of 16 bits is written without error or panic, and is read back, in front of any bytes,
-- up to those bytes.
pub read_response-write_v4 :
    (get : Alloc) (code port : ℕ) (ip : List ℕ)
    → Serves get
    → length ip ≡ 4
    → port < 65536
    → let r : Response = record {
      reply_code = code;
      destination = record no_addr { addr = v4 ip; port = port };
    } in
      (w : List ℕ) × (write_response get r ≡ ok w)
      × ((rest : List ℕ) → read_response (w ++ rest) ≡ ok (r, rest))
unfolding read_response
read_response-write_v4 get code port ip serves sized hp = (
  0 ∷ code ∷ (uint16_bytes port ++ ip),
  write_response_lem get _ serves
      ∙ ap (λ s. ok (0 ∷ code ∷ (uint16_bytes port ++ s))) (take-length 4 ip (omega arith)),
  λ rest. rw (read_uint16-bytes port (ip ++ rest) hp, four rest),
)
  where
    four : (rest : List ℕ) → read_full 4 (ip ++ rest) ≡ ok (ip, rest)
    four rest = rw (← sized) (read_full-append ip rest)

-- With an allocator that serves what it is asked for and a port of 16 bits: a response with no
-- address is written as four bytes, and a reader of exactly these meets the end of the stream, whatever the reply code.
pub read_response-write_no_addr :
    (get : Alloc) (code port : ℕ) (name : List ℕ)
    → Serves get
    → port < 65536
    → (w : List ℕ) × (write_response get (record {
      reply_code = code;
      destination = record { addr = invalid; port = port; fqdn = name };
    })
        ≡ ok w)
      × (length w ≡ 4)
      × (read_response w ≡ err eof)
unfolding read_response
read_response-write_no_addr get code port name serves hp = (
  0 ∷ code ∷ uint16_bytes port,
  write_response_lem get _ serves,
  refl,
  rw (read_uint16-bytes port [] hp, read_full_short 4 [] (omega arith)),
)
