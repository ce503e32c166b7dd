-- ===== src/Associate/InPlace.antt =====
-- A packet that is written in place.
use sing.Common.{ℕ, ◌-◌, ◌≤◌, ◌≡◌, sym, ap, ◌∙◌, subst, true, List, [], ◌++◌, length, slice, arith}
use sing.Common.Outcome.{Outcome, ok, ◌>>=◌, >>=_assoc}
use sing.Buf.{Buffer, Window, Alloc, with_bytes, bytes, extend_header, fill}
use sing.Buf.Bytes.{Serves, IsValid, contents, room, bytes-contents}
use sing.Buf.Emit.{Emits}
use sing.Buf.Cursors.{extend_header-fill}
use sing.Buf.Fills.{with_bytes_capacity, extend_header_window, fill_full}
use sing.Metadata.{Socksaddr, is_valid}
use sing.Metadata.Serializer.Wire.{Fits}
use sing.Associate.{header_len, write_header, write_to, write_packet}
use sing.Associate.RoundTrip.{header_wire, write_header-Emits, header_len_lem, write_to_lem}

ok-inj : {A : Type 0} {a b : A} → ok a ≡ ok b → a ≡ b
ok-inj e = cc

-- The window of an extended buffer, as a buffer.
window : Window → Buffer → Buffer
window w e = with_bytes (slice w.lo w.hi e.raw) (w.hi - w.lo)

-- Code that fills the window when it is used as a buffer, copied back, is the source copied back.
fill-Emits :
    {f : Buffer → Outcome Buffer} {src : List ℕ} (w : Window) (e : Buffer)
    → Emits f src
    → IsValid (window w e)
    → contents (window w e) ≡ []
    → room (window w e) ≡ length src
    → w.hi - w.lo ≡ length src
    → (do header ← f (window w e); bytes (fill w header.raw e)) ≡ bytes (fill w src e)
unfolding window
fill-Emits {f} {src} w e emits v empty space width =
    let (header, wrote, a) = emits (window w e) v (omega (arith, space)) in
    ap (λ m. m >>= λ h. bytes (fill w h.raw e)) wrote
    ∙ ap bytes (
        fill_full w src e a.valid (a.appended ∙ ap (λ s. s ++ src) empty)
          (a.kept ∙ with_bytes_capacity _ _ ∙ width) width)

-- In the window in front of the contents, that puts the source in front of them.
extend_header-Emits :
    {f : Buffer → Outcome Buffer} {src : List ℕ} {b : Buffer}
    → Emits f src
    → IsValid b
    → length src ≤ b.start
    → (do
      (w, e) ← extend_header (length src) b
      header ← f (window w e)
      bytes (fill w header.raw e))
      ≡ ok (src ++ contents b)
unfolding window
extend_header-Emits {f} {src} {b} emits v h =
    let (w, e, extended, vh, empty, space, width) = extend_header_window (length src) v h in
    let (b', filled, p) = extend_header-fill src v h in
    ap (λ m. m >>= λ x. f (window x.0 x.1) >>= λ t. bytes (fill x.0 t.raw x.1)) extended
    ∙ fill-Emits w e emits vh empty space width
    ∙ sym (ap (λ m. m >>= λ x. bytes (fill x.0 src x.1)) extended)
    ∙ sym (>>=_assoc (extend_header (length src) b) (λ x. ok (fill x.0 src x.1)) bytes)
    ∙ ap (λ m. m >>= bytes) filled
    ∙ (bytes-contents p.valid).0
    ∙ ap ok p.prepended

-- With an allocator that serves what it is asked for, for a valid destination that fits and a valid buffer with room for the header in front of its
-- contents, `WritePacket`, which writes the header into the buffer's own array, sends the same
-- datagram as `WriteTo` of the contents, which copies them.
pub write_packet-eq-write_to :
    (get : Alloc) (b : Buffer) (d : Socksaddr)
    → Serves get
    → IsValid b
    → Fits d
    → is_valid d ≡ true
    → header_len d ≤ b.start
    → write_packet b d ≡ write_to get (contents b) d
unfolding write_packet window
write_packet-eq-write_to get b d serves v fits valid h =
    subst
      (λ n.
        (do
          (w, e) ← extend_header n b
          header ← write_header d (window w e)
          bytes (fill w header.raw e))
        ≡ ok (header_wire d ++ contents b))
      (header_len_lem d fits valid)
      (extend_header-Emits (write_header-Emits d fits valid) v
        (omega (arith, header_len_lem d fits valid)))
    ∙ sym (write_to_lem d fits valid get (contents b) serves)
