-- ===== src/Uot/Server/Runs.antt =====
-- What the server's loop makes of a stream.
use sing.Common.{ℕ, zero, suc, ◌≡◌, refl, ap, ◌∙◌, true, List, Option, none}
use sing.Common.Outcome.{Outcome, ok, ◌>>=◌}
use sing.Buf.{Buffer}
use sing.Netip.{Addr}
use sing.Metadata.{Socksaddr, is_domain}
use sing.Uot.Server.{
  ServerConn, Packet, Turn, read_destination, resolved, deliver, turn, after_packet, in_front,
  continue_with, loop,
}

module _ (parse : List ℕ → Option Addr) (resolve : Socksaddr → Option Socksaddr) where
  -- What follows a turn.
  pub next : ℕ → ServerConn → Turn → Option (Outcome (List Packet))
  next turns c t =
      in_front t.packet (loop parse resolve turns (after_packet c t.packet) t.buffer t.src)

  pub turn_of :
      (c : ServerConn) (buffer : Buffer) (src src' : List ℕ) (d : Socksaddr) (o : Option Socksaddr)
      → read_destination parse resolve c src ≡ ok (d, src')
      → resolved parse resolve d ≡ o
      → turn parse resolve c buffer src ≡ deliver parse resolve c buffer src' o
  unfolding turn
  turn_of c buffer src src' d o e r =
      ap (λ m. m >>= λ x. deliver parse resolve c buffer x.1 (resolved parse resolve x.0)) e
      ∙ ap (deliver parse resolve c buffer src') r

  turn-lost :
      (c : ServerConn) (buffer : Buffer) (src : List ℕ)
      → c.is_connect ≡ true
      → is_domain c.destination ≡ true
      → resolve c.destination ≡ none
      → turn parse resolve c buffer src ≡ ok (record { buffer = buffer; src = src; packet = none })
  turn-lost c buffer src connected name lost =
      turn_of c buffer src src c.destination none (rw connected) (rw (name, lost))

  -- A connected stream to a name that is not resolved keeps the loop busy for ever: after any number
  -- of turns it has not ended, whatever the stream holds.
  pub loop-diverges :
      (turns : ℕ) (c : ServerConn) (buffer : Buffer) (src : List ℕ)
      → c.is_connect ≡ true
      → is_domain c.destination ≡ true
      → resolve c.destination ≡ none
      → loop parse resolve turns c buffer src ≡ none
  unfolding loop next
  loop-diverges zero c buffer src connected name lost = refl
  loop-diverges (suc turns) c buffer src connected name lost =
      ap (λ o. continue_with o (next turns c)) (turn-lost c buffer src connected name lost)
      ∙ (loop-diverges turns c buffer src connected name lost)
