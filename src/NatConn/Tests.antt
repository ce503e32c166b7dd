-- ===== src/NatConn/Tests.antt =====
-- A connection that gives back what is written to it.
use sing.Common.{ℕ, ◌≡◌, ◌≢◌, List, [], ◌∷◌, inl, arith}
use sing.Common.Outcome.{eof, ok, err}
use sing.Metadata.{Socksaddr, no_addr}
use sing.NatConn.{PacketConn, new_nat_conn, write_packet, read_packet, without_port}
use sing.NatConn.Laws.{nat_read-write}
use sing.Tests.Samples.{localhost, site}

abbrev loopback : PacketConn (List (List ℕ × Socksaddr))
loopback = record {
  read_packet = λ s. elim s [ [] ↦ err eof | x ∷ rest ↦ ok (x, rest) ];
  write_packet = λ p d s. ok ((p, d) ∷ s);
  read_from = λ s. elim s [ [] ↦ err eof | x ∷ rest ↦ ok (x, rest) ];
  write_to = λ p u s. ok ((p, record no_addr { port = u.port }) ∷ s);
}

abbrev other_port : Socksaddr
other_port = record site { port = 53 }

different : without_port other_port ≢ without_port localhost
different e = ground (arith, e)

abbrev sent_state : List (List ℕ × Socksaddr)
sent_state = (1 ∷ [], record localhost { port = 53 }) ∷ []

sent : write_packet loopback (new_nat_conn localhost site) (1 ∷ []) other_port [] ≡ ok sent_state
unfolding write_packet new_nat_conn
sent = ground arith

nat_read-write_example :
    read_packet loopback
      (new_nat_conn localhost site)
      ((1 ∷ [], record localhost { port = 53 }) ∷ [])
    ≡ ok ((1 ∷ [], other_port), [])
nat_read-write_example =
    nat_read-write loopback localhost site other_port (1 ∷ []) []
      ((1 ∷ [], record localhost { port = 53 }) ∷ []) [] (inl different) sent (λ x e. cc)
