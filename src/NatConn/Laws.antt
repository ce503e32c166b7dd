-- ===== src/NatConn/Laws.antt =====
-- Packets that come back, and batches.
use sing.Common.{
  ℕ, ◌||◌, not, ◌≡◌, ◌≢◌, ◌⊎◌, refl, ap, ◌∙◌, List, [], ◌∷◌, length, ◌==◌, if◌then◌else◌, arith,
}
use sing.Common.Outcome.{invalid_argument, ok, err, ◌>>=◌, >>=_cong}
use sing.Metadata.{Socksaddr, udp_addr}
use sing.NatConn.{
  Socksaddr-discrete, write_to, read_from, PacketConn, without_port, NatConn, new_nat_conn,
  replace_host, write_packet, read_packet, BatchWriter, replace_all, write_packet_batch,
}

-- Where no packet is for the origin itself, or the two are the same, what was replaced is put back.
replace_host_back :
    (origin destination d : Socksaddr)
    → (without_port d ≢ without_port origin) ⊎ (without_port origin ≡ without_port destination)
    → replace_host
        (without_port origin)
        (without_port destination)
        (replace_host (without_port destination) (without_port origin) d)
      ≡ d
replace_host_back origin destination d h =
    elim (Socksaddr-discrete (without_port d) (without_port destination)) [
      | yes p ↦ ground (arith, p, h)
      | no p ↦ ground (arith, p, h)
    ]

-- A packet that is written through a bidirectional connection, to an address that is not the origin
-- (or where origin and destination are the same host), and that the connection below gives back from
-- where it was sent to, is read with the address that it was written to.
pub nat_read-write :
    {S : Type 0} (below : PacketConn S) (origin destination d : Socksaddr) (p : List ℕ)
    (s s' s'' : S)
    → (without_port d ≢ without_port origin) ⊎ (without_port origin ≡ without_port destination)
    → write_packet below (new_nat_conn origin destination) p d s ≡ ok s'
    → ((x : Socksaddr) → below.write_packet p x s ≡ ok s' → below.read_packet s' ≡ ok ((p, x), s''))
    → read_packet below (new_nat_conn origin destination) s' ≡ ok ((p, d), s'')
unfolding write_packet read_packet new_nat_conn
nat_read-write below origin destination d p s s' s'' h sent echo =
    ap
      (λ o. o >>= λ r.
        ok ((r.0.0, replace_host (without_port origin) (without_port destination) r.0.1), r.1))
      (echo _ sent)
    ∙ ap (λ x. ok ((p, x), s'')) (replace_host_back origin destination d h)

-- The same for `WriteTo` and `ReadFrom`, where the connection below gives a packet back from the
-- address `x` whose UDP address it was sent to: only the UDP address of `d` comes back.
nat_read_from-write_to :
    {S : Type 0} (below : PacketConn S) (origin destination d : Socksaddr) (p : List ℕ)
    (s s' s'' : S)
    → (without_port d ≢ without_port origin) ⊎ (without_port origin ≡ without_port destination)
    → write_to below (new_nat_conn origin destination) p d s ≡ ok s'
    → ((x : Socksaddr)
        → below.write_to p (udp_addr x) s ≡ ok s'
        → below.read_from s' ≡ ok ((p, x), s''))
    → read_from below (new_nat_conn origin destination) s' ≡ ok ((p, udp_addr d), s'')
unfolding write_to read_from new_nat_conn
nat_read_from-write_to below origin destination d p s s' s'' h sent echo =
    ap
      (λ o. o >>= λ r. ok (
        (r.0.0, udp_addr (replace_host (without_port origin) (without_port destination) r.0.1)),
        r.1,
      ))
      (echo _ sent)
    ∙ ap (λ x. ok ((p, udp_addr x), s'')) (replace_host_back origin destination d h)

-- `n` packets, one after the other.
pub write_each : {S : Type 0} → PacketConn S → BatchWriter S
write_each below (p ∷ ps) (d ∷ ds) s = do s ← below.write_packet p d s; write_each below ps ds s
write_each below [] _ s = ok s
write_each below _ [] s = ok s

-- The same through the connection that replaces destinations.
pub nat_write_each : {S : Type 0} → PacketConn S → NatConn → BatchWriter S
nat_write_each below c (p ∷ ps) (d ∷ ds) s = do
  s ← write_packet below c p d s
  nat_write_each below c ps ds s
nat_write_each below c [] _ s = ok s
nat_write_each below c _ [] s = ok s

write_each-replace_all :
    {S : Type 0} (below : PacketConn S) (c : NatConn) (ps : List (List ℕ)) (ds : List Socksaddr)
    (s : S)
    → write_each below ps (replace_all (replace_host c.destination c.origin) ds) s
      ≡ nat_write_each below c ps ds s
unfolding write_each nat_write_each replace_all write_packet
write_each-replace_all below c (p ∷ ps) (d ∷ ds) s =
    >>=_cong (write_packet below c p d s) (λ s. write_each-replace_all below c ps ds s)
write_each-replace_all below c [] [] s = refl
write_each-replace_all below c [] (d ∷ ds) s = refl
write_each-replace_all below c (p ∷ ps) [] s = refl

-- A batch of packets, one for each destination, is written as the packets one after the other would
-- be, if the batch writer below does so. Where there is none, or the numbers differ, it is an error and
-- nothing is written.
pub write_packet_batch-each :
    {S : Type 0} (below : PacketConn S) (c : NatConn) (ps : List (List ℕ)) (ds : List Socksaddr)
    (s : S)
    → write_packet_batch (write_each below) c ps ds s ≡ (
        if length ps == 0 || not (length ps == length ds)
        then err invalid_argument
        else nat_write_each below c ps ds s)
unfolding write_packet_batch
write_packet_batch-each below c ps ds s =
    ap (λ o. if length ps == 0 || not (length ps == length ds) then err invalid_argument else o)
      (write_each-replace_all below c ps ds s)
