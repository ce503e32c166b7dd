-- ===== src/Varbin/Tests.antt =====
-- A number of more than eight bytes.
use sing.Common.{ℕ, ◌^◌, ◌≡◌, ◌≤◌, refl, List, [], ◌∷◌, ◌++◌, ltb, if◌then◌else◌, arith}
use sing.Common.Outcome.{Outcome, ok}
use sing.Varbin.{write_loop, write_uvarint, uvarint_len}
use sing.Varbin.Uvarint.{uvarint_len_lem}

abbrev append_byte : ℕ → List ℕ → Outcome (List ℕ)
append_byte b w = ok (w ++ (b ∷ []))

abbrev sixty_bits : List ℕ
sixty_bits = 128 ∷ 128 ∷ 128 ∷ 128 ∷ 128 ∷ 128 ∷ 128 ∷ 128 ∷ 16 ∷ []

write_uvarint_run : write_uvarint append_byte (2 ^ 60) [] ≡ ok (9, sixty_bits)
unfolding write_uvarint write_loop
write_uvarint_run = refl

uvarint_len_lem_example :
    (9 ≡ (
      if ltb (2 ^ 60) (2 ^ 56)
      then uvarint_len (2 ^ 60)
      else if ltb (2 ^ 60) (2 ^ 63)
      then 9
      else 10))
    × (uvarint_len (2 ^ 60) ≤ 8)
uvarint_len_lem_example =
    uvarint_len_lem append_byte (2 ^ 60) 9 [] sixty_bits (omega arith) write_uvarint_run
