-- ===== src/Domain/Stored/Tests.antt =====
-- A small set, stored and read back.
use sing.Common.{ℕ, ◌≡◌, refl, List, [], ◌∷◌, ◌++◌, arith}
use sing.Common.Outcome.{Outcome, ok, panic}
use sing.Domain.{SuccinctSet}
use sing.Domain.Stored.{write_matcher, read_matcher}
use sing.Domain.Stored.RoundTrip.{bytes_writer, read_matcher-write}

-- An index for a set whose bits are all the same.
abbrev flat_index : List ℕ → (ℕ → Outcome ℕ) × (ℕ → Outcome ℕ)
flat_index bitmap = (λ i. ok i, λ i. panic)

abbrev flat_set : SuccinctSet
flat_set = record {
  leaves = 10 ∷ [];
  label_bitmap = 0 ∷ 300 ∷ [];
  labels = b'a' ∷ b'b' ∷ [];
  count_zeros = λ i. ok i;
  select_ith_one = λ i. panic;
}

read_matcher-write_example :
    (bs : List ℕ) × (write_matcher bytes_writer flat_set (7 ∷ []) ≡ ok ((7 ∷ []) ++ bs))
    × (read_matcher 1000 flat_index (bs ++ (8 ∷ [])) ≡ ok (flat_set, 8 ∷ []))
read_matcher-write_example =
    read_matcher-write 1000 flat_index flat_set (7 ∷ []) (8 ∷ [])
      (
        (omega arith, tt),
        (omega arith, (omega arith, tt)),
        omega arith,
        omega arith,
        omega arith,
        omega arith,
      )
      refl
