-- ===== src/Slices/Tests.antt =====
-- Slices of numbers.
use sing.Common.{ℕ, ◌≡◌, List, [], ◌∷◌}
use sing.Common.Outcome.{ok}
use sing.Slices.{reverse}
use sing.Slices.Reverse.{reversed, reverse-eq-reversed}

abbrev five : List ℕ
five = 1 ∷ 2 ∷ 3 ∷ 4 ∷ 5 ∷ []

reverse-five : reverse five ≡ ok (5 ∷ 4 ∷ 3 ∷ 2 ∷ 1 ∷ [])
unfolding reversed
reverse-five = reverse-eq-reversed five
