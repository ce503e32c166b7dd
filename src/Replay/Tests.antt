-- ===== src/Replay/Tests.antt =====
-- A filter of numbers.
use sing.Common.{ℕ, ◌≡◌, refl, List, [], ◌∷◌, none, true, false, arith, ℕ_discrete}
use sing.Replay.{new_simple}
use sing.Replay.Seen.{run, verdicts, InOrder, replay-run_lem}

-- The salt 7 comes three times, and the pool is cleaned at 22.
abbrev some_salts : List (ℕ × ℕ)
some_salts = (7, 3) ∷ (7, 9) ∷ (8, 12) ∷ (7, 22) ∷ (8, 22) ∷ []

some_salts-InOrder : InOrder 0 some_salts
some_salts-InOrder = omega arith

replay-run_lem_example :
    run ℕ_discrete some_salts (new_simple 10 0) ≡ verdicts ℕ_discrete 10 some_salts (λ s. none)
replay-run_lem_example = replay-run_lem ℕ_discrete 10 0 some_salts some_salts-InOrder

some_verdicts :
    verdicts ℕ_discrete 10 some_salts (λ s. none) ≡ true ∷ false ∷ true ∷ true ∷ false ∷ []
unfolding verdicts ℕ_discrete
some_verdicts = refl
