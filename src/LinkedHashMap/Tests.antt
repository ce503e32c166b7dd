-- ===== src/LinkedHashMap/Tests.antt =====
-- A map from numbers to numbers, and some operations on it.
use sing.Common.{ℕ, ◌≡◌, List, [], ◌∷◌, ℕ_discrete}
use sing.Common.Outcome.{ok}
use sing.LinkedHashMap.{new_map, entries}
use sing.LinkedHashMap.Refines.{
  Op, put_op, get_op, remove_op, keys_op, run, answers, new_map-IsCoherent, linked_map-run-refines,
}

abbrev some_ops : List (Op ℕ ℕ)
some_ops =
    put_op 5 50
    ∷ put_op 3 30
    ∷ put_op 5 51
    ∷ get_op 5
    ∷ keys_op
    ∷ remove_op 5
    ∷ put_op 5 52
    ∷ keys_op
    ∷ get_op 9
    ∷ []

linked_map-run-refines_example :
    run ℕ_discrete 0 some_ops new_map ≡ ok (answers ℕ_discrete 0 some_ops (entries new_map))
linked_map-run-refines_example =
    linked_map-run-refines ℕ_discrete 0 some_ops new_map (new_map-IsCoherent ℕ_discrete 0)
