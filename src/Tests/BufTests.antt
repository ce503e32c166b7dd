-- ===== src/Tests/BufTests.antt =====
-- The theorems on buffers at a concrete buffer.
use sing.Common.{◌≡◌, [], ◌∷◌}
use sing.Common.Outcome.{ok}
use sing.Buf.Queue.{run, answers, view, put, put_all, get, get_n, run_refines}
use sing.Tests.Samples.{small, small-IsValid}

run_refines_example :
    run (put 4 ∷ get ∷ get_n 9 ∷ put_all (5 ∷ 6 ∷ 7 ∷ 8 ∷ 9 ∷ []) ∷ get_n 3 ∷ []) small
    ≡ ok (
        answers
          (put 4 ∷ get ∷ get_n 9 ∷ put_all (5 ∷ 6 ∷ 7 ∷ 8 ∷ 9 ∷ []) ∷ get_n 3 ∷ [])
          (view small))
run_refines_example =
    run_refines (put 4 ∷ get ∷ get_n 9 ∷ put_all (5 ∷ 6 ∷ 7 ∷ 8 ∷ 9 ∷ []) ∷ get_n 3 ∷ []) small
      small-IsValid
