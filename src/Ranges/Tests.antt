-- ===== src/Ranges/Tests.antt =====
-- Concrete runs of `Merge`, `Revert` and `Exclude` over bytes, with an insertion sort.
use sing.Common.{
  ℕ, ◌≤◌, ◌≡◌, refl, not, ◌&&◌, List, [], ◌∷◌, none, some, leb, if◌then◌else◌, arith, Bool-cases,
  inl, inr,
}
use mathlib.Core.List.{Perm}
use mathlib.Core.List.Perm
use sing.Ranges.{Range, merge, revert, exclude, grow}
use sing.Ranges.Gaps.{Ascending, Sorts, covered, IsApart}
use sing.Ranges.Merge.{merge_lem}
use sing.Ranges.Revert.{revert_lem}
use sing.Ranges.Exclude.{exclude-diverges}

abbrev insert : Range → List Range → List Range
insert r [] = r ∷ []
insert r (q ∷ qs) = if leb r.start q.start then r ∷ q ∷ qs else q ∷ insert r qs

abbrev by_start : List Range → List Range
by_start [] = []
by_start (r ∷ rs) = insert r (by_start rs)

insert-perm : (r : Range) (rs : List Range) → Perm (insert r rs) (r ∷ rs)
insert-perm r [] = Perm.refl _
insert-perm r (q ∷ qs) = elim (Bool-cases (leb r.start q.start)) [
  | inl first ↦ rw first (Perm.refl _)
  | inr later ↦ rw later (Perm.trans (Perm.cons q (insert-perm r qs)) (Perm.swap r q qs))
]

by_start-perm : (rs : List Range) → Perm (by_start rs) rs
by_start-perm [] = Perm.refl []
by_start-perm (r ∷ rs) = Perm.trans (insert-perm r (by_start rs)) (Perm.cons r (by_start-perm rs))

insert-Ascending :
    (lo : ℕ) (r : Range) (rs : List Range)
    → lo ≤ r.start
    → Ascending lo rs
    → Ascending lo (insert r rs)
insert-Ascending lo r [] h a = (h, tt)
insert-Ascending lo r (q ∷ qs) h a = elim (Bool-cases (leb r.start q.start)) [
  | inl first ↦ rw first (h, (ground arith, a.1))
  | inr later ↦ rw later (a.0, insert-Ascending q.start r qs (ground arith) a.1)
]

by_start-Ascending : (rs : List Range) → Ascending 0 (by_start rs)
by_start-Ascending [] = tt
by_start-Ascending (r ∷ rs) =
    insert-Ascending 0 r (by_start rs) (omega arith) (by_start-Ascending rs)

by_start-Sorts : Sorts by_start
by_start-Sorts = record { permutes = by_start-perm; ascends = by_start-Ascending }

abbrev range : ℕ → ℕ → Range
range a b = record { start = a; end = b }

abbrev three : List Range
three = range 20 30 ∷ range 1 4 ∷ range 5 9 ∷ []

runs_merge : merge 8 by_start three ≡ range 1 9 ∷ range 20 30 ∷ []
unfolding merge grow
runs_merge = refl

runs_revert : revert 8 by_start 0 100 three ≡ range 0 0 ∷ range 10 19 ∷ range 31 100 ∷ []
unfolding revert grow
runs_revert = refl

-- A range that ends at the last byte value is not merged with those that it holds.
merge_wraps : merge 8 by_start (range 0 255 ∷ range 5 6 ∷ []) ≡ range 0 255 ∷ range 5 6 ∷ []
unfolding merge grow
merge_wraps = refl

-- An empty range is one whose end lies before its start. With enough of them the index of `Merge` is
-- 0 again while the list has five ranges: the next range is compared with the first of them, and two
-- ranges of the result overlap.
merge_index_wraps :
    merge 2 by_start
      (range 0 0 ∷ range 2 0 ∷ range 2 0 ∷ range 2 0 ∷ range 2 0 ∷ range 2 2 ∷ range 2 2 ∷ [])
    ≡ range 0 0 ∷ range 2 0 ∷ range 2 0 ∷ range 2 0 ∷ range 2 0 ∷ range 2 2 ∷ range 2 2 ∷ []
unfolding merge grow
merge_index_wraps = refl

-- A target in front of the ranges adds numbers to them.
exclude_adds : exclude 8 by_start 9 (range 5 10 ∷ []) (range 1 2 ∷ []) ≡ some (range 3 10 ∷ [])
unfolding exclude grow
exclude_adds = refl

merge_lem_example :
    ((x : ℕ) → covered x (merge 8 by_start three) ≡ covered x three)
    × IsApart (merge 8 by_start three)
merge_lem_example = merge_lem 8 by_start by_start-Sorts three (omega arith) (inl (omega arith))

revert_lem_example :
    covered 15 (revert 8 by_start 0 100 three) ≡ (leb 0 15 && leb 15 100 && not (covered 15 three))
revert_lem_example =
    revert_lem 8 by_start by_start-Sorts 0 100 three (omega arith) (λ e. cc) (omega arith) 15

exclude-diverges_example : exclude 8 by_start 1000 (range 1 10 ∷ []) (range 5 15 ∷ []) ≡ none
unfolding merge grow
exclude-diverges_example =
    exclude-diverges 8 by_start (range 1 10 ∷ []) (range 5 15 ∷ []) [] [] (range 1 10) (range 5 15)
      refl refl (omega arith) (omega arith) 1000
