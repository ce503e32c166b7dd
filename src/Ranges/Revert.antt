-- ===== src/Ranges/Revert.antt =====
-- `Revert` is the complement within its bounds.
use sing.Common.{
  ℕ, ◌+◌, ◌-◌, ◌^◌, ◌≤◌, ◌<◌, ◌≡◌, ◌≢◌, refl, Bool, true, false, not, ◌&&◌, ◌||◌, List, [], ◌∷◌,
  ◌++◌, ltb, leb, arith, Bool-cases, inl, inr, ap, ◌∙◌,
}
use native.Mathlib.Nat.{mod-eq_of_lt, mod-eq-sub-mod}
use sing.Ranges.{Range, inc, dec, grow, merge, revert_loop, revert_merged, revert, when}
use sing.Ranges.Gaps.{
  any, any-Perm, within, covered, Ends, Apart, IsApart, Sorts, inc_lem, join_from, joined,
  join_from-gap, join_from-close,
}
use sing.Ranges.Inside.{Inside, Inside-Perm, Inside-Ends, Filled, Inside-Filled, joined-Inside}
use sing.Ranges.Merge.{merge-joined, merge_lem}

any-append : (p : Range → Bool) (xs ys : List Range) → any p (xs ++ ys) ≡ (any p xs || any p ys)
any-append p [] ys = refl
any-append p (x ∷ xs) ys = ground (arith, any-append p xs ys)

-- Behind a range that ends at `e` nothing up to `e + 1` is covered.
Apart-below :
    (x e lo hi : ℕ) (rs : List Range)
    → Apart e rs
    → Inside lo hi rs
    → x ≤ e + 1
    → covered x rs ≡ false
Apart-below x e lo hi [] a i h = refl
Apart-below x e lo hi (r ∷ rs) a i h =
    ground (arith, Apart-below x r.end lo hi rs a.1 i.1 (omega arith))

abbrev always : Range → Bool
always r = true

any-always : (rs : List Range) → rs ≢ [] → any always rs ≡ true
any-always [] ne = absurd (ne refl)
any-always (r ∷ rs) ne = refl

module _ (w : ℕ) (sort : List Range → List Range) where
  dec_lem : (n : ℕ) → 0 < n → n < 2 ^ w → dec w sort n ≡ n - 1
  dec_lem n h k = omega (
    arith,
    mod-eq-sub-mod {n = n + 2 ^ w - 1} {m = 2 ^ w} (omega arith),
    mod-eq_of_lt {n = n + 2 ^ w - 1 - 2 ^ w} {m = 2 ^ w} (omega arith),
  )

  -- Behind `e` the loop leaves what lies up to `end` and in no range.
  revert_loop-covered :
      (x end e lo : ℕ) (rs : List Range)
      → end + 1 < 2 ^ w
      → e ≤ end
      → Apart e rs
      → Inside lo end rs
      → covered x (revert_loop w sort end e rs) ≡ (ltb e x && leb x end && not (covered x rs))
  unfolding revert_loop
  revert_loop-covered x end e lo [] k h a i = ground (arith, inc_lem w sort e)
  revert_loop-covered x end e lo (r ∷ rs) k h a i = ground (
    arith,
    inc_lem w sort e,
    dec_lem r.start,
    any-append (within x) (when (ltb (inc w sort e) r.start) (gap r))
        (revert_loop w sort end r.end rs),
    revert_loop-covered x end r.end lo rs k i.0.2 a.1 i.1,
    Apart-below x r.end lo end rs a.1 i.1,
  )
    where
      gap : Range → Range
      gap q = record { start = inc w sort e; end = dec w sort q.start }

  -- A range list that begins with `r`, in front of which lies the rest from `start` on.
  revert_merged-covered :
      (x start end : ℕ) (rs : List Range)
      → end + 1 < 2 ^ w
      → rs ≢ []
      → IsApart rs
      → Inside start end rs
      → covered x (revert_merged w sort start end rs)
        ≡ (leb start x && leb x end && not (covered x rs))
  revert_merged-covered x start end [] k ne a i = absurd (ne refl)
  revert_merged-covered x start end (r ∷ rs) k ne a i = ground (
    arith,
    dec_lem r.start,
    any-append (within x) (when (ltb start r.start) first) (revert_loop w sort end r.end rs),
    revert_loop-covered x end r.end start rs k i.0.2 a i.1,
    Apart-below x r.end start end rs a i.1,
  )
    where
      first : Range
      first = record { start = start; end = dec w sort r.start }

  join_from-ne-nil : (last : Range) (rs : List Range) → join_from w sort last rs ≢ []
  join_from-ne-nil last [] = unfold join_from in λ e. cc
  join_from-ne-nil last (r ∷ rs) = elim (Bool-cases (ltb (inc w sort last.end) r.start)) [
    | inl gap ↦ rw (join_from-gap w sort last r rs gap) (λ e. cc)
    | inr close ↦ rw (join_from-close w sort last r rs close) (join_from-ne-nil (grow last r) rs)
  ]

  joined-ne-nil : (rs : List Range) → any always rs ≡ true → joined w sort rs ≢ []
  joined-ne-nil [] h = cc
  joined-ne-nil (r ∷ rs) h = join_from-ne-nil r rs

  module _ (sorts : Sorts sort) (start end : ℕ) (rs : List Range) where
    joined-sorted-ne-nil : rs ≢ [] → joined w sort (sort rs) ≢ []
    joined-sorted-ne-nil ne =
        joined-ne-nil (sort rs) (any-Perm always (sorts.permutes rs) ∙ any-always rs ne)

    merge-ne-nil : Ends w rs → Filled rs → rs ≢ [] → merge w sort rs ≢ []
    merge-ne-nil e f ne = rw (merge-joined w sort sorts rs e (inr f)) (joined-sorted-ne-nil ne)

    merge-Inside :
        (lo hi : ℕ) → Ends w rs → Filled rs → Inside lo hi rs → Inside lo hi (merge w sort rs)
    merge-Inside lo hi e f i = rw (merge-joined w sort sorts rs e (inr f)) (
        joined-Inside w sort lo hi (sort rs) (sorts.ascends rs)
          (Inside-Perm lo hi (sorts.permutes rs) i))

    -- `Revert` of at least one range, all of them within the bounds and none of them empty, covers
    -- exactly the numbers within the bounds that no range covers. The upper bound is not the type's
    -- last value.
    pub revert_lem :
        end + 1 < 2 ^ w
        → rs ≢ []
        → Inside start end rs
        → (x : ℕ)
        → covered x (revert w sort start end rs) ≡ (leb start x && leb x end && not (covered x rs))
    unfolding revert
    revert_lem k ne i x =
        let e : Ends w rs = Inside-Ends w start end rs k i in
        let f : Filled rs = Inside-Filled start end rs i in
        let m = merge_lem w sort sorts rs e (inr f) in
        revert_merged-covered x start end (merge w sort rs) k (merge-ne-nil e f ne) m.1
          (merge-Inside start end e f i)
        ∙ ap (λ b. leb start x && leb x end && not b) (m.0 x)
