-- ===== src/Ranges/Merge.antt =====
-- `Merge` joins the sorted ranges, as long as its index does not wrap.
use sing.Common.{
  ℕ, zero, suc, ◌+◌, ◌-◌, ◌^◌, ◌≤◌, ◌<◌, ◌≡◌, ◌⊎◌, refl, true, false, List, [], ◌∷◌, ◌++◌,
  append_assoc, length, length-append, some, get_elem?, ltb, arith, Bool-cases, inl, inr, ap, sym,
  ◌∙◌,
}
use native.Mathlib.Nat.{ℕ_set, mod-eq_of_lt}
use mathlib.Core.List.{Perm, Permᴰ}
use mathlib.Core.Logic.{∥∥₁_elim}
use sing.Ranges.{Range, Merged, inc, grow, grow_at, merge_turn, merge_loop, merge_sorted, merge}
use sing.Ranges.Gaps.{
  any-Perm, within, covered, Ends, Ends-Perm, IsApart, Sorts, join_from, joined, join_from-gap,
  join_from-close, joined-covered, joined-IsApart,
}
use sing.Ranges.Inside.{Inside-Perm, Filled, Filled-Inside, IsApart-length, joined-Inside}

pow-pos : (w : ℕ) → 0 < 2 ^ w
pow-pos zero = omega arith
pow-pos (suc w) = omega (arith, pow-pos w)

length-Permᴰ : {rs rs' : List Range} → Permᴰ rs rs' → length rs ≡ length rs'
length-Permᴰ Permᴰ.nil = refl
length-Permᴰ (Permᴰ.cons e h) = ap suc (length-Permᴰ h)
length-Permᴰ (Permᴰ.swap {l = l} e e') = refl
length-Permᴰ (Permᴰ.trans h h') = length-Permᴰ h ∙ length-Permᴰ h'

length-Perm : {rs rs' : List Range} → Perm rs rs' → length rs ≡ length rs'
length-Perm h = ∥∥₁_elim h (ℕ_set _ _) length-Permᴰ

get_elem?-last :
    (done : List Range) (last : Range) → get_elem? (done ++ (last ∷ [])) (length done) ≡ some last
get_elem?-last [] last = refl
get_elem?-last (r ∷ done) last = get_elem?-last done last

grow_at-last :
    (done : List Range) (last r : Range)
    → grow_at (length done) r (done ++ (last ∷ [])) ≡ done ++ (grow last r ∷ [])
grow_at-last [] last r = refl
grow_at-last (q ∷ done) last r = ap (λ qs. q ∷ qs) (grow_at-last done last r)

length-grow_at : (i : ℕ) (r : Range) (rs : List Range) → length (grow_at i r rs) ≡ length rs
length-grow_at i r [] = refl
length-grow_at zero r (q ∷ rs) = refl
length-grow_at (suc i) r (q ∷ rs) = ap suc (length-grow_at i r rs)

-- The index is that of a range of the list.
abbrev InRange : Merged → Type 0
InRange m = m.range_index < length m.merged_ranges

-- The state with the index at the last range.
abbrev state : List Range → Range → Merged
state done last = record { merged_ranges = done ++ (last ∷ []); range_index = length done }

module _ (w : ℕ) (sort : List Range → List Range) where
  turn-InRange : (r : Range) (m : Merged) → InRange m → InRange (merge_turn w sort r m)
  unfolding merge_turn
  turn-InRange r m h = ground (
    arith,
    length-append m.merged_ranges (r ∷ []),
    length-grow_at m.range_index r m.merged_ranges,
  )

  turn_gap :
      (done : List Range) (last r : Range)
      → length done + 1 < 2 ^ w
      → ltb (inc w sort last.end) r.start ≡ true
      → merge_turn w sort r (state done last) ≡ state (done ++ (last ∷ [])) r
  unfolding merge_turn
  turn_gap done last r h gap =
      rw (get_elem?-last done last, gap, merge_turn)
        (ap (λ i. record { merged_ranges = (done ++ (last ∷ [])) ++ (r ∷ []); range_index = i })
          (mod-eq_of_lt h ∙ sym (length-append done (last ∷ []))))

  turn_close :
      (done : List Range) (last r : Range)
      → ltb (inc w sort last.end) r.start ≡ false
      → merge_turn w sort r (state done last) ≡ state done (grow last r)
  unfolding merge_turn
  turn_close done last r close =
      rw (get_elem?-last done last, close, grow_at-last done last r, merge_turn) refl

  length-join_from :
      (last : Range) (rs : List Range)
      → (0 < length (join_from w sort last rs))
        × (length (join_from w sort last rs) ≤ suc (length rs))
  length-join_from last [] = unfold join_from in (omega arith, omega arith)
  length-join_from last (r ∷ rs) = elim (Bool-cases (ltb (inc w sort last.end) r.start)) [
    | inl gap ↦
        rw (join_from-gap w sort last r rs gap) (omega arith, omega (arith, length-join_from r rs))
    | inr close ↦ rw (join_from-close w sort last r rs close) (
      omega (arith, length-join_from (grow last r) rs),
      omega (arith, length-join_from (grow last r) rs),
    )
  ]

  merge_loop-join_from :
      (done : List Range) (last : Range) (rs : List Range)
      → length done + length (join_from w sort last rs) ≤ 2 ^ w
      → merge_loop w sort (state done last) rs ≡ done ++ join_from w sort last rs
  unfolding merge_loop
  merge_loop-join_from done last [] h = unfold join_from in refl
  merge_loop-join_from done last (r ∷ rs) h =
      elim (Bool-cases (ltb (inc w sort last.end) r.start)) [
        | inl gap ↦
            ap (λ m. merge_loop w sort m rs) (turn_gap done last r (omega (arith, bound gap)) gap)
            ∙ merge_loop-join_from (done ++ (last ∷ [])) r rs
                (omega (arith, length-append done (last ∷ []), rest gap))
            ∙ append_assoc done (last ∷ []) (join_from w sort r rs)
            ∙ ap (λ qs. done ++ qs) (sym (join_from-gap w sort last r rs gap))
        | inr close ↦
            ap (λ m. merge_loop w sort m rs) (turn_close done last r close)
            ∙ merge_loop-join_from done (grow last r) rs
                (rw (sym (ap (λ qs. length qs) (join_from-close w sort last r rs close))) h)
            ∙ ap (λ qs. done ++ qs) (sym (join_from-close w sort last r rs close))
      ]
    where
      rest :
          ltb (inc w sort last.end) r.start ≡ true
          → length done + suc (length (join_from w sort r rs)) ≤ 2 ^ w
      rest gap = rw (sym (ap (λ qs. length qs) (join_from-gap w sort last r rs gap))) h

      bound : ltb (inc w sort last.end) r.start ≡ true → length done + 1 < 2 ^ w
      bound gap = omega (arith, rest gap, length-join_from r rs)

  length-joined : (rs : List Range) → length (joined w sort rs) ≤ length rs
  length-joined [] = omega arith
  length-joined (r ∷ rs) = omega (arith, length-join_from r rs)

  merge_sorted-joined :
      (rs : List Range)
      → length (joined w sort rs) ≤ 2 ^ w
      → merge_sorted w sort rs ≡ joined w sort rs
  merge_sorted-joined [] h = refl
  merge_sorted-joined (r ∷ rs) h = merge_loop-join_from [] r rs (omega arith)

  module _ (sorts : Sorts sort) (rs : List Range) (ends : Ends w rs) where
    open sorts use {permutes, ascends}

    Ends-sorted : Ends w (sort rs)
    Ends-sorted = Ends-Perm w (permutes rs) ends

    IsApart-sorted : IsApart (joined w sort (sort rs))
    IsApart-sorted = joined-IsApart w sort (sort rs) (ascends rs) Ends-sorted

    length-joined-Filled : Filled rs → length (joined w sort (sort rs)) ≤ 2 ^ w
    length-joined-Filled f = omega (
      arith,
      IsApart-length 0 (2 ^ w - 2) (joined w sort (sort rs)) IsApart-sorted (
          joined-Inside w sort 0 (2 ^ w - 2) (sort rs) (ascends rs)
            (Inside-Perm 0 (2 ^ w - 2) (permutes rs) (Filled-Inside w rs ends f))),
      pow-pos w,
    )

    pub merge-joined : (length rs ≤ 2 ^ w) ⊎ Filled rs → merge w sort rs ≡ joined w sort (sort rs)
    unfolding merge
    merge-joined (inl h) =
        merge_sorted-joined (sort rs)
          (omega (arith, length-joined (sort rs), length-Perm (permutes rs)))
    merge-joined (inr f) = merge_sorted-joined (sort rs) (length-joined-Filled f)

    -- Unless a range ends at the type's last value, and if there are at most `2 ^ w` ranges or none of
    -- them is empty, `Merge` keeps the set of numbers that the ranges cover, and between two ranges of
    -- its result there is a number that neither covers.
    pub merge_lem :
        (length rs ≤ 2 ^ w) ⊎ Filled rs
        → ((x : ℕ) → covered x (merge w sort rs) ≡ covered x rs) × IsApart (merge w sort rs)
    merge_lem few = rw (merge-joined few) (
      (λ x.
          joined-covered w sort x (sort rs) (ascends rs) Ends-sorted
          ∙ any-Perm (within x) (permutes rs)),
      IsApart-sorted,
    )
