-- ===== src/Ranges/Inside.antt =====
-- Ranges within bounds stay there when they are joined, and there is room for few of them.
use sing.Common.{
  ℕ, ◌+◌, ◌*◌, ◌-◌, ◌^◌, ◌≤◌, ◌<◌, ◌≡◌, refl, Bool, false, ◌||◌, List, [], ◌∷◌, length, ltb, arith,
  Bool-cases, inl, inr, ◌∙◌,
}
use mathlib.Core.List.{Perm}
use sing.Ranges.{Range, inc, grow}
use sing.Ranges.Gaps.{
  any, any-Perm, Ascending, Ends, Apart, IsApart, join_from, joined, join_from-gap, join_from-close,
  Ascending-grow,
}

-- Every range lies between `lo` and `hi`, and none is empty.
abbrev pub Inside : ℕ → ℕ → List Range → Type 0
Inside lo hi [] = Unit {0}
Inside lo hi (r ∷ rs) = ((lo ≤ r.start) × (r.start ≤ r.end) × (r.end ≤ hi)) × Inside lo hi rs

abbrev is_outside : ℕ → ℕ → Range → Bool
is_outside lo hi r = ltb r.start lo || (ltb r.end r.start || ltb hi r.end)

Inside-any : (lo hi : ℕ) (rs : List Range) → Inside lo hi rs → any (is_outside lo hi) rs ≡ false
Inside-any lo hi [] h = refl
Inside-any lo hi (r ∷ rs) h = ground (arith, Inside-any lo hi rs h.1, h.0)

any-Inside : (lo hi : ℕ) (rs : List Range) → any (is_outside lo hi) rs ≡ false → Inside lo hi rs
any-Inside lo hi [] h = tt
any-Inside lo hi (r ∷ rs) h = (ground arith, any-Inside lo hi rs (ground arith))

pub Inside-Perm :
    (lo hi : ℕ) {rs rs' : List Range} → Perm rs rs' → Inside lo hi rs' → Inside lo hi rs
Inside-Perm lo hi {rs} {rs'} h e =
    any-Inside lo hi rs (any-Perm (is_outside lo hi) h ∙ Inside-any lo hi rs' e)

pub Inside-Ends : (w lo hi : ℕ) (rs : List Range) → hi + 1 < 2 ^ w → Inside lo hi rs → Ends w rs
Inside-Ends w lo hi [] k h = tt
Inside-Ends w lo hi (r ∷ rs) k h = (omega arith, Inside-Ends w lo hi rs k h.1)

-- No range is empty.
abbrev pub Filled : List Range → Type 0
Filled [] = Unit {0}
Filled (r ∷ rs) = (r.start ≤ r.end) × Filled rs

pub Inside-Filled : (lo hi : ℕ) (rs : List Range) → Inside lo hi rs → Filled rs
Inside-Filled lo hi [] h = tt
Inside-Filled lo hi (r ∷ rs) h = (h.0.1, Inside-Filled lo hi rs h.1)

pub Filled-Inside : (w : ℕ) (rs : List Range) → Ends w rs → Filled rs → Inside 0 (2 ^ w - 2) rs
Filled-Inside w [] e f = tt
Filled-Inside w (r ∷ rs) e f = ((omega arith, f.0, omega arith), Filled-Inside w rs e.1 f.1)

-- Ranges that are apart and not empty take up two numbers each.
Apart-length :
    (e lo hi : ℕ) (rs : List Range) → Apart e rs → Inside lo hi rs → e ≤ hi → e + 2 * length rs ≤ hi
Apart-length e lo hi [] a i h = omega arith
Apart-length e lo hi (r ∷ rs) a i h = omega (arith, Apart-length r.end lo hi rs a.1 i.1 i.0.2)

pub IsApart-length :
    (lo hi : ℕ) (rs : List Range) → IsApart rs → Inside lo hi rs → length rs ≤ hi + 1
IsApart-length lo hi [] a i = omega arith
IsApart-length lo hi (r ∷ rs) a i = omega (arith, Apart-length r.end lo hi rs a i.1 i.0.2)

module _ (w : ℕ) (sort : List Range → List Range) where
  join_from-Inside :
      (lo hi : ℕ) (last : Range) (rs : List Range)
      → Ascending last.start rs
      → Inside lo hi (last ∷ rs)
      → Inside lo hi (join_from w sort last rs)
  join_from-Inside lo hi last [] a h = unfold join_from in h
  join_from-Inside lo hi last (r ∷ rs) a h = elim (Bool-cases (ltb (inc w sort last.end) r.start)) [
    | inl gap ↦ rw (join_from-gap w sort last r rs gap) (h.0, join_from-Inside lo hi r rs a.1 h.1)
    | inr close ↦ rw (join_from-close w sort last r rs close) (
        join_from-Inside lo hi (grow last r) rs (Ascending-grow w sort last r rs a)
          (unfold grow in ground arith, h.1.1))
  ]

  pub joined-Inside :
      (lo hi : ℕ) (rs : List Range)
      → Ascending 0 rs
      → Inside lo hi rs
      → Inside lo hi (joined w sort rs)
  joined-Inside lo hi [] a h = h
  joined-Inside lo hi (r ∷ rs) a h = join_from-Inside lo hi r rs a.1 h
