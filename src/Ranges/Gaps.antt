-- ===== src/Ranges/Gaps.antt =====
-- Sorted ranges joined where they overlap or touch: the set stays, with gaps between the results.
use sing.Common.{
  ℕ, ◌+◌, ◌^◌, ◌≤◌, ◌<◌, ◌≡◌, refl, Bool, true, false, ◌&&◌, ◌||◌, List, [], ◌∷◌, ltb, leb, arith,
  Bool-cases, inl, inr, ap, ap₂, ◌∙◌,
}
use native.Mathlib.Nat.{mod-eq_of_lt}
use mathlib.Core.List.{Perm, Permᴰ}
use mathlib.Core.Logic.{∥∥₁_elim}
use mathlib.Core.Bool.{Bool-set}
use sing.Ranges.{Range, inc, grow}

-- The set that a list of ranges stands for.
abbrev pub within : ℕ → Range → Bool
within x r = leb r.start x && leb x r.end

abbrev pub any : (Range → Bool) → List Range → Bool
any p [] = false
any p (r ∷ rs) = p r || any p rs

abbrev pub covered : ℕ → List Range → Bool
covered x rs = any (within x) rs

-- The starts ascend, from `lo` on.
abbrev pub Ascending : ℕ → List Range → Type 0
Ascending lo [] = Unit {0}
Ascending lo (r ∷ rs) = (lo ≤ r.start) × Ascending r.start rs

-- No range ends at the type's last value, so `End + 1` does not wrap.
abbrev pub Ends : ℕ → List Range → Type 0
Ends w [] = Unit {0}
Ends w (r ∷ rs) = (r.end + 1 < 2 ^ w) × Ends w rs

-- Behind a range that ends at `e` each range starts past `e + 1`.
abbrev pub Apart : ℕ → List Range → Type 0
Apart e [] = Unit {0}
Apart e (r ∷ rs) = (e + 1 < r.start) × Apart r.end rs

abbrev pub IsApart : List Range → Type 0
IsApart [] = Unit {0}
IsApart (r ∷ rs) = Apart r.end rs

Ascending-mono : (lo lo' : ℕ) (rs : List Range) → lo ≤ lo' → Ascending lo' rs → Ascending lo rs
Ascending-mono lo lo' [] h a = a
Ascending-mono lo lo' (r ∷ rs) h a = (omega arith, a.1)

or_assoc : (a b c : Bool) → ((a || b) || c) ≡ (a || (b || c))
or_assoc a b c = ground arith

or_swap : (a b c : Bool) → (a || (b || c)) ≡ (b || (a || c))
or_swap a b c = ground arith

any-Permᴰ : (p : Range → Bool) {rs rs' : List Range} → Permᴰ rs rs' → any p rs ≡ any p rs'
any-Permᴰ p Permᴰ.nil = refl
any-Permᴰ p (Permᴰ.cons e h) = ap₂ (λ a b. p a || b) e (any-Permᴰ p h)
any-Permᴰ p (Permᴰ.swap {l = l} e e') = rw (e, e') (or_swap _ _ (any p l))
any-Permᴰ p (Permᴰ.trans h h') = any-Permᴰ p h ∙ any-Permᴰ p h'

pub any-Perm : (p : Range → Bool) {rs rs' : List Range} → Perm rs rs' → any p rs ≡ any p rs'
any-Perm p h = ∥∥₁_elim h (Bool-set _ _) (any-Permᴰ p)

-- A range that ends at the type's last value, or past it.
abbrev is_last : ℕ → Range → Bool
is_last w r = leb (2 ^ w) (r.end + 1)

Ends-any : (w : ℕ) (rs : List Range) → Ends w rs → any (is_last w) rs ≡ false
Ends-any w [] h = refl
Ends-any w (r ∷ rs) h = ground (arith, Ends-any w rs h.1, h.0)

any-Ends : (w : ℕ) (rs : List Range) → any (is_last w) rs ≡ false → Ends w rs
any-Ends w [] h = tt
any-Ends w (r ∷ rs) h = (ground arith, any-Ends w rs (ground arith))

pub Ends-Perm : (w : ℕ) {rs rs' : List Range} → Perm rs rs' → Ends w rs' → Ends w rs
Ends-Perm w {rs} {rs'} h e = any-Ends w rs (any-Perm (is_last w) h ∙ Ends-any w rs' e)

-- What `sort.Slice` promises: a permutation, with the starts in order.
pub record Sorts (sort : List Range → List Range) : Type 0 where
  pub permutes : (rs : List Range) → Perm (sort rs) rs
  pub ascends : (rs : List Range) → Ascending 0 (sort rs)

module _ (w : ℕ) (sort : List Range → List Range) where
  -- The ranges behind `last`, joined to it or set apart.
  unfoldable pub join_from : Range → List Range → List Range
  join_from last [] = last ∷ []
  join_from last (r ∷ rs) = elim (ltb (inc w sort last.end) r.start) [
    | true ↦ last ∷ join_from r rs
    | false ↦ join_from (grow last r) rs
  ]

  abbrev pub joined : List Range → List Range
  joined [] = []
  joined (r ∷ rs) = join_from r rs

module _ (w : ℕ) (sort : List Range → List Range) where
  pub inc_lem : (e : ℕ) → e + 1 < 2 ^ w → inc w sort e ≡ e + 1
  inc_lem e h = mod-eq_of_lt h

  within-grow :
      (x : ℕ) (last r : Range)
      → last.start ≤ r.start
      → r.start ≤ last.end + 1
      → within x (grow last r) ≡ (within x last || within x r)
  unfolding grow
  within-grow x last r h k = ground arith

  grow-end :
      (last r : Range) → last.end + 1 < 2 ^ w → r.end + 1 < 2 ^ w → (grow last r).end + 1 < 2 ^ w
  unfolding grow
  grow-end last r h k = ground arith

  pub grow-start : (last r : Range) → (grow last r).start ≡ last.start
  unfolding grow
  grow-start last r = ground arith

  pub join_from-gap :
      (last r : Range) (rs : List Range)
      → ltb (inc w sort last.end) r.start ≡ true
      → join_from w sort last (r ∷ rs) ≡ last ∷ join_from w sort r rs
  unfolding join_from
  join_from-gap last r rs h = rw (h, join_from)

  pub join_from-close :
      (last r : Range) (rs : List Range)
      → ltb (inc w sort last.end) r.start ≡ false
      → join_from w sort last (r ∷ rs) ≡ join_from w sort (grow last r) rs
  unfolding join_from
  join_from-close last r rs h = rw (h, join_from)

  pub touches :
      (last r : Range)
      → last.end + 1 < 2 ^ w
      → ltb (inc w sort last.end) r.start ≡ false
      → r.start ≤ last.end + 1
  touches last r e h = ground (arith, inc_lem last.end)

  pub apart :
      (last r : Range)
      → last.end + 1 < 2 ^ w
      → ltb (inc w sort last.end) r.start ≡ true
      → last.end + 1 < r.start
  apart last r e h = ground (arith, inc_lem last.end)

  pub Ascending-grow :
      (last r : Range) (rs : List Range)
      → Ascending last.start (r ∷ rs)
      → Ascending (grow last r).start rs
  Ascending-grow last r rs a = Ascending-mono _ r.start rs (omega (arith, grow-start last r)) a.1

  join_from-covered :
      (x : ℕ) (last : Range) (rs : List Range)
      → Ascending last.start rs
      → last.end + 1 < 2 ^ w
      → Ends w rs
      → covered x (join_from w sort last rs) ≡ covered x (last ∷ rs)
  join_from-covered x last [] a e es = unfold join_from in refl
  join_from-covered x last (r ∷ rs) a e es = elim (Bool-cases (ltb (inc w sort last.end) r.start)) [
    | inl gap ↦
        rw (join_from-gap last r rs gap)
          (ap (λ b. within x last || b) (join_from-covered x r rs a.1 es.0 es.1))
    | inr close ↦
        ap (covered x) (join_from-close last r rs close)
        ∙ join_from-covered x (grow last r) rs (Ascending-grow last r rs a) (grow-end last r e es.0)
            es.1
        ∙ ap (λ b. b || covered x rs) (within-grow x last r a.0 (touches last r e close))
        ∙ or_assoc (within x last) (within x r) (covered x rs)
  ]

  join_from-Apart :
      (e : ℕ) (last : Range) (rs : List Range)
      → e + 1 < last.start
      → Ascending last.start rs
      → last.end + 1 < 2 ^ w
      → Ends w rs
      → Apart e (join_from w sort last rs)
  join_from-Apart e last [] h a k ks = unfold join_from in (h, tt)
  join_from-Apart e last (r ∷ rs) h a k ks = elim (Bool-cases (ltb (inc w sort last.end) r.start)) [
    | inl gap ↦
        rw (join_from-gap last r rs gap)
          (h, join_from-Apart last.end r rs (apart last r k gap) a.1 ks.0 ks.1)
    | inr close ↦ rw (join_from-close last r rs close) (
        join_from-Apart e (grow last r) rs (omega (arith, grow-start last r))
          (Ascending-grow last r rs a) (grow-end last r k ks.0) ks.1)
  ]

  pub joined-covered :
      (x : ℕ) (rs : List Range)
      → Ascending 0 rs
      → Ends w rs
      → covered x (joined w sort rs) ≡ covered x rs
  joined-covered x [] a e = refl
  joined-covered x (r ∷ rs) a e = join_from-covered x r rs a.1 e.0 e.1

  join_from-IsApart :
      (last : Range) (rs : List Range)
      → Ascending last.start rs
      → last.end + 1 < 2 ^ w
      → Ends w rs
      → IsApart (join_from w sort last rs)
  join_from-IsApart last [] a k ks = unfold join_from in tt
  join_from-IsApart last (r ∷ rs) a k ks = elim (Bool-cases (ltb (inc w sort last.end) r.start)) [
    | inl gap ↦
        rw (join_from-gap last r rs gap)
          (join_from-Apart last.end r rs (apart last r k gap) a.1 ks.0 ks.1)
    | inr close ↦ rw (join_from-close last r rs close) (
        join_from-IsApart (grow last r) rs (Ascending-grow last r rs a) (grow-end last r k ks.0)
          ks.1)
  ]

  pub joined-IsApart : (rs : List Range) → Ascending 0 rs → Ends w rs → IsApart (joined w sort rs)
  joined-IsApart [] a e = tt
  joined-IsApart (r ∷ rs) a e = join_from-IsApart r rs a.1 e.0 e.1
