-- ===== src/Buf/Pool/Sizes.antt =====
-- The classes of sizes that the allocator rounds up to.
use sing.Common.{
  subst, ℕ, suc, ◌+◌, ◌-◌, ◌%◌, ◌^◌, ◌≤◌, ◌<◌, ◌≡◌, ◌≢◌, refl, ap, sym, ◌∙◌, true, false, ltb, ◌==◌,
  Bool, not, ◌||◌, arith, Bool-cases, inl, inr, ltb→lt,
}
use native.Mathlib.Nat.{pow-le-pow_right, two-pow-succ}
use sing.Buf.Pool.{max_pooled_buffer_size, class_size, msb, index_of}

-- `bits.Len32`: the number of bits that a 32-bit number takes.
pub record CountsBits (len32 : ℕ → ℕ) : Type 0 where
  pub above : (x : ℕ) → x < 2 ^ 32 → x < 2 ^ len32 x
  pub below : (x : ℕ) → 0 < x → x < 2 ^ 32 → (0 < len32 x) × (2 ^ (len32 x - 1) ≤ x)

two_pow_mono : (i j : ℕ) → i ≤ j → 2 ^ i ≤ 2 ^ j
two_pow_mono i j h = pow-le-pow_right (omega arith) h

two_pow_pos : (i : ℕ) → 0 < 2 ^ i
two_pow_pos i = two_pow_mono 0 i (omega arith)

two_pow_reflects : (i j : ℕ) → 2 ^ i < 2 ^ j → i < j
two_pow_reflects i j h = elim (Bool-cases (ltb i j)) [
  | inl below ↦ ltb→lt i j below
  | inr above ↦ absurd (omega (arith, two_pow_mono j i (ground (arith, above))))
]

two_pow_strict : (i j : ℕ) → i < j → 2 ^ i < 2 ^ j
two_pow_strict i j h =
    omega (arith, two_pow_mono (suc i) j (omega arith), two-pow-succ i, two_pow_pos i)

class_below : (i : ℕ) → i < 11 → class_size i ≡ 2 ^ (6 + i)
unfolding class_size
class_below i h = ground arith

pub class_last : class_size 11 ≡ max_pooled_buffer_size
unfolding class_size
class_last = refl

true_not_false : true ≢ false
true_not_false e = cc

six_more : (m : ℕ) → 6 ≤ m → 6 + (m - 6) ≡ m
six_more m h = omega arith

-- What the class of a size is: it holds the size, and the class before it does not.
pub record Rounds (len32 : ℕ → ℕ) (size : ℕ) : Type 0 where
  pub in_range : index_of len32 size ≤ 11
  pub holds : size ≤ class_size (index_of len32 size)
  pub least : (i : ℕ) → i < index_of len32 size → class_size i < size

-- What `Put` asks of a length that is not the largest.
abbrev pub refused : (ℕ → ℕ) → ℕ → Bool
refused len32 cap = ltb cap 64 || (ltb 65536 cap || not (cap == 2 ^ msb len32 cap))

module _ (len32 : ℕ → ℕ) (bits : CountsBits len32) where
  len_bounds : (x : ℕ) → 64 ≤ x → x ≤ 65536 → (6 < len32 x) × (len32 x ≤ 17)
  len_bounds x h k =
      let up = bits.above x (omega arith) in
      let (pos, down) = bits.below x (omega arith) (omega arith) in
      (
        two_pow_reflects 6 (len32 x) (omega arith),
        omega (arith, two_pow_reflects (len32 x - 1) 17 (omega arith)),
      )

  msb_lem :
      (x : ℕ)
      → 64 ≤ x
      → x ≤ 65536
      → (m : ℕ) × (msb len32 x ≡ m) × (2 ^ m ≤ x) × (x < 2 ^ (m + 1)) × (6 ≤ m) × (m ≤ 16)
  msb_lem x h k =
      let (lo, hi) = len_bounds x h k in
      let same : x % 2 ^ 32 ≡ x = omega arith in
      let m : ℕ = len32 x - 1 in
      let next : m + 1 ≡ len32 x = omega arith in
      (
        m,
        rw same (omega arith),
        (bits.below x (omega arith) (omega arith)).1,
        subst (λ l. x < 2 ^ l) (sym next) (bits.above x (omega arith)),
        omega arith,
        omega arith,
      )

  Rounds-at :
      (size i : ℕ)
      → index_of len32 size ≡ i
      → i ≤ 11
      → size ≤ class_size i
      → ((j : ℕ) → j < i → class_size j < size)
      → Rounds len32 size
  Rounds-at size i e r h l = record {
    in_range = subst (λ k. k ≤ 11) (sym e) r;
    holds = subst (λ k. size ≤ class_size k) (sym e) h;
    least = λ j k. l j (subst (λ n. j < n) e k);
  }

  between :
      (size m : ℕ)
      → msb len32 size ≡ m
      → ltb 64 size ≡ true
      → ltb 65536 size ≡ false
      → 2 ^ m ≤ size
      → size < 2 ^ (m + 1)
      → 6 ≤ m
      → m ≤ 16
      → Rounds len32 size
  unfolding index_of
  between size m e more middle lo hi six sixteen = elim (Bool-cases (size == 2 ^ m)) [
    | inl exact ↦
        Rounds-at size (m - 6) (rw (more, middle, e, exact)) (omega arith)
          (rw (class_below (m - 6) (omega arith), six_more m six) (ground (arith, exact)))
          (λ j k.
            rw (class_below j (omega arith))
              (omega (arith, lo, two_pow_strict (6 + j) m (omega arith))))
    | inr other ↦
        let small : m < 16 = two_pow_reflects m 16 (ground (arith, other)) in
        Rounds-at size (m + 1 - 6) (rw (more, middle, e, other)) (omega arith)
          (rw (class_below (m + 1 - 6) (omega arith), six_more (m + 1) (omega arith)) (omega arith))
          (λ j k.
            rw (class_below j (omega arith))
              (ground (arith, other, two_pow_mono (6 + j) m (omega arith))))
  ]

  pub index_of-Rounds : (size : ℕ) → 0 < size → size ≤ max_pooled_buffer_size → Rounds len32 size
  unfolding index_of class_size
  index_of-Rounds size pos h = elim (Bool-cases (ltb 64 size)) [
    | inr small ↦
        Rounds-at size 0 (rw small) (omega arith) (ground (arith, small))
          (λ j k. absurd (omega arith))
    | inl more ↦ elim (Bool-cases (ltb 65536 size)) [
      | inl huge ↦ Rounds-at size 11 (rw (more, huge)) (omega arith) h (λ j k.
          rw (class_below j k)
            (omega (arith, ltb→lt 65536 size huge, two_pow_mono (6 + j) 16 (omega arith))))
      | inr middle ↦
          let (m, e, lo, hi, six, sixteen) =
            msb_lem size (ground (arith, more)) (ground (arith, middle)) in
          between size m e more middle lo hi six sixteen
    ]
  ]

  -- A power of two has its exponent for its highest bit.
  msb_exact : (i : ℕ) → i ≤ 10 → msb len32 (2 ^ (6 + i)) ≡ 6 + i
  msb_exact i h =
      let up = two_pow_mono (6 + i) 16 (omega arith) in
      let (m, e, lo, hi, six, sixteen) =
        msb_lem (2 ^ (6 + i)) (two_pow_mono 6 (6 + i) (omega arith)) up in
      let first = two_pow_reflects (6 + i) (m + 1) hi in e ∙ no_more m i lo first
    where
      no_more : (m i : ℕ) → 2 ^ m ≤ 2 ^ (6 + i) → 6 + i < m + 1 → m ≡ 6 + i
      no_more m i lo first = elim (Bool-cases (ltb (6 + i) m)) [
        | inl over ↦ absurd (omega (arith, two_pow_strict (6 + i) m (ltb→lt (6 + i) m over)))
        | inr under ↦ ground (arith, under)
      ]

  refused_class : (i : ℕ) → i ≤ 10 → refused len32 (2 ^ (6 + i)) ≡ false
  refused_class i h =
      rw (msb_exact i h) (
        ground (arith, two_pow_mono 6 (6 + i) (omega arith), two_pow_mono (6 + i) 16 (omega arith)))

  -- It asks for one of the other classes.
  pub refused_lem :
      (cap : ℕ)
      → cap ≢ max_pooled_buffer_size
      → (refused len32 cap ≡ false
          → (msb len32 cap - 6 ≤ 11) × (cap ≡ class_size (msb len32 cap - 6)))
        × (refused len32 cap ≡ true → (i : ℕ) → i ≤ 11 → cap ≢ class_size i)
  refused_lem cap other = (
    λ h.
        let (m, e, lo, hi, six, sixteen) = msb_lem cap (ground (arith, h)) (ground (arith, h)) in
        (
          omega (arith, e),
          let exact : cap ≡ 2 ^ m = ground (arith, h, e) in
              rw (e, class_below (m - 6) (ground (arith, e)), six_more m six) exact,
        ),
    λ h i k e. elim (Bool-cases (i == 11)) [
      | inl last ↦ other (e ∙ ap class_size (ground (arith, last)) ∙ class_last)
      | inr before ↦ absurd (
          true_not_false (
            sym h
            ∙ ap (refused len32) (e ∙ class_below i (ground (arith, before)))
            ∙ refused_class i (ground (arith, before))))
    ],
  )
