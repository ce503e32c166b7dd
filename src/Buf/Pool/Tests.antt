-- ===== src/Buf/Pool/Tests.antt =====
-- The allocator at concrete sizes.
use sing.Common.{
  sym, subst, Bool-cases, inl, inr, ℕ, zero, suc, ◌-◌, ◌/◌, ◌^◌, ◌≤◌, ◌<◌, ◌≡◌, ◌⊎◌, refl, List, [],
  ◌∷◌, none, some, length, ◌==◌, if◌then◌else◌, arith,
}
use sing.Metadata.Serializer.Wire.{suc-eq_zero}
use native.Mathlib.Nat.{two-pow-succ}
use sing.Common.Outcome.{new, ok, err}
use sing.Buf.Bytes.{Serves}
use sing.Buf.Pool.{Pools, Pick, get, put, class_size, index_of}
use sing.Buf.Pool.Sizes.{CountsBits, Rounds}
use sing.Buf.Pool.Stores.{
  Sized, some-inj, Picks, IsStocked, IsClass, Stored, get_lem, put_lem, pooled, pooled-Serves,
}

-- `bits.Len32`, by halving at most `n` times.
abbrev halvings : ℕ → ℕ → ℕ
halvings zero x = 0
halvings (suc n) x = let rest = halvings n (x / 2) in if x == 0 then 0 else suc rest

above_halvings : (n x : ℕ) → x < 2 ^ n → x < 2 ^ halvings n x
above_halvings zero x h = h
above_halvings (suc n) zero h = omega arith
above_halvings (suc n) (suc y) h = rw suc-eq_zero (
    omega (
      arith,
      above_halvings n (suc y / 2) (omega (arith, two-pow-succ n)),
      two-pow-succ (halvings n (suc y / 2)),
    ))

one_less : (r : ℕ) → suc r - 1 ≡ r
one_less r = omega arith

below_step :
    (y r : ℕ)
    → (0 < suc y / 2 → (0 < r) × (2 ^ (r - 1) ≤ suc y / 2))
    → (suc y / 2 ≡ 0 → r ≡ 0)
    → 2 ^ r ≤ suc y
below_step y zero h z = omega arith
below_step y (suc r) h z = elim (Bool-cases (suc y / 2 == 0)) [
  | inl none_left ↦ absurd (ground (arith, none_left, z))
  | inr more ↦
      let half = subst (λ k. 2 ^ k ≤ suc y / 2) (one_less r) (h (ground (arith, more))).1 in
      omega (arith, half, two-pow-succ r)
]

halvings-zero : (n : ℕ) → halvings n 0 ≡ 0
halvings-zero zero = refl
halvings-zero (suc n) = refl

below_halvings : (n x : ℕ) → 0 < x → x < 2 ^ n → (0 < halvings n x) × (2 ^ (halvings n x - 1) ≤ x)
below_halvings zero x h k = absurd (omega arith)
below_halvings (suc n) zero h k = absurd (omega arith)
below_halvings (suc n) (suc y) h k = rw suc-eq_zero (
  omega arith,
  subst (λ k. 2 ^ k ≤ suc y) (sym (one_less (halvings n (suc y / 2))))
      (below_step y (halvings n (suc y / 2))
        (λ pos. below_halvings n (suc y / 2) pos (omega (arith, two-pow-succ n)))
        (λ e. rw e (halvings-zero n))),
)

bits : CountsBits (halvings 32)
bits = record { above = above_halvings 32; below = below_halvings 32 }

-- A pool that hands out its last array first.
abbrev newest : Pick
newest [] = none
newest (array ∷ rest) = some (array, rest)

picked_newest :
    (n : ℕ) (arrays : List (List ℕ)) (array : List ℕ) (rest : List (List ℕ))
    → Sized n arrays
    → newest arrays ≡ some (array, rest)
    → (length array ≡ n) × Sized n rest
picked_newest n [] array rest sized e = cc
picked_newest n (first ∷ others) array rest sized e =
    subst (λ o. (length o.0 ≡ n) × Sized n o.1) (some-inj e) sized

newest-Picks : Picks newest
newest-Picks = record {
  picked = λ n arrays array rest sized e. picked_newest n arrays array rest sized e;
}

empty_pools : Pools
empty_pools i = []

empty_pools-IsStocked : IsStocked empty_pools
unfolding empty_pools
empty_pools-IsStocked = record { stocked = λ i h. tt }

get_lem_example :
    (raw : List ℕ) × (pools' : Pools) × (get (halvings 32) newest 1500 empty_pools
      ≡ ok (some raw, pools'))
    × (length raw ≡ class_size (index_of (halvings 32) 1500))
    × Rounds (halvings 32) 1500
    × IsStocked pools'
get_lem_example =
    get_lem (halvings 32) bits newest newest-Picks 1500 empty_pools empty_pools-IsStocked
      (omega arith) (omega arith)

put_lem_example :
    ((pools' : Pools) × (put (halvings 32) (7 ∷ []) empty_pools ≡ ok pools')
      × IsStocked pools'
      × Stored (7 ∷ []) empty_pools pools')
    ⊎ ((put (halvings 32) (7 ∷ []) empty_pools ≡ err (new "allocator Put() incorrect buffer size"))
        × (¬ IsClass (length (let raw : List ℕ = 7 ∷ [] in raw))))
put_lem_example = put_lem (halvings 32) bits (7 ∷ []) empty_pools empty_pools-IsStocked

newest-pooled-Serves : Serves (pooled (halvings 32) newest empty_pools)
newest-pooled-Serves =
    pooled-Serves (halvings 32) bits newest newest-Picks empty_pools empty_pools-IsStocked
