-- ===== src/Buf/Pool/Stores.antt =====
-- What the pools hold, and what the allocator hands out.
use sing.Common.{
  refl, ℕ, ◌-◌, ◌⊎◌, ◌≤◌, ◌<◌, ◌≡◌, ◌≢◌, ap, sym, ◌∙◌, true, false, ◌||◌, List, [], ◌∷◌, Option,
  none, some, length, replicate, ltb, ◌==◌, arith, length-replicate, Bool-cases, Option-cases, inl,
  inr, subst,
}
use sing.Common.Outcome.{new, Outcome, ok, err, panic}
use sing.Buf.{Alloc}
use sing.Buf.Bytes.{Serves}
use sing.Buf.Pool.{
  max_pooled_buffer_size, class_size, Pools, Pick, set_pool, msb, index_of, as_array, get, put_at,
  put,
}
use sing.Buf.Pool.Sizes.{CountsBits, Rounds, index_of-Rounds, refused, refused_lem, class_last}

-- Every array of the list has this length.
abbrev pub Sized : ℕ → List (List ℕ) → Type 0
Sized n [] = Unit {0}
Sized n (raw ∷ raws) = (length raw ≡ n) × Sized n raws

-- Every pool holds arrays of its size.
pub record IsStocked (pools : Pools) : Type 0 where
  pub stocked : (i : ℕ) → i ≤ 11 → Sized (class_size i) (pools i)

-- `sync.Pool.Get` returns nothing that was not put in.
pub record Picks (pick : Pick) : Type 0 where
  pub picked :
      (n : ℕ) (arrays : List (List ℕ)) (array : List ℕ) (rest : List (List ℕ))
      → Sized n arrays
      → pick arrays ≡ some (array, rest)
      → (length array ≡ n) × Sized n rest

as_array_lem : (i : ℕ) (raw : List ℕ) → i ≤ 11 → length raw ≡ class_size i → as_array i raw ≡ ok raw
as_array_lem i raw h e = ground (arith, e)

set_pool-IsStocked :
    (i : ℕ) (arrays : List (List ℕ)) (pools : Pools)
    → IsStocked pools
    → Sized (class_size i) arrays
    → IsStocked (set_pool i arrays pools)
set_pool-IsStocked i arrays pools v h = record {
  stocked = λ j k. elim (Bool-cases (j == i)) [
    | inl same ↦ rw same (subst (λ n. Sized (class_size n) arrays) (ground (arith, same)) h)
    | inr other ↦ rw other (v.stocked j k)
  ];
}

-- The slice of a result of `Get`.
abbrev pub out : Outcome (Option (List ℕ) × Pools) → Option (List ℕ)
out (ok r) = r.0
out (err e) = none
out panic = none

-- `Get` on given pools, as the buffers ask for memory.
abbrev pub pooled : (ℕ → ℕ) → Pick → Pools → Alloc
pooled len32 pick pools size = out (get len32 pick size pools)

none_not_some : {A : Type 0} {a : A} → (let o : Option A = none in o) ≢ some a
none_not_some e = cc

pub some-inj : {A : Type 0} {a b : A} → some a ≡ some b → a ≡ b
some-inj e = cc

module _ (len32 : ℕ → ℕ) (bits : CountsBits len32) (pick : Pick) (picks : Picks pick) where
  -- With a `bits.Len32` that counts bits, and a `sync.Pool` that hands back what it was given, on pools
  -- that hold arrays of their sizes: `Get` of a size that is not 0 and not above the largest never
  -- panics. It hands out an array of the smallest class that holds the size, and the pools hold
  -- arrays of their sizes still.
  pub get_lem :
      (size : ℕ) (pools : Pools)
      → IsStocked pools
      → 0 < size
      → size ≤ max_pooled_buffer_size
      → (raw : List ℕ) × (pools' : Pools) × (get len32 pick size pools ≡ ok (some raw, pools'))
        × (length raw ≡ class_size (index_of len32 size))
        × Rounds len32 size
        × IsStocked pools'
  unfolding get
  get_lem size pools v pos h =
      let r = index_of-Rounds len32 bits size pos h in
      let asked : (size == 0 || ltb max_pooled_buffer_size size) ≡ false = ground arith in
      elim (Option-cases (pick (pools (index_of len32 size)))) [
        | inl none_held ↦
            let fresh : List ℕ = replicate (class_size (index_of len32 size)) 0 in
            let sized : length fresh ≡ class_size (index_of len32 size) =
              length-replicate (class_size (index_of len32 size)) 0 in
            (
              fresh,
              pools,
              rw (asked, none_held, as_array_lem (index_of len32 size) fresh r.in_range sized),
              sized,
              r,
              v,
            )
        | inr ((array, rest), e) ↦
            let (sized, kept) =
              picks.picked (class_size (index_of len32 size)) (pools (index_of len32 size)) array
                rest (v.stocked (index_of len32 size) r.in_range) e in
            (
              array,
              set_pool (index_of len32 size) rest pools,
              rw (asked, e, as_array_lem (index_of len32 size) array r.in_range sized),
              sized,
              r,
              set_pool-IsStocked (index_of len32 size) rest pools v kept,
            )
      ]

  pooled-none :
      (size : ℕ) (pools : Pools)
      → (size == 0 || ltb max_pooled_buffer_size size) ≡ true
      → pooled len32 pick pools size ≡ none
  unfolding get
  pooled-none size pools h = rw h

  -- With pools that hold arrays of their sizes, the allocator is one that serves what it is asked
  -- for, as the theorems on buffers and messages want it.
  pub pooled-Serves : (pools : Pools) → IsStocked pools → Serves (pooled len32 pick pools)
  pooled-Serves pools v size raw e =
      elim (Bool-cases (size == 0 || ltb max_pooled_buffer_size size)) [
        | inl outside ↦ absurd (none_not_some (sym (pooled-none size pools outside) ∙ e))
        | inr asked ↦
            let (array, pools', got, sized, r, v') =
              get_lem size pools v (ground (arith, asked)) (ground (arith, asked)) in
            let same : array ≡ raw = some-inj (sym (ap out got) ∙ e) in
            subst (λ a. size ≤ length a) same (subst (λ n. size ≤ n) (sym sized) r.holds)
      ]

-- The sizes that the pools keep.
abbrev pub IsClass : ℕ → Type 0
IsClass n = (i : ℕ) × (i ≤ 11) × (n ≡ class_size i)

-- The array is in front of the pool of its size, and nothing else has changed.
abbrev pub Stored : List ℕ → Pools → Pools → Type 0
Stored raw pools pools' =
    (i : ℕ) × (i ≤ 11) × (length raw ≡ class_size i) × (pools' ≡ set_pool i (raw ∷ pools i) pools)

module _ (len32 : ℕ → ℕ) (bits : CountsBits len32) where
  put_at_lem :
      (i : ℕ) (raw : List ℕ) (pools : Pools)
      → i ≤ 11
      → length raw ≡ class_size i
      → IsStocked pools
      → (put_at i raw pools ≡ ok (set_pool i (raw ∷ pools i) pools))
        × IsStocked (set_pool i (raw ∷ pools i) pools)
  put_at_lem i raw pools h e v =
      (rw (as_array_lem i raw h e), set_pool-IsStocked i (raw ∷ pools i) pools v (e, v.stocked i h))

  -- With a `bits.Len32` that counts bits, on pools that hold arrays of their sizes: `Put` never panics.
  -- It takes an array back exactly if it is as long as those of a pool, puts it there, and changes
  -- nothing else, so the pools hold arrays of their sizes still; any other it refuses.
  pub put_lem :
      (raw : List ℕ) (pools : Pools)
      → IsStocked pools
      → ((pools' : Pools) × (put len32 raw pools ≡ ok pools')
          × IsStocked pools'
          × Stored raw pools pools')
        ⊎ ((put len32 raw pools ≡ err (new "allocator Put() incorrect buffer size"))
            × (¬ IsClass (length raw)))
  unfolding put
  put_lem raw pools v = elim (Bool-cases (length raw == max_pooled_buffer_size)) [
    | inl last ↦
        let sized : length raw ≡ class_size 11 = ground (arith, last, class_last) in
        let (stored, v') = put_at_lem 11 raw pools (omega arith) sized v in
        inl (set_pool 11 (raw ∷ pools 11) pools, rw last, v', (11, omega arith, sized, refl))
    | inr other ↦
        let (accepts, rejects) = refused_lem len32 bits (length raw) (ground (arith, other)) in
        elim (Bool-cases (refused len32 (length raw))) [
          | inl refuses ↦ inr (rw (other, refuses), λ c. rejects refuses c.0 c.1 c.2)
          | inr fits ↦
              let (small, sized) = accepts fits in
              let (stored, v') = put_at_lem (msb len32 (length raw) - 6) raw pools small sized v in
              inl (_, rw (other, fits) stored, v', (msb len32 (length raw) - 6, small, sized, refl))
        ]
  ]
