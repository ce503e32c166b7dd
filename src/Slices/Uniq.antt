-- ===== src/Slices/Uniq.antt =====
-- The slice without the items whose key came before.
use sing.Common.{◌≡◌, Bool, true, false, List, [], ◌∷◌, if◌then◌else◌, arith, Bool-cases, inl, inr}
use sing.Slices.{uniq_from, uniq_by}
use mathlib.Core.Logic.{ite}

module _ {A C : Type 0} (dec : Discrete C) (block : A → C) where
  -- Whether some item has the key.
  pub has_key : C → List A → Bool
  has_key c [] = false
  has_key c (x ∷ xs) = ite (dec (block x) c) true (has_key c xs)

  -- No two items have the same key.
  abbrev pub DistinctKeys : List A → Type 0
  DistinctKeys [] = Unit
  DistinctKeys (x ∷ xs) = (has_key (block x) xs ≡ false) × DistinctKeys xs

  has_key-uniq_from :
      (c : C) (seen : C → Bool) (arr : List A)
      → has_key c (uniq_from dec block seen arr) ≡ (if seen c then false else has_key c arr)
  unfolding has_key uniq_from
  has_key-uniq_from c seen [] = ground arith
  has_key-uniq_from c seen (x ∷ arr) = ground (
    arith,
    has_key-uniq_from c seen arr,
    has_key-uniq_from c (λ q. ite (dec (block x) q) true (seen q)) arr,
  )

  uniq_from-DistinctKeys :
      (seen : C → Bool) (arr : List A) → DistinctKeys (uniq_from dec block seen arr)
  unfolding uniq_from
  uniq_from-DistinctKeys seen [] = tt
  uniq_from-DistinctKeys seen (x ∷ arr) =
      let now : C → Bool = λ q. ite (dec (block x) q) true (seen q) in
      elim (Bool-cases (seen (block x))) [
        | inl old ↦ ground (arith, old, uniq_from-DistinctKeys seen arr)
        | inr new ↦
            ground (arith, new, has_key-uniq_from (block x) now arr, uniq_from-DistinctKeys now arr)
      ]

  -- `UniqBy` leaves items with different keys, and a key is left exactly where it was there.
  pub uniq_by_lem :
      (arr : List A)
      → DistinctKeys (uniq_by dec block arr)
        × ((c : C) → has_key c (uniq_by dec block arr) ≡ has_key c arr)
  unfolding uniq_by
  uniq_by_lem arr =
      (uniq_from-DistinctKeys (λ c. false) arr, λ c. has_key-uniq_from c (λ c. false) arr)
