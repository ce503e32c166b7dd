-- ===== src/Slices.antt =====
-- common/cond.go: the helpers on slices.
pub mod Reverse
pub mod Uniq
mod Tests
use sing.Common.{
  ℕ, zero, suc, ◌+◌, ◌-◌, ◌/◌, Bool, true, false, not, ◌&&◌, List, [], ◌∷◌, ◌++◌, Option, none,
  some, length, ltb, ◌==◌, if◌then◌else◌,
}
use sing.Common.Outcome.{Outcome, ok, panic, ◌>>=◌}
use mathlib.Core.Logic.{ite}

module _ {A : Type 0} where
  -- The loops count from `i`; the functions are the loops from 0.
  pub any : (A → Bool) → List A → Bool
  any block [] = false
  any block (it ∷ array) = if block it then true else any block array

  pub any_indexed : (ℕ → A → Bool) → ℕ → List A → Bool
  any_indexed block i [] = false
  any_indexed block i (it ∷ array) = if block i it then true else any_indexed block (i + 1) array

  pub all : (A → Bool) → List A → Bool
  all block [] = true
  all block (it ∷ array) = if not (block it) then false else all block array

  pub all_indexed : (ℕ → A → Bool) → ℕ → List A → Bool
  all_indexed block i [] = true
  all_indexed block i (it ∷ array) =
      if not (block i it) then false else all_indexed block (i + 1) array

  pub filter : (A → Bool) → List A → List A
  filter block [] = []
  filter block (it ∷ arr) = let rest = filter block arr in if block it then it ∷ rest else rest

  pub filter_indexed : (ℕ → A → Bool) → ℕ → List A → List A
  filter_indexed block i [] = []
  filter_indexed block i (it ∷ arr) =
      let rest = filter_indexed block (i + 1) arr in if block i it then it ∷ rest else rest

  -- `none` is -1.
  pub index : (A → Bool) → ℕ → List A → Option ℕ
  index block i [] = none
  index block i (it ∷ arr) = if block it then some i else index block (i + 1) arr

  pub index_indexed : (ℕ → A → Bool) → ℕ → List A → Option ℕ
  index_indexed block i [] = none
  index_indexed block i (it ∷ arr) = if block i it then some i else index_indexed block (i + 1) arr

  -- With the zero value of the type.
  pub find : A → (A → Bool) → List A → A
  find zero_value block [] = zero_value
  find zero_value block (it ∷ arr) = if block it then it else find zero_value block arr

  pub find_indexed : A → (ℕ → A → Bool) → ℕ → List A → A
  find_indexed zero_value block i [] = zero_value
  find_indexed zero_value block i (it ∷ arr) =
      if block i it then it else find_indexed zero_value block (i + 1) arr

  -- `arr[i]` and `arr[i] = v`, which panic out of range.
  abbrev pub at : ℕ → List A → Outcome A
  at i [] = panic
  at zero (x ∷ xs) = ok x
  at (suc i) (x ∷ xs) = at i xs

  abbrev pub set_at : ℕ → A → List A → Outcome (List A)
  set_at i v [] = panic
  set_at zero v (x ∷ xs) = ok (v ∷ xs)
  set_at (suc i) v (x ∷ xs) = do xs ← set_at i v xs; ok (x ∷ xs)

  -- `arr[i], arr[j] = arr[j], arr[i]`
  pub swap : ℕ → ℕ → List A → Outcome (List A)
  swap i j arr = do y ← at j arr; x ← at i arr; arr ← set_at i y arr; set_at j x arr

  -- The turns of the loop of `Reverse` from `i` on.
  pub reverse_loop : ℕ → ℕ → List A → Outcome (List A)
  unfolding swap
  reverse_loop zero i arr = ok arr
  reverse_loop (suc turns) i arr = do
    arr ← swap i (length arr - 1 - i) arr
    reverse_loop turns (i + 1) arr

  pub reverse : List A → Outcome (List A)
  unfolding reverse_loop
  reverse arr = reverse_loop (length arr / 2) 0 arr

module _ {A B : Type 0} where
  pub map_slice : (A → B) → List A → List B
  map_slice block [] = []
  map_slice block (it ∷ arr) = block it ∷ map_slice block arr

  pub map_indexed : (ℕ → A → B) → ℕ → List A → List B
  map_indexed block i [] = []
  map_indexed block i (it ∷ arr) = block i it ∷ map_indexed block (i + 1) arr

  pub flat_map : (A → List B) → List A → List B
  flat_map block [] = []
  flat_map block (it ∷ arr) = block it ++ flat_map block arr

  pub flat_map_indexed : (ℕ → A → List B) → ℕ → List A → List B
  flat_map_indexed block i [] = []
  flat_map_indexed block i (it ∷ arr) = block i it ++ flat_map_indexed block (i + 1) arr

  -- `block` says of what instance it is.
  pub filter_is_instance : (A → Option B) → List A → List B
  filter_is_instance block [] = []
  filter_is_instance block (it ∷ arr) = elim (block it) [
    | none ↦ filter_is_instance block arr
    | some n ↦ n ∷ filter_is_instance block arr
  ]

-- The decision of `==`.
module _ {A : Type 0} (dec : Discrete A) where
  pub equal_from : List A → List A → Bool
  equal_from (x ∷ s1) (y ∷ s2) = ite (dec x y) (equal_from s1 s2) false
  equal_from _ _ = true

  pub equal : List A → List A → Bool
  unfolding equal_from
  equal s1 s2 = if not (length s1 == length s2) then false else equal_from s1 s2

  pub contains : A → List A → Bool
  contains target [] = false
  contains target (x ∷ arr) = ite (dec x target) true (contains target arr)

-- The loop of `UniqBy`: `seen` are the keys that came before.
module _ {A C : Type 0} (dec : Discrete C) (block : A → C) where
  pub uniq_from : (C → Bool) → List A → List A
  uniq_from seen [] = []
  uniq_from seen (item ∷ arr) =
      let c = block item in
      let rest = uniq_from (λ q. ite (dec c q) true (seen q)) arr in
      if seen c then uniq_from seen arr else item ∷ rest

  pub uniq_by : List A → List A
  unfolding uniq_from
  uniq_by arr = uniq_from (λ c. false) arr

-- `Uniq`, whose loop is that of `UniqBy` at the items themselves.
pub uniq : {A : Type 0} → Discrete A → List A → List A
unfolding uniq_from
uniq dec arr = uniq_from dec (λ it. it) (λ c. false) arr

-- `MinBy` and `MaxBy`, with keys that are numbers and the zero value of the type.
module _ {A : Type 0} (block : A → ℕ) where
  pub min_from : A → List A → A
  min_from min [] = min
  min_from min (item ∷ arr) =
      if ltb (block item) (block min) then min_from item arr else min_from min arr

  pub min_by : A → List A → A
  unfolding min_from
  min_by zero_value [] = zero_value
  min_by zero_value (x ∷ arr) = min_from x arr

  pub max_from : A → List A → A
  max_from max [] = max
  max_from max (item ∷ arr) =
      if ltb (block max) (block item) then max_from item arr else max_from max arr

  pub max_by : A → List A → A
  unfolding max_from
  max_by zero_value [] = zero_value
  max_by zero_value (x ∷ arr) = max_from x arr
