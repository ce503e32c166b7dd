-- ===== src/Ranges/Exclude.antt =====
-- The loop of `Exclude` makes no progress at a target that ends past the range it starts in.
use sing.Common.{ℕ, zero, suc, ◌≤◌, ◌<◌, ◌≡◌, refl, true, List, ◌∷◌, none, arith}
use sing.Ranges.{Range, Cursor, cut, exclude_step, exclude_loop, merge, exclude}

-- The current target starts at or before the end of the current range, and ends behind it.
abbrev pub Straddles : Cursor → Type 0
Straddles c = (c.target_start ≤ c.range_end) × (c.range_end < c.target_end)

module _ (w : ℕ) (sort : List Range → List Range) where
  -- A round from there goes on, from such a state again.
  step-Straddles :
      (c : Cursor)
      → Straddles c
      → (c' : Cursor) × (exclude_step w sort c ≡ (c', true)) × Straddles c'
  unfolding exclude_step
  step-Straddles c (h, k) = (cut w sort c, ground arith, ground arith)

  -- So `Exclude` runs for ever once it is there: no fuel is enough.
  pub exclude_loop-Straddles :
      (fuel : ℕ) (c : Cursor) → Straddles c → exclude_loop w sort fuel c ≡ none
  unfolding exclude_loop
  exclude_loop-Straddles zero c h = refl
  exclude_loop-Straddles (suc fuel) c h =
      let (c', e, h') = step-Straddles c h in rw e (exclude_loop-Straddles fuel c' h')

  -- `Exclude` never returns where the first merged target starts at or before the end of the first
  -- merged range and ends behind it.
  pub exclude-diverges :
      (ranges targets rs ts : List Range) (r t : Range)
      → merge w sort ranges ≡ r ∷ rs
      → merge w sort targets ≡ t ∷ ts
      → t.start ≤ r.end
      → r.end < t.end
      → (fuel : ℕ) → exclude w sort fuel ranges targets ≡ none
  unfolding exclude
  exclude-diverges ranges targets rs ts r t er et h k fuel =
      rw (er, et) (exclude_loop-Straddles fuel _ (h, k))
