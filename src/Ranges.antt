-- ===== src/Ranges.antt =====
-- common/ranges/range.go: sets of integers as lists of ranges, at an unsigned type of `w` bits.
-- `Merge` writes its result over the array of its argument, at places that it has read already, so
-- the result is that of a fresh list.
pub mod Gaps
pub mod Inside
pub mod Merge
pub mod Revert
pub mod Exclude
mod Tests
use sing.Common.{
  ℕ, zero, suc, ◌+◌, ◌-◌, ◌%◌, ◌^◌, Bool, true, false, List, [], ◌∷◌, ◌++◌, Option, none, some,
  get_elem?, ltb, leb, if◌then◌else◌,
}

pub record Range : Type 0 where
  pub start : ℕ
  pub end : ℕ

pub new_range : ℕ → ℕ → Range
new_range start end = record { start = start; end = end }

pub new_single : ℕ → Range
new_single index = record { start = index; end = index }

-- `mergedRanges[rangeIndex]` once a range that overlaps or touches it is merged in.
pub grow : Range → Range → Range
grow last r = if ltb last.end r.end then record last { end = r.end } else last

-- The same at an index of the list.
abbrev pub grow_at : ℕ → Range → List Range → List Range
grow_at i r [] = []
grow_at zero r (q ∷ qs) = grow q r ∷ qs
grow_at (suc i) r (q ∷ qs) = q ∷ grow_at i r qs

-- The variables of the loop of `Merge`.
pub record Merged : Type 0 where
  pub merged_ranges : List Range
  pub range_index : ℕ

-- `append` under a condition.
abbrev pub when : Bool → Range → List Range
when b r = if b then r ∷ [] else []

-- The variables of the loop of `Exclude`. `range_start` is only copied.
pub record Cursor : Type 0 where
  pub merged : List Range
  pub range_end : ℕ
  pub range_index : ℕ
  pub ranges : List Range
  pub target_start : ℕ
  pub target_end : ℕ
  pub targets : List Range

-- The next range and the next target, and whether there was one.
abbrev pub next_range : Cursor → List Range → Cursor × Bool
next_range c [] = (c, false)
next_range c (r ∷ rs) = (record c { range_end = r.end; range_index = r.start; ranges = rs }, true)

abbrev pub next_target : Cursor → List Range → Cursor × Bool
next_target c [] = (c, false)
next_target c (t ∷ ts) =
    (record c { target_start = t.start; target_end = t.end; targets = ts }, true)

-- `sort.Slice` by the starts is a parameter, `sort`.
module _ (w : ℕ) (sort : List Range → List Range) where
  abbrev pub inc : ℕ → ℕ
  inc x = (x + 1) % 2 ^ w

  abbrev pub dec : ℕ → ℕ
  dec x = (x + 2 ^ w - 1) % 2 ^ w

  -- A turn of the loop of `Merge`. The index has the type of the numbers, so it wraps. It stays below
  -- the length of the list (`turn-InRange` in Merge); an index behind the list would panic.
  pub merge_turn : Range → Merged → Merged
  merge_turn r m = elim (get_elem? m.merged_ranges m.range_index) [
    | none ↦ m
    | some last ↦
        if ltb (inc last.end) r.start
        then record { merged_ranges = m.merged_ranges ++ (r ∷ []); range_index = inc m.range_index }
        else record m { merged_ranges = grow_at m.range_index r m.merged_ranges }
  ]

  pub merge_loop : Merged → List Range → List Range
  unfolding merge_turn
  merge_loop m [] = m.merged_ranges
  merge_loop m (r ∷ rs) = merge_loop (merge_turn r m) rs

  abbrev pub merge_sorted : List Range → List Range
  merge_sorted [] = []
  merge_sorted (r ∷ rs) = merge_loop (record { merged_ranges = r ∷ []; range_index = 0 }) rs

  pub merge : List Range → List Range
  unfolding merge_loop
  merge rs = merge_sorted (sort rs)

  -- The loop of `Revert` over the merged ranges behind one that ends at `range_end`.
  pub revert_loop : ℕ → ℕ → List Range → List Range
  revert_loop end range_end [] =
      when (ltb range_end end) (record { start = inc range_end; end = end })
  revert_loop end range_end (r ∷ rs) =
      when (ltb (inc range_end) r.start) (record { start = inc range_end; end = dec r.start })
      ++ revert_loop end r.end rs

  abbrev pub revert_merged : ℕ → ℕ → List Range → List Range
  revert_merged start end [] = []
  revert_merged start end (r ∷ rs) =
      when (ltb start r.start) (record { start = start; end = dec r.start })
      ++ revert_loop end r.end rs

  pub revert : ℕ → ℕ → List Range → List Range
  unfolding merge revert_loop
  revert start end rs = revert_merged start end (merge rs)

  -- What stands behind the loop, for the ranges collected before the remaining ones.
  abbrev pub finish : Cursor → List Range
  finish c = merge (
      (c.merged
        ++ when (leb c.range_index c.range_end)
            (record { start = c.range_index; end = c.range_end }))
      ++ c.ranges)

  abbrev pub cut : Cursor → Cursor
  cut c =
      if ltb c.range_index c.target_start
      then record c {
        merged = c.merged ++ (record { start = c.range_index; end = dec c.target_start } ∷ []);
        range_index = inc c.target_start;
      }
      else c

  -- One round: the state after it, and whether the loop goes on.
  pub exclude_step : Cursor → Cursor × Bool
  exclude_step c =
      if ltb c.range_end c.target_start
      then next_range
          (record c {
            merged =
                c.merged
                ++ when (leb c.range_index c.range_end)
                    (record { start = c.range_index; end = c.range_end });
          })
          c.ranges
      else let c' = cut c in
        if leb c.target_end c.range_end
        then next_target (record c' { range_index = inc c.target_end }) c.targets
        else (c', true)

  -- `none` means that the fuel ran out.
  pub exclude_loop : ℕ → Cursor → Option (List Range)
  unfolding exclude_step
  exclude_loop zero c = none
  exclude_loop (suc fuel) c =
      let (c', goes_on) = exclude_step c in
      let rest = exclude_loop fuel c' in if goes_on then rest else some (finish c')

  abbrev pub exclude_merged : ℕ → List Range → List Range → Option (List Range)
  exclude_merged fuel [] targets = some []
  exclude_merged fuel (r ∷ rs) [] = some (r ∷ rs)
  exclude_merged fuel (r ∷ rs) (t ∷ ts) = exclude_loop fuel (record {
    merged = [];
    range_end = r.end;
    range_index = r.start;
    ranges = rs;
    target_start = t.start;
    target_end = t.end;
    targets = ts;
  })

  pub exclude : ℕ → List Range → List Range → Option (List Range)
  unfolding merge exclude_loop
  exclude fuel ranges targets = exclude_merged fuel (merge ranges) (merge targets)
