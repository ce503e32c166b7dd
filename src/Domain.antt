-- ===== src/Domain.antt =====
-- common/domain/matcher.go: domains and domain suffixes, in a succinct set of reversed strings.
pub mod Reversal
pub mod Trie
pub mod Layout
pub mod Rules
pub mod Stored
pub mod Marks
pub mod Names
use sing.Common.{
  ℕ, zero, suc, ◌+◌, ◌-◌, ◌*◌, ◌/◌, ◌%◌, ◌^◌, Bool, true, false, ◌&&◌, ◌||◌, not, List, [], ◌∷◌,
  ◌++◌, Option, none, some, length, get_elem?, ltb, ◌==◌, if◌then◌else◌,
}
use sing.Common.Outcome.{Outcome, ok, panic, ◌>>=◌}
use sing.Domain.Reversal.{reverse_domain}

abbrev pub prefix_label : ℕ
prefix_label = b'\r'

abbrev pub root_label : ℕ
root_label = b'\n'

-- The succinct set, a mod of another library (set.go): its words and labels, and as parameters the
-- calls `countZeros(labelBitmap, ranks, i)` and `selectIthOne(labelBitmap, ranks, selects, i)`.
pub record SuccinctSet : Type 0 where
  pub leaves : List ℕ
  pub label_bitmap : List ℕ
  pub labels : List ℕ
  pub count_zeros : ℕ → Outcome ℕ
  pub select_ith_one : ℕ → Outcome ℕ

-- An element of a slice.
abbrev pub at : List ℕ → ℕ → Outcome ℕ
at xs i = elim (get_elem? xs i) [ none ↦ panic | some x ↦ ok x ]

-- `getBit(bm, i) != 0`
pub get_bit : List ℕ → ℕ → Outcome Bool
get_bit bm i = do w ← at bm (i / 64); ok (w / 2 ^ (i % 64) % 2 == 1)

-- What the scan of a node's labels finds.
pub data Scan : Type 0 where
  answer : Bool → Scan
  found : ℕ → Scan

module _ (set : SuccinctSet) where
  -- `labels[bmIdx-nodeId]`
  pub label : ℕ → ℕ → Outcome ℕ
  label node bm = if ltb bm node then panic else at set.labels (bm - node)

  -- The node behind the label at `bm`, and where its own labels begin.
  pub child : ℕ → Outcome (ℕ × ℕ)
  child bm = do
    node ← set.count_zeros (bm + 1)
    one ← set.select_ith_one (node - 1)
    ok (node, one + 1)

  -- Whether the node behind the root label is a leaf and the character a dot.
  pub at_root : ℕ → ℕ → ℕ → Outcome Bool
  unfolding get_bit
  at_root l c bm =
      if l == root_label
      then (do
        next ← set.count_zeros (bm + 1)
        has_next ← get_bit set.leaves next
        ok (c == b'.' && has_next))
      else ok false

  -- The inner loop of `has`, for at most so many turns: a read behind the bitmap panics before they
  -- run out.
  pub scan : ℕ → ℕ → ℕ → ℕ → Outcome Scan
  unfolding label get_bit at_root
  scan zero node c bm = panic
  scan (suc turns) node c bm = do
    one ← get_bit set.label_bitmap bm
    elim one [
      | true ↦ ok (answer false)
      | false ↦ do
        l ← label node bm
        root ← at_root l c bm
        elim (l == prefix_label || root) [
          | true ↦ ok (answer true)
          | false ↦ elim (l == c) [ true ↦ ok (found bm) | false ↦ scan turns node c (bm + 1) ]
        ]
    ]

  -- The last loop of `has`.
  pub scan_end : ℕ → ℕ → ℕ → Outcome Bool
  unfolding label get_bit
  scan_end zero node bm = panic
  scan_end (suc turns) node bm = do
    one ← get_bit set.label_bitmap bm
    elim one [
      | true ↦ ok false
      | false ↦ do
        l ← label node bm
        elim (l == prefix_label || l == root_label) [
          | true ↦ ok true
          | false ↦ scan_end turns node (bm + 1)
        ]
    ]

  abbrev pub scan_turns : ℕ
  scan_turns = 64 * length set.label_bitmap + 1

  -- `has`, from a node on.
  pub has_from : List ℕ → ℕ → ℕ → Outcome Bool
  unfolding scan scan_end child get_bit
  has_from [] node bm = do
    leaf ← get_bit set.leaves node
    elim leaf [ true ↦ ok true | false ↦ scan_end scan_turns node bm ]
  has_from (c ∷ key) node bm = do
    s ← scan scan_turns node c bm
    elim s [ answer b ↦ ok b | found bm ↦ do (node, bm) ← child bm; has_from key node bm ]

  pub has : List ℕ → Outcome Bool
  unfolding has_from
  has key = has_from key 0 0

  -- `Match`
  pub match : List ℕ → Outcome Bool
  unfolding has
  match domain = do key ← reverse_domain domain; has key
