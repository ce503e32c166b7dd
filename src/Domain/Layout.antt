-- ===== src/Domain/Layout.antt =====
-- A succinct set that lays out a trie is searched as the trie is.
use sing.Common.{
  ℕ, zero, suc, ◌+◌, ◌*◌, ◌/◌, ◌<◌, ◌≡◌, ◌⊎◌, refl, ◌∙◌, Bool, true, false, ◌&&◌, ◌||◌, List, [],
  ◌∷◌, length, get_elem?, ◌==◌, if◌then◌else◌, arith, Bool-cases, Option-cases, inl, inr,
}
use sing.Common.Outcome.{Outcome, ok, panic}
use sing.Domain.{
  prefix_label, root_label, SuccinctSet, at, get_bit, Scan, answer, found, label, child, at_root,
  scan, scan_end, scan_turns, has_from,
}
use sing.Domain.Trie.{Trie, node, Edges, no_edges, edge, is_leaf, ends, search_node, search_edges}

module _ (set : SuccinctSet) where
  -- The node `n`, whose labels begin at the bit `bm`, is the trie's root: its leaf bit, a zero bit and a
  -- label for each edge, with the child that the two calls lead to, and a one bit.
  abbrev mutual
    pub Lays : Trie → ℕ → ℕ → Type 0
    Lays (node leaf es) n bm = (get_bit set.leaves n ≡ ok leaf) × LaysEdges es n bm

    pub LaysEdges : Edges → ℕ → ℕ → Type 0
    LaysEdges no_edges n bm = get_bit set.label_bitmap bm ≡ ok true
    LaysEdges (edge l t es) n bm =
        (get_bit set.label_bitmap bm ≡ ok false)
        × (label set n bm ≡ ok l)
        × ((n' : ℕ) × (bm' : ℕ) × (set.count_zeros (bm + 1) ≡ ok n')
            × (child set bm ≡ ok (n', bm'))
            × Lays t n' bm')
        × LaysEdges es n (bm + 1)

  at_in : (xs : List ℕ) (i x : ℕ) → at xs i ≡ ok x → i < length xs
  at_in [] i x e = ground (arith, e)
  at_in (y ∷ xs) zero x e = ground arith
  at_in (y ∷ xs) (suc i) x e = ground (arith, at_in xs i x e)

  at-cases : (xs : List ℕ) (i : ℕ) → ((x : ℕ) × (at xs i ≡ ok x)) ⊎ (at xs i ≡ panic)
  at-cases xs i = elim (Option-cases (get_elem? xs i)) [
    | inl e ↦ inr (ground (arith, e))
    | inr h ↦ inl (h.0, ground (arith, h.1))
  ]

  get_bit_in : (words : List ℕ) (i : ℕ) (b : Bool) → get_bit words i ≡ ok b → i < 64 * length words
  unfolding get_bit
  get_bit_in words i b e = elim (at-cases words (i / 64)) [
    | inl h ↦ ground (arith, at_in words (i / 64) h.0 h.1)
    | inr h ↦ ground (arith, h, e)
  ]

  leaf_bit : (t : Trie) (n bm : ℕ) → Lays t n bm → get_bit set.leaves n ≡ ok (is_leaf t)
  leaf_bit (node leaf es) n bm l = l.0

  at_root_lem :
      (l c n bm : ℕ) (leaf : Bool)
      → set.count_zeros (bm + 1) ≡ ok n
      → get_bit set.leaves n ≡ ok leaf
      → at_root set l c bm ≡ ok (if l == root_label then c == b'.' && leaf else false)
  unfolding at_root
  at_root_lem l c n bm leaf e d = ground (arith, e, d)

  -- What a scan of these edges for `c` has found, where `key` is what follows.
  abbrev Scans : Edges → ℕ → List ℕ → Outcome Scan → Type 0
  Scans es c key o =
      ((b : Bool) × (o ≡ ok (answer b)) × (search_edges es c key ≡ b))
      ⊎ ((t : Trie) × (bm : ℕ) × (n' : ℕ) × (bm' : ℕ) × (o ≡ ok (found bm))
          × (child set bm ≡ ok (n', bm'))
          × Lays t n' bm'
          × (search_edges es c key ≡ search_node t key))

  scan_zero : (es : Edges) (n bm : ℕ) → LaysEdges es n bm → bm < 64 * length set.label_bitmap
  scan_zero no_edges n bm l = get_bit_in set.label_bitmap bm true l
  scan_zero (edge l t es) n bm h = get_bit_in set.label_bitmap bm false h.0

  abbrev stops : ℕ → ℕ → Trie → Bool
  stops l c t = l == prefix_label || (if l == root_label then c == b'.' && is_leaf t else false)

  scan_edge :
      (l : ℕ) (t : Trie) (es : Edges) (turns n c bm : ℕ)
      → LaysEdges (edge l t es) n bm
      → scan set (suc turns) n c bm ≡ (
          if stops l c t
          then ok (answer true)
          else if l == c
          then ok (found bm)
          else scan set turns n c (bm + 1))
  unfolding scan
  scan_edge l t es turns n c bm h =
      let (zero_bit, is_l, (m, mbm, m_eq, child_eq, lays), rest) = h in
      ground (arith, zero_bit, is_l, at_root_lem l c m bm (is_leaf t) m_eq (leaf_bit t m mbm lays))

  past-Scans :
      (l c : ℕ) (t : Trie) (es : Edges) (key : List ℕ) (o o' : Outcome Scan)
      → stops l c t ≡ false
      → l == c ≡ false
      → o' ≡ o
      → Scans es c key o
      → Scans (edge l t es) c key o'
  unfolding search_node
  past-Scans l c t es key o o' st d e (inl (b, is_b, eq)) =
      inl (b, e ∙ is_b, ground (arith, st, d, eq))
  past-Scans l c t es key o o' st d e (inr (u, bm, m, mbm, is_found, child_eq, lays, eq)) =
      inr (u, bm, m, mbm, e ∙ is_found, child_eq, lays, ground (arith, st, d, eq))

  scan_lem :
      (es : Edges) (turns n c bm : ℕ) (key : List ℕ)
      → LaysEdges es n bm
      → 64 * length set.label_bitmap < bm + turns
      → Scans es c key (scan set turns n c bm)
  unfolding scan search_node
  scan_lem es zero n c bm key h f = absurd (omega (arith, scan_zero es n bm h))
  scan_lem no_edges (suc turns) n c bm key h f = inl (false, ground (arith, h), refl)
  scan_lem (edge l t es) (suc turns) n c bm key h f =
      let (m, mbm, m_eq, child_eq, lays) = h.2 in
      let e = scan_edge l t es turns n c bm h in
      elim (Bool-cases (stops l c t)) [
        | inl st ↦ inl (true, ground (arith, e, st), ground (arith, st))
        | inr st ↦ elim (Bool-cases (l == c)) [
          | inl d ↦
              inr (t, bm, m, mbm, ground (arith, e, st, d), child_eq, lays, ground (arith, st, d))
          | inr d ↦
              past-Scans l c t es key (scan set turns n c (bm + 1)) (scan set (suc turns) n c bm) st
                d (ground (arith, e, st, d)) (scan_lem es turns n c (bm + 1) key h.3 (omega arith))
        ]
      ]

  scan_end_lem :
      (es : Edges) (turns n bm : ℕ)
      → LaysEdges es n bm
      → 64 * length set.label_bitmap < bm + turns
      → scan_end set turns n bm ≡ ok (ends es)
  unfolding scan_end ends
  scan_end_lem es zero n bm h f = absurd (omega (arith, scan_zero es n bm h))
  scan_end_lem no_edges (suc turns) n bm h f = ground (arith, h)
  scan_end_lem (edge l t es) (suc turns) n bm h f =
      ground (arith, h.0, h.1, scan_end_lem es turns n (bm + 1) h.3 (omega arith))

  pub has_from-search :
      (t : Trie) (key : List ℕ) (n bm : ℕ)
      → Lays t n bm
      → has_from set key n bm ≡ ok (search_node t key)
  unfolding has_from search_node
  has_from-search (node leaf es) [] n bm h =
      ground (arith, h.0, scan_end_lem es (scan_turns set) n bm h.1 (omega arith))
  has_from-search (node leaf es) (c ∷ key) n bm h =
      elim (scan_lem es (scan_turns set) n c bm key h.1 (omega arith)) [
        | inl (b, is_b, eq) ↦ ground (arith, is_b, eq)
        | inr (t, bm', m, mbm, is_found, child_eq, lays, eq) ↦
            ground (arith, is_found, child_eq, has_from-search t key m mbm lays, eq)
      ]
