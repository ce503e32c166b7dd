-- ===== src/Domain/Trie.antt =====
-- The search of `has`, on a trie.
use sing.Common.{
  ℕ, ◌≤◌, ◌<◌, ◌≡◌, ◌⊎◌, refl, Bool, true, false, ◌&&◌, ◌||◌, List, [], ◌∷◌, ◌==◌, if◌then◌else◌,
  arith, Bool-cases, inl, inr,
}
use sing.Domain.{prefix_label, root_label}

mutual
  pub data Trie : Type 0 where
    node : Bool → Edges → Trie

  pub data Edges : Type 0 where
    no_edges : Edges
    edge : ℕ → Trie → Edges → Edges

abbrev pub is_leaf : Trie → Bool
is_leaf (node leaf es) = leaf

-- The keys of a trie.
unfoldable mutual
  pub contains : Trie → List ℕ → Bool
  contains (node leaf es) [] = leaf
  contains (node leaf es) (c ∷ key) = contains_edges es c key

  pub contains_edges : Edges → ℕ → List ℕ → Bool
  contains_edges no_edges c key = false
  contains_edges (edge l t es) c key = if l == c then contains t key else contains_edges es c key

unfoldable pub ends : Edges → Bool
ends no_edges = false
ends (edge l t es) = if l == prefix_label || l == root_label then true else ends es

-- The search, whose steps are those of `has` on a set that lays out the trie.
unfoldable mutual
  pub search_node : Trie → List ℕ → Bool
  search_node (node leaf es) [] = if leaf then true else ends es
  search_node (node leaf es) (c ∷ key) = search_edges es c key

  pub search_edges : Edges → ℕ → List ℕ → Bool
  search_edges no_edges c key = false
  search_edges (edge l t es) c key =
      if l == prefix_label || (if l == root_label then c == b'.' && is_leaf t else false)
      then true
      else if l == c
      then search_node t key
      else search_edges es c key

-- What it finds out, of any set of keys: the key is there, or a prefix of it that ends with the prefix
-- label, or with the root label and is the whole key or has a dot behind it.
unfoldable pub accepts : (List ℕ → Bool) → List ℕ → Bool
accepts has [] = has [] || (has (prefix_label ∷ []) || has (root_label ∷ []))
accepts has (c ∷ key) =
    has (prefix_label ∷ [])
    || (c == b'.' && has (root_label ∷ []) || accepts (λ k. has (c ∷ k)) key)

pub accepts_cong :
    {f g : List ℕ → Bool} (key : List ℕ)
    → ((k : List ℕ) → f k ≡ g k)
    → accepts f key ≡ accepts g key
unfolding accepts
accepts_cong [] h = ground (arith, h [], h (prefix_label ∷ []), h (root_label ∷ []))
accepts_cong (c ∷ key) h =
    ground (arith, h (prefix_label ∷ []), h (root_label ∷ []), accepts_cong key (λ k. h (c ∷ k)))

-- All labels are above `n`.
abbrev pub Above : ℕ → Edges → Type 0
Above n no_edges = Unit
Above n (edge l t es) = (n < l) × Above n es

-- The labels ascend, and up to the prefix label they stand only in front of leaves.
abbrev mutual
  pub IsSound : Trie → Type 0
  IsSound (node leaf es) = AreSound es

  pub AreSound : Edges → Type 0
  AreSound no_edges = Unit
  AreSound (edge l t es) =
      Above l es × ((prefix_label < l) ⊎ (is_leaf t ≡ true)) × IsSound t × AreSound es

-- The characters are above the two marks.
abbrev pub Plain : List ℕ → Type 0
Plain [] = Unit
Plain (c ∷ key) = (prefix_label < c) × Plain key

pub accepts_none :
    {f : List ℕ → Bool} (key : List ℕ) → ((k : List ℕ) → f k ≡ false) → accepts f key ≡ false
unfolding accepts
accepts_none [] h = ground (arith, h [], h (prefix_label ∷ []), h (root_label ∷ []))
accepts_none (c ∷ key) h =
    ground (arith, h (prefix_label ∷ []), h (root_label ∷ []), accepts_none key (λ k. h (c ∷ k)))

-- The keys behind an edge, at its own label and at another.
pub at_label :
    (l c : ℕ) (t : Trie) (es : Edges) (k : List ℕ)
    → contains_edges (edge l t es) c k ≡ (if l == c then contains t k else contains_edges es c k)
unfolding contains
at_label l c t es k = refl

pub absent :
    (n l : ℕ) (es : Edges) (key : List ℕ) → Above n es → l ≤ n → contains_edges es l key ≡ false
unfolding contains
absent n l no_edges key a h = refl
absent n l (edge m t es) key a h = ground (arith, absent n l es key a.1 h)

pub contains_leaf : (t : Trie) → contains t [] ≡ is_leaf t
unfolding contains
contains_leaf (node leaf es) = refl

abbrev has_prefix : Edges → Bool
has_prefix es = contains_edges es prefix_label []

abbrev has_root : Edges → Bool
has_root es = contains_edges es root_label []

ends_lem : (es : Edges) → AreSound es → ends es ≡ (has_prefix es || has_root es)
unfolding ends contains
ends_lem no_edges s = refl
ends_lem (edge l t es) s = ground (arith, ends_lem es s.3, contains_leaf t, s.1)

mutual
  unfolding search_node accepts contains

  pub search_node-accepts :
      (t : Trie) (key : List ℕ)
      → IsSound t
      → Plain key
      → search_node t key ≡ accepts (contains t) key
  search_node-accepts (node leaf es) [] s p = ground (arith, ends_lem es s)
  search_node-accepts (node leaf es) (c ∷ key) s p = search_edges-accepts es c key s p.0 p.1

  search_edges-accepts :
      (es : Edges) (c : ℕ) (key : List ℕ)
      → AreSound es
      → prefix_label < c
      → Plain key
      → search_edges es c key
        ≡ (has_prefix es || (c == b'.' && has_root es || accepts (contains_edges es c) key))
  search_edges-accepts no_edges c key s h p =
      ground (arith, accepts_none {f = contains_edges no_edges c} key (λ k. refl))
  search_edges-accepts (edge l t es) c key s h p = elim (Bool-cases (l == c)) [
    | inl e ↦ ground (
      arith,
      e,
      h,
      search_node-accepts t key s.2 p,
      absent l prefix_label es [] s.0 (ground (arith, e, h)),
      absent l root_label es [] s.0 (ground (arith, e, h)),
      accepts_cong {f = contains_edges (edge l t es) c} {g = contains t} key
          (λ k. ground (arith, e)),
    )
    | inr e ↦ ground (
      arith,
      e,
      h,
      s.1,
      contains_leaf t,
      search_edges-accepts es c key s.3 h p,
      accepts_cong {f = contains_edges (edge l t es) c} {g = contains_edges es c} key
          (λ k. ground (arith, e)),
    )
  ]
