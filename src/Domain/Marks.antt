-- ===== src/Domain/Marks.antt =====
-- Which strings a set of keys accepts that are reversed names, with marks at their ends.
use sing.Common.{
  ℕ, ◌<◌, ◌≡◌, refl, ap, sym, ◌∙◌, ◌⊎◌, inl, inr, Bool, true, ◌&&◌, ◌||◌, List, [], ◌∷◌, ◌++◌, ◌==◌,
  arith, Bool-cases,
}
use sing.Domain.{prefix_label, root_label}
use sing.Domain.Trie.{
  accepts, accepts_cong, accepts_none, Plain, Trie, node, Edges, no_edges, edge, contains,
  contains_edges, contains_leaf, absent, Above, IsSound, AreSound,
}
use sing.Domain.Names.{same, begins, not_same_append_one}

pub accepts_or :
    (f g : List ℕ → Bool) (key : List ℕ)
    → accepts (λ k. f k || g k) key ≡ (accepts f key || accepts g key)
unfolding accepts
accepts_or f g [] = ground arith
accepts_or f g (c ∷ key) = ground (arith, accepts_or (λ k. f (c ∷ k)) (λ k. g (c ∷ k)) key)

-- The keys that begin with `x`, behind it.
accepts_behind :
    (c x : ℕ) (p key : List ℕ)
    → accepts (λ k. same (c ∷ k) (x ∷ p)) key ≡ (x == c && accepts (λ k. same k p) key)
accepts_behind c x p key = elim (Bool-cases (x == c)) [
  | inl e ↦ ground (
    arith,
    e,
    accepts_cong {f = λ k. same (c ∷ k) (x ∷ p)} {g = λ k. same k p} key (λ k. ground (arith, e)),
  )
  | inr e ↦
      ground (arith, e, accepts_none {f = λ k. same (c ∷ k) (x ∷ p)} key (λ k. ground (arith, e)))
]

pub accepts_exact : (p key : List ℕ) → Plain p → accepts (λ k. same k p) key ≡ same p key
unfolding accepts
accepts_exact [] [] h = refl
accepts_exact [] (c ∷ key) h =
    ground (arith, accepts_none {f = λ k. same (c ∷ k) []} key (λ k. refl))
accepts_exact (x ∷ p) [] h = ground (arith, h.0)
accepts_exact (x ∷ p) (c ∷ key) h =
    ground (arith, h.0, accepts_behind c x p key, accepts_exact p key h.1)

pub accepts_prefix :
    (p key : List ℕ) → accepts (λ k. same k (p ++ (prefix_label ∷ []))) key ≡ begins p key
unfolding accepts
accepts_prefix [] [] = refl
accepts_prefix [] (c ∷ key) = refl
accepts_prefix (x ∷ p) [] = ground (arith, not_same_append_one p prefix_label)
accepts_prefix (x ∷ p) (c ∷ key) = ground (
  arith,
  not_same_append_one p prefix_label,
  accepts_behind c x (p ++ (prefix_label ∷ [])) key,
  accepts_prefix p key,
)

pub accepts_root :
    (p key : List ℕ)
    → Plain key
    → accepts (λ k. same k (p ++ (root_label ∷ []))) key
      ≡ (same p key || begins (p ++ (b'.' ∷ [])) key)
unfolding accepts
accepts_root [] [] h = refl
accepts_root [] (c ∷ key) h = ground (
  arith,
  h.0,
  accepts_none {f = λ k. same (c ∷ k) (root_label ∷ [])} key (λ k. ground (arith, h.0)),
)
accepts_root (x ∷ p) [] h = ground (arith, not_same_append_one p root_label)
accepts_root (x ∷ p) (c ∷ key) h = ground (
  arith,
  not_same_append_one p root_label,
  accepts_behind c x (p ++ (root_label ∷ [])) key,
  accepts_root p key h.1,
)

-- The marks stand only at the end.
abbrev pub Marked : List ℕ → Type 0
Marked [] = Unit
Marked (c ∷ k) = ((prefix_label < c) ⊎ (k ≡ [])) × Marked k

-- A trie as a library makes it: the labels ascend, and below every edge there is a key.
abbrev mutual
  pub IsOrdered : Trie → Type 0
  IsOrdered (node leaf es) = AreOrdered es

  pub AreOrdered : Edges → Type 0
  AreOrdered no_edges = Unit
  AreOrdered (edge l t es) =
      Above l es × ((k : List ℕ) × (contains t k ≡ true)) × IsOrdered t × AreOrdered es

mutual
  unfolding contains

  pub IsOrdered-IsSound :
      (t : Trie) → IsOrdered t → ((k : List ℕ) → contains t k ≡ true → Marked k) → IsSound t
  IsOrdered-IsSound (node leaf es) o h = AreOrdered-AreSound es o (λ c k. h (c ∷ k))

  AreOrdered-AreSound :
      (es : Edges)
      → AreOrdered es
      → ((c : ℕ) (k : List ℕ) → contains_edges es c k ≡ true → Marked (c ∷ k))
      → AreSound es
  AreOrdered-AreSound no_edges o h = tt
  AreOrdered-AreSound (edge l t es) o h =
      let here : (k : List ℕ) → contains t k ≡ true → Marked (l ∷ k) =
        λ k e. h l k (ground (arith, e)) in
      let later : (c : ℕ) (k : List ℕ)
          → contains_edges es c k ≡ true
          → contains_edges (edge l t es) c k ≡ true =
        λ c k e. elim (Bool-cases (l == c)) [
          | inl d ↦ ground (arith, e, absent l c es k o.0 (ground (arith, d)))
          | inr d ↦ ground (arith, e, d)
        ] in
      (
        o.0,
        elim ((here (o.1).0 (o.1).1).0) [
          | inl lt ↦ inl lt
          | inr e ↦ inr (sym (contains_leaf t) ∙ ap (contains t) (sym e) ∙ (o.1).1)
        ],
        IsOrdered-IsSound t o.2 (λ k e. (here k e).1),
        AreOrdered-AreSound es o.3 (λ c k e. h c k (later c k e)),
      )
