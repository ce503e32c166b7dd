-- ===== src/Domain/Rules/Accepted.antt =====
-- What the keys of `NewMatcher` accept.
use sing.Common.{
  ℕ, ◌≡◌, ap, sym, ◌∙◌, Bool, true, false, ◌||◌, List, [], ◌∷◌, ◌++◌, ◌==◌, if◌then◌else◌, arith,
  Bool-cases, inl, inr,
}
use sing.Slices.Reverse.{reversed}
use sing.Domain.Trie.{accepts, accepts_cong, Plain}
use sing.Domain.Names.{same, same_eq, member, member-append, ends_with, ends_with-same}
use sing.Domain.Marks.{accepts_or}
use sing.Domain.Reversal.Ascii.{Ascii}

-- What a suffix stands for: with a dot in front, the domains that end with it, without one also the
-- domain itself.
abbrev pub under : List ℕ → List ℕ → Bool
under [] d = same [] d
under (c ∷ s) d =
    if c == b'.' then ends_with (c ∷ s) d else same (c ∷ s) d || ends_with (b'.' ∷ c ∷ s) d

abbrev pub under_any : List (List ℕ) → List ℕ → Bool
under_any [] d = false
under_any (s ∷ ss) d = under s d || under_any ss d

-- A domain in ASCII, without control characters such as the marks.
abbrev pub IsName : List ℕ → Type 0
IsName s = Ascii s × Plain s

abbrev pub AreNames : List (List ℕ) → Type 0
AreNames [] = Unit
AreNames (s ∷ ss) = IsName s × AreNames ss

-- Suffixes are not empty.
abbrev pub AreSuffixes : List (List ℕ) → Type 0
AreSuffixes [] = Unit
AreSuffixes (s ∷ ss) = (same [] s ≡ false) × IsName s × AreSuffixes ss

abbrev pub accepted : List (List ℕ) → List ℕ → Bool
accepted list d = accepts (λ k. member k list) (reversed d)

pub accepted-append_one :
    (list : List (List ℕ)) (k d : List ℕ)
    → accepted (list ++ (k ∷ [])) d ≡ (accepted list d || accepts (λ j. same j k) (reversed d))
accepted-append_one list k d =
    accepts_cong {f = λ j. member j (list ++ (k ∷ []))} {g = λ j. member j list || same j k}
      (reversed d) (λ j. ground (arith, member-append j list (k ∷ [])))
    ∙ accepts_or (λ j. member j list) (λ j. same j k) (reversed d)

append-Plain : (s t : List ℕ) → Plain s → Plain t → Plain (s ++ t)
append-Plain [] t p q = q
append-Plain (x ∷ s) t p q = (p.0, append-Plain s t p.1 q)

pub reversed-Plain : (s : List ℕ) → Plain s → Plain (reversed s)
unfolding reversed
reversed-Plain [] p = tt
reversed-Plain (x ∷ s) p = append-Plain (reversed s) (x ∷ []) (reversed-Plain s p.1) (p.0, tt)

pub under-same : (s d : List ℕ) → same s d ≡ true → under s d ≡ true
under-same [] d e = e
under-same (c ∷ s) d e = ground (arith, e, ends_with-same (c ∷ s) d e)

pub under_any-member :
    (s : List ℕ) (ss : List (List ℕ)) (d : List ℕ)
    → member s ss ≡ true
    → under s d ≡ true
    → under_any ss d ≡ true
under_any-member s [] d m u = ground (arith, m)
under_any-member s (t ∷ ss) d m u = elim (Bool-cases (same s t)) [
  | inl e ↦ ground (arith, sym (ap (λ x. under x d) (same_eq s t e)) ∙ u)
  | inr e ↦ ground (arith, under_any-member s ss d (ground (arith, m, e)) u)
]
