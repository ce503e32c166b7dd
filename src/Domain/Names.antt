-- ===== src/Domain/Names.antt =====
-- Strings in a list, and what they begin and end with.
use sing.Common.{
  ℕ, ◌≡◌, refl, ap, sym, ◌∙◌, Bool, true, false, ◌&&◌, ◌||◌, List, [], ◌∷◌, ◌++◌, ◌==◌, arith,
  Bool-cases, inl, inr,
}
use sing.Slices.Reverse.{reversed, reversed_append_one}

abbrev pub same : List ℕ → List ℕ → Bool
same [] [] = true
same [] (y ∷ t) = false
same (x ∷ s) [] = false
same (x ∷ s) (y ∷ t) = x == y && same s t

abbrev pub member : List ℕ → List (List ℕ) → Bool
member s [] = false
member s (t ∷ ts) = same s t || member s ts

abbrev pub begins : List ℕ → List ℕ → Bool
begins [] s = true
begins (x ∷ p) [] = false
begins (x ∷ p) (y ∷ s) = x == y && begins p s

-- `strings.HasSuffix(s, t)`, with the suffix first.
abbrev pub ends_with : List ℕ → List ℕ → Bool
ends_with t [] = same t []
ends_with t (x ∷ s) = same t (x ∷ s) || ends_with t s

pub same_refl : (s : List ℕ) → same s s ≡ true
same_refl [] = refl
same_refl (x ∷ s) = ground (arith, same_refl s)

pub same_eq : (s t : List ℕ) → same s t ≡ true → s ≡ t
same_eq [] [] e = refl
same_eq [] (y ∷ t) e = ground (arith, e)
same_eq (x ∷ s) [] e = ground (arith, e)
same_eq (x ∷ s) (y ∷ t) e = elim (Bool-cases (x == y && same s t)) [
  | inl h ↦ ground (arith, h, same_eq s t (ground (arith, h)))
  | inr h ↦ ground (arith, h, e)
]

pub same_comm : (s t : List ℕ) → same s t ≡ same t s
same_comm [] [] = refl
same_comm [] (y ∷ t) = refl
same_comm (x ∷ s) [] = refl
same_comm (x ∷ s) (y ∷ t) = ground (arith, same_comm s t)

pub ends_with-same : (s t : List ℕ) → same s t ≡ true → ends_with s t ≡ true
ends_with-same s [] e = e
ends_with-same s (y ∷ t) e = ground (arith, e)

pub member-append :
    (s : List ℕ) (ts us : List (List ℕ)) → member s (ts ++ us) ≡ (member s ts || member s us)
member-append s [] us = refl
member-append s (t ∷ ts) us = ground (arith, member-append s ts us)

pub not_same_append_one : (p : List ℕ) (m : ℕ) → same [] (p ++ (m ∷ [])) ≡ false
not_same_append_one [] m = refl
not_same_append_one (x ∷ p) m = refl

reversed-reversed : (s : List ℕ) → reversed (reversed s) ≡ s
unfolding reversed
reversed-reversed [] = refl
reversed-reversed (x ∷ s) =
    reversed_append_one (reversed s) x ∙ ap (λ t. x ∷ t) (reversed-reversed s)

pub same-reversed : (s t : List ℕ) → same (reversed s) (reversed t) ≡ same s t
same-reversed s t = elim (Bool-cases (same s t)) [
  | inl e ↦
      ap (λ u. same (reversed s) (reversed u)) (sym (same_eq s t e))
      ∙ same_refl (reversed s)
      ∙ sym e
  | inr e ↦ elim (Bool-cases (same (reversed s) (reversed t))) [
    | inl d ↦
        let q =
          sym (reversed-reversed s)
          ∙ ap reversed (same_eq (reversed s) (reversed t) d)
          ∙ reversed-reversed t in
        d ∙ sym (ap (same s) (sym q) ∙ same_refl s)
    | inr d ↦ d ∙ sym e
  ]
]

begins-append_one :
    (p q : List ℕ) (x : ℕ) → begins p (q ++ (x ∷ [])) ≡ (begins p q || same p (q ++ (x ∷ [])))
begins-append_one [] q x = refl
begins-append_one (y ∷ []) [] x = ground arith
begins-append_one (y ∷ z ∷ p) [] x = ground arith
begins-append_one (y ∷ p) (z ∷ q) x = ground (arith, begins-append_one p q x)

begins-nil : (p : List ℕ) → begins p [] ≡ same p []
begins-nil [] = refl
begins-nil (x ∷ p) = refl

pub begins-reversed : (s t : List ℕ) → begins (reversed s) (reversed t) ≡ ends_with s t
unfolding reversed
begins-reversed s [] = begins-nil (reversed s) ∙ same-reversed s []
begins-reversed s (x ∷ t) =
    begins-append_one (reversed s) (reversed t) x
    ∙ ground (arith, begins-reversed s t, same-reversed s (x ∷ t))
