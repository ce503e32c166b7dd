-- ===== src/Domain/Rules.antt =====
-- `NewMatcher`: the keys of the succinct set, from a list of domains and one of domain suffixes.
pub mod Accepted
pub mod Loops
pub mod Decides
mod Tests
use sing.Common.{ℕ, Bool, true, false, ◌||◌, List, [], ◌∷◌, ◌++◌, ◌==◌, ltb, if◌then◌else◌}
use sing.Common.Outcome.{Outcome, ok, panic, ◌>>=◌}
use sing.Domain.{prefix_label, root_label, SuccinctSet}
use sing.Domain.Names.{same, member}
use sing.Domain.Reversal.{reverse_domain}

-- `sort.Strings`
abbrev less : List ℕ → List ℕ → Bool
less s [] = false
less [] (y ∷ t) = true
less (x ∷ s) (y ∷ t) = if x == y then less s t else ltb x y

abbrev pub insert_string : List ℕ → List (List ℕ) → List (List ℕ)
insert_string s [] = s ∷ []
insert_string s (t ∷ ts) = if less t s then t ∷ insert_string s ts else s ∷ t ∷ ts

abbrev pub sort_strings : List (List ℕ) → List (List ℕ)
sort_strings [] = []
sort_strings (s ∷ ts) = insert_string s (sort_strings ts)

-- The keys so far, and the strings seen.
abbrev pub State : Type 0
State = List (List ℕ) × List (List ℕ)

-- The body of the first loop, for a suffix that was not seen.
pub add_suffix : Bool → List ℕ → State → Outcome State
add_suffix legacy [] (list, seen) = panic
add_suffix legacy (c ∷ s) (list, seen) =
    let domain = c ∷ s in
    let seen = domain ∷ seen in
    elim (c == b'.') [
      | true ↦ do key ← reverse_domain (prefix_label ∷ domain); ok (list ++ (key ∷ []), seen)
      | false ↦ elim legacy [
        | true ↦ do
          key ← reverse_domain domain
          let list = list ++ (key ∷ [])
          let suffix_domain = b'.' ∷ domain
          elim (member suffix_domain seen) [
            | true ↦ ok (list, seen)
            | false ↦ do
              key ← reverse_domain (prefix_label ∷ suffix_domain)
              ok (list ++ (key ∷ []), suffix_domain ∷ seen)
          ]
        | false ↦ do key ← reverse_domain (root_label ∷ domain); ok (list ++ (key ∷ []), seen)
      ]
    ]

pub add_suffixes : Bool → List (List ℕ) → State → Outcome State
unfolding add_suffix
add_suffixes legacy [] (list, seen) = ok (list, seen)
add_suffixes legacy (s ∷ ss) (list, seen) = elim (member s seen) [
  | true ↦ add_suffixes legacy ss (list, seen)
  | false ↦ do state ← add_suffix legacy s (list, seen); add_suffixes legacy ss state
]

pub add_domains : List (List ℕ) → State → Outcome State
add_domains [] (list, seen) = ok (list, seen)
add_domains (d ∷ ds) (list, seen) = elim (member d seen) [
  | true ↦ add_domains ds (list, seen)
  | false ↦ do key ← reverse_domain d; add_domains ds (list ++ (key ∷ []), d ∷ seen)
]

pub domain_list : List (List ℕ) → List (List ℕ) → Bool → Outcome (List (List ℕ))
unfolding add_suffixes add_domains
domain_list domains suffixes legacy = do
  state ← add_suffixes legacy suffixes ([], [])
  (list, _) ← add_domains domains state
  ok list

-- `NewMatcher`, where the parameter is `newSuccinctSet`.
pub new_matcher :
    (List (List ℕ) → Outcome SuccinctSet)
    → List (List ℕ)
    → List (List ℕ)
    → Bool
    → Outcome SuccinctSet
unfolding domain_list
new_matcher new_succinct_set domains suffixes legacy = do
  list ← domain_list domains suffixes legacy
  new_succinct_set (sort_strings list)
