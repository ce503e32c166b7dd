-- ===== src/Domain/Rules/Decides.antt =====
-- `Match` of the set that `NewMatcher` has made.
use sing.Common.{ℕ, ◌≡◌, refl, ap, sym, ◌∙◌, Bool, false, ◌||◌, List, [], ◌∷◌, arith}
use sing.Common.Outcome.{Outcome, ok, ◌>>=◌}
use sing.Slices.Reverse.{reversed}
use sing.Domain.{SuccinctSet, match, has}
use sing.Domain.Trie.{Trie, contains, search_node-accepts, accepts_cong, accepts_none}
use sing.Domain.Layout.{Lays, has_from-search}
use sing.Domain.Names.{same, same_refl, member}
use sing.Domain.Marks.{IsOrdered, IsOrdered-IsSound}
use sing.Domain.Reversal.Ascii.{reverse_domain-reversed}
use sing.Domain.Rules.{insert_string, sort_strings, domain_list, new_matcher}
use sing.Domain.Rules.Accepted.{
  under_any, IsName, AreNames, AreSuffixes, accepted, reversed-Plain, under-same, under_any-member,
}
use sing.Domain.Rules.Loops.{Adds, AllMarked, add_suffixes_lem, add_domains_lem}

-- The set lays out a trie whose keys are these.
abbrev pub IsSetOf : SuccinctSet → List (List ℕ) → Type 0
IsSetOf set keys =
    (t : Trie) × Lays set t 0 0 × IsOrdered t × ((k : List ℕ) → contains t k ≡ member k keys)

member-insert_string :
    (k s : List ℕ) (ts : List (List ℕ)) → member k (insert_string s ts) ≡ (same k s || member k ts)
member-insert_string k s [] = refl
member-insert_string k s (t ∷ ts) = ground (arith, member-insert_string k s ts)

member-sort_strings : (k : List ℕ) (ts : List (List ℕ)) → member k (sort_strings ts) ≡ member k ts
member-sort_strings k [] = refl
member-sort_strings k (t ∷ ts) =
    ground (arith, member-insert_string k t (sort_strings ts), member-sort_strings k ts)

-- A set with marked keys decides what the keys accept.
match-accepted :
    (set : SuccinctSet) (list : List (List ℕ)) (d : List ℕ)
    → IsSetOf set (sort_strings list)
    → AllMarked list
    → IsName d
    → match set d ≡ ok (accepted list d)
unfolding match has AllMarked
match-accepted set list d (t, lays, ordered, keys) marked d_is =
    let keys' : (k : List ℕ) → contains t k ≡ member k list =
      λ k. keys k ∙ member-sort_strings k list in
    let sound = IsOrdered-IsSound t ordered (λ k e. marked k (sym (keys' k) ∙ e)) in
    ap (λ o. o >>= has set) (reverse_domain-reversed d d_is.0)
    ∙ has_from-search set t (reversed d) 0 0 lays
    ∙ ap ok (
        search_node-accepts t (reversed d) sound (reversed-Plain d d_is.1)
        ∙ accepts_cong (reversed d) keys')

-- The list that is sorted.
domain_list_lem :
    (domains suffixes : List (List ℕ)) (legacy : Bool) (d : List ℕ)
    → AreNames domains
    → AreSuffixes suffixes
    → IsName d
    → (list : List (List ℕ)) × (domain_list domains suffixes legacy ≡ ok list)
      × AllMarked list
      × (accepted list d ≡ (member d domains || under_any suffixes d))
unfolding domain_list Adds AllMarked
domain_list_lem domains suffixes legacy d are ends d_is =
    let nothing : accepted [] d ≡ false =
      accepts_none {f = λ k. member k []} (reversed d) (λ k. refl) in
    let (list, seen, eq, marked, inv, grows) =
      add_suffixes_lem legacy suffixes d [] [] ends d_is
        ((λ k e. absurd (ground (arith, e))), nothing) in
    let (list', seen', eq', marked', by) =
      add_domains_lem domains d list seen are marked
        (λ m. inv ∙ under_any-member d seen d m (under-same d d (same_refl d))) in
    (list', ground (arith, eq, eq'), marked', ground (arith, by, inv, grows))

-- For names in ASCII above the two marks, suffixes that are not empty, and a succinct set that is made
-- of the sorted keys and lays out an ordered trie of them: `NewMatcher` returns the set, and `Match` on
-- it accepts a name exactly if the name is among the domains, ends with a suffix that starts with a
-- dot, or is, or ends with a dot and, a suffix without one. Legacy rules accept the same names.
pub match-new_matcher :
    (new_succinct_set : List (List ℕ) → Outcome SuccinctSet) (domains suffixes : List (List ℕ))
    (legacy : Bool) (d : List ℕ) (set : SuccinctSet)
    → AreNames domains
    → AreSuffixes suffixes
    → IsName d
    → ((keys : List (List ℕ))
        → domain_list domains suffixes legacy ≡ ok keys
        → (new_succinct_set (sort_strings keys) ≡ ok set) × IsSetOf set (sort_strings keys))
    → (new_matcher new_succinct_set domains suffixes legacy ≡ ok set)
      × (match set d ≡ ok (member d domains || under_any suffixes d))
unfolding new_matcher
match-new_matcher new_succinct_set domains suffixes legacy d set are ends d_is made =
    let (list, eq, marked, by) = domain_list_lem domains suffixes legacy d are ends d_is in
    let (eq', is_set) = made list eq in
    (
      ap (λ o. o >>= λ l. new_succinct_set (sort_strings l)) eq ∙ eq',
      match-accepted set list d is_set marked d_is ∙ ap ok by,
    )
