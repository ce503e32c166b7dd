-- ===== src/Domain/Rules/Loops.antt =====
-- The loops of `NewMatcher`: what their keys accept, and where the marks stand in them.
use sing.Common.{
  ℕ, ◌≡◌, refl, ap, ap₂, sym, ◌∙◌, subst, Bool, true, false, ◌||◌, List, [], ◌∷◌, ◌++◌, ◌==◌, arith,
  Bool-cases, inl, inr,
}
use sing.Common.Outcome.{Outcome, ok}
use sing.Slices.Reverse.{reversed}
use sing.Domain.{prefix_label, root_label}
use sing.Domain.Trie.{accepts, Plain}
use sing.Domain.Names.{
  same, same_eq, same_comm, member, member-append, begins-reversed, same-reversed, ends_with,
}
use sing.Domain.Marks.{accepts_exact, accepts_prefix, accepts_root, Marked}
use sing.Domain.Reversal.{reverse_domain}
use sing.Domain.Reversal.Ascii.{reverse_domain-reversed}
use sing.Domain.Rules.{State, add_suffix, add_suffixes, add_domains}
use sing.Domain.Rules.Accepted.{
  under, under_any, IsName, AreNames, AreSuffixes, accepted, accepted-append_one, reversed-Plain,
  under_any-member,
}

-- What one key stands for.
abbrev accepted_by : List ℕ → List ℕ → Bool
accepted_by k d = accepts (λ j. same j k) (reversed d)

Key : List ℕ → List ℕ → Bool → Type 0
Key s d b = (k : List ℕ) × (reverse_domain s ≡ ok k) × Marked k × (accepted_by k d ≡ b)

Plain-Marked : (s : List ℕ) → Plain s → Marked s
Plain-Marked [] p = tt
Plain-Marked (x ∷ s) p = (inl p.0, Plain-Marked s p.1)

append_one-Marked : (s : List ℕ) (m : ℕ) → Plain s → Marked (s ++ (m ∷ []))
append_one-Marked [] m p = (inr refl, tt)
append_one-Marked (x ∷ s) m p = (inl p.0, append_one-Marked s m p.1)

exact-Key : (s d : List ℕ) → IsName s → Key s d (same s d)
unfolding Key
exact-Key s d n =
    let p = reversed-Plain s n.1 in
    (
      reversed s,
      reverse_domain-reversed s n.0,
      Plain-Marked (reversed s) p,
      accepts_exact (reversed s) (reversed d) p ∙ same-reversed s d,
    )

prefix-Key : (s d : List ℕ) → IsName s → Key (prefix_label ∷ s) d (ends_with s d)
unfolding Key reversed
prefix-Key s d n = (
  reversed s ++ (prefix_label ∷ []),
  reverse_domain-reversed (prefix_label ∷ s) (omega arith, n.0),
  append_one-Marked (reversed s) prefix_label (reversed-Plain s n.1),
  accepts_prefix (reversed s) (reversed d) ∙ begins-reversed s d,
)

root-Key :
    (s d : List ℕ)
    → IsName s
    → IsName d
    → Key (root_label ∷ s) d (same s d || ends_with (b'.' ∷ s) d)
unfolding Key reversed
root-Key s d n e = (
  reversed s ++ (root_label ∷ []),
  reverse_domain-reversed (root_label ∷ s) (omega arith, n.0),
  append_one-Marked (reversed s) root_label (reversed-Plain s n.1),
  accepts_root (reversed s) (reversed d) (reversed-Plain d e.1)
      ∙ ap₂ (λ a b. a || b) (same-reversed s d) (begins-reversed (b'.' ∷ s) d),
)

-- The keys so far accept what the strings seen stand for, and carry their marks at the end.
unfoldable pub AllMarked : List (List ℕ) → Type 0
AllMarked list = (k : List ℕ) → member k list ≡ true → Marked k

append-AllMarked :
    (list : List (List ℕ)) (k : List ℕ) → AllMarked list → Marked k → AllMarked (list ++ (k ∷ []))
unfolding AllMarked
append-AllMarked list k a m j h = elim (Bool-cases (member j list)) [
  | inl e ↦ a j e
  | inr e ↦ subst Marked (sym (same_eq j k (ground (arith, e, h, member-append j list (k ∷ []))))) m
]

-- A state with the added keys.
unfoldable pub Adds : List ℕ → Bool → State → Outcome State → Type 0
Adds d b (list, seen) o =
    (list' : List (List ℕ)) × (seen' : List (List ℕ)) × (o ≡ ok (list', seen'))
    × AllMarked list'
    × (accepted list' d ≡ under_any seen' d)
    × (under_any seen' d ≡ (under_any seen d || b))

abbrev pub Invariant : List ℕ → State → Type 0
Invariant d (list, seen) = AllMarked list × (accepted list d ≡ under_any seen d)

-- The key with a dot in front is there already.
seen_dotted :
    (c : ℕ) (s d : List ℕ) (seen : List (List ℕ))
    → c == b'.' ≡ false
    → member (b'.' ∷ c ∷ s) ((c ∷ s) ∷ seen) ≡ true
    → (under_any seen d || same (c ∷ s) d) ≡ (under (c ∷ s) d || under_any seen d)
seen_dotted c s d seen dot m = elim (Bool-cases (ends_with (b'.' ∷ c ∷ s) d)) [
  | inl e ↦
      let there : member (b'.' ∷ c ∷ s) seen ≡ true = ground (arith, dot, m) in
      ground (arith, dot, e, under_any-member (b'.' ∷ c ∷ s) seen d there e)
  | inr e ↦ ground (arith, dot, e)
]

add_suffix_lem :
    (legacy : Bool) (s d : List ℕ) (list seen : List (List ℕ))
    → same [] s ≡ false
    → IsName s
    → IsName d
    → Invariant d (list, seen)
    → Adds d (under s d) (list, seen) (add_suffix legacy s (list, seen))
unfolding add_suffix Adds Key
add_suffix_lem legacy [] d list seen n is d_is h = absurd (ground (arith, n))
add_suffix_lem legacy (c ∷ s) d list seen n is d_is h = elim (Bool-cases (c == b'.')) [
  | inl dot ↦
      let (k, eq, marked, by) = prefix-Key (c ∷ s) d is in
      (
        list ++ (k ∷ []),
        (c ∷ s) ∷ seen,
        ground (arith, dot, eq),
        append-AllMarked list k h.0 marked,
        ground (arith, dot, accepted-append_one list k d, by, h.1),
        ground (arith, dot),
      )
  | inr dot ↦ elim (Bool-cases legacy) [
    | inr l ↦
        let (k, eq, marked, by) = root-Key (c ∷ s) d is d_is in
        (
          list ++ (k ∷ []),
          (c ∷ s) ∷ seen,
          ground (arith, dot, l, eq),
          append-AllMarked list k h.0 marked,
          ground (arith, dot, accepted-append_one list k d, by, h.1),
          ground (arith, dot),
        )
    | inl l ↦
        let (k, eq, marked, by) = exact-Key (c ∷ s) d is in
        let list' = list ++ (k ∷ []) in
        let marked' = append-AllMarked list k h.0 marked in
        let by' : accepted list' d ≡ (under_any seen d || same (c ∷ s) d) =
          ground (arith, accepted-append_one list k d, by, h.1) in
        elim (Bool-cases (member (b'.' ∷ c ∷ s) ((c ∷ s) ∷ seen))) [
          | inl m ↦ (
            list',
            (c ∷ s) ∷ seen,
            ground (arith, dot, l, eq, m),
            marked',
            by' ∙ seen_dotted c s d seen dot m,
            ground (arith, dot),
          )
          | inr m ↦
              let (j, eq', marked_j, by_j) =
                prefix-Key (b'.' ∷ c ∷ s) d ((omega arith, is.0), (omega arith, is.1)) in
              (
                list' ++ (j ∷ []),
                (b'.' ∷ c ∷ s) ∷ (c ∷ s) ∷ seen,
                ground (arith, dot, l, eq, m, eq'),
                append-AllMarked list' j marked' marked_j,
                ground (arith, dot, accepted-append_one list' j d, by_j, by'),
                ground (arith, dot),
              )
        ]
  ]
]

seen_under :
    (s d : List ℕ) (seen : List (List ℕ)) (b : Bool)
    → member s seen ≡ true
    → (under_any seen d || b) ≡ (under_any seen d || (under s d || b))
seen_under s d seen b m = elim (Bool-cases (under s d)) [
  | inl e ↦ ground (arith, e, under_any-member s seen d m e)
  | inr e ↦ ground (arith, e)
]

pub add_suffixes_lem :
    (legacy : Bool) (ss : List (List ℕ)) (d : List ℕ) (list seen : List (List ℕ))
    → AreSuffixes ss
    → IsName d
    → Invariant d (list, seen)
    → Adds d (under_any ss d) (list, seen) (add_suffixes legacy ss (list, seen))
unfolding add_suffixes Adds
add_suffixes_lem legacy [] d list seen are d_is h = (list, seen, refl, h.0, h.1, ground arith)
add_suffixes_lem legacy (s ∷ ss) d list seen are d_is h = elim (Bool-cases (member s seen)) [
  | inl m ↦
      let (list', seen', eq, marked, inv, grows) =
        add_suffixes_lem legacy ss d list seen are.2 d_is h in
      (
        list',
        seen',
        ground (arith, m, eq),
        marked,
        inv,
        grows ∙ seen_under s d seen (under_any ss d) m,
      )
  | inr m ↦
      let (list₁, seen₁, eq₁, marked₁, inv₁, grows₁) =
        add_suffix_lem legacy s d list seen are.0 are.1 d_is h in
      let (list₂, seen₂, eq₂, marked₂, inv₂, grows₂) =
        add_suffixes_lem legacy ss d list₁ seen₁ are.2 d_is (marked₁, inv₁) in
      (list₂, seen₂, ground (arith, m, eq₁, eq₂), marked₂, inv₂, ground (arith, grows₁, grows₂))
]

seen_same :
    (s d : List ℕ) (list seen : List (List ℕ)) (b : Bool)
    → member s seen ≡ true
    → (member d seen ≡ true → accepted list d ≡ true)
    → (accepted list d || b) ≡ (accepted list d || (same d s || b))
seen_same s d list seen b m h = elim (Bool-cases (same d s)) [
  | inl e ↦ ground (arith, e, h (ap (λ t. member t seen) (same_eq d s e) ∙ m))
  | inr e ↦ ground (arith, e)
]

-- A domain that was seen is accepted already.
pub add_domains_lem :
    (ds : List (List ℕ)) (d : List ℕ) (list seen : List (List ℕ))
    → AreNames ds
    → AllMarked list
    → (member d seen ≡ true → accepted list d ≡ true)
    → (list' : List (List ℕ)) × (seen' : List (List ℕ)) × (add_domains ds (list, seen)
        ≡ ok (list', seen'))
      × AllMarked list'
      × (accepted list' d ≡ (accepted list d || member d ds))
unfolding add_domains Key
add_domains_lem [] d list seen are marked h = (list, seen, refl, marked, ground arith)
add_domains_lem (s ∷ ds) d list seen are marked h = elim (Bool-cases (member s seen)) [
  | inl m ↦
      let (list', seen', eq, marked', by) = add_domains_lem ds d list seen are.1 marked h in
      (list', seen', ground (arith, m, eq), marked', by ∙ seen_same s d list seen (member d ds) m h)
  | inr m ↦
      let (k, eq, marked_k, by) = exact-Key s d are.0 in
      let grows : accepted (list ++ (k ∷ [])) d ≡ (accepted list d || same s d) =
        accepted-append_one list k d ∙ ground (arith, by) in
      let now : member d (s ∷ seen) ≡ true → (accepted list d || same s d) ≡ true = λ e.
        elim (Bool-cases (member d seen)) [
          | inl f ↦ ground (arith, h f)
          | inr f ↦ ground (arith, e, f, same_comm d s)
        ] in
      let (list', seen', eq', marked', by') =
        add_domains_lem ds d (list ++ (k ∷ [])) (s ∷ seen) are.1
          (append-AllMarked list k marked marked_k) (λ e. grows ∙ now e) in
      (list', seen', ground (arith, m, eq, eq'), marked', ground (arith, by', grows, same_comm d s))
]
