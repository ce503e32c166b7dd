-- ===== src/Domain/Rules/Tests.antt =====
-- Runs of `NewMatcher` and `Match`.
use sing.Common.{
  ℕ, zero, suc, ◌+◌, ◌-◌, ◌/◌, ◌%◌, ◌^◌, ◌≡◌, refl, sym, ◌∙◌, subst, true, false, List, [], ◌∷◌,
  arith,
}
use sing.Common.Outcome.{Outcome, ok, panic}
use sing.Domain.{SuccinctSet, at, get_bit, label, child, match}
use sing.Domain.Trie.{Trie, node, no_edges, edge, contains}
use sing.Domain.Names.{member}
use sing.Domain.Reversal.{decode_rune, rune_bytes, encode_rune, reverse_loop, reverse_domain}
use sing.Domain.Rules.{
  sort_strings, add_suffix, add_suffixes, add_domains, domain_list, new_matcher,
}
use sing.Domain.Rules.Decides.{IsSetOf, match-new_matcher}

-- The bytes of a rune are kept in order.
reverse_domain_umlaut : reverse_domain (0x61 ∷ 0xc3 ∷ 0xbc ∷ []) ≡ ok (0xc3 ∷ 0xbc ∷ 0x61 ∷ [])
unfolding reverse_domain reverse_loop decode_rune encode_rune rune_bytes
reverse_domain_umlaut = refl

-- A byte that is no rune is one byte long, and three bytes are written for it.
reverse_domain_broken : reverse_domain (0xff ∷ []) ≡ panic
unfolding reverse_domain reverse_loop decode_rune encode_rune rune_bytes
reverse_domain_broken = refl

-- The domain `a` and the suffix `b`: their keys, the trie, and the set with its bits.
abbrev a_name : List ℕ
a_name = b'a' ∷ []

abbrev b_name : List ℕ
b_name = b'b' ∷ []

abbrev ab_keys : List (List ℕ)
ab_keys = (b'b' ∷ b'\n' ∷ []) ∷ a_name ∷ []

abbrev ab_trie : Trie
ab_trie = node false (
    edge b'a' (node true no_edges)
      (edge b'b' (node false (edge b'\n' (node true no_edges) no_edges)) no_edges))

abbrev ones_before : ℕ → ℕ → ℕ
ones_before w zero = 0
ones_before w (suc i) = ones_before w i + w / 2 ^ i % 2

abbrev ab_set : SuccinctSet
ab_set = record {
  leaves = 10 ∷ [];
  label_bitmap = 108 ∷ [];
  labels = b'a' ∷ b'b' ∷ b'\n' ∷ [];
  count_zeros = λ i. ok (i - ones_before 108 i);
  select_ith_one = at (2 ∷ 3 ∷ 5 ∷ 6 ∷ []);
}

abbrev made_set : List (List ℕ) → Outcome SuccinctSet
made_set list = ok ab_set

ok-inj : {A : Type 0} {a b : A} → ok a ≡ ok b → a ≡ b
ok-inj e = cc

domain_list_run : domain_list (a_name ∷ []) (b_name ∷ []) false ≡ ok ab_keys
unfolding domain_list add_suffixes add_domains add_suffix reverse_domain reverse_loop decode_rune
    encode_rune rune_bytes
domain_list_run = refl

leaf_keys : (k : List ℕ) → contains (node true no_edges) k ≡ member k ([] ∷ [])
unfolding contains
leaf_keys [] = refl
leaf_keys (c ∷ k) = refl

ab_trie_keys : (k : List ℕ) → contains ab_trie k ≡ member k (sort_strings ab_keys)
unfolding contains
ab_trie_keys [] = refl
ab_trie_keys (c ∷ []) = ground arith
ab_trie_keys (c ∷ d ∷ k) = ground (arith, leaf_keys k)

ab_set-IsSetOf : IsSetOf ab_set (sort_strings ab_keys)
unfolding get_bit label child contains
ab_set-IsSetOf = (
  ab_trie,
  (
    refl,
    (
      refl,
      refl,
      (1, 3, refl, refl, (refl, refl)),
      (
        refl,
        refl,
        (2, 4, refl, refl, (refl, (refl, refl, (3, 6, refl, refl, (refl, refl)), refl))),
        refl,
      ),
    ),
  ),
  (((omega arith, tt), ([], refl), tt, (tt, (b'\n' ∷ [], refl), (tt, ([], refl), tt, tt), tt))),
  ab_trie_keys,
)

ab_made :
    (keys : List (List ℕ))
    → domain_list (a_name ∷ []) (b_name ∷ []) false ≡ ok keys
    → (made_set (sort_strings keys) ≡ ok ab_set) × IsSetOf ab_set (sort_strings keys)
ab_made keys e =
    let same_keys : ab_keys ≡ keys = ok-inj (sym domain_list_run ∙ e) in
    (refl, subst (λ l. IsSetOf ab_set (sort_strings l)) same_keys ab_set-IsSetOf)

-- `x.b` is under the suffix.
match-new_matcher_example :
    (new_matcher made_set (a_name ∷ []) (b_name ∷ []) false ≡ ok ab_set)
    × (match ab_set (b'x' ∷ b'.' ∷ b'b' ∷ []) ≡ ok true)
match-new_matcher_example =
    match-new_matcher made_set (a_name ∷ []) (b_name ∷ []) false (b'x' ∷ b'.' ∷ b'b' ∷ []) ab_set
      (((omega arith, tt), (omega arith, tt)), tt)
      (refl, ((omega arith, tt), (omega arith, tt)), tt)
      (
        (omega arith, (omega arith, (omega arith, tt))),
        (omega arith, (omega arith, (omega arith, tt))),
      )
      ab_made
