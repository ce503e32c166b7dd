-- ===== src/Lru/Clears.antt =====
-- The cache's `Clear`.
use sing.Common.{ℕ, suc, ◌≡◌, refl, ap, sym, ◌∙◌, subst, List, [], ◌∷◌, none, some, arith}
use sing.Common.Outcome.{ok}
use sing.Linked.{Element, values, value_at, next_of}
use sing.Linked.Index.{Distinct}
use sing.Lru.{Entry, Settings, LruCache, clear, clear_loop}
use sing.Lru.Recent.{told}
use sing.Lru.Shows.{Shows, delete_first}

next_of-none :
    {A : Type 0} (i : ℕ) (es : List (Element A)) → value_at i es ≡ none → next_of i es ≡ none
unfolding value_at next_of
next_of-none i [] h = refl
next_of-none i (e ∷ []) h = refl
next_of-none i (e ∷ f ∷ es) h = ground (arith, next_of-none i (f ∷ es))

module _ {K V : Type 0} (dec : Discrete K) where
  clear_first :
      (les : List (Element (Entry K V))) (turns : ℕ) {s : Settings} {e : Entry K V}
      {es : List (Entry K V)} {gone : List (K × V)} {c : LruCache K V}
      → Shows dec s (record { items = e ∷ es; gone = gone }) c
      → c.lru.elements ≡ les
      → (c' : LruCache K V) × (clear dec (suc turns) c ≡ some (ok c'))
        × Shows dec s (record { items = es; gone = told s e gone }) c'
  unfolding clear clear_loop values
  clear_first [] turns {e = e} {es} h p =
      let no : [] ≡ e ∷ es = ap values (sym p) ∙ h.items in absurd cc
  clear_first (le ∷ les) turns {s} {e} {es} {gone} {c} h p =
      let same : le.value ∷ values les ≡ e ∷ es = ap values (sym p) ∙ h.items in
      let (c', d, h', q) = delete_first dec h le les p in
      let last : next_of le.id c'.lru.elements ≡ none =
        ap (next_of le.id) q
        ∙ next_of-none le.id les (subst (Distinct dec (λ e. e.key)) p h.coherent.distinct).1 in
      (c', ground (arith, p, d, last), subst (λ x. Shows dec s x c') (ground (arith, same)) h')

  -- On a cache that stands for some entries, the oldest one first: `Clear` succeeds without a panic in
  -- one turn of its loop, takes only the oldest entry, and keeps all others, since an element that was
  -- removed from the list has no next one.
  pub lru_clear_lem :
      (turns : ℕ) (s : Settings) (e : Entry K V) (es : List (Entry K V)) (gone : List (K × V))
      (c : LruCache K V)
      → Shows dec s (record { items = e ∷ es; gone = gone }) c
      → (c' : LruCache K V) × (clear dec (suc turns) c ≡ some (ok c'))
        × Shows dec s (record { items = es; gone = told s e gone }) c'
  lru_clear_lem turns s e es gone c h = clear_first c.lru.elements turns h refl
