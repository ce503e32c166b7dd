-- ===== src/Lru/Shows.antt =====
-- The cache's list and map stand for its entries, and each of its parts does to them what it should.
use sing.Common.{ℕ, ◌≡◌, refl, ap, ap₂, sym, ◌∙◌, subst, List, ◌∷◌, Option, none, some, arith}
use sing.Common.Outcome.{Outcome, ok, ◌>>=◌}
use sing.Linked.{Element, values, without, deref, remove, without_key}
use sing.Linked.Index.{find, erase, id_of}
use sing.Linked.Coherent.{Coherent, found, missing, remove-Coherent, values-remove}
use sing.Lru.{Entry, Settings, LruCache, delete_element}
use sing.Lru.Recent.{Recent, told, find_entry, erase_entry, forget}

module _ {K V : Type 0} (dec : Discrete K) where
  -- The cache `c` with the options `s` has the entries of `r`: its map and its list are in step, and
  -- the list's values and the callback's calls are those of `r`.
  pub record Shows (s : Settings) (r : Recent K V) (c : LruCache K V) : Type 0 where
    pub coherent : Coherent dec (λ e. e.key) c.cache c.lru
    pub options : c.settings ≡ s
    pub items : values c.lru.elements ≡ r.items
    pub gone : c.evicted ≡ r.gone

  -- The call succeeds, and its cache has the entries of `r`.
  abbrev pub Becomes : Outcome (LruCache K V) → Settings → Recent K V → Type 0
  Becomes o s r = (c : LruCache K V) × (o ≡ ok c) × Shows s r c

  module _ {s : Settings} {r : Recent K V} {c : LruCache K V} (h : Shows s r c) where
    pub shown_found :
        (k : K) (i : ℕ)
        → c.cache k ≡ some i
        → (e : Entry K V) × (deref i c.lru ≡ ok e)
          × (e.key ≡ k)
          × (find_entry dec k r.items ≡ some e)
    shown_found k i p =
        let (e, d, q, f) = found dec _ h.coherent k i p in
        (e, d, q, ap (find_entry dec k) (sym h.items) ∙ f)

    pub shown_missing : (k : K) → c.cache k ≡ none → find_entry dec k r.items ≡ none
    shown_missing k p = ap (find_entry dec k) (sym h.items) ∙ missing dec _ h.coherent k p

    pub delete_element_lem :
        (k : K) (i : ℕ)
        → c.cache k ≡ some i
        → (c' : LruCache K V) × (delete_element dec i c ≡ ok c')
          × Shows s (forget dec k s r) c'
          × (c'.lru ≡ remove i c.lru)
    unfolding delete_element
    delete_element_lem k i p =
        let (e, d, q, f) = shown_found k i p in
        (
          deleted i e,
          ap (λ o. o >>= λ e. ok (deleted i e)) d,
          record {
            coherent =
                subst (λ x. Coherent dec (λ e. e.key) (without_key dec x c.cache) (remove i c.lru))
                  (sym q) (remove-Coherent dec _ h.coherent k i p);
            options = h.options;
            items =
                values-remove dec _ h.coherent k i p
                ∙ ap (erase_entry dec k) h.items
                ∙ ap (λ o. (forgotten k o).items) (sym f);
            gone =
                ap₂ (λ t g. told t e g) h.options h.gone ∙ ap (λ o. (forgotten k o).gone) (sym f);
          },
          refl,
        )
      where
        deleted : ℕ → Entry K V → LruCache K V
        deleted i e = record c {
          lru = remove i c.lru;
          cache = without_key dec e.key c.cache;
          evicted = told c.settings e c.evicted;
        }

        forgotten : K → Option (Entry K V) → Recent K V
        forgotten k o = elim o [
          | none ↦ r
          | some e ↦ record { items = erase_entry dec k r.items; gone = told s e r.gone }
        ]

    -- The first element is found under its key.
    pub delete_first :
        (le : Element (Entry K V)) (es : List (Element (Entry K V)))
        → c.lru.elements ≡ le ∷ es
        → (c' : LruCache K V) × (delete_element dec le.id c ≡ ok c')
          × Shows s (record { items = values es; gone = told s le.value r.gone }) c'
          × (c'.lru.elements ≡ es)
    unfolding values id_of find erase without
    delete_first le es p =
        let first : r.items ≡ le.value ∷ values es = sym h.items ∙ ap values p in
        let here : c.cache le.value.key ≡ some le.id =
          h.coherent.indexed le.value.key
          ∙ ap (id_of dec (λ e. e.key) le.value.key) p
          ∙ ground arith in
        let (c', d, shows, l) = delete_element_lem le.value.key le.id here in
        (
          c',
          d,
          subst (λ r'. Shows s r' c')
              (ap (λ es. forget dec le.value.key s (record r { items = es })) first ∙ ground arith)
              shows,
          ap (λ l. l.elements) l ∙ ap (without le.id) p ∙ ground arith,
        )
