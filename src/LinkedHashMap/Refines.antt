-- ===== src/LinkedHashMap/Refines.antt =====
-- The map is an association list in the order of insertion.
use sing.Common.{
  ℕ, Bool, true, false, ◌≡◌, refl, ap, sym, ◌∙◌, List, [], ◌∷◌, ◌++◌, Option, none, some, length,
  map, ◌==◌, arith, Option-cases, inl, inr,
}
use sing.Common.Outcome.{Outcome, ok, ◌>>=◌}
use sing.Linked.{Element, values, remove, assign, without_key}
use sing.Linked.Index.{id_of, find, erase, replace, erase_absent}
use sing.Linked.Coherent.{
  Coherent, found, missing, push_back-Coherent, values-push_back, remove-Coherent, values-remove,
  assign-Coherent, values-assign,
}
use sing.LinkedHashMap.{
  MapEntry, LinkedMap, new_map, entries, size, is_empty, keys, values_of, clear, contains_key, get,
  add, put, remove_key, put_item, put_all,
}

-- What a client can ask of a map.
pub data Op (K V : Type 0) : Type 0 where
  size_op is_empty_op keys_op values_op entries_op clear_op : Op K V
  contains_op get_op remove_op : K → Op K V
  put_op : K → V → Op K V
  put_all_op : List (MapEntry K V) → Op K V

-- What it sees.
pub data Reply (K V : Type 0) : Type 0 where
  done : Reply K V
  count : ℕ → Reply K V
  flag : Bool → Reply K V
  all_keys : List K → Reply K V
  all_values : List V → Reply K V
  all_entries : List (MapEntry K V) → Reply K V
  got : V → Bool → Reply K V
  old : V → Reply K V

abbrev is_some {ℓ} : {A : Type ℓ} → Option A → Bool
is_some none = false
is_some (some a) = true

module _ {K V : Type 0} (dec : Discrete K) (zero_value : V) where
  pub call : Op K V → LinkedMap K V → Outcome (Reply K V × LinkedMap K V)
  call size_op m = ok (count (size m), m)
  call is_empty_op m = ok (flag (is_empty m), m)
  call keys_op m = ok (all_keys (keys m), m)
  call values_op m = ok (all_values (values_of m), m)
  call entries_op m = ok (all_entries (entries m), m)
  call clear_op m = ok (done, clear m)
  call (contains_op k) m = ok (flag (contains_key k m), m)
  call (get_op k) m = do (v, b) ← get dec zero_value k m; ok (got v b, m)
  call (remove_op k) m = do (b, m) ← remove_key dec zero_value k m; ok (flag b, m)
  call (put_op k v) m = do (w, m) ← put dec zero_value k v m; ok (old w, m)
  call (put_all_op es) m = do m ← put_all dec zero_value es m; ok (done, m)

  pub run : List (Op K V) → LinkedMap K V → Outcome (List (Reply K V))
  unfolding call
  run [] m = ok []
  run (op ∷ ops) m = do (r, m) ← call op m; rs ← run ops m; ok (r ∷ rs)

  -- The same on an association list: a key keeps its place, and a new one comes last.
  abbrev assoc_find : K → List (MapEntry K V) → Option (MapEntry K V)
  assoc_find = find dec (λ e. e.key)

  abbrev assoc_put : MapEntry K V → List (MapEntry K V) → List (MapEntry K V)
  assoc_put e es = elim (assoc_find e.key es) [
    | none ↦ es ++ (e ∷ [])
    | some _ ↦ replace dec (λ e. e.key) e.key e es
  ]

  abbrev assoc_put_all : List (MapEntry K V) → List (MapEntry K V) → List (MapEntry K V)
  assoc_put_all [] es = es
  assoc_put_all (f ∷ fs) es = assoc_put_all fs (assoc_put f es)

  abbrev assoc_value : Option (MapEntry K V) → V
  assoc_value none = zero_value
  assoc_value (some e) = e.value

  pub answer : Op K V → List (MapEntry K V) → Reply K V × List (MapEntry K V)
  answer size_op es = (count (length es), es)
  answer is_empty_op es = (flag (length es == 0), es)
  answer keys_op es = (all_keys (map (λ e. e.key) es), es)
  answer values_op es = (all_values (map (λ e. e.value) es), es)
  answer entries_op es = (all_entries es, es)
  answer clear_op es = (done, [])
  answer (contains_op k) es = (flag (is_some (assoc_find k es)), es)
  answer (get_op k) es = (got (assoc_value (assoc_find k es)) (is_some (assoc_find k es)), es)
  answer (remove_op k) es = (flag (is_some (assoc_find k es)), erase dec (λ e. e.key) k es)
  answer (put_op k v) es =
      (old (assoc_value (assoc_find k es)), assoc_put (record { key = k; value = v }) es)
  answer (put_all_op fs) es = (done, assoc_put_all fs es)

  pub answers : List (Op K V) → List (MapEntry K V) → List (Reply K V)
  unfolding answer
  answers [] es = []
  answers (op ∷ ops) es = let (r, es) = answer op es in r ∷ answers ops es

  -- The map and the list are in step.
  abbrev pub IsCoherent : LinkedMap K V → Type 0
  IsCoherent m = Coherent dec (λ e. e.key) m.raw_map m.raw

  abbrev Refines : Op K V → LinkedMap K V → Type 0
  Refines op m =
      (m' : LinkedMap K V) × (call op m ≡ ok ((answer op (entries m)).0, m'))
      × IsCoherent m'
      × (entries m' ≡ (answer op (entries m)).1)

  put_item_lem :
      (item : MapEntry K V) {m : LinkedMap K V}
      → IsCoherent m
      → (m' : LinkedMap K V) × (put_item dec zero_value item m ≡ ok m')
        × IsCoherent m'
        × (entries m' ≡ assoc_put item (entries m))
  unfolding put_item entries
  put_item_lem item {m} c = elim (Option-cases (m.raw_map item.key)) [
    | inl e ↦ (
      add dec zero_value item m,
      ground (arith, e),
      push_back-Coherent dec _ c item e,
      values-push_back dec _ c item ∙ ground (arith, missing dec _ c item.key e),
    )
    | inr (i, e) ↦
        let (v, d, k, f) = found dec _ c item.key i e in
        (
          record m { raw = assign i (record v { value = item.value }) m.raw },
          ground (arith, e, d),
          assign-Coherent dec _ c item.key i e (record v { value = item.value }) k,
          values-assign dec _ c item.key i e (record v { value = item.value }) k
              ∙ ground (arith, f, k),
        )
  ]

  put_all_lem :
      (items : List (MapEntry K V)) {m : LinkedMap K V}
      → IsCoherent m
      → (m' : LinkedMap K V) × (put_all dec zero_value items m ≡ ok m')
        × IsCoherent m'
        × (entries m' ≡ assoc_put_all items (entries m))
  unfolding put_all
  put_all_lem [] {m} c = (m, refl, c, refl)
  put_all_lem (item ∷ items) {m} c =
      let (m1, d, c1, e) = put_item_lem item c in
      let (m2, d2, c2, e2) = put_all_lem items c1 in
      (m2, ap (λ o. o >>= put_all dec zero_value items) d ∙ d2, c2, e2 ∙ ap (assoc_put_all items) e)

  call-put : (k : K) (v : V) {m : LinkedMap K V} → IsCoherent m → Refines (put_op k v) m
  unfolding call answer put entries
  call-put k v {m} c = elim (Option-cases (m.raw_map k)) [
    | inl e ↦ (
      add dec zero_value (record { key = k; value = v }) m,
      ground (arith, e, missing dec _ c k e),
      push_back-Coherent dec _ c (record { key = k; value = v }) e,
      values-push_back dec _ c (record { key = k; value = v })
          ∙ ground (arith, missing dec _ c k e),
    )
    | inr (i, e) ↦
        let (w, d, n, f) = found dec _ c k i e in
        (
          record m { raw = assign i (record w { value = v }) m.raw },
          ground (arith, e, d, f),
          assign-Coherent dec _ c k i e (record w { value = v }) n,
          values-assign dec _ c k i e (record w { value = v }) n ∙ ground (arith, f, n),
        )
  ]

  call-remove : (k : K) {m : LinkedMap K V} → IsCoherent m → Refines (remove_op k) m
  unfolding call answer remove_key entries
  call-remove k {m} c = elim (Option-cases (m.raw_map k)) [
    | inl e ↦ (
      m,
      ground (arith, e, missing dec _ c k e),
      c,
      sym (erase_absent dec _ k _ (missing dec _ c k e)),
    )
    | inr (i, e) ↦
        let (w, d, n, f) = found dec _ c k i e in
        (
          record { raw = remove i m.raw; raw_map = without_key dec k m.raw_map },
          ground (arith, e, f),
          remove-Coherent dec _ c k i e,
          values-remove dec _ c k i e,
        )
  ]

  call-get : (k : K) {m : LinkedMap K V} → IsCoherent m → Refines (get_op k) m
  unfolding call answer get entries
  call-get k {m} c = elim (Option-cases (m.raw_map k)) [
    | inl e ↦ (m, ground (arith, e, missing dec _ c k e), c, refl)
    | inr (i, e) ↦ let (w, d, n, f) = found dec _ c k i e in (m, ground (arith, e, d, f), c, refl)
  ]

  call-contains : (k : K) {m : LinkedMap K V} → IsCoherent m → Refines (contains_op k) m
  unfolding call answer contains_key entries
  call-contains k {m} c = elim (Option-cases (m.raw_map k)) [
    | inl e ↦ (m, ground (arith, e, missing dec _ c k e), c, refl)
    | inr (i, e) ↦ let (w, d, n, f) = found dec _ c k i e in (m, ground (arith, e, f), c, refl)
  ]

  length-values : (es : List (Element (MapEntry K V))) → length (values es) ≡ length es
  unfolding values
  length-values [] = refl
  length-values (e ∷ es) = omega (arith, length-values es)

  map-values :
      {B : Type 0} (f : MapEntry K V → B) (es : List (Element (MapEntry K V)))
      → map (λ e. f e.value) es ≡ map f (values es)
  unfolding values
  map-values f [] = refl
  map-values f (e ∷ es) = ap (◌∷◌ (f e.value)) (map-values f es)

  pub new_map-IsCoherent : IsCoherent new_map
  unfolding new_map id_of
  new_map-IsCoherent = record { indexed = λ k. refl; distinct = tt; fresh = tt }

  new_entries : entries {K = K} {V = V} new_map ≡ []
  unfolding new_map entries values
  new_entries = refl

  call_lem : (op : Op K V) {m : LinkedMap K V} → IsCoherent m → Refines op m
  unfolding call answer size is_empty keys values_of entries clear
  call_lem size_op {m} c = (m, ground (arith, length-values m.raw.elements), c, refl)
  call_lem is_empty_op {m} c = (m, ground (arith, length-values m.raw.elements), c, refl)
  call_lem keys_op {m} c =
      (m, ap (λ x. ok (all_keys x, m)) (map-values (λ e. e.key) m.raw.elements), c, refl)
  call_lem values_op {m} c =
      (m, ap (λ x. ok (all_values x, m)) (map-values (λ e. e.value) m.raw.elements), c, refl)
  call_lem entries_op {m} c = (m, refl, c, refl)
  call_lem clear_op {m} c = (new_map, refl, new_map-IsCoherent, new_entries)
  call_lem (contains_op k) c = call-contains k c
  call_lem (get_op k) c = call-get k c
  call_lem (remove_op k) c = call-remove k c
  call_lem (put_op k v) c = call-put k v c
  call_lem (put_all_op es) c =
      let (m, d, c, e) = put_all_lem es c in (m, ap (λ o. o >>= λ m. ok (done, m)) d, c, e)

  -- From a map whose list and index are in step, as those of a new map are: any operations succeed
  -- without a panic, and answer as they do on an association list in the order of insertion.
  pub linked_map-run-refines :
      (ops : List (Op K V)) (m : LinkedMap K V)
      → IsCoherent m
      → run ops m ≡ ok (answers ops (entries m))
  unfolding run answers
  linked_map-run-refines [] m c = refl
  linked_map-run-refines (op ∷ ops) m c =
      let (m', d, c', e) = call_lem op c in
      ap (λ o. o >>= λ x. run ops x.1 >>= λ rs. ok (x.0 ∷ rs)) d
      ∙ ap (λ o. o >>= λ rs. ok ((answer op (entries m)).0 ∷ rs)) (linked_map-run-refines ops m' c')
      ∙ ap (λ es. ok ((answer op (entries m)).0 ∷ answers ops es)) e
