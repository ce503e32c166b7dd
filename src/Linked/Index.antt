-- ===== src/Linked/Index.antt =====
-- A list of elements with different keys, and the map from their keys to them. Through the map, the
-- list is used like an association list.
use sing.Common.{ℕ, ◌<◌, ◌≢◌, ◌≡◌, refl, ap, List, [], ◌∷◌, ◌++◌, Option, none, some, arith}
use sing.Linked.{Element, values, value_at, without, with_value}
use mathlib.Core.Logic.{ite}

abbrev pub Below {ℓ} : {A : Type ℓ} → ℕ → List (Element A) → Type ℓ
Below n [] = Unit
Below n (e ∷ es) = (e.id < n) × Below n es

module _ {K A : Type 0} (dec : Discrete K) (key : A → K) where
  -- The association list: the first value with a key, and the list without it or with another.
  unfoldable pub find : K → List A → Option A
  find k [] = none
  find k (v ∷ vs) = ite (dec (key v) k) (some v) (find k vs)

  unfoldable pub erase : K → List A → List A
  erase k [] = []
  erase k (v ∷ vs) = ite (dec (key v) k) vs (v ∷ erase k vs)

  unfoldable pub replace : K → A → List A → List A
  replace k w [] = []
  replace k w (v ∷ vs) = ite (dec (key v) k) (w ∷ vs) (v ∷ replace k w vs)

  unfoldable pub id_of : K → List (Element A) → Option ℕ
  id_of k [] = none
  id_of k (e ∷ es) = ite (dec (key e.value) k) (some e.id) (id_of k es)

  -- Neither a key nor an identity is there twice.
  abbrev pub Distinct : List (Element A) → Type 0
  Distinct [] = Unit
  Distinct (e ∷ es) = (id_of (key e.value) es ≡ none) × (value_at e.id es ≡ none) × Distinct es

  pub find-none : (k : K) (es : List (Element A)) → id_of k es ≡ none → find k (values es) ≡ none
  unfolding find id_of values
  find-none k [] h = refl
  find-none k (e ∷ es) h = ground (arith, find-none k es)

  pub id_of-value_at :
      (k : K) (i : ℕ) (es : List (Element A))
      → Distinct es
      → id_of k es ≡ some i
      → (v : A) × (value_at i es ≡ some v) × (key v ≡ k) × (find k (values es) ≡ some v)
  unfolding find id_of values value_at
  id_of-value_at k i [] d h = cc
  id_of-value_at k i (e ∷ es) d h = elim (dec (key e.value) k) [
    | yes p ↦ (e.value, ground arith, p, ground arith)
    | no p ↦
        let (v, a, b, c) = id_of-value_at k i es d.2 (ground arith) in
        (v, ground arith, b, ground arith)
  ]

  pub values_append : (es fs : List (Element A)) → values (es ++ fs) ≡ values es ++ values fs
  unfolding values
  values_append [] fs = refl
  values_append (e ∷ es) fs = ap (◌∷◌ e.value) (values_append es fs)

  pub values-without :
      (k : K) (i : ℕ) (es : List (Element A))
      → Distinct es
      → id_of k es ≡ some i
      → values (without i es) ≡ erase k (values es)
  unfolding erase id_of values without
  values-without k i [] d h = refl
  values-without k i (e ∷ es) d h = elim (dec (key e.value) k) [
    | yes p ↦ ground arith
    | no p ↦
        let (v, a, _, _) = id_of-value_at k i es d.2 (ground arith) in
        ground (arith, a, d.1, values-without k i es d.2)
  ]

  pub values-with_value :
      (k : K) (i : ℕ) (w : A) (es : List (Element A))
      → Distinct es
      → id_of k es ≡ some i
      → values (with_value i w es) ≡ replace k w (values es)
  unfolding replace id_of values with_value
  values-with_value k i w [] d h = refl
  values-with_value k i w (e ∷ es) d h = elim (dec (key e.value) k) [
    | yes p ↦ ground arith
    | no p ↦
        let (v, a, _, _) = id_of-value_at k i es d.2 (ground arith) in
        ground (arith, a, d.1, values-with_value k i w es d.2)
  ]

  pub id_of-none-without :
      (q : K) (i : ℕ) (es : List (Element A)) → id_of q es ≡ none → id_of q (without i es) ≡ none
  unfolding id_of without
  id_of-none-without q i [] h = refl
  id_of-none-without q i (e ∷ es) h = ground (arith, id_of-none-without q i es)

  value_at-none-without :
      (j i : ℕ) (es : List (Element A)) → value_at j es ≡ none → value_at j (without i es) ≡ none
  unfolding value_at without
  value_at-none-without j i [] h = refl
  value_at-none-without j i (e ∷ es) h = ground (arith, value_at-none-without j i es)

  pub without-Distinct : (i : ℕ) (es : List (Element A)) → Distinct es → Distinct (without i es)
  unfolding without
  without-Distinct i [] d = d
  without-Distinct i (e ∷ es) d = ground (
    arith,
    without-Distinct i es d.2,
    id_of-none-without (key e.value) i es d.0,
    value_at-none-without e.id i es d.1,
  )

  pub id_of-without :
      (k q : K) (i : ℕ) (es : List (Element A))
      → Distinct es
      → id_of k es ≡ some i
      → id_of q (without i es) ≡ ite (dec k q) none (id_of q es)
  unfolding id_of without
  id_of-without k q i [] d h = cc
  id_of-without k q i (e ∷ es) d h = elim (dec (key e.value) k) [
    | yes p ↦ ground (arith, d.0)
    | no p ↦
        let (v, a, _, _) = id_of-value_at k i es d.2 (ground arith) in
        ground (arith, a, d.1, id_of-without k q i es d.2)
  ]

  value_at-none-with_value :
      (j i : ℕ) (w : A) (es : List (Element A))
      → value_at j es ≡ none
      → value_at j (with_value i w es) ≡ none
  unfolding value_at with_value
  value_at-none-with_value j i w [] h = refl
  value_at-none-with_value j i w (e ∷ es) h = ground (arith, value_at-none-with_value j i w es)

  pub id_of-with_value :
      (k q : K) (i : ℕ) (w : A) (es : List (Element A))
      → Distinct es
      → id_of k es ≡ some i
      → key w ≡ k
      → id_of q (with_value i w es) ≡ id_of q es
  unfolding id_of with_value
  id_of-with_value k q i w [] d h m = refl
  id_of-with_value k q i w (e ∷ es) d h m = elim (dec (key e.value) k) [
    | yes p ↦ ground arith
    | no p ↦
        let (v, a, _, _) = id_of-value_at k i es d.2 (ground arith) in
        ground (arith, a, d.1, id_of-with_value k q i w es d.2)
  ]

  pub with_value-Distinct :
      (k : K) (i : ℕ) (w : A) (es : List (Element A))
      → Distinct es
      → id_of k es ≡ some i
      → key w ≡ k
      → Distinct (with_value i w es)
  unfolding id_of with_value
  with_value-Distinct k i w [] d h m = d
  with_value-Distinct k i w (e ∷ es) d h m = elim (dec (key e.value) k) [
    | yes p ↦ ground (arith, d.0)
    | no p ↦
        let (v, a, _, _) = id_of-value_at k i es d.2 (ground arith) in
        ground (
          arith,
          a,
          with_value-Distinct k i w es d.2,
          id_of-with_value k (key e.value) i w es d.2,
          value_at-none-with_value e.id i w es d.1,
        )
  ]

  pub id_of-append :
      (q : K) (f : Element A) (es : List (Element A))
      → id_of (key f.value) es ≡ none
      → id_of q (es ++ (f ∷ [])) ≡ ite (dec (key f.value) q) (some f.id) (id_of q es)
  unfolding id_of
  id_of-append q f [] h = refl
  id_of-append q f (e ∷ es) h = ground (arith, id_of-append q f es)

  value_at-none_append :
      (j : ℕ) (f : Element A) (es : List (Element A))
      → value_at j es ≡ none
      → j ≢ f.id
      → value_at j (es ++ (f ∷ [])) ≡ none
  unfolding value_at
  value_at-none_append j f [] h m = ground arith
  value_at-none_append j f (e ∷ es) h m = ground (arith, value_at-none_append j f es)

  pub append-Distinct :
      (f : Element A) (es : List (Element A))
      → Distinct es
      → id_of (key f.value) es ≡ none
      → value_at f.id es ≡ none
      → Distinct (es ++ (f ∷ []))
  unfolding id_of value_at
  append-Distinct f [] d h m = ground arith
  append-Distinct f (e ∷ es) d h m = ground (
    arith,
    append-Distinct f es d.2,
    id_of-append (key e.value) f es,
    value_at-none_append e.id f es d.1,
  )

  pub erase_absent : (k : K) (vs : List A) → find k vs ≡ none → erase k vs ≡ vs
  unfolding find erase
  erase_absent k [] h = refl
  erase_absent k (v ∷ vs) h = ground (arith, erase_absent k vs)
