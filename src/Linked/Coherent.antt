-- ===== src/Linked/Coherent.antt =====
-- A linked list and the map beside it, kept in step.
use sing.Common.{
  ℕ, ◌+◌, ◌≤◌, ◌<◌, ◌≡◌, refl, ap, sym, ◌∙◌, List, [], ◌∷◌, ◌++◌, Option, none, some, arith,
}
use sing.Linked.{
  Element, Linked, values, value_at, deref, without, with_value, push_back, remove, assign,
  move_to_back, with_key, without_key,
}
use sing.Linked.Index.{
  Below, Distinct, find, erase, replace, id_of, find-none, id_of-value_at, values_append,
  values-without, values-with_value, without-Distinct, id_of-without, id_of-with_value,
  with_value-Distinct, id_of-append, append-Distinct,
}
use mathlib.Core.Logic.{ite}
use sing.Common.Outcome.{ok, panic}

below_value_at :
    {A : Type 0} (n j : ℕ) (es : List (Element A)) → Below n es → n ≤ j → value_at j es ≡ none
unfolding value_at
below_value_at n j [] b h = refl
below_value_at n j (e ∷ es) b h = ground (arith, below_value_at n j es b.1)

without-Below : {A : Type 0} (n i : ℕ) (es : List (Element A)) → Below n es → Below n (without i es)
unfolding without
without-Below n i [] b = b
without-Below n i (e ∷ es) b = ground (arith, without-Below n i es b.1)

with_value-Below :
    {A : Type 0} (n i : ℕ) (w : A) (es : List (Element A))
    → Below n es
    → Below n (with_value i w es)
unfolding with_value
with_value-Below n i w [] b = b
with_value-Below n i w (e ∷ es) b = ground (arith, with_value-Below n i w es b.1)

append-Below :
    {A : Type 0} (n m : ℕ) (f : Element A) (es : List (Element A))
    → Below n es
    → n ≤ m
    → f.id < m
    → Below m (es ++ (f ∷ []))
append-Below n m f [] b h k = ground arith
append-Below n m f (e ∷ es) b h k = ground (arith, append-Below n m f es b.1)

value_at_below :
    {A : Type 0} (n i : ℕ) (v : A) (es : List (Element A))
    → Below n es
    → value_at i es ≡ some v
    → i < n
unfolding value_at
value_at_below n i v [] b h = cc
value_at_below n i v (e ∷ es) b h = ground (arith, value_at_below n i v es b.1)

value_at-without :
    {K A : Type 0} (dec : Discrete K) (key : A → K) (i : ℕ) (es : List (Element A))
    → Distinct dec key es
    → value_at i (without i es) ≡ none
unfolding value_at without
value_at-without dec key i [] d = refl
value_at-without dec key i (e ∷ es) d = ground (arith, d.1, value_at-without dec key i es d.2)

module _ {K A : Type 0} (dec : Discrete K) (key : A → K) where
  -- The map finds exactly the keys of the list's values, no key or identity is there twice, and the
  -- next identity is new.
  pub record Coherent (m : K → Option ℕ) (l : Linked A) : Type 0 where
    pub indexed : (k : K) → m k ≡ id_of dec key k l.elements
    pub distinct : Distinct dec key l.elements
    pub fresh : Below l.next l.elements

  module _ {m : K → Option ℕ} {l : Linked A} (c : Coherent m l) where
    pub found :
        (k : K) (i : ℕ)
        → m k ≡ some i
        → (v : A) × (deref i l ≡ ok v) × (key v ≡ k) × (find dec key k (values l.elements) ≡ some v)
    unfolding deref
    found k i h =
        let (v, a, b, f) =
          id_of-value_at dec key k i l.elements c.distinct (sym (c.indexed k) ∙ h) in
        (v, ap (λ o. elim o [ none ↦ panic | some w ↦ ok w ]) a, b, f)

    pub missing : (k : K) → m k ≡ none → find dec key k (values l.elements) ≡ none
    missing k h = find-none dec key k l.elements (sym (c.indexed k) ∙ h)

    pub push_back-Coherent :
        (v : A) → m (key v) ≡ none → Coherent (with_key dec (key v) l.next m) (push_back v l)
    push_back-Coherent v h = record {
      indexed = λ q.
          ap (λ o. ite (dec (key v) q) (some l.next) o) (c.indexed q)
          ∙ sym (id_of-append dec key q (record { id = l.next; value = v }) l.elements absent);
      distinct =
          append-Distinct dec key (record { id = l.next; value = v }) l.elements c.distinct absent
            (below_value_at l.next l.next l.elements c.fresh (omega arith));
      fresh =
          append-Below l.next (l.next + 1) (record { id = l.next; value = v }) l.elements c.fresh
            (omega arith) (omega arith);
    }
      where
        absent : id_of dec key (key v) l.elements ≡ none
        absent = sym (c.indexed (key v)) ∙ h

    pub values-push_back : (v : A) → values (push_back v l).elements ≡ values l.elements ++ (v ∷ [])
    unfolding values
    values-push_back v = values_append dec key l.elements _

    module _ (k : K) (i : ℕ) (h : m k ≡ some i) where
      is : id_of dec key k l.elements ≡ some i
      is = sym (c.indexed k) ∙ h

      pub remove-Coherent : Coherent (without_key dec k m) (remove i l)
      remove-Coherent = record {
        indexed = λ q.
            ap (λ o. ite (dec k q) none o) (c.indexed q)
            ∙ sym (id_of-without dec key k q i l.elements c.distinct is);
        distinct = without-Distinct dec key i l.elements c.distinct;
        fresh = without-Below l.next i l.elements c.fresh;
      }

      pub values-remove : values (remove i l).elements ≡ erase dec key k (values l.elements)
      values-remove = values-without dec key k i l.elements c.distinct is

      module _ (w : A) (e : key w ≡ k) where
        pub assign-Coherent : Coherent m (assign i w l)
        assign-Coherent = record {
          indexed =
              λ q. c.indexed q ∙ sym (id_of-with_value dec key k q i w l.elements c.distinct is e);
          distinct = with_value-Distinct dec key k i w l.elements c.distinct is e;
          fresh = with_value-Below l.next i w l.elements c.fresh;
        }

        pub values-assign : values (assign i w l).elements ≡ replace dec key k w (values l.elements)
        values-assign = values-with_value dec key k i w l.elements c.distinct is

        gone : id_of dec key k (without i l.elements) ≡ none
        gone = id_of-without dec key k k i l.elements c.distinct is ∙ ground arith

        pub move_to_back-Coherent : Coherent m (move_to_back i w l)
        move_to_back-Coherent = record {
          indexed = λ q.
              c.indexed q
              ∙ sym (
                  id_of-append dec key q (record { id = i; value = w }) (without i l.elements)
                    (rw e gone)
                  ∙ ap (λ o. ite (dec (key w) q) (some i) o)
                      (id_of-without dec key k q i l.elements c.distinct is)
                  ∙ again q);
          distinct =
              append-Distinct dec key (record { id = i; value = w }) (without i l.elements)
                (without-Distinct dec key i l.elements c.distinct) (rw e gone)
                (value_at-without dec key i l.elements c.distinct);
          fresh =
              append-Below l.next l.next (record { id = i; value = w }) (without i l.elements)
                (without-Below l.next i l.elements c.fresh) (omega arith) below;
        }
          where
            again :
                (q : K)
                → ite (dec (key w) q) (some i) (ite (dec k q) none (id_of dec key q l.elements))
                  ≡ id_of dec key q l.elements
            again q = ground (arith, is)

            below : i < l.next
            below =
                let (v, a, _, _) = id_of-value_at dec key k i l.elements c.distinct is in
                value_at_below l.next i v l.elements c.fresh a

        pub values-move_to_back :
            values (move_to_back i w l).elements ≡ erase dec key k (values l.elements) ++ (w ∷ [])
        unfolding values
        values-move_to_back =
            values_append dec key (without i l.elements) _ ∙ ap (λ vs. vs ++ (w ∷ [])) values-remove

with_value_append :
    {A : Type 0} (i : ℕ) (v w : A) (es : List (Element A))
    → value_at i es ≡ none
    → with_value i w (es ++ (record { id = i; value = v } ∷ []))
      ≡ es ++ (record { id = i; value = w } ∷ [])
unfolding value_at with_value
with_value_append i v w [] h = ground arith
with_value_append i v w (e ∷ es) h = ground (arith, with_value_append i v w es)

-- A value that is assigned behind a move could have been moved.
pub assign-move_to_back :
    {K A : Type 0} (dec : Discrete K) (key : A → K) {m : K → Option ℕ} {l : Linked A} (i : ℕ)
    (v w : A)
    → Coherent dec key m l
    → assign i w (move_to_back i v l) ≡ move_to_back i w l
assign-move_to_back dec key {l = l} i v w c =
    ap (λ es. record l { elements = es })
      (with_value_append i v w (without i l.elements)
        (value_at-without dec key i l.elements c.distinct))
