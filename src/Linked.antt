-- ===== src/Linked.antt =====
-- common/x/list, as the code uses it: a list of elements that are known by their identity. And a map
-- from keys to elements, beside the list.
pub mod Index
pub mod Coherent
use sing.Common.{ℕ, ◌+◌, suc, List, [], ◌∷◌, ◌++◌, Option, none, some, ◌==◌, if◌then◌else◌}
use sing.Common.Outcome.{Outcome, ok, panic}
use mathlib.Core.Logic.{ite}

pub record Element {ℓ} (A : Type ℓ) : Type ℓ where
  pub id : ℕ
  pub value : A

-- The elements from the front, and the identity of the next new one.
pub record Linked {ℓ} (A : Type ℓ) : Type ℓ where
  pub elements : List (Element A)
  pub next : ℕ

module _ {ℓ} {A : Type ℓ} where
  abbrev pub empty : Linked A
  empty = record { elements = []; next = 0 }

  unfoldable pub values : List (Element A) → List A
  values [] = []
  values (e ∷ es) = e.value ∷ values es

  unfoldable pub value_at : ℕ → List (Element A) → Option A
  value_at i [] = none
  value_at i (e ∷ es) = if e.id == i then some e.value else value_at i es

  -- `e.Value`, of a pointer to an element of the list.
  unfoldable pub deref : ℕ → Linked A → Outcome A
  unfolding value_at
  deref i l = elim (value_at i l.elements) [ none ↦ panic | some v ↦ ok v ]

  unfoldable pub without : ℕ → List (Element A) → List (Element A)
  without i [] = []
  without i (e ∷ es) = if e.id == i then es else e ∷ without i es

  unfoldable pub with_value : ℕ → A → List (Element A) → List (Element A)
  with_value i v [] = []
  with_value i v (e ∷ es) = if e.id == i then record e { value = v } ∷ es else e ∷ with_value i v es

  abbrev pub front : Linked A → Option (Element A)
  front l = elim l.elements [ [] ↦ none | e ∷ _ ↦ some e ]

  -- `Next`: none behind the last element, and for one that was removed.
  unfoldable pub next_of : ℕ → List (Element A) → Option ℕ
  next_of i [] = none
  next_of i (e ∷ []) = none
  next_of i (e ∷ f ∷ es) = if e.id == i then some f.id else next_of i (f ∷ es)

  abbrev pub push_back : A → Linked A → Linked A
  push_back v l = record {
    elements = l.elements ++ (record { id = l.next; value = v } ∷ []);
    next = l.next + 1;
  }

  abbrev pub remove : ℕ → Linked A → Linked A
  remove i l = record l { elements = without i l.elements }

  -- An assignment through the pointer.
  abbrev pub assign : ℕ → A → Linked A → Linked A
  assign i v l = record l { elements = with_value i v l.elements }

  -- `MoveToBack` of the element with the value `v`.
  abbrev pub move_to_back : ℕ → A → Linked A → Linked A
  move_to_back i v l = record l {
    elements = without i l.elements ++ (record { id = i; value = v } ∷ []);
  }

-- Go's map from keys to pointers.
module _ {ℓ} {K : Type ℓ} (dec : Discrete K) where
  abbrev pub with_key : K → ℕ → (K → Option ℕ) → K → Option ℕ
  with_key k i m q = ite (dec k q) (some i) (m q)

  abbrev pub without_key : K → (K → Option ℕ) → K → Option ℕ
  without_key k m q = ite (dec k q) none (m q)
