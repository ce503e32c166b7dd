-- ===== src/LinkedHashMap.antt =====
-- common/x/linkedhashmap: a map that keeps the order in which its keys came.
pub mod Refines
mod Tests
use sing.Common.{ℕ, Bool, true, false, List, [], ◌∷◌, Option, none, some, length, map, ◌==◌}
use sing.Common.Outcome.{Outcome, ok, err, panic, ◌>>=◌}
use sing.Linked.{Linked, empty, values, deref, push_back, remove, assign, with_key, without_key}

-- `collections.MapEntry`
pub record MapEntry (K V : Type 0) : Type 0 where
  pub key : K
  pub value : V

-- `raw_map` stands for the Go map, and for a nil one, which `init` replaces before any use.
pub record LinkedMap (K V : Type 0) : Type 0 where
  pub raw : Linked (MapEntry K V)
  pub raw_map : K → Option ℕ

module _ {K V : Type 0} where
  -- The zero value of the type.
  pub new_map : LinkedMap K V
  new_map = record { raw = empty; raw_map = λ k. none }

  pub entries : LinkedMap K V → List (MapEntry K V)
  entries m = values m.raw.elements

  pub size : LinkedMap K V → ℕ
  size m = length m.raw.elements

  pub is_empty : LinkedMap K V → Bool
  unfolding size
  is_empty m = size m == 0

  pub keys : LinkedMap K V → List K
  keys m = map (λ e. e.value.key) m.raw.elements

  pub values_of : LinkedMap K V → List V
  values_of m = map (λ e. e.value.value) m.raw.elements

  pub clear : LinkedMap K V → LinkedMap K V
  clear m = new_map

  pub contains_key : K → LinkedMap K V → Bool
  contains_key k m = elim (m.raw_map k) [ none ↦ false | some _ ↦ true ]

-- The decision of `==` on keys, and the zero value of the values' type.
module _ {K V : Type 0} (dec : Discrete K) (zero_value : V) where
  pub get : K → LinkedMap K V → Outcome (V × Bool)
  get k m = elim (m.raw_map k) [
    | none ↦ ok (zero_value, false)
    | some i ↦ do e ← deref i m.raw; ok (e.value, true)
  ]

  abbrev pub add : MapEntry K V → LinkedMap K V → LinkedMap K V
  add e m = record { raw = push_back e m.raw; raw_map = with_key dec e.key m.raw.next m.raw_map }

  pub put : K → V → LinkedMap K V → Outcome (V × LinkedMap K V)
  put k v m = elim (m.raw_map k) [
    | none ↦ ok (zero_value, add (record { key = k; value = v }) m)
    | some i ↦ do
      e ← deref i m.raw
      ok (e.value, record m { raw = assign i (record e { value = v }) m.raw })
  ]

  pub remove_key : K → LinkedMap K V → Outcome (Bool × LinkedMap K V)
  remove_key k m = elim (m.raw_map k) [
    | none ↦ ok (false, m)
    | some i ↦ ok (true, record { raw = remove i m.raw; raw_map = without_key dec k m.raw_map })
  ]

  -- One turn of the loop of `PutAll`.
  pub put_item : MapEntry K V → LinkedMap K V → Outcome (LinkedMap K V)
  put_item item m = elim (m.raw_map item.key) [
    | none ↦ ok (add item m)
    | some i ↦ do
      e ← deref i m.raw
      ok (record m { raw = assign i (record e { value = item.value }) m.raw })
  ]

  -- `PutAll`, of the other map's entries.
  pub put_all : List (MapEntry K V) → LinkedMap K V → Outcome (LinkedMap K V)
  unfolding put_item
  put_all [] m = ok m
  put_all (item ∷ items) m = do m ← put_item item m; put_all items m
