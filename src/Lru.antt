-- ===== src/Lru.antt =====
-- common/cache/lrucache.go: a cache of recently used entries, that may also expire.
pub mod Recent
pub mod Shows
pub mod Parts
pub mod Calls
pub mod Refines
pub mod Clears
pub mod Bounds
mod Tests
use sing.Common.{
  zero, suc, ℕ, ◌+◌, Bool, true, false, not, ◌&&◌, List, [], ◌∷◌, ◌++◌, Option, none, some, length,
  map, ltb, leb, ◌==◌, if◌then◌else◌,
}
use sing.Common.Outcome.{Outcome, ok, err, panic, ◌>>=◌}
use sing.Linked.{
  Element, Linked, empty, deref, front, next_of, push_back, remove, assign, move_to_back, with_key,
  without_key,
}

pub record Entry (K V : Type 0) : Type 0 where
  pub key : K
  pub value : V
  pub expires : ℕ

-- What the options of `New` set. `evicting` says that there is an `onEvict`.
pub record Settings : Type 0 where
  pub max_age : ℕ
  pub max_size : ℕ
  pub update_age_on_get : Bool
  pub stale_return : Bool
  pub evicting : Bool

-- `evicted` has the arguments of the calls of `onEvict`, in order.
pub record LruCache (K V : Type 0) : Type 0 where
  pub settings : Settings
  pub cache : K → Option ℕ
  pub lru : Linked (Entry K V)
  pub evicted : List (K × V)

pub data Setting : Type 0 where
  with_evict with_update_age_on_get : Setting
  with_age with_size : ℕ → Setting
  with_stale : Bool → Setting

unfoldable pub set : Setting → Settings → Settings
set with_evict s = record s { evicting = true }
set with_update_age_on_get s = record s { update_age_on_get = true }
set (with_age n) s = record s { max_age = n }
set (with_size n) s = record s { max_size = n }
set (with_stale b) s = record s { stale_return = b }

unfoldable pub set_all : List Setting → Settings → Settings
set_all [] s = s
set_all (o ∷ os) s = set_all os (set o s)

abbrev pub no_settings : Settings
no_settings = record {
  max_age = 0;
  max_size = 0;
  update_age_on_get = false;
  stale_return = false;
  evicting = false;
}

-- The seconds that the readings of the clock in a call give, by their place in the code.
abbrev pub Clock : Type 0
Clock = ℕ → ℕ

module _ {K V : Type 0} where
  -- `New`
  pub new_cache : List Setting → LruCache K V
  unfolding set_all
  new_cache options = record {
    settings = set_all options no_settings;
    cache = λ k. none;
    lru = empty;
    evicted = [];
  }

  pub exist : K → LruCache K V → Bool
  exist k c = elim (c.cache k) [ none ↦ false | some _ ↦ true ]

  -- `Range`: the calls of the block, in order.
  pub range : LruCache K V → List (K × V)
  range c = map (λ e. (e.value.key, e.value.value)) c.lru.elements

  abbrev pub expired : Settings → Entry K V → ℕ → Bool
  expired s e now = ltb 0 s.max_age && leb e.expires now

-- The decision of `==` on keys.
module _ {K V : Type 0} (dec : Discrete K) where
  pub delete_element : ℕ → LruCache K V → Outcome (LruCache K V)
  delete_element i c = do
    e ← deref i c.lru
    ok (record c {
      lru = remove i c.lru;
      cache = without_key dec e.key c.cache;
      evicted = if c.settings.evicting then c.evicted ++ ((e.key, e.value) ∷ []) else c.evicted;
    })

  -- The first loop of `maybeDeleteOldest`. Every turn deletes an element, so there are at most as
  -- many as the list has at the start.
  pub delete_expired : ℕ → List (Element (Entry K V)) → LruCache K V → Outcome (LruCache K V)
  unfolding delete_element
  delete_expired now [] c = ok c
  delete_expired now (_ ∷ turns) c = elim (front c.lru) [
    | none ↦ ok c
    | some le ↦ elim (leb le.value.expires now) [
      | true ↦ do c ← delete_element le.id c; delete_expired now turns c
      | false ↦ ok c
    ]
  ]

  pub delete_over : LruCache K V → Outcome (LruCache K V)
  unfolding delete_element
  delete_over c =
      if ltb 0 c.settings.max_size && ltb c.settings.max_size (length c.lru.elements)
      then elim (front c.lru) [ none ↦ panic | some le ↦ delete_element le.id c ]
      else ok c

  pub maybe_delete_oldest : ℕ → LruCache K V → Outcome (LruCache K V)
  unfolding delete_expired delete_over
  maybe_delete_oldest now c = do
    c ←
        if not c.settings.stale_return && ltb 0 c.settings.max_age
        then delete_expired now c.lru.elements c
        else ok c
    delete_over c

  -- A use of an element that is there: the entry as it is then.
  abbrev pub touch : ℕ → ℕ → Entry K V → LruCache K V → Entry K V × LruCache K V
  touch expires i e c =
      let moved : LruCache K V = record c { lru = move_to_back i e c.lru } in
      let aged : Entry K V = record e { expires = expires } in
      if ltb 0 c.settings.max_age && c.settings.update_age_on_get
      then (aged, record moved { lru = assign i aged moved.lru })
      else (e, moved)

  pub get : K → Clock → LruCache K V → Outcome (Option (Entry K V) × LruCache K V)
  unfolding maybe_delete_oldest
  get key now c = elim (c.cache key) [
    | none ↦ ok (none, c)
    | some i ↦ do
      e ← deref i c.lru
      (if not c.settings.stale_return && expired c.settings e (now 0)
          then (do c ← delete_element i c; c ← maybe_delete_oldest (now 1) c; ok (none, c))
          else (do let (e, c) = touch (now 1 + c.settings.max_age) i e c; ok (some e, c)))
  ]

  -- An entry that is set, or comes last.
  abbrev pub put : Entry K V → Entry K V → LruCache K V → Outcome (LruCache K V)
  put old new c = elim (c.cache old.key) [
    | none ↦
        ok (record c { lru = push_back new c.lru; cache = with_key dec new.key c.lru.next c.cache })
    | some i ↦ do
      e ← deref i c.lru
      let moved : LruCache K V = record c { lru = move_to_back i e c.lru }
      ok (record moved {
        lru = assign i (record e { value = old.value; expires = old.expires }) moved.lru;
      })
  ]

  -- From the label `create` of the two calls below on. An entry that is added gets the cache's age.
  pub create : ℕ → K → V → Clock → LruCache K V → Outcome ((V × Bool) × LruCache K V)
  unfolding maybe_delete_oldest
  create age key value now c = do
    c ←
        put (record { key = key; value = value; expires = now 1 + age })
          (record { key = key; value = value; expires = now 1 + c.settings.max_age }) c
    c ← maybe_delete_oldest (now 2) c
    ok ((value, false), c)

  -- What the two calls share: `LoadOrStore` has the cache's age. `value` is what the constructor
  -- returns.
  pub load_or_create : ℕ → K → V → Clock → LruCache K V → Outcome ((V × Bool) × LruCache K V)
  unfolding create delete_element
  load_or_create age key value now c = elim (c.cache key) [
    | none ↦ create age key value now c
    | some i ↦ do
      e ← deref i c.lru
      (if expired c.settings e (now 0)
          then (do c ← delete_element i c; create age key value now c)
          else (do let (e, c) = touch (now 1 + age) i e c; ok ((e.value, true), c)))
  ]

  pub load_or_store : K → V → Clock → LruCache K V → Outcome ((V × Bool) × LruCache K V)
  unfolding load_or_create
  load_or_store key value now c = load_or_create c.settings.max_age key value now c

  pub load_or_store_with_age :
      K → ℕ → V → Clock → LruCache K V → Outcome ((V × Bool) × LruCache K V)
  unfolding load_or_create
  load_or_store_with_age key max_age value now c =
      load_or_create (if max_age == 0 then c.settings.max_age else max_age) key value now c

  pub store_with_expire : K → V → ℕ → Clock → LruCache K V → Outcome (LruCache K V)
  unfolding maybe_delete_oldest
  store_with_expire key value expires now c = do
    let e : Entry K V = record { key = key; value = value; expires = expires }
    c ← put e e c
    maybe_delete_oldest (now 1) c

  pub store : K → V → Clock → LruCache K V → Outcome (LruCache K V)
  unfolding store_with_expire
  store key value now c =
      store_with_expire key value
        (if ltb 0 c.settings.max_age then now 0 + c.settings.max_age else 0) now c

  pub delete : K → LruCache K V → Outcome (LruCache K V)
  unfolding delete_element
  delete key c = elim (c.cache key) [ none ↦ ok c | some i ↦ delete_element i c ]

  -- The loop of `Clear`, for at most so many turns. `none` where they are not enough.
  pub clear_loop : ℕ → Option ℕ → LruCache K V → Option (Outcome (LruCache K V))
  clear_loop _ none c = some (ok c)
  clear_loop zero (some i) c = none
  clear_loop (suc turns) (some i) c = elim (delete_element i c) [
    | ok c ↦ clear_loop turns (next_of i c.lru.elements) c
    | err e ↦ some (err e)
    | panic ↦ some panic
  ]

  pub clear : ℕ → LruCache K V → Option (Outcome (LruCache K V))
  unfolding clear_loop
  clear turns c = clear_loop turns (elim (front c.lru) [ none ↦ none | some le ↦ some le.id ]) c

-- `Load`, with the zero value of the values' type; `LoadWithExpire` also has the entry's time.
module _ {K V : Type 0} (dec : Discrete K) (zero_value : V) where
  abbrev pub value_of : Option (Entry K V) → V × Bool
  value_of none = (zero_value, false)
  value_of (some e) = (e.value, true)

  pub load : K → Clock → LruCache K V → Outcome ((V × Bool) × LruCache K V)
  load key now c = do (e, c) ← get dec key now c; ok (value_of e, c)

  abbrev pub value_until : Option (Entry K V) → V × Option ℕ × Bool
  value_until none = (zero_value, none, false)
  value_until (some e) = (e.value, some e.expires, true)

  pub load_with_expire : K → Clock → LruCache K V → Outcome ((V × Option ℕ × Bool) × LruCache K V)
  load_with_expire key now c = do (e, c) ← get dec key now c; ok (value_until e, c)
