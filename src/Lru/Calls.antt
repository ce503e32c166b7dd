-- ===== src/Lru/Calls.antt =====
-- The calls of a cache, and the same on the list of its recent entries.
use sing.Common.{
  ℕ, ◌+◌, Bool, true, false, List, [], ◌∷◌, Option, none, some, map, ltb, ◌==◌, if◌then◌else◌,
}
use sing.Common.Outcome.{Outcome, ok, ◌>>=◌}
use sing.Lru.{
  Entry, Settings, LruCache, Clock, load_or_store, load_or_store_with_age, store_with_expire, store,
  delete, exist, range, load, load_with_expire,
}
use sing.Lru.Recent.{Recent, find_entry, forget, recent_get, recent_load_or_create, recent_store}

-- What a client can ask of a cache.
pub data Op (K V : Type 0) : Type 0 where
  load_op load_with_expire_op exist_op delete_op : K → Op K V
  load_or_store_op store_op : K → V → Op K V
  load_or_store_with_age_op : K → ℕ → V → Op K V
  store_with_expire_op : K → V → ℕ → Op K V
  range_op : Op K V

-- What it sees.
pub data Reply (K V : Type 0) : Type 0 where
  done : Reply K V
  flag : Bool → Reply K V
  loaded : V → Bool → Reply K V
  loaded_until : V → Option ℕ → Bool → Reply K V
  ranged : List (K × V) → Reply K V

abbrev pub is_some {ℓ} : {A : Type ℓ} → Option A → Bool
is_some none = false
is_some (some a) = true

module _ {K V : Type 0} (dec : Discrete K) (zero_value : V) where
  unfoldable pub call : Op K V → Clock → LruCache K V → Outcome (Reply K V × LruCache K V)
  call (load_op k) now c = do ((v, b), c) ← load dec zero_value k now c; ok (loaded v b, c)
  call (load_with_expire_op k) now c = do
    ((v, t, b), c) ← load_with_expire dec zero_value k now c
    ok (loaded_until v t b, c)
  call (exist_op k) now c = ok (flag (exist k c), c)
  call (delete_op k) now c = do c ← delete dec k c; ok (done, c)
  call (load_or_store_op k v) now c = do
    ((v, b), c) ← load_or_store dec k v now c
    ok (loaded v b, c)
  call (store_op k v) now c = do c ← store dec k v now c; ok (done, c)
  call (load_or_store_with_age_op k age v) now c = do
    ((v, b), c) ← load_or_store_with_age dec k age v now c
    ok (loaded v b, c)
  call (store_with_expire_op k v t) now c = do c ← store_with_expire dec k v t now c; ok (done, c)
  call range_op now c = ok (ranged (range c), c)

  unfoldable pub run : List (Op K V × Clock) → LruCache K V → Outcome (List (Reply K V))
  unfolding call
  run [] c = ok []
  run ((op, now) ∷ ops) c = do (r, c) ← call op now c; rs ← run ops c; ok (r ∷ rs)

  abbrev pub loaded_entry : Option (Entry K V) → Reply K V
  loaded_entry none = loaded zero_value false
  loaded_entry (some e) = loaded e.value true

  abbrev pub loaded_entry_until : Option (Entry K V) → Reply K V
  loaded_entry_until none = loaded_until zero_value none false
  loaded_entry_until (some e) = loaded_until e.value (some e.expires) true

  abbrev pub recent_load : ℕ → K → V → Clock → Settings → Recent K V → Reply K V × Recent K V
  recent_load age k v now s r =
      let a = recent_load_or_create dec age k v now s r in (loaded a.0.0 a.0.1, a.1)

  -- The same on the list of the recent entries.
  unfoldable pub answer : Op K V → Clock → Settings → Recent K V → Reply K V × Recent K V
  answer (load_op k) now s r = let a = recent_get dec k now s r in (loaded_entry a.0, a.1)
  answer (load_with_expire_op k) now s r =
      let a = recent_get dec k now s r in (loaded_entry_until a.0, a.1)
  answer (exist_op k) now s r = (flag (is_some (find_entry dec k r.items)), r)
  answer (delete_op k) now s r = (done, forget dec k s r)
  answer (load_or_store_op k v) now s r = recent_load s.max_age k v now s r
  answer (store_op k v) now s r =
      (done, recent_store dec k v (if ltb 0 s.max_age then now 0 + s.max_age else 0) now s r)
  answer (load_or_store_with_age_op k age v) now s r =
      recent_load (if age == 0 then s.max_age else age) k v now s r
  answer (store_with_expire_op k v t) now s r = (done, recent_store dec k v t now s r)
  answer range_op now s r = (ranged (map (λ e. (e.key, e.value)) r.items), r)

  unfoldable pub answers : List (Op K V × Clock) → Settings → Recent K V → List (Reply K V)
  unfolding answer
  answers [] s r = []
  answers ((op, now) ∷ ops) s r = let (a, r) = answer op now s r in a ∷ answers ops s r
