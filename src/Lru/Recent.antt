-- ===== src/Lru/Recent.antt =====
-- What the cache is for its clients: its entries, the least recently used one first, and those that
-- the callback was told of.
use sing.Common.{
  ℕ, ◌+◌, Bool, true, false, not, ◌&&◌, List, [], ◌∷◌, ◌++◌, Option, none, some, length, ltb, leb,
  if◌then◌else◌,
}
use sing.Linked.Index.{find, erase}
use sing.Lru.{Entry, Settings, Clock, expired}

pub record Recent (K V : Type 0) : Type 0 where
  pub items : List (Entry K V)
  pub gone : List (K × V)

-- The same, with the entry `e` told of.
abbrev pub told : {K V : Type 0} → Settings → Entry K V → List (K × V) → List (K × V)
told s e gone = if s.evicting then gone ++ ((e.key, e.value) ∷ []) else gone

-- The entries in front go, up to one that has not expired.
unfoldable pub expire : {K V : Type 0} → Settings → ℕ → List (Entry K V) → List (K × V) → Recent K V
expire s now [] gone = record { items = []; gone = gone }
expire s now (e ∷ es) gone =
    let rest = expire s now es (told s e gone) in
    if leb e.expires now then rest else record { items = e ∷ es; gone = gone }

abbrev pub shrink : {K V : Type 0} → Settings → Recent K V → Recent K V
shrink s r = elim r.items [
  | [] ↦ r
  | e ∷ es ↦
      if ltb 0 s.max_size && ltb s.max_size (length (e ∷ es))
      then record { items = es; gone = told s e r.gone }
      else r
]

abbrev pub trim : {K V : Type 0} → Settings → ℕ → Recent K V → Recent K V
trim s now r =
    shrink s (if not s.stale_return && ltb 0 s.max_age then expire s now r.items r.gone else r)

-- A use of an entry sets its time if the cache does that.
abbrev pub renewed : {K V : Type 0} → Settings → ℕ → Entry K V → Entry K V
renewed s expires e =
    if ltb 0 s.max_age && s.update_age_on_get then record e { expires = expires } else e

module _ {K V : Type 0} (dec : Discrete K) where
  abbrev pub find_entry : K → List (Entry K V) → Option (Entry K V)
  find_entry = find dec (λ e. e.key)

  abbrev pub erase_entry : K → List (Entry K V) → List (Entry K V)
  erase_entry = erase dec (λ e. e.key)

  -- The entry is the last one then.
  abbrev pub renew : Entry K V → Recent K V → Recent K V
  renew e r = record r { items = erase_entry e.key r.items ++ (e ∷ []) }

  abbrev pub forget : K → Settings → Recent K V → Recent K V
  forget k s r = elim (find_entry k r.items) [
    | none ↦ r
    | some e ↦ record { items = erase_entry k r.items; gone = told s e r.gone }
  ]

  abbrev pub recent_get : K → Clock → Settings → Recent K V → Option (Entry K V) × Recent K V
  recent_get k now s r = elim (find_entry k r.items) [
    | none ↦ (none, r)
    | some e ↦
        let e' = renewed s (now 1 + s.max_age) e in
        if not s.stale_return && expired s e (now 0)
        then (none, trim s (now 1) (forget k s r))
        else (some e', renew e' r)
  ]

  abbrev pub recent_put : Entry K V → Entry K V → Recent K V → Recent K V
  recent_put old new r = elim (find_entry old.key r.items) [
    | none ↦ record r { items = r.items ++ (new ∷ []) }
    | some e ↦ renew (record e { value = old.value; expires = old.expires }) r
  ]

  abbrev pub recent_create : ℕ → K → V → Clock → Settings → Recent K V → Recent K V
  recent_create age k v now s r = trim s (now 2) (
      recent_put (record { key = k; value = v; expires = now 1 + age })
        (record { key = k; value = v; expires = now 1 + s.max_age }) r)

  abbrev pub recent_load_or_create :
      ℕ → K → V → Clock → Settings → Recent K V → (V × Bool) × Recent K V
  recent_load_or_create age k v now s r = elim (find_entry k r.items) [
    | none ↦ ((v, false), recent_create age k v now s r)
    | some e ↦
        let e' = renewed s (now 1 + age) e in
        if expired s e (now 0)
        then ((v, false), recent_create age k v now s (forget k s r))
        else ((e'.value, true), renew e' r)
  ]

  abbrev pub recent_store : K → V → ℕ → Clock → Settings → Recent K V → Recent K V
  recent_store k v expires now s r =
      let e : Entry K V = record { key = k; value = v; expires = expires } in
      trim s (now 1) (recent_put e e r)
