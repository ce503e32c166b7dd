-- ===== src/Lru/Bounds.antt =====
-- The number of entries of a cache.
use sing.Common.{
  ℕ, ◌+◌, ◌≤◌, ◌<◌, ◌≡◌, refl, ap, ◌∙◌, not, ◌&&◌, List, [], ◌∷◌, some, length, ltb, if◌then◌else◌,
  arith, length-append, Option-cases, Bool-cases, inl, inr,
}
use sing.Common.Outcome.{Outcome, ok, ◌>>=◌}
use sing.Linked.Index.{find, erase}
use sing.Lru.{Entry, Settings, Setting, LruCache, Clock, expired, new_cache, set_all, no_settings}
use sing.Lru.Recent.{
  Recent, told, expire, shrink, trim, renewed, find_entry, erase_entry, renew, forget, recent_get,
  recent_put, recent_create, recent_load_or_create, recent_store,
}
use sing.Lru.Shows.{Shows}
use sing.Lru.Parts.{length-values}
use sing.Lru.Calls.{
  Op, load_op, load_with_expire_op, exist_op, delete_op, load_or_store_op, store_op,
  load_or_store_with_age_op, store_with_expire_op, range_op, call, answer,
}
use sing.Lru.Refines.{call_lem, new_cache-Shows, no_entries}

module _ {K V : Type 0} (dec : Discrete K) where
  length-erase_le : (k : K) (es : List (Entry K V)) → length (erase_entry dec k es) ≤ length es
  unfolding erase
  length-erase_le k [] = omega arith
  length-erase_le k (e ∷ es) = ground (arith, length-erase_le k es)

  length-erase_found :
      (k : K) (e : Entry K V) (es : List (Entry K V))
      → find_entry dec k es ≡ some e
      → length (erase_entry dec k es) + 1 ≡ length es
  unfolding find erase
  length-erase_found k e [] h = cc
  length-erase_found k e (f ∷ es) h = ground (arith, length-erase_found k e es)

  length-expire_le :
      (s : Settings) (now : ℕ) (es : List (Entry K V)) (gone : List (K × V))
      → length (expire s now es gone).items ≤ length es
  unfolding expire
  length-expire_le s now [] gone = omega arith
  length-expire_le s now (e ∷ es) gone = ground (arith, length-expire_le s now es (told s e gone))

  -- A cache of a bounded size has at most that many entries.
  abbrev Bounded : Settings → Recent K V → Type 0
  Bounded s r = length r.items ≤ s.max_size

  Bounded-at : (s : Settings) (q r : Recent K V) → q ≡ r → Bounded s q → Bounded s r
  Bounded-at s q r e h = omega (arith, h, ap (λ r. length r.items) e)

  shrink-Bounded :
      (s : Settings) (r : Recent K V)
      → 0 < s.max_size
      → length r.items ≤ s.max_size + 1
      → Bounded s (shrink s r)
  shrink-Bounded s r p h = ground arith

  trim-Bounded :
      (s : Settings) (now : ℕ) (r : Recent K V)
      → 0 < s.max_size
      → length r.items ≤ s.max_size + 1
      → Bounded s (trim s now r)
  trim-Bounded s now r p h =
      shrink-Bounded s
        (if not s.stale_return && ltb 0 s.max_age then expire s now r.items r.gone else r) p
        (ground (arith, h, length-expire_le s now r.items r.gone))

  forget_le :
      (k : K) (s : Settings) (r : Recent K V) → length (forget dec k s r).items ≤ length r.items
  forget_le k s r = ground (arith, length-erase_le k r.items)

  put_le :
      (old new : Entry K V) (r : Recent K V)
      → length (recent_put dec old new r).items ≤ length r.items + 1
  put_le old new r = elim (Option-cases (find_entry dec old.key r.items)) [
    | inl p ↦ ground (arith, p, length-append r.items (new ∷ []))
    | inr (e, p) ↦ ground (
      arith,
      p,
      length-erase_le e.key r.items,
      length-append (erase_entry dec e.key r.items)
          (record e { value = old.value; expires = old.expires } ∷ []),
    )
  ]

  find_key :
      (k : K) (e : Entry K V) (es : List (Entry K V)) → find_entry dec k es ≡ some e → e.key ≡ k
  unfolding find
  find_key k e [] h = cc
  find_key k e (f ∷ es) h = ground (arith, find_key k e es)

  -- A use keeps the number of entries.
  renew_le :
      (k : K) (e w : Entry K V) (r : Recent K V)
      → find_entry dec k r.items ≡ some e
      → w.key ≡ e.key
      → length (renew dec w r).items ≤ length r.items
  renew_le k e w r h q =
      let l = length-append (erase_entry dec w.key r.items) (w ∷ []) in
      let n = length-erase_found k e r.items h in
      let same : erase_entry dec w.key r.items ≡ erase_entry dec k r.items =
        ap (λ k. erase_entry dec k r.items) (q ∙ find_key k e r.items h) in
      omega (arith, l, n, ap length same)

  create-Bounded :
      (age : ℕ) (k : K) (v : V) (now : Clock) (s : Settings) (r : Recent K V)
      → 0 < s.max_size
      → Bounded s r
      → Bounded s (recent_create dec age k v now s r)
  create-Bounded age k v now s r p h =
      let old : Entry K V = record { key = k; value = v; expires = now 1 + age } in
      let new : Entry K V = record { key = k; value = v; expires = now 1 + s.max_age } in
      trim-Bounded s (now 2) (recent_put dec old new r) p (omega (arith, h, put_le old new r))

  renewed_key : (s : Settings) (t : ℕ) (e : Entry K V) → (renewed s t e).key ≡ e.key
  renewed_key s t e = ground arith

  get-Bounded :
      (k : K) (now : Clock) (s : Settings) (r : Recent K V)
      → 0 < s.max_size
      → Bounded s r
      → Bounded s (recent_get dec k now s r).1
  get-Bounded k now s r p h = elim (Option-cases (find_entry dec k r.items)) [
    | inl q ↦ ground (arith, q)
    | inr (e, q) ↦
        let l = renew_le k e (renewed s (now 1 + s.max_age) e) r q (renewed_key s _ e) in
        let t = trim-Bounded s (now 1) (forget dec k s r) p (omega (arith, h, forget_le k s r)) in
        let fits : Bounded s (renew dec (renewed s (now 1 + s.max_age) e) r) =
          omega (arith, l, h) in
        elim (Bool-cases (not s.stale_return && expired s e (now 0))) [
          | inl old ↦
              Bounded-at s (trim s (now 1) (forget dec k s r)) (recent_get dec k now s r).1
                (ground (arith, q, old)) t
          | inr new ↦
              Bounded-at s (renew dec (renewed s (now 1 + s.max_age) e) r)
                (recent_get dec k now s r).1 (ground (arith, q, new)) fits
        ]
  ]

  load_or_create-Bounded :
      (age : ℕ) (k : K) (v : V) (now : Clock) (s : Settings) (r : Recent K V)
      → 0 < s.max_size
      → Bounded s r
      → Bounded s (recent_load_or_create dec age k v now s r).1
  load_or_create-Bounded age k v now s r p h = elim (Option-cases (find_entry dec k r.items)) [
    | inl q ↦
        Bounded-at s (recent_create dec age k v now s r)
          (recent_load_or_create dec age k v now s r).1 (ground (arith, q))
          (create-Bounded age k v now s r p h)
    | inr (e, q) ↦
        let l = renew_le k e (renewed s (now 1 + age) e) r q (renewed_key s _ e) in
        let fewer : Bounded s (forget dec k s r) = omega (arith, h, forget_le k s r) in
        let fits : Bounded s (renew dec (renewed s (now 1 + age) e) r) = omega (arith, l, h) in
        elim (Bool-cases (expired s e (now 0))) [
          | inl old ↦
              Bounded-at s (recent_create dec age k v now s (forget dec k s r))
                (recent_load_or_create dec age k v now s r).1 (ground (arith, q, old))
                (create-Bounded age k v now s (forget dec k s r) p fewer)
          | inr new ↦
              Bounded-at s (renew dec (renewed s (now 1 + age) e) r)
                (recent_load_or_create dec age k v now s r).1 (ground (arith, q, new)) fits
        ]
  ]

  store-Bounded :
      (k : K) (v : V) (t : ℕ) (now : Clock) (s : Settings) (r : Recent K V)
      → 0 < s.max_size
      → Bounded s r
      → Bounded s (recent_store dec k v t now s r)
  store-Bounded k v t now s r p h =
      let e : Entry K V = record { key = k; value = v; expires = t } in
      trim-Bounded s (now 1) (recent_put dec e e r) p (omega (arith, h, put_le e e r))

  module _ (zero_value : V) where
    answer-Bounded :
        (op : Op K V) (now : Clock) (s : Settings) (r : Recent K V)
        → 0 < s.max_size
        → Bounded s r
        → Bounded s (answer dec zero_value op now s r).1
    unfolding answer
    answer-Bounded (load_op k) now s r p h = get-Bounded k now s r p h
    answer-Bounded (load_with_expire_op k) now s r p h = get-Bounded k now s r p h
    answer-Bounded (exist_op k) now s r p h = h
    answer-Bounded (delete_op k) now s r p h = omega (arith, h, forget_le k s r)
    answer-Bounded (load_or_store_op k v) now s r p h = load_or_create-Bounded _ k v now s r p h
    answer-Bounded (store_op k v) now s r p h = store-Bounded k v _ now s r p h
    answer-Bounded (load_or_store_with_age_op k age v) now s r p h =
        load_or_create-Bounded _ k v now s r p h
    answer-Bounded (store_with_expire_op k v t) now s r p h = store-Bounded k v t now s r p h
    answer-Bounded range_op now s r p h = h

    -- The cache after the calls.
    abbrev pub after : List (Op K V × Clock) → LruCache K V → Outcome (LruCache K V)
    after [] c = ok c
    after ((op, now) ∷ ops) c = do (_, c) ← call dec zero_value op now c; after ops c

    after-Bounded :
        (ops : List (Op K V × Clock)) (s : Settings) (r : Recent K V) (c : LruCache K V)
        → 0 < s.max_size
        → Bounded s r
        → Shows dec s r c
        → (c' : LruCache K V) × (after ops c ≡ ok c') × (length c'.lru.elements ≤ s.max_size)
    after-Bounded [] s r c p b h =
        (c, refl, omega (arith, b, length-values c.lru.elements, ap length h.items))
    after-Bounded ((op, now) ∷ ops) s r c p b h =
        let (c1, d, h1) = call_lem dec zero_value op now h in
        let (c2, d2, l) =
          after-Bounded ops s (answer dec zero_value op now s r).1 c1 p
            (answer-Bounded op now s r p b) h1 in
        (c2, ap (λ o. o >>= λ x. after ops x.1) d ∙ d2, l)

    -- A new cache with a bound on its size, of at least one, keeps it: any calls on it, at any readings
    -- of the clock, succeed without a panic, and leave at most that many entries.
    pub lru_bounded_lem :
        (options : List Setting) (ops : List (Op K V × Clock))
        → 0 < (set_all options no_settings).max_size
        → (c : LruCache K V) × (after ops (new_cache options) ≡ ok c)
          × (length c.lru.elements ≤ (set_all options no_settings).max_size)
    lru_bounded_lem options ops p =
        after-Bounded ops (set_all options no_settings) (no_entries dec zero_value)
          (new_cache options) p (omega arith) (new_cache-Shows dec zero_value options)
