-- ===== src/Lru/Refines.antt =====
-- The cache answers as a list of its recent entries does.
use sing.Common.{
  ℕ, ◌+◌, ◌≡◌, refl, ap, sym, ◌∙◌, subst, true, false, not, ◌&&◌, List, [], ◌∷◌, Option, none, some,
  map, ltb, ◌==◌, if◌then◌else◌, arith, Option-cases, Bool-cases, inl, inr,
}
use sing.Common.Outcome.{Outcome, ok, ◌>>=◌}
use sing.Linked.{Element, values}
use sing.Linked.Index.{id_of}
use sing.Lru.{
  Entry, Settings, Setting, LruCache, Clock, expired, touch, get, create, load_or_create,
  load_or_store, load_or_store_with_age, store_with_expire, store, delete, exist, range, load,
  load_with_expire, value_of, value_until, new_cache, set_all, no_settings,
}
use sing.Lru.Recent.{
  Recent, renewed, trim, renew, find_entry, forget, recent_get, recent_create,
  recent_load_or_create, recent_store,
}
use sing.Lru.Shows.{Shows, Becomes, shown_found, shown_missing, delete_element_lem}
use sing.Lru.Parts.{Becomes-bind, maybe_delete_oldest_lem, touch_lem, put_lem}
use sing.Lru.Calls.{
  Op, load_op, load_with_expire_op, exist_op, delete_op, load_or_store_op, store_op,
  load_or_store_with_age_op, store_with_expire_op, range_op, done, flag, loaded, loaded_until,
  ranged, is_some, call, run, loaded_entry, loaded_entry_until, answer, answers,
}

module _ {K V : Type 0} (dec : Discrete K) (zero_value : V) where
  -- A call that returns a value succeeds, and its value and its cache are those of `a`.
  abbrev Returns : {A : Type 0} → Outcome (A × LruCache K V) → Settings → A × Recent K V → Type 0
  Returns o s a = (c : LruCache K V) × (o ≡ ok (a.0, c)) × Shows dec s a.1 c

  -- Its value may be put otherwise.
  Returns-map :
      {A B : Type 0} {o : Outcome (A × LruCache K V)} {s : Settings} {a : A × Recent K V}
      (f : A → B)
      → Returns o s a
      → Returns (o >>= λ x. ok (f x.0, x.1)) s (f a.0, a.1)
  Returns-map f (c, d, h) = (c, ap (λ o. o >>= λ x. ok (f x.0, x.1)) d, h)

  Becomes-Returns :
      {A : Type 0} {o : Outcome (LruCache K V)} {s : Settings} {r : Recent K V} (a : A)
      → Becomes dec o s r
      → Returns (o >>= λ c. ok (a, c)) s (a, r)
  Becomes-Returns a (c, d, h) = (c, ap (λ o. o >>= λ c. ok (a, c)) d, h)

  Returns-at :
      {A : Type 0} {o : Outcome (A × LruCache K V)} {s : Settings} {a b : A × Recent K V}
      → b ≡ a
      → Returns o s a
      → Returns o s b
  Returns-at {o = o} {s} e h = subst (Returns o s) (sym e) h

  get_lem :
      (k : K) (now : Clock) {s : Settings} {r : Recent K V} {c : LruCache K V}
      → Shows dec s r c
      → Returns (get dec k now c) s (recent_get dec k now s r)
  unfolding get
  get_lem k now {s} {r} {c} h = elim (Option-cases (c.cache k)) [
    | inl p ↦
        Returns-at {a = (none, r)} (ground (arith, shown_missing dec h k p))
          (c, ground (arith, p), h)
    | inr (i, p) ↦
        let (e, d, q, f) = shown_found dec h k i p in
        elim (Bool-cases (not s.stale_return && expired s e (now 0))) [
          | inl old ↦
              let (c1, d1, h1, _) = delete_element_lem dec h k i p in
              let (c2, d2, h2) = maybe_delete_oldest_lem dec (now 1) h1 in
              Returns-at {a = (none, trim s (now 1) (forget dec k s r))} (ground (arith, f, old))
                (c2, ground (arith, p, d, old, h.options, d1, d2), h2)
          | inr new ↦
              let (v, h') = touch_lem dec (now 1 + s.max_age) k i e h p q in
              Returns-at
                {a = (
                  some (renewed s (now 1 + s.max_age) e),
                  renew dec (renewed s (now 1 + s.max_age) e) r,
                )}
                (ground (arith, f, new))
                (
                  (touch dec (now 1 + s.max_age) i e c).1,
                  ground (arith, p, d, new, h.options, v),
                  h',
                )
        ]
  ]

  create_lem :
      (age : ℕ) (k : K) (v : V) (now : Clock) {s : Settings} {r : Recent K V} {c : LruCache K V}
      → Shows dec s r c
      → Returns (create dec age k v now c) s ((v, false), recent_create dec age k v now s r)
  unfolding create
  create_lem age k v now {s} {r} {c} h =
      let (c1, d1, h1) =
        put_lem dec (record { key = k; value = v; expires = now 1 + age })
          (record { key = k; value = v; expires = now 1 + s.max_age }) h refl in
      let (c2, d2, h2) = maybe_delete_oldest_lem dec (now 2) h1 in
      (c2, ground (arith, h.options, d1, d2), h2)

  load_or_create_lem :
      (age : ℕ) (k : K) (v : V) (now : Clock) {s : Settings} {r : Recent K V} {c : LruCache K V}
      → Shows dec s r c
      → Returns (load_or_create dec age k v now c) s (recent_load_or_create dec age k v now s r)
  unfolding load_or_create
  load_or_create_lem age k v now {s} {r} {c} h = elim (Option-cases (c.cache k)) [
    | inl p ↦
        let (c1, d1, h1) = create_lem age k v now h in
        Returns-at {a = ((v, false), recent_create dec age k v now s r)}
          (ground (arith, shown_missing dec h k p)) (c1, ground (arith, p, d1), h1)
    | inr (i, p) ↦
        let (e, d, q, f) = shown_found dec h k i p in
        elim (Bool-cases (expired s e (now 0))) [
          | inl old ↦
              let (c1, d1, h1, _) = delete_element_lem dec h k i p in
              let (c2, d2, h2) = create_lem age k v now h1 in
              Returns-at {a = ((v, false), recent_create dec age k v now s (forget dec k s r))}
                (ground (arith, f, old)) (c2, ground (arith, p, d, old, h.options, d1, d2), h2)
          | inr new ↦
              let (w, h') = touch_lem dec (now 1 + age) k i e h p q in
              Returns-at
                {a = (
                  ((renewed s (now 1 + age) e).value, true),
                  renew dec (renewed s (now 1 + age) e) r,
                )}
                (ground (arith, f, new))
                ((touch dec (now 1 + age) i e c).1, ground (arith, p, d, new, h.options, w), h')
        ]
  ]

  store_with_expire_lem :
      (k : K) (v : V) (t : ℕ) (now : Clock) {s : Settings} {r : Recent K V} {c : LruCache K V}
      → Shows dec s r c
      → Becomes dec (store_with_expire dec k v t now c) s (recent_store dec k v t now s r)
  unfolding store_with_expire
  store_with_expire_lem k v t now h =
      Becomes-bind dec
        (put_lem dec (record { key = k; value = v; expires = t })
          (record { key = k; value = v; expires = t }) h refl)
        (λ c h. maybe_delete_oldest_lem dec (now 1) h)

  delete_lem :
      (k : K) {s : Settings} {r : Recent K V} {c : LruCache K V}
      → Shows dec s r c
      → Becomes dec (delete dec k c) s (forget dec k s r)
  unfolding delete
  delete_lem k {s} {r} {c} h = elim (Option-cases (c.cache k)) [
    | inl p ↦ (
      c,
      ground (arith, p),
      subst (λ x. Shows dec s x c) (ground (arith, shown_missing dec h k p)) h,
    )
    | inr (i, p) ↦
        let (c1, d1, h1, _) = delete_element_lem dec h k i p in (c1, ground (arith, p, d1), h1)
  ]

  exist_lem :
      (k : K) {s : Settings} {r : Recent K V} {c : LruCache K V}
      → Shows dec s r c
      → exist k c ≡ is_some (find_entry dec k r.items)
  unfolding exist
  exist_lem k {s} {r} {c} h = elim (Option-cases (c.cache k)) [
    | inl p ↦ ground (arith, p, shown_missing dec h k p)
    | inr (i, p) ↦ let (e, d, q, f) = shown_found dec h k i p in ground (arith, p, f)
  ]

  range_values :
      (es : List (Element (Entry K V)))
      → map {B = K × V} (λ e. (e.value.key, e.value.value)) es
        ≡ map (λ e. (e.key, e.value)) (values es)
  unfolding values
  range_values [] = refl
  range_values (e ∷ es) = ap (◌∷◌ (e.value.key, e.value.value)) (range_values es)

  loaded-value_of :
      (o : Option (Entry K V))
      → loaded (value_of dec zero_value o).0 (value_of dec zero_value o).1
        ≡ loaded_entry dec zero_value o
  loaded-value_of none = refl
  loaded-value_of (some e) = refl

  loaded-value_until :
      (o : Option (Entry K V))
      → (let v = value_until dec zero_value o in loaded_until v.0 v.1 v.2)
        ≡ loaded_entry_until dec zero_value o
  loaded-value_until none = refl
  loaded-value_until (some e) = refl

  pub call_lem :
      (op : Op K V) (now : Clock) {s : Settings} {r : Recent K V} {c : LruCache K V}
      → Shows dec s r c
      → Returns (call dec zero_value op now c) s (answer dec zero_value op now s r)
  unfolding call answer load load_with_expire load_or_store load_or_store_with_age store range
  call_lem (load_op k) now {s} {r} {c} h =
      Returns-at (ap (λ x. (x, (recent_get dec k now s r).1)) (sym (loaded-value_of _))) (
        Returns-map (λ x. loaded x.0 x.1) (Returns-map (value_of dec zero_value) (get_lem k now h)))
  call_lem (load_with_expire_op k) now {s} {r} {c} h =
      Returns-at (ap (λ x. (x, (recent_get dec k now s r).1)) (sym (loaded-value_until _))) (
        Returns-map (λ x. loaded_until x.0 x.1 x.2)
          (Returns-map (value_until dec zero_value) (get_lem k now h)))
  call_lem (exist_op k) now {s} {r} {c} h = (c, ap (λ b. ok (flag b, c)) (exist_lem k h), h)
  call_lem (delete_op k) now h = Becomes-Returns done (delete_lem k h)
  call_lem (load_or_store_op k v) now {s} {r} {c} h =
      Returns-map (λ x. loaded x.0 x.1)
        (subst
          (λ t.
            Returns (load_or_create dec t.max_age k v now c) s
              (recent_load_or_create dec s.max_age k v now s r))
          (sym h.options) (load_or_create_lem s.max_age k v now h))
  call_lem (store_op k v) now {s} {r} {c} h = Becomes-Returns done (
      subst
        (λ t.
          Becomes dec
            (store_with_expire dec k v (if ltb 0 t.max_age then now 0 + t.max_age else 0) now c) s
            (recent_store dec k v (if ltb 0 s.max_age then now 0 + s.max_age else 0) now s r))
        (sym h.options)
        (store_with_expire_lem k v (if ltb 0 s.max_age then now 0 + s.max_age else 0) now h))
  call_lem (load_or_store_with_age_op k age v) now {s} {r} {c} h =
      Returns-map (λ x. loaded x.0 x.1)
        (subst
          (λ t.
            Returns (load_or_create dec (if age == 0 then t.max_age else age) k v now c) s
              (recent_load_or_create dec (if age == 0 then s.max_age else age) k v now s r))
          (sym h.options) (load_or_create_lem (if age == 0 then s.max_age else age) k v now h))
  call_lem (store_with_expire_op k v t) now h =
      Becomes-Returns done (store_with_expire_lem k v t now h)
  call_lem range_op now {s} {r} {c} h = (
    c,
    ap (λ x. ok (ranged x, c))
        (range_values c.lru.elements ∙ ap (map (λ e. (e.key, e.value))) h.items),
    h,
  )

  -- Where the cache's map and list are in step and stand for the entries of `r`, with the options `s`,
  -- as those of a new cache stand for none: any calls, at any readings of the clock, succeed without a panic, and answer
  -- as the list of the recent entries does.
  pub lru-run-refines :
      (ops : List (Op K V × Clock)) (s : Settings) (r : Recent K V) (c : LruCache K V)
      → Shows dec s r c
      → run dec zero_value ops c ≡ ok (answers dec zero_value ops s r)
  unfolding run answers
  lru-run-refines [] s r c h = refl
  lru-run-refines ((op, now) ∷ ops) s r c h =
      let (c', d, h') = call_lem op now h in
      ap (λ o. o >>= λ x. run dec zero_value ops x.1 >>= λ rs. ok (x.0 ∷ rs)) d
      ∙ ap (λ o. o >>= λ rs. ok ((answer dec zero_value op now s r).0 ∷ rs))
          (lru-run-refines ops s (answer dec zero_value op now s r).1 c' h')

  abbrev pub no_entries : Recent K V
  no_entries = record { items = []; gone = [] }

  pub new_cache-Shows :
      (options : List Setting)
      → Shows dec (set_all options no_settings) no_entries (new_cache options)
  unfolding new_cache id_of values
  new_cache-Shows options = record {
    coherent = record { indexed = λ k. refl; distinct = tt; fresh = tt };
    options = refl;
    items = refl;
    gone = refl;
  }
