-- ===== src/Lru/Parts.antt =====
-- The parts of the cache's calls, on the entries that it shows.
use sing.Common.{
  ℕ, ◌≡◌, refl, ap, ap₂, sym, ◌∙◌, subst, not, ◌&&◌, List, [], ◌∷◌, ◌++◌, some, length, ltb, leb,
  if◌then◌else◌, arith, Option-cases, Bool-cases, inl, inr,
}
use sing.Common.Outcome.{Outcome, ok, ◌>>=◌}
use sing.Linked.{Element, values, push_back, assign, move_to_back, with_key}
use sing.Linked.Coherent.{
  push_back-Coherent, values-push_back, move_to_back-Coherent, values-move_to_back,
  assign-move_to_back,
}
use sing.Lru.{
  Entry, Settings, LruCache, delete_expired, delete_over, maybe_delete_oldest, touch, put,
}
use sing.Lru.Recent.{Recent, expire, shrink, trim, renewed, erase_entry, renew, recent_put}
use sing.Lru.Shows.{Shows, Becomes, shown_found, shown_missing, delete_first}

pub length-values : {A : Type 0} (es : List (Element A)) → length (values es) ≡ length es
unfolding values
length-values [] = refl
length-values (e ∷ es) = omega (arith, length-values es)

module _ {K V : Type 0} (dec : Discrete K) where
  pub Becomes-bind :
      {o : Outcome (LruCache K V)} {f : LruCache K V → Outcome (LruCache K V)} {s : Settings}
      {r q : Recent K V}
      → Becomes dec o s r
      → ((c : LruCache K V) → Shows dec s r c → Becomes dec (f c) s q)
      → Becomes dec (o >>= f) s q
  Becomes-bind {f = f} (c, e, h) k = let (c', e', h') = k c h in (c', ap (λ o. o >>= f) e ∙ e', h')

  delete_expired_lem :
      (now : ℕ) (es : List (Element (Entry K V))) {s : Settings} {r : Recent K V} {c : LruCache K V}
      → Shows dec s r c
      → c.lru.elements ≡ es
      → Becomes dec (delete_expired dec now es c) s (expire s now (values es) r.gone)
  unfolding delete_expired expire values
  delete_expired_lem now [] {c = c} h p = (
    c,
    refl,
    record { coherent = h.coherent; options = h.options; items = ap values p; gone = h.gone },
  )
  delete_expired_lem now (le ∷ es) {s} {r} {c} h p = elim (Bool-cases (leb le.value.expires now)) [
    | inl old ↦
        let (c1, d, h1, q) = delete_first dec h le es p in
        let (c2, d2, h2) = delete_expired_lem now es h1 q in
        (c2, ground (arith, p, old, d, d2), subst (λ x. Shows dec s x c2) (ground (arith, old)) h2)
    | inr new ↦ (
      c,
      ground (arith, p, new),
      record {
        coherent = h.coherent;
        options = h.options;
        items = ap values p ∙ ground (arith, new);
        gone = h.gone ∙ ground (arith, new);
      },
    )
  ]

  delete_over_of :
      (es : List (Element (Entry K V))) {s : Settings} {r : Recent K V} {c : LruCache K V}
      → Shows dec s r c
      → c.lru.elements ≡ es
      → Becomes dec (delete_over dec c) s (shrink s r)
  unfolding delete_over values
  delete_over_of [] {s} {r} {c} h p =
      let none_left : r.items ≡ [] = sym h.items ∙ ap values p in
      (c, ground (arith, p), subst (λ x. Shows dec s x c) (ground (arith, none_left)) h)
  delete_over_of (le ∷ es) {s} {r} {c} h p =
      let first : r.items ≡ le.value ∷ values es = sym h.items ∙ ap values p in
      elim (Bool-cases (ltb 0 s.max_size && ltb s.max_size (length (le ∷ es)))) [
        | inl over ↦
            let (c', d, h', _) = delete_first dec h le es p in
            (
              c',
              ground (arith, p, over, d, h.options),
              subst (λ x. Shows dec s x c') (ground (arith, over, first, length-values es)) h',
            )
        | inr under ↦ (
          c,
          ground (arith, p, under, h.options),
          subst (λ x. Shows dec s x c) (ground (arith, under, first, length-values es)) h,
        )
      ]

  delete_old_lem :
      (now : ℕ) {s : Settings} {r : Recent K V} {c : LruCache K V}
      → Shows dec s r c
      → Becomes dec
          (if not c.settings.stale_return && ltb 0 c.settings.max_age
            then delete_expired dec now c.lru.elements c
            else ok c)
          s
          (if not s.stale_return && ltb 0 s.max_age then expire s now r.items r.gone else r)
  delete_old_lem now {s} {r} {c} h =
      let (c', d, h') = delete_expired_lem now c.lru.elements h refl in
      elim (Bool-cases (not s.stale_return && ltb 0 s.max_age)) [
        | inl old ↦ (
          c',
          ground (arith, old, d, h.options),
          subst (λ x. Shows dec s x c')
              (ap (λ es. expire s now es r.gone) h.items ∙ ground (arith, old)) h',
        )
        | inr new ↦ (
          c,
          ground (arith, new, h.options),
          subst (λ x. Shows dec s x c) (ground (arith, new)) h,
        )
      ]

  pub maybe_delete_oldest_lem :
      (now : ℕ) {s : Settings} {r : Recent K V} {c : LruCache K V}
      → Shows dec s r c
      → Becomes dec (maybe_delete_oldest dec now c) s (trim s now r)
  unfolding maybe_delete_oldest
  maybe_delete_oldest_lem now {s} {r} {c} h =
      Becomes-bind (delete_old_lem now h) (λ c h. delete_over_of c.lru.elements h refl)

  moved_lem :
      (k : K) (i : ℕ) (w : Entry K V) {s : Settings} {r : Recent K V} {c : LruCache K V}
      → Shows dec s r c
      → c.cache k ≡ some i
      → w.key ≡ k
      → Shows dec s (renew dec w r) (record c { lru = move_to_back i w c.lru })
  moved_lem k i w {s} {r} {c} h p q = record {
    coherent = move_to_back-Coherent dec _ h.coherent k i p w q;
    options = h.options;
    items =
        values-move_to_back dec _ h.coherent k i p w q
        ∙ ap₂ (λ k es. erase_entry dec k es ++ (w ∷ [])) (sym q) h.items;
    gone = h.gone;
  }

  assigned_lem :
      (k : K) (i : ℕ) (e w : Entry K V) {s : Settings} {r : Recent K V} {c : LruCache K V}
      → Shows dec s r c
      → c.cache k ≡ some i
      → w.key ≡ k
      → Shows dec s (renew dec w r) (record c { lru = assign i w (move_to_back i e c.lru) })
  assigned_lem k i e w {s} {r} {c} h p q =
      subst (λ l. Shows dec s (renew dec w r) (record c { lru = l }))
        (sym (assign-move_to_back dec _ i e w h.coherent)) (moved_lem k i w h p q)

  -- A use of an entry puts it last, with its time set if the cache does that.
  pub touch_lem :
      (expires : ℕ) (k : K) (i : ℕ) (e : Entry K V) {s : Settings} {r : Recent K V}
      {c : LruCache K V}
      → Shows dec s r c
      → c.cache k ≡ some i
      → e.key ≡ k
      → ((touch dec expires i e c).0 ≡ renewed s expires e)
        × Shows dec s (renew dec (renewed s expires e) r) (touch dec expires i e c).1
  touch_lem expires k i e {s} {r} {c} h p q =
      elim (Bool-cases (ltb 0 s.max_age && s.update_age_on_get)) [
        | inl aged ↦ (
          ground (arith, h.options),
          subst (λ x. Shows dec s (renew dec x r) (touch dec expires i e c).1)
              (ground (arith, aged))
              (subst (λ x. Shows dec s (renew dec (record e { expires = expires }) r) x)
                (ground (arith, aged, h.options))
                (assigned_lem k i e (record e { expires = expires }) h p q)),
        )
        | inr same ↦ (
          ground (arith, h.options),
          subst (λ x. Shows dec s (renew dec x r) (touch dec expires i e c).1)
              (ground (arith, same))
              (subst (λ x. Shows dec s (renew dec e r) x) (ground (arith, same, h.options))
                (moved_lem k i e h p q)),
        )
      ]

  pub put_lem :
      (old new : Entry K V) {s : Settings} {r : Recent K V} {c : LruCache K V}
      → Shows dec s r c
      → old.key ≡ new.key
      → Becomes dec (put dec old new c) s (recent_put dec old new r)
  put_lem old new {s} {r} {c} h same = elim (Option-cases (c.cache old.key)) [
    | inl e ↦ (
      record c { lru = push_back new c.lru; cache = with_key dec new.key c.lru.next c.cache },
      ground (arith, e),
      subst
          (λ x. Shows dec s x (record c {
            lru = push_back new c.lru;
            cache = with_key dec new.key c.lru.next c.cache;
          }))
          (ground (arith, shown_missing dec h old.key e))
          (record {
            coherent = push_back-Coherent dec _ h.coherent new (ap c.cache (sym same) ∙ e);
            options = h.options;
            items = values-push_back dec _ h.coherent new ∙ ap (λ es. es ++ (new ∷ [])) h.items;
            gone = h.gone;
          }),
    )
    | inr (i, e) ↦
        let (v, d, k, f) = shown_found dec h old.key i e in
        let w : Entry K V = record v { value = old.value; expires = old.expires } in
        (
          record c { lru = assign i w (move_to_back i v c.lru) },
          ground (arith, e, d),
          subst (λ x. Shows dec s x (record c { lru = assign i w (move_to_back i v c.lru) }))
              (ground (arith, f)) (assigned_lem old.key i v w h e k),
        )
  ]
