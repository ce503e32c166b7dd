-- ===== src/Lru/Tests.antt =====
-- Caches from numbers to numbers.
use sing.Common.{
  ℕ, ◌≡◌, ◌≤◌, ◌<◌, ◌+◌, refl, List, [], ◌∷◌, length, none, some, true, arith, ℕ_discrete,
}
use sing.Common.Outcome.{ok}
use sing.Linked.{values, value_at, with_key}
use sing.Linked.Index.{id_of}
use sing.Lru.{
  Entry, Settings, Setting, LruCache, Clock, with_age, with_size, with_evict, set, set_all,
  no_settings, new_cache, clear,
}
use sing.Lru.Recent.{told}
use sing.Lru.Shows.{Shows}
use sing.Lru.Calls.{Op, load_op, store_op, load_or_store_op, range_op, run, answers}
use sing.Lru.Refines.{no_entries, new_cache-Shows, lru-run-refines}
use sing.Lru.Clears.{lru_clear_lem}
use sing.Lru.Bounds.{after, lru_bounded_lem}

abbrev small_options : List Setting
small_options = with_size 2 ∷ with_age 60 ∷ with_evict ∷ []

abbrev at_time : ℕ → Clock
at_time t n = t + n

abbrev some_calls : List (Op ℕ ℕ × Clock)
some_calls =
    (store_op 1 10, at_time 100)
    ∷ (store_op 2 20, at_time 101)
    ∷ (load_op 1, at_time 102)
    ∷ (load_or_store_op 3 30, at_time 103)
    ∷ (load_op 2, at_time 104)
    ∷ (range_op, at_time 105)
    ∷ (load_op 1, at_time 500)
    ∷ []

lru-run-refines_example :
    run ℕ_discrete 0 some_calls (new_cache small_options)
    ≡ ok (
        answers ℕ_discrete 0 some_calls
          (set_all small_options no_settings)
          (no_entries ℕ_discrete 0))
lru-run-refines_example =
    lru-run-refines ℕ_discrete 0 some_calls (set_all small_options no_settings)
      (no_entries ℕ_discrete 0) (new_cache small_options)
      (new_cache-Shows ℕ_discrete 0 small_options)

some_bound : 0 < (set_all small_options no_settings).max_size
unfolding set_all set
some_bound = omega arith

lru_bounded_lem_example :
    (c : LruCache ℕ ℕ) × (after ℕ_discrete 0 some_calls (new_cache small_options) ≡ ok c)
    × (length c.lru.elements ≤ (set_all small_options no_settings).max_size)
lru_bounded_lem_example = lru_bounded_lem ℕ_discrete 0 small_options some_calls some_bound

abbrev first_entry : Entry ℕ ℕ
first_entry = record { key = 1; value = 10; expires = 160 }

abbrev second_entry : Entry ℕ ℕ
second_entry = record { key = 2; value = 20; expires = 161 }

abbrev aged : Settings
aged = record no_settings { max_age = 60; evicting = true }

abbrev two_entries : LruCache ℕ ℕ
two_entries = record {
  settings = aged;
  cache = with_key ℕ_discrete 1 0 (with_key ℕ_discrete 2 1 (λ k. none));
  lru = record {
    elements =
        record { id = 0; value = first_entry } ∷ record { id = 1; value = second_entry } ∷ [];
    next = 2;
  };
  evicted = [];
}

two_entries-Shows :
    Shows ℕ_discrete aged
      (record { items = first_entry ∷ second_entry ∷ []; gone = [] })
      two_entries
unfolding id_of values value_at
two_entries-Shows = record {
  coherent = record { indexed = λ k. ground arith; distinct = ground arith; fresh = omega arith };
  options = refl;
  items = refl;
  gone = refl;
}

lru_clear_lem_example :
    (c : LruCache ℕ ℕ) × (clear ℕ_discrete 1 two_entries ≡ some (ok c))
    × Shows ℕ_discrete aged
        (record { items = second_entry ∷ []; gone = told aged first_entry [] })
        c
lru_clear_lem_example =
    lru_clear_lem ℕ_discrete 0 aged first_entry (second_entry ∷ []) [] two_entries two_entries-Shows
