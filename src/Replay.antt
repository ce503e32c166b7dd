-- ===== src/Replay.antt =====
-- common/replay/simple.go: a filter of salts that were seen.
pub mod Seen
mod Tests
use sing.Common.{
  ℕ, ◌-◌, Bool, true, false, not, List, [], ◌∷◌, Option, none, some, ltb, leb, if◌then◌else◌,
}
use mathlib.Core.Logic.{ite}

-- Times are nanoseconds. A difference of times that would be negative is 0, which compares with a
-- timeout as the negative one does.
pub record SimpleFilter (S : Type 0) : Type 0 where
  pub last_clean : ℕ
  pub timeout : ℕ
  pub pool : S → Option ℕ

pub new_simple : {S : Type 0} → ℕ → ℕ → SimpleFilter S
new_simple timeout now = record { last_clean = now; timeout = timeout; pool = λ s. none }

abbrev pub is_some : Option ℕ → Bool
is_some none = false
is_some (some t) = true

abbrev pub recent : ℕ → ℕ → Option ℕ → Bool
recent timeout now none = false
recent timeout now (some added) = leb (now - added) timeout

-- A turn of the loop over the pool, at an entry that is there.
abbrev pub clean_at : ℕ → ℕ → Option ℕ → Option ℕ
clean_at timeout now none = none
clean_at timeout now (some added) = if ltb timeout (now - added) then none else some added

abbrev pub clean : {S : Type 0} → ℕ → ℕ → (S → Option ℕ) → S → Option ℕ
clean timeout now pool s = clean_at timeout now (pool s)

module _ {S : Type 0} (dec : Discrete S) where
  abbrev pub add_salt : S → ℕ → (S → Option ℕ) → S → Option ℕ
  add_salt s now pool q = ite (dec s q) (some now) (pool q)

  -- `Check`, where `old` says whether the last cleaning is.
  abbrev pub check_with : Bool → S → ℕ → SimpleFilter S → Bool × SimpleFilter S
  check_with old s now f =
      let cleaned : SimpleFilter S =
        if old then record f { pool = clean f.timeout now f.pool; last_clean = now } else f in
      let exists = if old then is_some (cleaned.pool s) else recent f.timeout now (f.pool s) in
      (
        not exists,
        if not exists then record cleaned { pool = add_salt s now cleaned.pool } else cleaned,
      )

  pub check : S → ℕ → SimpleFilter S → Bool × SimpleFilter S
  check s now f = check_with (ltb f.timeout (now - f.last_clean)) s now f
