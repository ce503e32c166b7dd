-- ===== src/Replay/Seen.antt =====
-- The filter remembers as much as it needs.
use sing.Common.{
  ℕ, ◌+◌, ◌-◌, ◌≤◌, ◌<◌, ◌≡◌, refl, ap, ap₂, ◌∙◌, Bool, true, false, not, List, [], ◌∷◌, Option,
  none, some, ltb, if◌then◌else◌, arith, inl, inr, Bool-cases,
}
use sing.Replay.{
  SimpleFilter, check, check_with, clean, clean_at, is_some, recent, add_salt, new_simple,
}
use mathlib.Core.Logic.{ite}

-- The times are in order, from `t` on.
abbrev pub InOrder : {S : Type 0} → ℕ → List (S × ℕ) → Type 0
InOrder t [] = Unit
InOrder t ((s, now) ∷ calls) = (t ≤ now) × InOrder now calls

-- What the pool has of a salt, at the time `t`, and when it was accepted: the pool may lack it only
-- where that was too long ago.
data Agrees (timeout t : ℕ) : Option ℕ → Option ℕ → Type 0 where
  same : {o : Option ℕ} → Agrees timeout t o o
  forgotten : {added : ℕ} → added + timeout < t → Agrees timeout t none (some added)

later-Agrees :
    (timeout t now : ℕ) (p a : Option ℕ) → t ≤ now → Agrees timeout t p a → Agrees timeout now p a
later-Agrees timeout t now p a h same = same
later-Agrees timeout t now p a h (forgotten old) = forgotten (omega (arith, h, old))

clean_at_self : (timeout now : ℕ) (o : Option ℕ) → Agrees timeout now (clean_at timeout now o) o
clean_at_self timeout now none = same
clean_at_self timeout now (some added) = elim (Bool-cases (ltb timeout (now - added))) [
  | inl old ↦ rw old (forgotten (ground (arith, old)))
  | inr new ↦ rw new same
]

clean_at-Agrees :
    (timeout t now : ℕ) (p a : Option ℕ)
    → t ≤ now
    → Agrees timeout t p a
    → Agrees timeout now (clean_at timeout now p) a
clean_at-Agrees timeout t now p a h same = clean_at_self timeout now p
clean_at-Agrees timeout t now p a h (forgotten old) = forgotten (omega (arith, h, old))

exists_lem :
    (old : Bool) (timeout t now : ℕ) (p a : Option ℕ)
    → t ≤ now
    → Agrees timeout t p a
    → (if old then is_some (clean_at timeout now p) else recent timeout now p)
      ≡ recent timeout now a
exists_lem true timeout t now none a h same = refl
exists_lem true timeout t now (some added) a h same = ground arith
exists_lem false timeout t now p a h same = refl
exists_lem old timeout t now p a h (forgotten late) = ground (arith, late, h)

module _ {S : Type 0} (dec : Discrete S) where
  pub run : List (S × ℕ) → SimpleFilter S → List Bool
  run [] f = []
  run ((s, now) ∷ calls) f = let (b, f) = check dec s now f in b ∷ run calls f

  -- A filter that forgets nothing: a salt is refused where it was accepted at most `timeout` ago.
  unfoldable pub verdicts : ℕ → List (S × ℕ) → (S → Option ℕ) → List Bool
  verdicts timeout [] accepted = []
  verdicts timeout ((s, now) ∷ calls) accepted =
      let fresh = not (recent timeout now (accepted s)) in
      fresh ∷ verdicts timeout calls (if fresh then add_salt dec s now accepted else accepted)

  abbrev Knows : ℕ → SimpleFilter S → (S → Option ℕ) → Type 0
  Knows t f accepted = (s : S) → Agrees f.timeout t (f.pool s) (accepted s)

  add_salt-Agrees :
      (timeout now : ℕ) (s q : S) (pool accepted : S → Option ℕ)
      → Agrees timeout now (pool q) (accepted q)
      → Agrees timeout now (add_salt dec s now pool q) (add_salt dec s now accepted q)
  add_salt-Agrees timeout now s q pool accepted h = at (dec s q)
    where
      at :
          (d : Dec (s ≡ q))
          → Agrees timeout now (ite d (some now) (pool q)) (ite d (some now) (accepted q))
      at (yes p) = same
      at (no p) = h

  -- A salt that is accepted is added on both sides.
  added-Knows :
      (exists r : Bool) (s : S) (now : ℕ) (f : SimpleFilter S) (accepted : S → Option ℕ)
      → exists ≡ r
      → Knows now f accepted
      → Knows now
          (if not exists then record f { pool = add_salt dec s now f.pool } else f)
          (if not r then add_salt dec s now accepted else accepted)
  added-Knows true true s now f accepted e k = k
  added-Knows false false s now f accepted e k =
      λ q. add_salt-Agrees f.timeout now s q f.pool accepted (k q)
  added-Knows true false s now f accepted e k = absurd cc
  added-Knows false true s now f accepted e k = absurd cc

  -- The two results of a call.
  abbrev Checks : Bool × SimpleFilter S → ℕ → S → ℕ → (S → Option ℕ) → Type 0
  Checks result timeout s now accepted =
      let fresh = not (recent timeout now (accepted s)) in
      (result.0 ≡ fresh)
      × (result.1.timeout ≡ timeout)
      × Knows now result.1 (if fresh then add_salt dec s now accepted else accepted)

  check_with_lem :
      (old : Bool) (s : S) (t now : ℕ) (f : SimpleFilter S) (accepted : S → Option ℕ)
      → t ≤ now
      → Knows t f accepted
      → Checks (check_with dec old s now f) f.timeout s now accepted
  check_with_lem true s t now f accepted h k =
      let e = exists_lem true f.timeout t now (f.pool s) (accepted s) h (k s) in
      (
        ap not e,
        ground arith,
        added-Knows _ _ s now (record f { pool = clean f.timeout now f.pool; last_clean = now })
            accepted e (λ q. clean_at-Agrees f.timeout t now (f.pool q) (accepted q) h (k q)),
      )
  check_with_lem false s t now f accepted h k =
      let e = exists_lem false f.timeout t now (f.pool s) (accepted s) h (k s) in
      (
        ap not e,
        ground arith,
        added-Knows _ _ s now f accepted e
            (λ q. later-Agrees f.timeout t now (f.pool q) (accepted q) h (k q)),
      )

  run_lem :
      (calls : List (S × ℕ)) (t : ℕ) (f : SimpleFilter S) (accepted : S → Option ℕ)
      → InOrder t calls
      → Knows t f accepted
      → run calls f ≡ verdicts f.timeout calls accepted
  unfolding run verdicts check
  run_lem [] t f accepted o k = refl
  run_lem ((s, now) ∷ calls) t f accepted o k =
      let (e, same_timeout, k') =
        check_with_lem (ltb f.timeout (now - f.last_clean)) s t now f accepted o.0 k in
      ap₂ ◌∷◌ e (
        run_lem calls now (check dec s now f).1 _ o.1 k'
        ∙ ap
            (λ n. verdicts n calls (
              if not (recent f.timeout now (accepted s))
              then add_salt dec s now accepted
              else accepted))
            same_timeout)

  -- On a new filter, at times that do not go back: a salt is accepted exactly where it was not accepted
  -- at most the timeout before, as by a filter that forgets nothing, although the pool is cleaned.
  pub replay-run_lem :
      (timeout start : ℕ) (calls : List (S × ℕ))
      → InOrder start calls
      → run calls (new_simple timeout start) ≡ verdicts timeout calls (λ s. none)
  unfolding new_simple
  replay-run_lem timeout start calls o =
      run_lem calls start (new_simple timeout start) (λ s. none) o (λ s. same)
