-- ===== src/Common/Lists.antt =====
-- Go slices as lists with native indices: length, indexing, windows and `copy` into a window.
use Prim.Native.Nat.{ℕ, zero, suc, ◌+◌, ◌-◌, ◌≤◌, ◌<◌, min}
use mathlib.Core.Path.{◌≡◌, refl, ap, ap₂, sym, ◌∙◌}
use mathlib.Core.List.{List, [], ◌∷◌, ◌++◌}
use mathlib.Core.Option.{Option, none, some}
use native.Mathlib.Nat.{zero-min, suc-min-suc, zero-add, sub-zero, sub_self, suc-sub-suc}
use Prim.Native.Nat.add
use native.Mathlib.Omega.{arith}

module _ {ℓ} {A : Type ℓ} where
  abbrev pub length : List A → ℕ
  length [] = 0
  length (x ∷ xs) = suc (length xs)

  abbrev pub get_elem? : List A → ℕ → Option A
  get_elem? [] i = none
  get_elem? (x ∷ xs) zero = some x
  get_elem? (x ∷ xs) (suc i) = get_elem? xs i

  abbrev pub take : ℕ → List A → List A
  take zero xs = []
  take (suc n) [] = []
  take (suc n) (x ∷ xs) = x ∷ take n xs

  abbrev pub drop : ℕ → List A → List A
  drop zero xs = xs
  drop (suc n) [] = []
  drop (suc n) (x ∷ xs) = drop n xs

  abbrev pub replicate : ℕ → A → List A
  replicate zero a = []
  replicate (suc n) a = a ∷ replicate n a

  -- `copy(dst[i:], src)` for a source that fits: the list `dst` with `src` written over it from `i` on.
  abbrev pub splice : ℕ → List A → List A → List A
  splice i src [] = []
  splice zero [] (y ∷ ys) = y ∷ ys
  splice zero (x ∷ xs) (y ∷ ys) = x ∷ splice zero xs ys
  splice (suc i) src (y ∷ ys) = y ∷ splice i src ys

  -- `data[lo:hi]`
  abbrev pub slice : ℕ → ℕ → List A → List A
  slice lo hi xs = take (hi - lo) (drop lo xs)

module _ {ℓ} {A : Type ℓ} where
  pub length-append : (xs ys : List A) → length (xs ++ ys) ≡ length xs + length ys
  length-append [] ys = omega arith
  length-append (x ∷ xs) ys = omega (arith, length-append xs ys)

  pub length-take : (n : ℕ) (xs : List A) → length (take n xs) ≡ min n (length xs)
  length-take zero xs = omega arith
  length-take (suc n) [] = omega arith
  length-take (suc n) (x ∷ xs) = omega (arith, length-take n xs)

  pub length-min-take :
      (n : ℕ) (xs : List A) → length (take (min n (length xs)) xs) ≡ min n (length xs)
  length-min-take n xs = omega (arith, length-take (min n (length xs)) xs)

  pub length-drop : (n : ℕ) (xs : List A) → length (drop n xs) ≡ length xs - n
  length-drop zero xs = omega arith
  length-drop (suc n) [] = omega arith
  length-drop (suc n) (x ∷ xs) = omega (arith, length-drop n xs)

  pub length-replicate : (n : ℕ) (a : A) → length (replicate n a) ≡ n
  length-replicate zero a = refl
  length-replicate (suc n) a = ap suc (length-replicate n a)

  pub length-splice : (i : ℕ) (src dst : List A) → length (splice i src dst) ≡ length dst
  length-splice zero src [] = refl
  length-splice (suc i) src [] = refl
  length-splice zero [] (y ∷ ys) = refl
  length-splice zero (x ∷ xs) (y ∷ ys) = ap suc (length-splice zero xs ys)
  length-splice (suc i) src (y ∷ ys) = ap suc (length-splice i src ys)

  pub length-slice : (lo hi : ℕ) (xs : List A) → hi ≤ length xs → length (slice lo hi xs) ≡ hi - lo
  length-slice lo hi xs h = omega (arith, length-take (hi - lo) (drop lo xs), length-drop lo xs)

  pub take-nil : (n : ℕ) → take n (let e : List A = [] in e) ≡ []
  take-nil zero = refl
  take-nil (suc n) = refl

  pub drop-nil : (n : ℕ) → drop n (let e : List A = [] in e) ≡ []
  drop-nil zero = refl
  drop-nil (suc n) = refl

  pub take-length : (n : ℕ) (xs : List A) → length xs ≤ n → take n xs ≡ xs
  take-length zero [] h = refl
  take-length zero (x ∷ xs) h = absurd (omega arith)
  take-length (suc n) [] h = refl
  take-length (suc n) (x ∷ xs) h = ap (λ r. x ∷ r) (take-length n xs (omega arith))

  pub take_append-drop : (n : ℕ) (xs : List A) → take n xs ++ drop n xs ≡ xs
  take_append-drop zero xs = refl
  take_append-drop (suc n) [] = refl
  take_append-drop (suc n) (x ∷ xs) = ap (λ l. x ∷ l) (take_append-drop n xs)

  pub take-append : (xs ys : List A) → take (length xs) (xs ++ ys) ≡ xs
  take-append [] ys = refl
  take-append (x ∷ xs) ys = ap (λ r. x ∷ r) (take-append xs ys)

  pub drop-append : (xs ys : List A) → drop (length xs) (xs ++ ys) ≡ ys
  drop-append [] ys = refl
  drop-append (x ∷ xs) ys = drop-append xs ys

  -- What `copy` wrote is read back behind what was there before it.
  take-splice :
      (src dst : List A) → length src ≤ length dst → take (length src) (splice zero src dst) ≡ src
  take-splice [] dst h = refl
  take-splice (x ∷ xs) [] h = absurd (omega arith)
  take-splice (x ∷ xs) (y ∷ ys) h = ap (λ r. x ∷ r) (take-splice xs ys (omega arith))

  take-add-splice :
      (i : ℕ) (src dst : List A)
      → i + length src ≤ length dst
      → take (i + length src) (splice i src dst) ≡ take i dst ++ src
  take-add-splice zero src dst h = rw zero-add (take-splice src dst (omega arith))
  take-add-splice (suc i) src [] h = absurd (omega arith)
  take-add-splice (suc i) src (y ∷ ys) h =
      rw add.suc (ap (λ r. y ∷ r) (take-add-splice i src ys (omega arith)))

  -- A window up to `i` grows by what is written at `i`.
  pub slice-splice :
      (lo i : ℕ) (src dst : List A)
      → lo ≤ i
      → i + length src ≤ length dst
      → slice lo (i + length src) (splice i src dst) ≡ slice lo i dst ++ src
  slice-splice zero i src dst l h = rw (sub-zero, sub-zero) (take-add-splice i src dst h)
  slice-splice (suc lo) zero src dst l h = absurd (omega arith)
  slice-splice (suc lo) (suc i) src [] l h = absurd (omega arith)
  slice-splice (suc lo) (suc i) src (y ∷ ys) l h =
      rw (add.suc, suc-sub-suc, suc-sub-suc) (slice-splice lo i src ys (omega arith) (omega arith))

  -- A write behind a window leaves the window alone.
  take-splice_before :
      (hi i : ℕ) (src dst : List A) → hi ≤ i → take hi (splice i src dst) ≡ take hi dst
  take-splice_before zero i src dst h = refl
  take-splice_before (suc hi) zero src dst h = absurd (omega arith)
  take-splice_before (suc hi) (suc i) src [] h = refl
  take-splice_before (suc hi) (suc i) src (y ∷ ys) h =
      ap (λ r. y ∷ r) (take-splice_before hi i src ys (omega arith))

  -- A window from `i` on begins with what is written at `i`.
  pub slice-cons :
      (lo hi : ℕ) (xs : List A) {x : A}
      → lo < hi
      → get_elem? xs lo ≡ some x
      → slice lo hi xs ≡ x ∷ slice (lo + 1) hi xs
  slice-cons lo zero xs l e = absurd (omega arith)
  slice-cons lo (suc hi) [] l e = cc
  slice-cons zero (suc hi) (y ∷ ys) l e = rw (zero-add, sub-zero, suc-sub-suc, sub-zero) (cc)
  slice-cons (suc lo) (suc hi) (y ∷ ys) l e =
      rw (add.suc, suc-sub-suc, suc-sub-suc) (slice-cons lo hi ys (omega arith) e)

  -- Two windows that meet make one.
  pub slice-append :
      (lo mid hi : ℕ) (xs : List A)
      → lo ≤ mid
      → mid ≤ hi
      → slice lo mid xs ++ slice mid hi xs ≡ slice lo hi xs
  slice-append zero zero hi xs l h = rw sub-zero
  slice-append zero (suc mid) zero xs l h = absurd (omega arith)
  slice-append zero (suc mid) (suc hi) [] l h = rw (sub-zero, sub-zero, suc-sub-suc) (nil hi mid)
    where
      nil : (a b : ℕ) → take (a - b) (let e : List A = [] in e) ≡ []
      nil a b = take-nil (a - b)
  slice-append zero (suc mid) (suc hi) (x ∷ xs) l h =
      rw (sub-zero, sub-zero, suc-sub-suc)
        (ap (λ r. x ∷ r)
          (rw (sub-zero, sub-zero) at (slice-append zero mid hi xs (omega arith) (omega arith))))
  slice-append (suc lo) zero hi xs l h = absurd (omega arith)
  slice-append (suc lo) (suc mid) zero xs l h = absurd (omega arith)
  slice-append (suc lo) (suc mid) (suc hi) [] l h =
      rw (take-nil (suc mid - suc lo), take-nil (suc hi - suc mid), take-nil (suc hi - suc lo))
  slice-append (suc lo) (suc mid) (suc hi) (x ∷ xs) l h =
      rw (suc-sub-suc, suc-sub-suc, suc-sub-suc)
        (slice-append lo mid hi xs (omega arith) (omega arith))

  -- Reading inside the list finds something.
  pub get_elem?-lt : (xs : List A) (i : ℕ) → i < length xs → (x : A) × (get_elem? xs i ≡ some x)
  get_elem?-lt [] i h = absurd (omega arith)
  get_elem?-lt (x ∷ xs) zero h = (x, refl)
  get_elem?-lt (x ∷ xs) (suc i) h = get_elem?-lt xs i (omega arith)

  -- A write in front of a window leaves it alone.
  pub drop-splice_after :
      (k i : ℕ) (src dst : List A) → i + length src ≤ k → drop k (splice i src dst) ≡ drop k dst
  drop-splice_after zero zero [] [] h = refl
  drop-splice_after zero zero [] (y ∷ ys) h = refl
  drop-splice_after zero zero (x ∷ xs) dst h = absurd (omega arith)
  drop-splice_after zero (suc i) src dst h = absurd (omega arith)
  drop-splice_after (suc k) zero src [] h = refl
  drop-splice_after (suc k) (suc i) src [] h = refl
  drop-splice_after (suc k) zero [] (y ∷ ys) h = refl
  drop-splice_after (suc k) zero (x ∷ xs) (y ∷ ys) h = drop-splice_after k zero xs ys (omega arith)
  drop-splice_after (suc k) (suc i) src (y ∷ ys) h = drop-splice_after k i src ys (omega arith)

  pub take-drop_of_append :
      (n : ℕ) (xs ys zs : List A)
      → xs ++ ys ≡ zs
      → length xs ≡ n
      → (take n zs ≡ xs) × (drop n zs ≡ ys)
  take-drop_of_append n xs ys zs e l = rw (← e, ← l) (take-append xs ys, drop-append xs ys)

  -- The first `n` elements of a window, and the rest of it.
  pub slice-take-drop :
      (lo hi n : ℕ) (xs : List A)
      → lo + n ≤ hi
      → hi ≤ length xs
      → (take n (slice lo hi xs) ≡ slice lo (lo + n) xs)
        × (drop n (slice lo hi xs) ≡ slice (lo + n) hi xs)
  slice-take-drop lo hi n xs h l =
      take-drop_of_append n _ _ _ (slice-append lo (lo + n) hi xs (omega arith) h)
        (omega (arith, length-slice lo (lo + n) xs (omega arith)))

  pub slice_self : (lo : ℕ) (xs : List A) → slice lo lo xs ≡ []
  slice_self lo xs = rw sub_self

  -- Writing just in front of a window extends it by what is written.
  pub slice-splice_front :
      (lo hi : ℕ) (src dst : List A)
      → lo + length src ≤ hi
      → hi ≤ length dst
      → slice lo hi (splice lo src dst) ≡ src ++ slice (lo + length src) hi dst
  slice-splice_front lo hi src dst h l =
      sym (slice-append lo (lo + length src) hi (splice lo src dst) (omega arith) h)
      ∙ ap₂ ◌++◌ front (ap (take (hi - (lo + length src))) back)
    where
      front : slice lo (lo + length src) (splice lo src dst) ≡ src
      front =
          slice-splice lo lo src dst (omega arith) (omega arith)
          ∙ ap (λ r. r ++ src) (slice_self lo dst)

      back : drop (lo + length src) (splice lo src dst) ≡ drop (lo + length src) dst
      back = drop-splice_after _ lo src dst (omega arith)

  pub take-min : (n : ℕ) (xs : List A) → take (min n (length xs)) xs ≡ take n xs
  take-min n [] = take-nil (min n 0) ∙ sym (take-nil n)
  take-min zero (x ∷ xs) = rw zero-min
  take-min (suc n) (x ∷ xs) = rw suc-min-suc (ap (λ r. x ∷ r) (take-min n xs))
