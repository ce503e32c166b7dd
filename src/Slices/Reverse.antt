-- ===== src/Slices/Reverse.antt =====
-- The loop that swaps elements in place.
use sing.Common.{
  ℕ, zero, suc, ◌+◌, ◌-◌, ◌/◌, ◌≡◌, refl, ap, sym, ◌∙◌, List, [], ◌∷◌, ◌++◌, length, append-nil,
  append_assoc, length-append, arith,
}
use sing.Common.Outcome.{ok, ◌>>=◌}
use sing.Slices.{at, set_at, swap, reverse, reverse_loop}

module _ {A : Type 0} where
  unfoldable pub reversed : List A → List A
  reversed [] = []
  reversed (x ∷ xs) = reversed xs ++ (x ∷ [])

  pub reversed_append_one : (xs : List A) (y : A) → reversed (xs ++ (y ∷ [])) ≡ y ∷ reversed xs
  unfolding reversed
  reversed_append_one [] y = refl
  reversed_append_one (x ∷ xs) y = ap (λ s. s ++ (x ∷ [])) (reversed_append_one xs y)

  at_lem :
      (i : ℕ) (xs : List A) (a : A) (ys : List A) → length xs ≡ i → at i (xs ++ (a ∷ ys)) ≡ ok a
  at_lem zero [] a ys h = refl
  at_lem (suc i) (x ∷ xs) a ys h = at_lem i xs a ys (omega (arith, h))
  at_lem zero (x ∷ xs) a ys h = absurd (omega (arith, h))
  at_lem (suc i) [] a ys h = absurd (omega (arith, h))

  set_at_lem :
      (i : ℕ) (xs : List A) (v a : A) (ys : List A)
      → length xs ≡ i
      → set_at i v (xs ++ (a ∷ ys)) ≡ ok (xs ++ (v ∷ ys))
  set_at_lem zero [] v a ys h = refl
  set_at_lem (suc i) (x ∷ xs) v a ys h =
      ap (λ o. o >>= λ r. ok (x ∷ r)) (set_at_lem i xs v a ys (omega (arith, h)))
  set_at_lem zero (x ∷ xs) v a ys h = absurd (omega (arith, h))
  set_at_lem (suc i) [] v a ys h = absurd (omega (arith, h))

  swap_lem :
      (i j : ℕ) (xs ms ys : List A) (a b : A)
      → length xs ≡ i
      → length xs + 1 + length ms ≡ j
      → swap i j (xs ++ (a ∷ (ms ++ (b ∷ ys)))) ≡ ok (xs ++ (b ∷ (ms ++ (a ∷ ys))))
  unfolding swap
  swap_lem i j xs ms ys a b h k =
      ap
        (λ o. o >>= λ y. at i (xs ++ (a ∷ (ms ++ (b ∷ ys)))) >>= λ x.
          set_at i y (xs ++ (a ∷ (ms ++ (b ∷ ys)))) >>= set_at j x)
        (behind b)
      ∙ ap (λ o. o >>= λ x. set_at i b (xs ++ (a ∷ (ms ++ (b ∷ ys)))) >>= set_at j x)
          (at_lem i xs a (ms ++ (b ∷ ys)) h)
      ∙ ap (λ o. o >>= set_at j a) (set_at_lem i xs b a (ms ++ (b ∷ ys)) h)
      ∙ ap (set_at j a) (split b b)
      ∙ set_at_lem j (xs ++ (b ∷ ms)) a b ys (omega (arith, k, length-append xs (b ∷ ms)))
      ∙ ap ok (sym (split b a))
    where
      split : (p q : A) → xs ++ (p ∷ (ms ++ (q ∷ ys))) ≡ (xs ++ (p ∷ ms)) ++ (q ∷ ys)
      split p q = sym (append_assoc xs (p ∷ ms) (q ∷ ys))

      behind : (q : A) → at j (xs ++ (a ∷ (ms ++ (q ∷ ys)))) ≡ ok q
      behind q =
          ap (at j) (split a q)
          ∙ at_lem j (xs ++ (a ∷ ms)) q ys (omega (arith, k, length-append xs (a ∷ ms)))

  last_of : (x : A) (xs : List A) → (is : List A) × (l : A) × (x ∷ xs ≡ is ++ (l ∷ []))
  last_of x [] = ([], x, refl)
  last_of x (y ∷ xs) = let (is, l, e) = last_of y xs in (x ∷ is, l, ap (◌∷◌ x) e)

  reverse_loop_lem :
      (turns i : ℕ) (xs ms ys : List A)
      → length xs ≡ i
      → length ys ≡ i
      → length ms / 2 ≡ turns
      → reverse_loop turns i (xs ++ (ms ++ ys)) ≡ ok (xs ++ (reversed ms ++ ys))
  unfolding reverse_loop reversed
  reverse_loop_lem zero i xs [] ys h k t = refl
  reverse_loop_lem zero i xs (m ∷ []) ys h k t = refl
  reverse_loop_lem zero i xs (m ∷ n ∷ ms) ys h k t = absurd (omega (arith, t))
  reverse_loop_lem (suc turns) i xs [] ys h k t = absurd (omega (arith, t))
  reverse_loop_lem (suc turns) i xs (m ∷ []) ys h k t = absurd (omega (arith, t))
  reverse_loop_lem (suc turns) i xs (m ∷ n ∷ ms) ys h k t =
      let (is, l, e) = last_of n ms in
      let count : length (n ∷ ms) ≡ length is + 1 = ap length e ∙ length-append is (l ∷ []) in
      let whole : (m ∷ n ∷ ms) ++ ys ≡ m ∷ (is ++ (l ∷ ys)) =
        ap (λ s. (m ∷ s) ++ ys) e ∙ ap (◌∷◌ m) (append_assoc is (l ∷ []) ys) in
      let turned : reversed (m ∷ n ∷ ms) ++ ys ≡ l ∷ (reversed is ++ (m ∷ ys)) =
        ap (λ s. reversed (m ∷ s) ++ ys) e
        ∙ ap (λ s. (s ++ (m ∷ [])) ++ ys) (reversed_append_one is l)
        ∙ ap (◌∷◌ l) (append_assoc (reversed is) (m ∷ []) ys) in
      ap (λ s. swap i (length (xs ++ s) - 1 - i) (xs ++ s) >>= reverse_loop turns (i + 1)) whole
      ∙ ap (λ o. o >>= reverse_loop turns (i + 1))
          (swap_lem i _ xs is ys m l h (
            omega
              (arith, h, k, length-append xs (m ∷ (is ++ (l ∷ ys))), length-append is (l ∷ ys))))
      ∙ ap (reverse_loop turns (i + 1)) (sym (append_assoc xs (l ∷ []) (is ++ (m ∷ ys))))
      ∙ reverse_loop_lem turns (i + 1) (xs ++ (l ∷ [])) is (m ∷ ys)
          (omega (arith, h, length-append xs (l ∷ []))) (omega (arith, k)) (omega (arith, t, count))
      ∙ ap ok (append_assoc xs (l ∷ []) (reversed is ++ (m ∷ ys)))
      ∙ ap (λ s. ok (xs ++ s)) (sym turned)

  -- `Reverse` does not go out of range, and the slice that it leaves is the reversed one.
  pub reverse-eq-reversed : (arr : List A) → reverse arr ≡ ok (reversed arr)
  unfolding reverse
  reverse-eq-reversed arr =
      ap (reverse_loop (length arr / 2) 0) (sym (append-nil arr))
      ∙ reverse_loop_lem (length arr / 2) 0 [] arr [] refl refl refl
      ∙ ap ok (append-nil (reversed arr))
