-- ===== src/Varbin/Uvarint.antt =====
-- What is written, how long it is, and that it is read back.
use sing.Common.{
  ℕ, zero, suc, ◌+◌, ◌*◌, ◌/◌, ◌%◌, ◌^◌, ◌≤◌, ◌<◌, ◌≡◌, refl, ap, sym, ◌∙◌, List, [], ◌∷◌, ◌++◌,
  length, ltb, leb, if◌then◌else◌, arith, true, false, Bool-cases, inl, inr,
}
use sing.Common.Outcome.{Outcome, ok, err, panic, ◌>>=◌, >>=_cong, >>=_assoc}
use sing.Varbin.{max_len, write_loop, write_uvarint, uvarint_len, read_loop, read_uvarint}

-- Seven bits a byte, the lowest ones first, all but the last byte marked.
pub groups : ℕ → ℕ → List ℕ
groups zero v = []
groups (suc turns) v =
    let rest = groups turns (v / 128) in if leb 128 v then (v % 128 + 128) ∷ rest else v ∷ []

-- A bound for so many groups, of which the last is a single bit.
abbrev bound : ℕ → ℕ
bound zero = 0
bound (suc zero) = 2
bound (suc (suc n)) = 128 * bound (suc n)

digit : (v unit : ℕ) → (v % 128 + 128) % 128 * unit + v / 128 * (unit * 128) ≡ v * unit
digit v unit =
    ap (λ a. a * unit + v / 128 * (unit * 128)) (omega arith)
    ∙ spread (v % 128) (v / 128) unit
    ∙ ap (λ a. a * unit) (omega arith)
  where
    spread : (r q u : ℕ) → r * u + q * (u * 128) ≡ (r + 128 * q) * u
    spread r q u = grind arith

read_loop-groups :
    (turns x unit v : ℕ) (rest : List ℕ)
    → v < bound turns
    → read_loop turns x unit (groups turns v ++ rest) ≡ ok (x + v * unit, rest)
unfolding read_loop groups
read_loop-groups zero x unit v rest h = absurd (omega (arith, h))
read_loop-groups (suc zero) x unit v rest h = ground (arith, h)
read_loop-groups (suc (suc n)) x unit v rest h = elim (Bool-cases (leb 128 v)) [
  | inl big ↦ ground (
    arith,
    big,
    read_loop-groups (suc n) (x + (v % 128 + 128) % 128 * unit) (unit * 128) (v / 128) rest
        (omega (arith, h)),
    digit v unit,
  )
  | inr small ↦ ground (arith, small)
]

pub read_uvarint_lem :
    (v : ℕ) (rest : List ℕ) → v < 2 ^ 64 → read_uvarint (groups max_len v ++ rest) ≡ ok (v, rest)
unfolding read_uvarint
read_uvarint_lem v rest h =
    read_loop-groups max_len 0 1 v rest (omega (arith, h)) ∙ ap (λ n. ok (n, rest)) (omega arith)

-- So many writes of a byte, up to the first error.
unfoldable pub put_all : {W : Type 0} → (ℕ → W → Outcome W) → List ℕ → W → Outcome W
put_all write_byte [] w = ok w
put_all write_byte (b ∷ bs) w = do w ← write_byte b w; put_all write_byte bs w

abbrev with_count : {W : Type 0} → ℕ → W → Outcome (ℕ × W)
with_count n w = ok (n, w)

module _ {W : Type 0} (write_byte : ℕ → W → Outcome W) where
  last_turn :
      (turns v : ℕ) (w : W)
      → leb 128 v ≡ false
      → write_loop write_byte (suc turns) v w ≡ (do
        w ← put_all write_byte (groups (suc turns) v) w
        ok (length (groups (suc turns) v), w))
  unfolding write_loop put_all groups
  last_turn turns v w small = ground (arith, small)

  abbrev one_more : ℕ × W → Outcome (ℕ × W)
  one_more x = ok (x.0 + 1, x.1)

  counted :
      (n : ℕ) (m : Outcome W) → ((m >>= with_count n) >>= one_more) ≡ (m >>= with_count (suc n))
  counted n (ok w) = ap (λ k. ok (k, w)) (omega arith)
  counted n (err e) = refl
  counted n panic = refl

  first_turn :
      (turns v : ℕ) (w : W)
      → leb 128 v ≡ true
      → (write_loop write_byte (suc turns) v w ≡ (
          write_byte (v % 128 + 128) w >>= λ w.
          write_loop write_byte turns (v / 128) w >>= one_more))
        × (groups (suc turns) v ≡ (v % 128 + 128) ∷ groups turns (v / 128))
  unfolding write_loop groups
  first_turn turns v w big = (ground (arith, big), ground (arith, big))

  write_loop-put_all :
      (turns v : ℕ) (w : W)
      → v < bound turns
      → write_loop write_byte turns v w
        ≡ (do w ← put_all write_byte (groups turns v) w; ok (length (groups turns v), w))
  unfolding write_loop put_all groups
  write_loop-put_all zero v w h = absurd (omega (arith, h))
  write_loop-put_all (suc zero) v w h = last_turn zero v w (ground (arith, h))
  write_loop-put_all (suc (suc n)) v w h = elim (Bool-cases (leb 128 v)) [
    | inl big ↦
        let gs : List ℕ = groups (suc n) (v / 128) in
        (first_turn (suc n) v w big).0
        ∙ >>=_cong (write_byte (v % 128 + 128) w) (λ w.
          ap (λ o. o >>= one_more) (write_loop-put_all (suc n) (v / 128) w (omega (arith, h)))
          ∙ counted (length gs) (put_all write_byte gs w))
        ∙ sym (
            >>=_assoc (write_byte (v % 128 + 128) w) (put_all write_byte gs)
              (with_count (suc (length gs))))
        ∙ ap (λ s. put_all write_byte s w >>= with_count (length s))
            (sym (first_turn (suc n) v w big).1)
    | inr small ↦ last_turn (suc n) v w small
  ]

pub write_uvarint-put_all :
    {W : Type 0} (write_byte : ℕ → W → Outcome W) (v : ℕ) (w : W)
    → v < 2 ^ 64
    → write_uvarint write_byte v w
      ≡ (do w ← put_all write_byte (groups max_len v) w; ok (length (groups max_len v), w))
unfolding write_uvarint
write_uvarint-put_all write_byte v w h =
    write_loop-put_all write_byte max_len v w (omega (arith, h))

-- `WriteUvarint` of a `uint64`, to any writer: the bytes go out one by one, up to the first error,
-- and their number is returned. They are at most ten, so it does not run out of turns. What was
-- written is read back, in front of any bytes, as the number.
pub read_uvarint-write :
    {W : Type 0} (write_byte : ℕ → W → Outcome W) (v : ℕ) (w : W)
    → v < 2 ^ 64
    → (bs : List ℕ) × (write_uvarint write_byte v w
        ≡ (do w ← put_all write_byte bs w; ok (length bs, w)))
      × ((rest : List ℕ) → read_uvarint (bs ++ rest) ≡ ok (v, rest))
read_uvarint-write write_byte v w h =
    (groups max_len v, write_uvarint-put_all write_byte v w h, λ rest. read_uvarint_lem v rest h)

groups_len :
    (v : ℕ)
    → v < 2 ^ 64
    → (length (groups max_len v)
        ≡ (if ltb v (2 ^ 56) then uvarint_len v else if ltb v (2 ^ 63) then 9 else 10))
      × (uvarint_len v ≤ 8)
unfolding uvarint_len groups
groups_len v h = ground (arith, h)

count_of : {W : Type 0} (k n : ℕ) (m : Outcome W) (w : W) → (m >>= with_count k) ≡ ok (n, w) → n ≡ k
count_of k n (ok x) w e = ground (arith, e)
count_of k n (err x) w e = ground (arith, e)
count_of k n panic w e = ground (arith, e)

-- Where `WriteUvarint` writes a `uint64` and returns the number of bytes, that number is `UvarintLen`
-- of the value below 2^56. From there on it is nine or ten, and `UvarintLen` is at most eight.
pub uvarint_len_lem :
    {W : Type 0} (write_byte : ℕ → W → Outcome W) (v n : ℕ) (w w' : W)
    → v < 2 ^ 64
    → write_uvarint write_byte v w ≡ ok (n, w')
    → (n ≡ (if ltb v (2 ^ 56) then uvarint_len v else if ltb v (2 ^ 63) then 9 else 10))
      × (uvarint_len v ≤ 8)
uvarint_len_lem write_byte v n w w' h e =
    let counts = sym (write_uvarint-put_all write_byte v w h) ∙ e in
    (
      count_of (length (groups max_len v)) n (put_all write_byte (groups max_len v) w) w' counts
          ∙ (groups_len v h).0,
      (groups_len v h).1,
    )
