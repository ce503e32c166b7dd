-- ===== src/Buf/Writes.antt =====
-- What the writing operations do to the contents.
use sing.Common.{
  ℕ, ◌+◌, ◌-◌, ◌≤◌, ◌<◌, min, ◌≡◌, refl, List, [], ◌∷◌, ◌++◌, length, splice, take, arith, inl, inr,
  append-nil, take-nil, subst, sym, ◌⊎◌, ◌≢◌, length-replicate, length-splice, slice-splice,
  length-min-take, take-length, replicate,
}
use sing.Common.Outcome.{short_buffer, ok, err}
use sing.Buf.{Buffer, write, write_string, write_byte, write_zero, write_zero_n}
use sing.Buf.Bytes.{IsValid, contents, room}

-- `b'` is `b` with `src` appended to its contents, the start and the capacity as they were.
pub record Appends (b : Buffer) (src : List ℕ) (b' : Buffer) : Type 0 where
  pub valid : IsValid b'
  pub appended : contents b' ≡ contents b ++ src
  pub used : room b' + length src ≡ room b
  pub kept : b'.capacity ≡ b.capacity

pub Appends-nil : {b : Buffer} → IsValid b → Appends b [] b
Appends-nil {b} v = ground (arith, append-nil (contents b))

-- Writing a source that fits, at the end of the contents.
splice-Appends :
    {b : Buffer} (src : List ℕ)
    → IsValid b
    → length src ≤ room b
    → Appends b src (record b { raw = splice b.end src b.raw; end = b.end + length src })
splice-Appends {b} src v h =
    ground (arith, length-splice b.end src b.raw, slice-splice b.start b.end src b.raw)

-- `WriteByte` appends its byte while there is room.
pub write_byte-Appends :
    {b : Buffer} (d : ℕ)
    → IsValid b
    → 0 < room b
    → (b' : Buffer) × (write_byte d b ≡ ok b') × Appends b (d ∷ []) b'
unfolding write_byte
write_byte-Appends {b} d v h = (
  record b { raw = splice b.end (d ∷ []) b.raw; end = b.end + 1 },
  ground arith,
  splice-Appends (d ∷ []) v (omega arith),
)

pub write_zero-Appends :
    {b : Buffer}
    → IsValid b
    → 0 < room b
    → (b' : Buffer) × (write_zero b ≡ ok b') × Appends b (0 ∷ []) b'
unfolding write_zero
write_zero-Appends {b} v h = (
  record b { raw = splice b.end (0 ∷ []) b.raw; end = b.end + 1 },
  ground arith,
  splice-Appends (0 ∷ []) v (omega arith),
)

-- A buffer with no room refuses a byte and a zero.
pub write_byte-full :
    {b : Buffer} (d : ℕ)
    → IsValid b
    → room b ≡ 0
    → (write_byte d b ≡ err short_buffer) × (write_zero b ≡ err short_buffer)
unfolding write_byte write_zero
write_byte-full d v h = ground arith

-- The same for a source and a length in the form in which the code has them.
pub splice-Appends_of :
    {b : Buffer} (n : ℕ) (src src' : List ℕ)
    → IsValid b
    → length src ≤ room b
    → src' ≡ src
    → n ≡ length src
    → Appends b src (record b { raw = splice b.end src' b.raw; end = b.end + n })
splice-Appends_of {b} n src src' v h e l =
    subst (λ s. Appends b src (record b { raw = splice b.end s b.raw; end = b.end + n })) (sym e)
      (subst (λ k. Appends b src (record b { raw = splice b.end src b.raw; end = b.end + k }))
        (sym l) (splice-Appends src v h))

take-Appends :
    {b : Buffer} (src : List ℕ)
    → IsValid b
    → let n = min (b.capacity - b.end) (length src) in
      Appends b (take n src) (record b { raw = splice b.end (take n src) b.raw; end = b.end + n })
take-Appends {b} src v =
    let n = min (b.capacity - b.end) (length src) in
    let e : length (take n src) ≡ n = length-min-take (b.capacity - b.end) src in
    splice-Appends_of n (take n src) (take n src) v (omega arith) refl (sym e)

-- `Write` appends as much of its source as there is room for, and returns how much that is.
-- With no room at all it is refused, unless there is nothing to write.
pub write_lem :
    {b : Buffer} (src : List ℕ)
    → IsValid b
    → let n = min (room b) (length src) in
      ((0 < room b) ⊎ (src ≡ [])
        → (b' : Buffer) × (write src b ≡ ok (n, b')) × Appends b (take n src) b')
      × (room b ≡ 0 → src ≢ [] → write src b ≡ err short_buffer)
unfolding write
write_lem {b} [] v =
    ((λ _. (b, ground arith, rw take-nil (Appends-nil v))), (λ h ne. absurd (ne refl)))
write_lem {b} (x ∷ xs) v = (
  (λ h. (_, elim h [ inl p ↦ ground arith | inr e ↦ cc ], take-Appends (x ∷ xs) v)),
  (λ h _. ground arith),
)

pub write_nil : (b : Buffer) → write [] b ≡ ok (0, b)
unfolding write
write_nil b = refl

-- `WriteString` does the same with the bytes of a string.
pub write_string-eq-write : (s : List ℕ) (b : Buffer) → write_string s b ≡ write s b
unfolding write write_string
write_string-eq-write s b = refl

-- `WriteZeroN` appends `n` zeros if they fit, and is refused otherwise.
pub write_zero_n-Appends :
    {b : Buffer} (n : ℕ)
    → IsValid b
    → (n ≤ room b → (b' : Buffer) × (write_zero_n n b ≡ ok b') × Appends b (replicate n 0) b')
      × (room b < n → write_zero_n n b ≡ err short_buffer)
unfolding write_zero_n
write_zero_n-Appends {b} n v = (
  (λ h. (
    record b {
      raw = splice b.end (take (b.end + n - b.end) (replicate n 0)) b.raw;
      end = b.end + n;
    },
    ground arith,
    splice-Appends_of n (replicate n 0) _ v (omega (arith, z)) zs (omega (arith, z)),
  )),
  (λ h. ground arith),
)
  where
    z : length (replicate {A = ℕ} n 0) ≡ n
    z = length-replicate n 0

    zs : take (b.end + n - b.end) (replicate {A = ℕ} n 0) ≡ replicate n 0
    zs = take-length _ _ (omega (arith, z))
