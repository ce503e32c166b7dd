-- ===== src/Buf/Emit.antt =====
-- Code that only appends to a buffer, described by the bytes that it appends.
use sing.Common.{Bool, true, false, if◌then◌else◌}
use sing.Common.{
  ℕ, ◌+◌, ◌≤◌, ◌≡◌, refl, List, [], ◌∷◌, ◌++◌, length, arith, length-append, append_assoc, subst,
  take-length, inl, ◌∙◌, ap, replicate, length-replicate,
}
use sing.Common.Outcome.{Error, Outcome, ok, err, must, ◌>>=◌}
use sing.Buf.{
  Buffer, Alloc, write, write_string, write_byte, write_zero, write_zero_n, new_size, bytes,
}
use sing.Buf.Bytes.{IsValid, contents, room, Serves, new_size-IsValid, bytes-contents}
use sing.Buf.Writes.{
  Appends, Appends-nil, write_lem, write_nil, write_byte-Appends, write_zero-Appends,
  write_zero_n-Appends, write_string-eq-write,
}

-- Calls whose count is dropped: `_, err = buffer.Write(...)`.
abbrev pub write_all : List ℕ → Buffer → Outcome Buffer
write_all src b = do (_, b') ← write src b; ok b'

abbrev pub write_string_all : List ℕ → Buffer → Outcome Buffer
write_string_all s b = do (_, b') ← write_string s b; ok b'

-- On a valid buffer with room for `src`, `m` succeeds and appends `src`.
abbrev pub Emits : (Buffer → Outcome Buffer) → List ℕ → Type 0
Emits m src =
    (b : Buffer)
    → IsValid b
    → length src ≤ room b
    → (b' : Buffer) × (m b ≡ ok b') × Appends b src b'

pub Emits-nil : Emits ok []
Emits-nil b v h = (b, refl, Appends-nil v)

Appends-trans :
    {b c d : Buffer} (xs ys : List ℕ) → Appends b xs c → Appends c ys d → Appends b (xs ++ ys) d
Appends-trans {b} xs ys h k = ground (arith, length-append xs ys, append_assoc (contents b) xs ys)

pub Emits-bind :
    {m : Buffer → Outcome Buffer} {k : Buffer → Outcome Buffer} (xs ys : List ℕ)
    → Emits m xs
    → Emits k ys
    → Emits (λ b. m b >>= k) (xs ++ ys)
Emits-bind xs ys hm hk b v h =
    let (c, e, a) = hm b v (omega (arith, length-append xs ys)) in
    let (d, e', a') = hk c a.valid (omega (arith, length-append xs ys, a.used)) in
    (d, rw e e', Appends-trans xs ys a a')

pub Emits-write_byte : (d : ℕ) → Emits (write_byte d) (d ∷ [])
Emits-write_byte d b v h = write_byte-Appends d v (omega arith)

pub Emits-write_zero : Emits write_zero (0 ∷ [])
Emits-write_zero b v h = write_zero-Appends v (omega arith)

pub Emits-write_zero_n : (n : ℕ) → Emits (write_zero_n n) (replicate n 0)
Emits-write_zero_n n b v h =
    (write_zero_n-Appends n v).0 (omega (arith, length-replicate {A = ℕ} n 0))

pub Emits-write : (src : List ℕ) → Emits (write_all src) src
Emits-write [] b v h = (b, rw (write_nil b), Appends-nil v)
Emits-write (x ∷ xs) b v h =
    let (b', e, a) = (write_lem (x ∷ xs) v).0 (inl (omega arith)) in
    (b', rw e, subst (λ s. Appends b s b') (take-length _ (x ∷ xs) (omega arith)) a)

pub Emits-write_string : (s : List ℕ) → Emits (write_string_all s) s
Emits-write_string s b v h = rw (write_string-eq-write s b) (Emits-write s b v h)

-- A buffer of the right size, written once, holds exactly what was written.
pub new_size-Emits :
    (get : Alloc) {m : Buffer → Outcome Buffer} (n : ℕ) (src : List ℕ)
    → Serves get
    → Emits m src
    → length src ≤ n
    → (do b ← m (new_size get n); bytes b) ≡ ok src
new_size-Emits get n src serves hm h =
    let (v, e, r) = new_size-IsValid get n serves in
    let (b, w, a) = hm (new_size get n) v (omega (arith, r)) in
    rw w ((bytes-contents a.valid).0 ∙ ap ok (a.appended ∙ ap (λ s. s ++ src) e))

-- Code that appends makes no error for `common.Must` to panic on.
pub Emits-must :
    {m : Buffer → Outcome Buffer} (xs : List ℕ) → Emits m xs → Emits (λ b. must (m b)) xs
Emits-must xs hm b v h = let (b', e, a) = hm b v h in (b', rw e, a)

-- What comes after code that appends gets a valid buffer with the rest of the room.
pub new_size-Emits-fail {ℓ} :
    {A : Type ℓ} (get : Alloc) {m : Buffer → Outcome Buffer} {k : Buffer → Outcome A} (n : ℕ)
    (src : List ℕ) (e : Error)
    → Serves get
    → Emits m src
    → length src ≤ n
    → ((b : Buffer) → IsValid b → n ≤ room b + length src → k b ≡ err e)
    → (m (new_size get n) >>= k) ≡ err e
new_size-Emits-fail get n src e serves hm h fails =
    let (v, _, r) = new_size-IsValid get n serves in
    let (b, w, a) = hm (new_size get n) v (omega (arith, r)) in
    rw w (fails b a.valid (omega (arith, r, a.used)))

-- A new buffer after code that appends: what it holds, and the room that is left.
pub new_size-run :
    (get : Alloc) {m : Buffer → Outcome Buffer} (n : ℕ) (src : List ℕ)
    → Serves get
    → Emits m src
    → length src ≤ n
    → (b : Buffer) × (m (new_size get n) ≡ ok b)
      × IsValid b
      × (contents b ≡ src)
      × (room b + length src ≡ n)
new_size-run get n src serves hm h =
    let (v, e, r) = new_size-IsValid get n serves in
    let (b, w, a) = hm (new_size get n) v (omega (arith, r)) in
    (b, w, a.valid, a.appended ∙ ap (λ s. s ++ src) e, omega (arith, a.used, r))

pub Emits-if :
    {m k : Buffer → Outcome Buffer} (test : Bool) (xs ys : List ℕ)
    → Emits m xs
    → Emits k ys
    → Emits (λ b. if test then m b else k b) (if test then xs else ys)
Emits-if true xs ys hm hk = hm
Emits-if false xs ys hm hk = hk
