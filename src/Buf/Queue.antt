-- ===== src/Buf/Queue.antt =====
-- A valid buffer is a bounded queue of bytes: what is written is read back in order, and the room
-- that writes have used does not come back by reading.
use sing.Common.{
  ℕ, suc, ◌-◌, min, ◌≡◌, refl, List, [], ◌∷◌, ◌++◌, length, take, drop, arith, ltb, ◌==◌,
  if◌then◌else◌, replicate, Bool-cases, inl, inr, ap, false,
}
use sing.Common.Outcome.{Error, eof, short_buffer, Outcome, ok, err, panic, ◌>>=◌}
use sing.Buf.{Buffer, write, write_byte, write_zero_n, read_byte, read_bytes, read}
use sing.Buf.Bytes.{IsValid, contents, room}
use sing.Buf.Writes.{
  Appends, write_lem, write_nil, write_byte-Appends, write_byte-full, write_zero_n-Appends,
}
use sing.Buf.Reads.{Takes, read_byte_lem, read_bytes_lem, read_lem}

-- What a client can ask of a buffer.
pub data Op : Type 0 where
  put_all : List ℕ → Op
  put : ℕ → Op
  put_zeros : ℕ → Op
  get : Op
  get_n : ℕ → Op
  get_upto : ℕ → Op

-- What it sees of a call: bytes, a count, or an error.
pub data Reply : Type 0 where
  got : List ℕ → Reply
  wrote : ℕ → Reply
  refused : Error → Reply

-- One call on a buffer. An error leaves the buffer as it was.
abbrev after {ℓ} :
    {A : Type ℓ} → Buffer → (A → Reply × Buffer) → Outcome A → Outcome (Reply × Buffer)
after b f (ok a) = ok (f a)
after b f (err e) = ok (refused e, b)
after b f panic = panic

pub call : Op → Buffer → Outcome (Reply × Buffer)
call (put_all src) b = after b (λ p. (wrote p.0, p.1)) (write src b)
call (put d) b = after b (λ b'. (wrote 1, b')) (write_byte d b)
call (put_zeros n) b = after b (λ b'. (wrote n, b')) (write_zero_n n b)
call get b = after b (λ p. (got (p.0 ∷ []), p.1)) (read_byte b)
call (get_n n) b = after b (λ p. (got p.0, p.1)) (read_bytes n b)
call (get_upto n) b = after b (λ p. (got p.0, p.1)) (read n b)

pub run : List Op → Buffer → Outcome (List Reply)
run [] b = ok []
run (op ∷ ops) b = do (r, b') ← call op b; rs ← run ops b'; ok (r ∷ rs)

-- The queue: its bytes, oldest first, and how many more it will ever take.
pub record Queue : Type 0 where
  pub items : List ℕ
  pub left : ℕ

abbrev pub view : Buffer → Queue
view b = record { items = contents b; left = room b }

abbrev append : Queue → List ℕ → Queue
append q src = record { items = q.items ++ src; left = q.left - length src }

abbrev remove : Queue → ℕ → Queue
remove q n = record { items = drop n q.items; left = q.left }

pub answer : Op → Queue → Reply × Queue
answer (put_all []) q = (wrote 0, q)
answer (put_all (x ∷ xs)) q =
    let n = min q.left (length (x ∷ xs)) in
    if q.left == 0 then (refused short_buffer, q) else (wrote n, append q (take n (x ∷ xs)))
answer (put d) q = if q.left == 0 then (refused short_buffer, q) else (wrote 1, append q (d ∷ []))
answer (put_zeros n) q =
    if ltb q.left n then (refused short_buffer, q) else (wrote n, append q (replicate n 0))
answer get q = if length q.items == 0 then (refused eof, q) else (got (take 1 q.items), remove q 1)
answer (get_n n) q =
    if ltb (length q.items) n then (refused eof, q) else (got (take n q.items), remove q n)
answer (get_upto size) q =
    let n = min size (length q.items) in
    if length q.items == 0 then (refused eof, q) else (got (take n q.items), remove q n)

pub answers : List Op → Queue → List Reply
answers [] q = []
answers (op ∷ ops) q = let (r, q') = answer op q in r ∷ answers ops q'

-- One call does not panic, and answers as the queue does.
abbrev Refines : Op → Buffer → Type 0
Refines op b =
    (b' : Buffer) × (call op b ≡ ok ((answer op (view b)).0, b'))
    × IsValid b'
    × (view b' ≡ (answer op (view b)).1)

view-Appends : {b b' : Buffer} {src : List ℕ} → Appends b src b' → view b' ≡ append (view b) src
view-Appends h = ground arith

view-Takes : {b b' : Buffer} {n : ℕ} → Takes b n b' → view b' ≡ remove (view b) n
view-Takes h = ground arith

call-put : (d : ℕ) {b : Buffer} → IsValid b → Refines (put d) b
unfolding call answer
call-put d {b} v = elim (Bool-cases (room b == 0)) [
  | inl full ↦ (b, ground (arith, write_byte-full d v), v, rw full)
  | inr more ↦
      let (b', e, h) = write_byte-Appends d v (ground arith) in
      (b', rw (e, more), h.valid, rw more (view-Appends h))
]

call-put_zeros : (n : ℕ) {b : Buffer} → IsValid b → Refines (put_zeros n) b
unfolding call answer
call-put_zeros n {b} v = elim (Bool-cases (ltb (room b) n)) [
  | inl full ↦ (b, ground (arith, (write_zero_n-Appends n v).1), v, rw full)
  | inr more ↦
      let (b', e, h) = (write_zero_n-Appends n v).0 (ground arith) in
      (b', rw (e, more), h.valid, rw more (view-Appends h))
]

call-put_all : (src : List ℕ) {b : Buffer} → IsValid b → Refines (put_all src) b
unfolding call answer
call-put_all [] {b} v = (b, ap (after b (λ p. (wrote p.0, p.1))) (write_nil b), v, refl)
call-put_all (x ∷ xs) {b} v = elim (Bool-cases (room b == 0)) [
  | inl full ↦ (b, ground (arith, (write_lem (x ∷ xs) v).1), v, rw full)
  | inr more ↦
      let (b', e, h) = (write_lem (x ∷ xs) v).0 (inl (ground arith)) in
      (b', rw (e, more), h.valid, rw more (view-Appends h))
]

call-get : {b : Buffer} → IsValid b → Refines get b
unfolding call answer
call-get {b} v = go (contents b) refl
  where
    some_bytes : (x : ℕ) (xs : List ℕ) → (suc (length xs) == 0) ≡ false
    some_bytes x xs = ground arith

    go : (xs : List ℕ) → contents b ≡ xs → Refines get b
    go [] e = (b, rw ((read_byte_lem v).1 e, ap length e), v, rw (ap length e))
    go (x ∷ xs) e =
        let (b', r, h, _) = (read_byte_lem v).0 x xs e in
        (b', rw (r, e, some_bytes x xs), h.valid, rw (ap length e, some_bytes x xs) (view-Takes h))

call-get_n : (n : ℕ) {b : Buffer} → IsValid b → Refines (get_n n) b
unfolding call answer
call-get_n n {b} v = elim (Bool-cases (ltb (length (contents b)) n)) [
  | inl few ↦ (b, ground (arith, (read_bytes_lem n v).1), v, rw few)
  | inr enough ↦
      let (b', e, h) = (read_bytes_lem n v).0 (ground arith) in
      (b', rw (e, enough), h.valid, rw enough (view-Takes h))
]

call-get_upto : (size : ℕ) {b : Buffer} → IsValid b → Refines (get_upto size) b
unfolding call answer
call-get_upto size {b} v = elim (Bool-cases (length (contents b) == 0)) [
  | inl no_bytes ↦ (b, ground (arith, (read_lem size v).1), v, rw no_bytes)
  | inr some_bytes ↦
      let (b', e, h) = (read_lem size v).0 (ground arith) in
      (b', rw (e, some_bytes), h.valid, rw some_bytes (view-Takes h))
]

pub call-Refines : (op : Op) {b : Buffer} → IsValid b → Refines op b
call-Refines (put_all src) v = call-put_all src v
call-Refines (put d) v = call-put d v
call-Refines (put_zeros n) v = call-put_zeros n v
call-Refines get v = call-get v
call-Refines (get_n n) v = call-get_n n v
call-Refines (get_upto size) v = call-get_upto size v

-- No sequence of calls on a valid buffer panics, and the answers are those of a bounded queue that
-- holds the buffer's contents and has its room.
pub run_refines : (ops : List Op) (b : Buffer) → IsValid b → run ops b ≡ ok (answers ops (view b))
unfolding run answers
run_refines [] b v = refl
run_refines (op ∷ ops) b v =
    let (b', e, v', w) = call-Refines op v in rw (e, run_refines ops b' v', w)
