-- ===== src/Handshake/Ensures.antt =====
-- What a session returns, and what it leaves to come, from a given rest of the client's bytes.
use sing.Common.{zero, suc, ◌++◌, ℕ, ◌≡◌, refl, sym, subst, Bool, true, false, List, if◌then◌else◌}
use sing.Common.Outcome.{broken, Error, Outcome, ok, err, panic}
use sing.Stream.{Reader}
use sing.Handshake.Conns.{Conn, Session, ◌>>=◌, done, fail, receive, send}

-- If it is a value, it has `P`, with what is still to come.
abbrev pub OkIs : {A : Type 0} → (A → List ℕ → Type 0) → Outcome A × Conn → Type 0
OkIs P (ok a, c) = P a c.src
OkIs P (err e, c) = Unit {0}
OkIs P (panic, c) = Unit {0}

-- Where `s` is to come, `m` returns only what has `P`.
pub record Ensures {A : Type 0} (s : List ℕ) (P : A → List ℕ → Type 0) (m : Session A)
    : Type 0 where
  pub ensured : (c : Conn) → c.src ≡ s → OkIs P (m c)

bind-OkIs :
    {A B : Type 0} (Q : A → List ℕ → Type 0) (P : B → List ℕ → Type 0) (o : Outcome A × Conn)
    (f : A → Session B) (c : Conn)
    → OkIs Q o
    → ((a : A) (s : List ℕ) → Q a s → Ensures s P (f a))
    → OkIs P (◌>>=◌ (λ k. o) f c)
unfolding ◌>>=◌
bind-OkIs Q P (ok a, k) f c q h = (h a k.src q).ensured k refl
bind-OkIs Q P (err e, k) f c q h = tt
bind-OkIs Q P (panic, k) f c q h = tt

pub bind-Ensures :
    {A B : Type 0} (s : List ℕ) (Q : A → List ℕ → Type 0) (P : B → List ℕ → Type 0) (m : Session A)
    (f : A → Session B)
    → Ensures s Q m
    → ((a : A) (s' : List ℕ) → Q a s' → Ensures s' P (f a))
    → Ensures s P (m >>= f)
unfolding ◌>>=◌
bind-Ensures s Q P m f q h = record { ensured = λ c e. bind-OkIs Q P (m c) f c (q.ensured c e) h }

any-OkIs : {A : Type 0} (o : Outcome A × Conn) → OkIs (λ a s. Unit {0}) o
any-OkIs (ok a, c) = tt
any-OkIs (err e, c) = tt
any-OkIs (panic, c) = tt

-- What a step returns does not matter.
pub then-Ensures :
    {A B : Type 0} (s : List ℕ) (P : B → List ℕ → Type 0) (m : Session A) (f : A → Session B)
    → ((a : A) (s' : List ℕ) → Ensures s' P (f a))
    → Ensures s P (m >>= f)
then-Ensures s P m f h =
    bind-Ensures s (λ a s'. Unit {0}) P m f (record { ensured = λ c e. any-OkIs (m c) })
      (λ a s' q. h a s')

received_of :
    {A : Type 0} (read : Reader A) (c : Conn) (o : Outcome (A × List ℕ))
    → read c.src ≡ o
    → OkIs
        (λ a s'. read c.src ≡ ok (a, s'))
        (elim o [
          | ok (a, src) ↦ (ok a, record c { src = src })
          | err e ↦ (err e, c)
          | panic ↦ (panic, c)
        ])
received_of read c (ok (a, src)) e = e
received_of read c (err x) e = tt
received_of read c panic e = tt

-- What is received is what the reader makes of the bytes to come.
pub receive-Ensures :
    {A : Type 0} (s : List ℕ) (read : Reader A)
    → Ensures s (λ a s'. read s ≡ ok (a, s')) (receive read)
receive-Ensures s read = record {
  ensured = λ c e.
      subst (λ k. OkIs (λ a s'. read k ≡ ok (a, s')) (receive read c)) e
        (received_of read c (read c.src) refl);
}

sent_of : (o : Outcome (List ℕ)) (c : Conn) → OkIs (λ a s'. s' ≡ c.src) (send o c)
unfolding send
sent_of (ok w) c = written c.writes
  where
    written :
        (n : ℕ)
        → OkIs {A = Unit {0}}
            (λ a s'. s' ≡ c.src)
            (elim n [
              | zero ↦ (err broken, c)
              | suc writes ↦ (ok tt, record c { sent = c.sent ++ w; writes = writes })
            ])
    written zero = tt
    written (suc n) = refl
sent_of (err e) c = tt
sent_of panic c = tt

-- A message that is sent takes nothing from what is to come.
pub send-Ensures : (s : List ℕ) (o : Outcome (List ℕ)) → Ensures s (λ a s'. s' ≡ s) (send o)
send-Ensures s o = record {
  ensured = λ c e. subst (λ k. OkIs (λ a s'. s' ≡ k) (send o c)) e (sent_of o c);
}

imply-OkIs :
    {A : Type 0} (Q P : A → List ℕ → Type 0) (o : Outcome A × Conn)
    → OkIs Q o
    → ((a : A) (s : List ℕ) → Q a s → P a s)
    → OkIs P o
imply-OkIs Q P (ok a, c) q h = h a c.src q
imply-OkIs Q P (err e, c) q h = tt
imply-OkIs Q P (panic, c) q h = tt

pub imply-Ensures :
    {A : Type 0} (s : List ℕ) (Q P : A → List ℕ → Type 0) (m : Session A)
    → Ensures s Q m
    → ((a : A) (s' : List ℕ) → Q a s' → P a s')
    → Ensures s P m
imply-Ensures s Q P m q h = record { ensured = λ c e. imply-OkIs Q P (m c) (q.ensured c e) h }

pub fail-Ensures :
    {A : Type 0} (s : List ℕ) (P : A → List ℕ → Type 0) (e : Error) → Ensures s P (fail e)
fail-Ensures s P e = record { ensured = λ c h. tt }

pub done-Ensures :
    {A : Type 0} (s : List ℕ) (P : A → List ℕ → Type 0) (a : A) → P a s → Ensures s P (done a)
done-Ensures s P a p = record { ensured = λ c h. subst (P a) (sym h) p }

pub if-Ensures :
    {A : Type 0} (s : List ℕ) (P : A → List ℕ → Type 0) (b : Bool) (m n : Session A)
    → (b ≡ true → Ensures s P m)
    → (b ≡ false → Ensures s P n)
    → Ensures s P (if b then m else n)
if-Ensures s P true m n h k = h refl
if-Ensures s P false m n h k = k refl
