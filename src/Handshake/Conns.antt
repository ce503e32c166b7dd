-- ===== src/Handshake/Conns.antt =====
-- Code that reads from a connection and writes to it. What it has sent stays sent when it fails.
use sing.Common.{◌≡◌, refl, sym, subst, ℕ, suc, List, ◌++◌}
use Prim.Native.String.{String}
use sing.Common.Outcome.{Error, broken, cause, Outcome, ok, err, panic}
use sing.Stream.{Reader}

pub record Conn : Type 0 where
  pub src : List ℕ
  pub sent : List ℕ
  pub writes : ℕ

abbrev pub Session : Type 0 → Type 0
Session A = Conn → Outcome A × Conn

infixl 5 ◌>>=◌
unfoldable pub ◌>>=◌ : {A B : Type 0} → Session A → (A → Session B) → Session B
◌>>=◌ m f c = elim (m c).0 [
  | ok a ↦ f a (m c).1
  | err e ↦ (err e, (m c).1)
  | panic ↦ (panic, (m c).1)
]

abbrev pub done : {A : Type 0} → A → Session A
done a c = (ok a, c)

abbrev pub fail : {A : Type 0} → Error → Session A
fail e c = (err e, c)

-- A reader on what is to come. A failed read is the last one.
abbrev pub receive : {A : Type 0} → Reader A → Session A
receive read c = elim (read c.src) [
  | ok (a, src) ↦ (ok a, record c { src = src })
  | err e ↦ (err e, c)
  | panic ↦ (panic, c)
]

-- A message that is made up and then written at once.
unfoldable pub send : Outcome (List ℕ) → Session (Unit {0})
send (ok w) c = elim c.writes [
  | Prim.Native.Nat.zero ↦ (err broken, c)
  | suc writes ↦ (ok tt, record c { sent = c.sent ++ w; writes = writes })
]
send (err e) c = (err e, c)
send panic c = (panic, c)

-- What another part of the program returns.
abbrev pub lift : {A : Type 0} → Outcome A → Session A
lift m c = (m, c)

-- `E.Cause`
abbrev pub caused : {A : Type 0} → String → Session A → Session A
caused text m c = elim (m c).0 [
  | ok a ↦ (ok a, (m c).1)
  | err e ↦ (err (cause e text), (m c).1)
  | panic ↦ (panic, (m c).1)
]

pub bind-ok :
    {A B : Type 0} (m : Session A) (f : A → Session B) (c c' : Conn) (a : A)
    → m c ≡ (ok a, c')
    → (m >>= f) c ≡ f a c'
unfolding ◌>>=◌
bind-ok m f c c' a h = subst (λ r. ◌>>=◌ (λ k. r) f c ≡ f a c') (sym h) refl

pub receive-ok :
    {A : Type 0} (read : Reader A) (c : Conn) (a : A) (src : List ℕ)
    → read c.src ≡ ok (a, src)
    → receive read c ≡ (ok a, record c { src = src })
receive-ok read c a src h = rw (receive, h)

-- A connection by its parts.
abbrev pub after : List ℕ → List ℕ → ℕ → Conn
after src sent writes = record { src = src; sent = sent; writes = writes }

pub send-ok :
    (o : Outcome (List ℕ)) (w src sent : List ℕ) (n : ℕ)
    → o ≡ ok w
    → send o (after src sent (suc n)) ≡ (ok tt, after src (sent ++ w) n)
unfolding send
send-ok o w src sent n h = rw h
