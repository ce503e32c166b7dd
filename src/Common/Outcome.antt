-- ===== src/Common/Outcome.antt =====
-- What a Go call does: it returns a value, returns an error, or panics.
use mathlib.Core.Path.{◌≡◌, refl}
use Prim.Native.Nat.{ℕ}
use Prim.Native.String.{String}

-- The errors that the modelled code makes or passes on. `new` is `E.New` with its text, `new_byte`
-- is `E.New` with a text and the byte printed behind it, and `cause` is `E.Cause`. `broken` is an
-- error of a connection or a socket, `invalid_argument` is `os.ErrInvalid`.
pub data Error : Type 0 where
  eof unexpected_eof short_buffer broken invalid_argument : Error
  new : String → Error
  new_byte : String → ℕ → Error
  cause : Error → String → Error

pub data Outcome {ℓ} (A : Type ℓ) : Type ℓ where
  ok : A → Outcome A
  err : Error → Outcome A
  panic : Outcome A

infixl 5 ◌>>=◌
abbrev pub ◌>>=◌ {ℓ κ} : {A : Type ℓ} {B : Type κ} → Outcome A → (A → Outcome B) → Outcome B
◌>>=◌ m f = elim m [ ok a ↦ f a | err e ↦ err e | panic ↦ panic ]

-- `common.Must`: an error is a panic.
abbrev pub must {ℓ} : {A : Type ℓ} → Outcome A → Outcome A
must (ok a) = ok a
must (err e) = panic
must panic = panic

pub >>=_assoc {ℓ κ μ} :
    {A : Type ℓ} {B : Type κ} {C : Type μ} (m : Outcome A) (f : A → Outcome B) (g : B → Outcome C)
    → ((m >>= f) >>= g) ≡ (m >>= λ a. f a >>= g)
>>=_assoc (ok a) f g = refl
>>=_assoc (err e) f g = refl
>>=_assoc panic f g = refl

pub >>=_cong {ℓ κ} :
    {A : Type ℓ} {B : Type κ} (m : Outcome A) {f g : A → Outcome B}
    → ((a : A) → f a ≡ g a)
    → (m >>= f) ≡ (m >>= g)
>>=_cong (ok a) h = h a
>>=_cong (err e) h = refl
>>=_cong panic h = refl
