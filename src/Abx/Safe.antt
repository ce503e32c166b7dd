-- ===== src/Abx/Safe.antt =====
-- No read panics.
use sing.Common.{
  not, ◌&&◌, ◌%◌, ◌-◌, subst, ℕ, zero, suc, ◌≡◌, ◌≢◌, refl, sym, List, [], ◌∷◌, length, Option,
  none, some, Bool, true, false, if◌then◌else◌, ◌*◌, ◌+◌, get_elem?-lt, leb, ltb, ◌==◌, length-take,
  arith,
}
use sing.Common.Outcome.{
  eof, unexpected_eof, short_buffer, broken, invalid_argument, new, new_byte, cause, Outcome, ok,
  err, panic,
}
use sing.Abx.{
  max_unsigned_short, hex, base64, text, integer, float, Attr, zero_attr, Token, start_element,
  end_element, char_data, directive, comment, cdata, string_ref, intern_string, read_unsigned_short,
  read_bytes, read_interned_utf, read_value, read_named, read_attribute, and_then, read_attributes,
  simple_token, start_token, token,
}
use sing.Abx.Bytes.{Source, Read, ◌>>=◌, give, read_some}

-- What a read returns, from any state: a value with a property, or an error.
abbrev Safe : {A : Type 0} → (A → Type 0) → (Outcome A) × Source → Type 0
Safe P (ok a, s) = P a
Safe P (err e, s) = Unit
Safe P (panic, s) = ⊥

abbrev IsSafe : {A : Type 0} → Read A → Type 0
IsSafe m = (s : Source) → Safe (λ a. Unit) (m s)

bind_of :
    {A B : Type 0} (P : A → Type 0) (f : A → Read B) (x : (Outcome A) × Source)
    → Safe P x
    → ((a : A) → P a → IsSafe (f a))
    → Safe (λ b. Unit) (((λ s. x) >>= f) x.1)
bind_of P f (ok a, s) h k = k a h s
bind_of P f (err e, s) h k = tt
bind_of P f (panic, s) h k = h

bind-Safe :
    {A B : Type 0} (P : A → Type 0) (m : Read A) (f : A → Read B)
    → ((s : Source) → Safe P (m s))
    → ((a : A) → P a → IsSafe (f a))
    → IsSafe (m >>= f)
bind-Safe P m f h k s = bind_of P f (m s) (h s) k

if-Safe :
    {A : Type 0} (P : A → Type 0) (b : Bool) (x y : (Outcome A) × Source)
    → (b ≡ true → Safe P x)
    → (b ≡ false → Safe P y)
    → Safe P (if b then x else y)
if-Safe P true x y h k = h refl
if-Safe P false x y h k = k refl

choose-Safe :
    {A : Type 0} (b : Bool) (m n : Read A) → IsSafe m → IsSafe n → IsSafe (if b then m else n)
choose-Safe true m n h k = h
choose-Safe false m n h k = k

some-Safe : (n : ℕ) (s : Source) → Safe (λ bs. length bs ≡ n) (read_some n s)
unfolding read_some
some-Safe n s =
    if-Safe (λ bs. length bs ≡ n) (n == 0) _ _ (λ e. ground (arith, e))
      (λ e.
        if-Safe (λ bs. length bs ≡ n) (length s.rest == 0) _ _ (λ e. tt)
          (λ e.
            if-Safe (λ bs. length bs ≡ n) (ltb (length s.rest) n) _ _ (λ e. tt)
              (λ e. ground (arith, e, length-take n s.rest))))

read_unsigned_short-Safe : IsSafe read_unsigned_short
unfolding read_unsigned_short
read_unsigned_short-Safe = bind-Safe (λ bs. length bs ≡ 2) (read_some 2) _ (some-Safe 2) two
  where
    two :
        (bs : List ℕ)
        → length bs ≡ 2
        → IsSafe (elim bs [ x ∷ y ∷ [] ↦ give (x * 256 + y) | _ ↦ (λ s. (panic, s)) ])
    two (x ∷ y ∷ []) e s = tt
    two [] e s = absurd (omega (arith, e))
    two (x ∷ []) e s = absurd (omega (arith, e))
    two (x ∷ y ∷ z ∷ bs) e s = absurd (omega (arith, e))

weaken : {A : Type 0} (P : A → Type 0) (x : (Outcome A) × Source) → Safe P x → Safe (λ a. Unit) x
weaken P (ok a, s) h = tt
weaken P (err e, s) h = tt
weaken P (panic, s) h = h

some_any : (n : ℕ) → IsSafe (read_some n)
some_any n s = weaken (λ bs. length bs ≡ n) (read_some n s) (some-Safe n s)

then-Safe :
    {A B : Type 0} (m : Read A) (f : A → Read B)
    → IsSafe m
    → ((a : A) → IsSafe (f a))
    → IsSafe (m >>= f)
then-Safe m f h k = bind-Safe (λ a. Unit) m f h (λ a p. k a)

read_bytes-Safe : IsSafe read_bytes
unfolding read_bytes
read_bytes-Safe = then-Safe read_unsigned_short _ read_unsigned_short-Safe some_any

string_ref-Safe : (ref : ℕ) → IsSafe (string_ref ref)
string_ref-Safe ref s =
    if-Safe (λ a. Unit) (leb (length s.string_refs) ref) _ _ (λ e. tt)
      (λ e.
        let (utf, eq) = get_elem?-lt s.string_refs ref (ground (arith, e)) in
        subst
          (λ o.
            Safe {A = List ℕ} (λ a. Unit) (elim o [ none ↦ (panic, s) | some utf ↦ (ok utf, s) ]))
          (sym eq) tt)

read_interned_utf-Safe : IsSafe read_interned_utf
unfolding read_interned_utf
read_interned_utf-Safe = then-Safe read_unsigned_short _ read_unsigned_short-Safe (λ ref.
    choose-Safe (ref == max_unsigned_short) _ _
      (then-Safe read_bytes intern_string read_bytes-Safe (λ utf s. tt)) (string_ref-Safe ref))

given : {A B : Type 0} (f : A → B) (m : Read A) → IsSafe m → IsSafe (m >>= λ a. give (f a))
given f m h = then-Safe m (λ a. give (f a)) h (λ a s. tt)

read_value-Safe : (t : ℕ) → IsSafe (read_value t)
unfolding read_value
read_value-Safe t =
    choose-Safe (t == 0x10) _ _ (λ s. tt)
      (choose-Safe (t == 0xc0) _ _ (λ s. tt)
        (choose-Safe (t == 0xd0) _ _ (λ s. tt)
          (choose-Safe (t == 0x20) _ _ (given text read_bytes read_bytes-Safe) (
            choose-Safe (t == 0x30) _ _ (given text read_interned_utf read_interned_utf-Safe) (
              choose-Safe (t == 0x40) _ _ (given hex read_bytes read_bytes-Safe) (
                choose-Safe (t == 0x50) _ _ (given base64 read_bytes read_bytes-Safe) (
                  choose-Safe (t == 0x60) _ _ (given (integer 10 32) (read_some 4) (some_any 4)) (
                    choose-Safe (t == 0x70) _ _ (given (integer 16 32) (read_some 4) (some_any 4)) (
                      choose-Safe (t == 0x80) _ _ (given (integer 10 64) (read_some 8) (some_any 8))
                        (choose-Safe (t == 0x90) _ _
                          (given (integer 16 64) (read_some 8) (some_any 8))
                          (choose-Safe (t == 0xa0) _ _ (given (float 32) (read_some 4) (some_any 4))
                            (choose-Safe (t == 0xb0) _ _
                              (given (float 64) (read_some 8) (some_any 8)) (λ s. tt)))))))))))))

read_named-Safe : (t : ℕ) → IsSafe (read_named t)
unfolding read_named
read_named-Safe t = then-Safe read_interned_utf _ read_interned_utf-Safe (λ name.
    given (λ value. record { name = name; value = value }) (read_value t) (read_value-Safe t))

attribute_at :
    (xs : List ℕ) (r : List (List ℕ))
    → Safe (λ a. Unit) (read_attribute (record { rest = xs; string_refs = r }))
unfolding read_attribute
attribute_at [] r = tt
attribute_at (b ∷ xs) r =
    if-Safe (λ a. Unit) (not (b % 16 == 15)) _ _ (λ e. tt)
      (λ e. read_named-Safe (b - b % 16) (record { rest = xs; string_refs = r }))

read_attribute-Safe : IsSafe read_attribute
read_attribute-Safe s = attribute_at s.rest s.string_refs

simple_token-Safe : (t : ℕ) → IsSafe (simple_token t)
unfolding simple_token
simple_token-Safe t =
    choose-Safe (t == 0) _ _ (λ s. tt)
      (choose-Safe (t == 1) _ _ (λ s. tt)
        (choose-Safe (t == 3) _ _
          (given (λ x. some (end_element x)) read_interned_utf read_interned_utf-Safe)
          (choose-Safe (t == 4) _ _ (given (λ x. some (char_data x)) read_bytes read_bytes-Safe) (
            choose-Safe (t == 5) _ _
              (given (λ x. some (directive (cdata x))) read_bytes read_bytes-Safe)
              (choose-Safe (t == 9) _ _ (given (λ x. some (comment x)) read_bytes read_bytes-Safe) (
                choose-Safe (leb 6 t && leb t 10) _ _
                  (given {B = Option Token} (λ x. none) read_bytes read_bytes-Safe)
                  (choose-Safe (t == 15) _ _
                    (given {B = Option Token} (λ x. none) read_attribute read_attribute-Safe)
                    (λ s. tt))))))))

-- The same for what runs out of turns.
abbrev SafeTurns : {A : Type 0} → Option ((Outcome A) × Source) → Type 0
SafeTurns none = Unit
SafeTurns (some x) = Safe (λ a. Unit) x

and_then-Safe :
    (a : Attr) (o : Option ((Outcome (List Attr)) × Source))
    → SafeTurns o
    → SafeTurns (and_then a o)
and_then-Safe a none h = tt
and_then-Safe a (some (ok attrs, s)) h = tt
and_then-Safe a (some (err e, s)) h = tt
and_then-Safe a (some (panic, s)) h = h

read_attributes-Safe : (turns : ℕ) (s : Source) → SafeTurns (read_attributes turns s)
unfolding read_attributes
read_attributes-Safe zero s = tt
read_attributes-Safe (suc turns) s =
    turn (read_attribute s) (read_attribute-Safe s)
      (read_attributes-Safe turns (read_attribute s).1)
  where
    turn :
        (x : (Outcome Attr) × Source)
        → Safe (λ a. Unit) x
        → SafeTurns (read_attributes turns x.1)
        → SafeTurns (elim x.0 [
          | ok a ↦ and_then a (read_attributes turns x.1)
          | err e ↦ elim e [
            | eof ↦ some (ok [], x.1)
            | _ ↦ and_then zero_attr (read_attributes turns x.1)
          ]
          | panic ↦ some (panic, x.1)
        ])
    turn (ok a, s) h k = and_then-Safe a (read_attributes turns s) k
    turn (err eof, s) h k = tt
    turn (err unexpected_eof, s) h k = and_then-Safe zero_attr (read_attributes turns s) k
    turn (err short_buffer, s) h k = and_then-Safe zero_attr (read_attributes turns s) k
    turn (err broken, s) h k = and_then-Safe zero_attr (read_attributes turns s) k
    turn (err invalid_argument, s) h k = and_then-Safe zero_attr (read_attributes turns s) k
    turn (err (new t), s) h k = and_then-Safe zero_attr (read_attributes turns s) k
    turn (err (new_byte t b), s) h k = and_then-Safe zero_attr (read_attributes turns s) k
    turn (err (cause e t), s) h k = and_then-Safe zero_attr (read_attributes turns s) k
    turn (panic, s) h k = h

start_token-Safe : (turns : ℕ) (s : Source) → SafeTurns (start_token turns s)
unfolding start_token
start_token-Safe turns s = name_safe (read_interned_utf s) (read_interned_utf-Safe s)
  where
    attrs_safe :
        (name : List ℕ) (o : Option ((Outcome (List Attr)) × Source))
        → SafeTurns o
        → SafeTurns (elim o [
          | none ↦ none
          | some (ok attrs, s) ↦ some (ok (some (start_element name attrs)), s)
          | some (err e, s) ↦ some (err e, s)
          | some (panic, s) ↦ some (panic, s)
        ])
    attrs_safe name none h = tt
    attrs_safe name (some (ok attrs, s)) h = tt
    attrs_safe name (some (err e, s)) h = tt
    attrs_safe name (some (panic, s)) h = h

    name_safe :
        (x : (Outcome (List ℕ)) × Source)
        → Safe (λ a. Unit) x
        → SafeTurns (elim x.0 [
          | ok name ↦ elim (read_attributes turns x.1) [
            | none ↦ none
            | some (ok attrs, s) ↦ some (ok (some (start_element name attrs)), s)
            | some (err e, s) ↦ some (err e, s)
            | some (panic, s) ↦ some (panic, s)
          ]
          | err e ↦ some (err e, x.1)
          | panic ↦ some (panic, x.1)
        ])
    name_safe (ok name, s) h =
        attrs_safe name (read_attributes turns s) (read_attributes-Safe turns s)
    name_safe (err e, s) h = tt
    name_safe (panic, s) h = h

token_at :
    (turns : ℕ) (xs : List ℕ) (r : List (List ℕ))
    → SafeTurns (token turns (record { rest = xs; string_refs = r }))
unfolding token
token_at turns [] r = tt
token_at turns (b ∷ xs) r =
    elim (b % 16 == 2)
      as (λ t. SafeTurns (
        if t
        then start_token turns (record { rest = xs; string_refs = r })
        else some (simple_token (b % 16) (record { rest = xs; string_refs = r })))) [
          | true ↦ start_token-Safe turns (record { rest = xs; string_refs = r })
          | false ↦ simple_token-Safe (b % 16) (record { rest = xs; string_refs = r })
        ]

-- On any bytes, with any strings interned and any number of turns, `Token` does not panic: an interned
-- string is always in range, and what is read has the length that was asked for.
pub token_safe_lem : (turns : ℕ) (s s' : Source) → token turns s ≢ some (panic, s')
token_safe_lem turns s s' e = subst SafeTurns e (token_at turns s.rest s.string_refs)
