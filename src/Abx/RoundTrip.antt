-- ===== src/Abx/RoundTrip.antt =====
-- What is written is read back.
use sing.Common.{
  ℕ, zero, suc, ◌+◌, ◌-◌, ◌%◌, ◌≢◌, ◌<◌, ◌≡◌, refl, ap, ◌∙◌, subst, List, [], ◌∷◌, ◌++◌,
  append_assoc, length, none, some, get_elem?, arith,
}
use sing.Common.Outcome.{eof, ok, err}
use sing.Stream.{uint16_bytes}
use sing.Abx.{
  max_unsigned_short, Value, text, hex, base64, integer, float, Attr, read_unsigned_short,
  read_bytes, read_interned_utf, read_value, read_named, read_attribute, and_then, read_attributes,
}
use sing.Abx.Bytes.{Source, Read, ◌>>=◌, give, read_some, read_some-append}
use sing.Abx.Writes.{
  Refs, string_bytes, Interned, written, referred, string_of, interned_bytes, interned_refs,
  IsInterned, Coded, null_value, true_value, false_value, string_value, hex_value, base64_value,
  interned_value, int_value, int_hex_value, long_value, long_hex_value, float_value, double_value,
  event_type, coded_bytes, meaning, coded_refs, IsCoded, Attrs, attrs_bytes, attr_of, attrs_of,
  attrs_refs, AreAttrs,
}

-- From these strings, `m` reads these bytes as `a` and leaves those strings.
abbrev pub Reads : {A : Type 0} → Read A → List ℕ → A → Refs → Refs → Type 0
Reads m xs a refs refs' =
    (ys : List ℕ)
    → m (record { rest = xs ++ ys; string_refs = refs })
      ≡ (ok a, record { rest = ys; string_refs = refs' })

pub bind-Reads :
    {A B : Type 0} (m : Read A) (f : A → Read B) (xs xs' : List ℕ) (a : A) (b : B) (r r' r'' : Refs)
    → Reads m xs a r r'
    → Reads (f a) xs' b r' r''
    → Reads (m >>= f) (xs ++ xs') b r r''
bind-Reads m f xs xs' a b r r' r'' h k ys = rw append_assoc (ground (arith, h (xs' ++ ys), k ys))

some-Reads : (n : ℕ) (xs : List ℕ) (r : Refs) → length xs ≡ n → Reads (read_some n) xs xs r r
some-Reads n xs r e ys =
    subst
      (λ k.
        read_some k (record { rest = xs ++ ys; string_refs = r })
        ≡ (ok xs, record { rest = ys; string_refs = r }))
      e (read_some-append xs ys r)

short-Reads : (n : ℕ) (r : Refs) → n < 65536 → Reads read_unsigned_short (uint16_bytes n) n r r
unfolding read_unsigned_short
short-Reads n r h ys = let e = some-Reads 2 (uint16_bytes n) r refl ys in ground (arith, e)

pub bytes-Reads :
    (s : List ℕ) (r : Refs) → length s < 65536 → Reads read_bytes (string_bytes s) s r r
unfolding read_bytes
bytes-Reads s r h =
    bind-Reads read_unsigned_short (λ n. read_some n) (uint16_bytes (length s)) s (length s) s r r r
      (short-Reads (length s) r h) (some-Reads (length s) s r refl)

get_elem?-some :
    {A : Type 0} (xs : List A) (i : ℕ) (x : A) → get_elem? xs i ≡ some x → i < length xs
get_elem?-some [] i x e = ground (arith, e)
get_elem?-some (y ∷ xs) zero x e = ground arith
get_elem?-some (y ∷ xs) (suc i) x e = ground (arith, get_elem?-some xs i x e)

pub interned-Reads :
    (s : Interned) (r : Refs)
    → IsInterned s r
    → Reads read_interned_utf (interned_bytes s) (string_of s) r (interned_refs s r)
unfolding read_interned_utf
interned-Reads (written s) r h ys = ground (
  arith,
  short-Reads max_unsigned_short r (omega arith) (string_bytes s ++ ys),
  bytes-Reads s r h ys,
)
interned-Reads (referred i s) r h ys =
    ground (arith, h.0, h.1, short-Reads i r (omega (arith, h.0)) ys, get_elem?-some r i s h.1)

pub map-Reads :
    {A B : Type 0} (m : Read A) (f : A → B) (xs : List ℕ) (a : A) (r r' : Refs)
    → Reads m xs a r r'
    → Reads (m >>= λ a. give (f a)) xs (f a) r r'
map-Reads m f xs a r r' h ys = ground (arith, h ys)

value-Reads :
    (v : Coded) (r : Refs)
    → IsCoded v r
    → Reads (read_value (event_type v)) (coded_bytes v) (meaning v) r (coded_refs v r)
unfolding read_value
value-Reads null_value r h = λ ys. refl
value-Reads true_value r h = λ ys. refl
value-Reads false_value r h = λ ys. refl
value-Reads (string_value s) r h =
    map-Reads read_bytes text (string_bytes s) s r r (bytes-Reads s r h)
value-Reads (hex_value s) r h = map-Reads read_bytes hex (string_bytes s) s r r (bytes-Reads s r h)
value-Reads (base64_value s) r h =
    map-Reads read_bytes base64 (string_bytes s) s r r (bytes-Reads s r h)
value-Reads (interned_value s) r h =
    map-Reads read_interned_utf text (interned_bytes s) (string_of s) r (interned_refs s r)
      (interned-Reads s r h)
value-Reads (int_value bits) r h =
    map-Reads (read_some 4) (integer 10 32) bits bits r r (some-Reads 4 bits r h)
value-Reads (int_hex_value bits) r h =
    map-Reads (read_some 4) (integer 16 32) bits bits r r (some-Reads 4 bits r h)
value-Reads (long_value bits) r h =
    map-Reads (read_some 8) (integer 10 64) bits bits r r (some-Reads 8 bits r h)
value-Reads (long_hex_value bits) r h =
    map-Reads (read_some 8) (integer 16 64) bits bits r r (some-Reads 8 bits r h)
value-Reads (float_value bits) r h =
    map-Reads (read_some 4) (float 32) bits bits r r (some-Reads 4 bits r h)
value-Reads (double_value bits) r h =
    map-Reads (read_some 8) (float 64) bits bits r r (some-Reads 8 bits r h)

event_byte :
    (v : Coded)
    → ((event_type v + 15) % 16 ≡ 15)
      × (event_type v + 15 - (event_type v + 15) % 16 ≡ event_type v)
event_byte null_value = (refl, refl)
event_byte true_value = (refl, refl)
event_byte false_value = (refl, refl)
event_byte (string_value x) = (refl, refl)
event_byte (hex_value x) = (refl, refl)
event_byte (base64_value x) = (refl, refl)
event_byte (interned_value x) = (refl, refl)
event_byte (int_value x) = (refl, refl)
event_byte (int_hex_value x) = (refl, refl)
event_byte (long_value x) = (refl, refl)
event_byte (long_hex_value x) = (refl, refl)
event_byte (float_value x) = (refl, refl)
event_byte (double_value x) = (refl, refl)

named-Reads :
    (n : Interned) (v : Coded) (r : Refs)
    → IsInterned n r
    → IsCoded v (interned_refs n r)
    → Reads
        (read_named (event_type v))
        (interned_bytes n ++ coded_bytes v)
        (attr_of n v)
        r
        (coded_refs v (interned_refs n r))
unfolding read_named
named-Reads n v r n_is v_is =
    let r' = interned_refs n r in
    let r'' = coded_refs v r' in
    let named : List ℕ → Value → Attr = λ name value. record { name = name; value = value } in
    bind-Reads read_interned_utf
      (λ name. read_value (event_type v) >>= λ value. give (named name value)) (interned_bytes n)
      (coded_bytes v) (string_of n) (attr_of n v) r r' r'' (interned-Reads n r n_is)
      (map-Reads (read_value (event_type v)) (named (string_of n)) (coded_bytes v) (meaning v) r'
        r'' (value-Reads v r' v_is))

attribute-Reads :
    (n : Interned) (v : Coded) (r : Refs)
    → IsInterned n r
    → IsCoded v (interned_refs n r)
    → Reads read_attribute
        ((event_type v + 15) ∷ (interned_bytes n ++ coded_bytes v))
        (attr_of n v)
        r
        (coded_refs v (interned_refs n r))
unfolding read_attribute
attribute-Reads n v r n_is v_is ys = ground (arith, event_byte v, named-Reads n v r n_is v_is ys)

-- The byte of something else ends the loop.
other_byte :
    (b : ℕ) (ys : List ℕ) (r : Refs)
    → b % 16 ≢ 15
    → read_attribute (record { rest = b ∷ ys; string_refs = r })
      ≡ (err eof, record { rest = b ∷ ys; string_refs = r })
unfolding read_attribute
other_byte b ys r n = ground (arith, n)

pub turn_ok :
    (turns : ℕ) (s s' : Source) (a : Attr)
    → read_attribute s ≡ (ok a, s')
    → read_attributes (suc turns) s ≡ and_then a (read_attributes turns s')
unfolding read_attributes
turn_ok turns s s' a e = ground (arith, e)

turn_eof :
    (turns : ℕ) (s s' : Source)
    → read_attribute s ≡ (err eof, s')
    → read_attributes (suc turns) s ≡ some (ok [], s')
unfolding read_attributes
turn_eof turns s s' e = ground (arith, e)

pub head_Reads :
    (n : Interned) (v : Coded) (attrs : Attrs) (r : Refs) (zs : List ℕ)
    → IsInterned n r
    → IsCoded v (interned_refs n r)
    → read_attribute (record { rest = attrs_bytes ((n, v) ∷ attrs) ++ zs; string_refs = r }) ≡ (
      ok (attr_of n v),
      record { rest = attrs_bytes attrs ++ zs; string_refs = coded_refs v (interned_refs n r) },
    )
head_Reads n v attrs r zs n_is v_is =
    rw append_assoc (attribute-Reads n v r n_is v_is (attrs_bytes attrs ++ zs))

pub read_attributes_lem :
    (attrs : Attrs) (turns : ℕ) (r : Refs) (b : ℕ) (ys : List ℕ)
    → length attrs < turns
    → AreAttrs attrs r
    → b % 16 ≢ 15
    → read_attributes turns (record { rest = attrs_bytes attrs ++ (b ∷ ys); string_refs = r })
      ≡ some (ok (attrs_of attrs), record { rest = b ∷ ys; string_refs = attrs_refs attrs r })
read_attributes_lem attrs zero r b ys l h n = absurd (omega (arith, l))
read_attributes_lem [] (suc turns) r b ys l h n = turn_eof turns _ _ (other_byte b ys r n)
read_attributes_lem ((name, value) ∷ attrs) (suc turns) r b ys l h n =
    turn_ok turns _ _ (attr_of name value) (head_Reads name value attrs r (b ∷ ys) h.0 h.1)
    ∙ ap (and_then (attr_of name value)) (
        read_attributes_lem attrs turns (coded_refs value (interned_refs name r)) b ys
          (omega (arith, l)) h.2 n)

-- Where the bytes end, there is one more attribute, and so on.
at_end :
    (turns : ℕ) (r : Refs) → read_attributes turns (record { rest = []; string_refs = r }) ≡ none
unfolding read_attributes read_attribute
at_end zero r = refl
at_end (suc turns) r = ground (arith, at_end turns r)

pub read_attributes_endless :
    (attrs : Attrs) (turns : ℕ) (r : Refs)
    → AreAttrs attrs r
    → read_attributes turns (record { rest = attrs_bytes attrs ++ []; string_refs = r }) ≡ none
unfolding read_attributes
read_attributes_endless attrs zero r h = refl
read_attributes_endless [] (suc turns) r h = at_end (suc turns) r
read_attributes_endless ((name, value) ∷ attrs) (suc turns) r h =
    turn_ok turns (record { rest = attrs_bytes ((name, value) ∷ attrs) ++ []; string_refs = r }) _
      (attr_of name value) (head_Reads name value attrs r [] h.0 h.1)
    ∙ ap (and_then (attr_of name value))
        (read_attributes_endless attrs turns (coded_refs value (interned_refs name r)) h.2)
