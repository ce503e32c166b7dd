-- ===== src/Abx/Tokens.antt =====
-- The tokens of a document.
use sing.Common.{
  true, ◌==◌, ◌⊎◌, ℕ, ◌+◌, ◌*◌, ◌%◌, ◌<◌, ◌≡◌, ◌≢◌, refl, ap, sym, ◌∙◌, subst, inl, inr, List, [],
  ◌∷◌, ◌++◌, append_assoc, append-nil, length, Option, none, some, arith,
}
use sing.Common.Outcome.{eof, ok, err}
use sing.Abx.{
  Token, start_element, end_element, char_data, directive, comment, cdata, Attr, read_bytes,
  read_interned_utf, read_attributes, start_token, simple_token, token, new_reader,
}
use sing.Abx.Bytes.{Source}
use sing.Abx.RoundTrip.{
  Reads, bytes-Reads, interned-Reads, map-Reads, read_attributes_lem, read_attributes_endless,
}
use sing.Abx.Writes.{
  Refs, string_bytes, Interned, string_of, interned_bytes, interned_refs, IsInterned, Attrs,
  attrs_bytes, attrs_of, attrs_refs, AreAttrs, Event, start_document, start_tag, end_tag,
  text_event, cdata_event, comment_event, ignored, token_type, event_bytes, token_of, event_refs,
  IsEvent, Document, document_bytes, AreEvents, tokens_of,
}

-- Successive calls of `Token` return these, and `io.EOF` in the end.
abbrev pub Tokens : ℕ → Source → List (Option Token) → Type 0
Tokens turns s [] = (s' : Source) × (token turns s ≡ some (err eof, s'))
Tokens turns s (t ∷ ts) = (s' : Source) × (token turns s ≡ some (ok t, s')) × Tokens turns s' ts

simple_lem :
    (turns h t : ℕ) (xs : List ℕ) (r r' : Refs) (a : Option Token) (zs : List ℕ)
    → t < 16
    → t ≢ 2
    → Reads (simple_token t) xs a r r'
    → token turns (record { rest = (h * 16 + t) ∷ (xs ++ zs); string_refs = r })
      ≡ some (ok a, record { rest = zs; string_refs = r' })
unfolding token
simple_lem turns h t xs r r' a zs l n e =
    let m : (h * 16 + t) % 16 ≡ t = omega (arith, l) in ground (arith, m, n, e zs)

start_first :
    (turns b : ℕ) (xs : List ℕ) (r : Refs)
    → b % 16 ≡ 2
    → token turns (record { rest = b ∷ xs; string_refs = r })
      ≡ start_token turns (record { rest = xs; string_refs = r })
unfolding token
start_first turns b xs r m = let e : b % 16 == 2 ≡ true = ground (arith, m) in ground (arith, e)

start_token_lem :
    (turns : ℕ) (name : List ℕ) (attrs : List Attr) (s s' s'' : Source)
    → read_interned_utf s ≡ (ok name, s')
    → read_attributes turns s' ≡ some (ok attrs, s'')
    → start_token turns s ≡ some (ok (some (start_element name attrs)), s'')
unfolding start_token
start_token_lem turns name attrs s s' s'' e f = ground (arith, e, f)

start_token_endless :
    (turns : ℕ) (name : List ℕ) (s s' : Source)
    → read_interned_utf s ≡ (ok name, s')
    → read_attributes turns s' ≡ none
    → start_token turns s ≡ none
unfolding start_token
start_token_endless turns name s s' e f = ground (arith, e, f)

start_lem :
    (turns h : ℕ) (name : Interned) (attrs : Attrs) (r : Refs) (b : ℕ) (ys : List ℕ)
    → IsEvent turns (start_tag name attrs) r
    → b % 16 ≢ 15
    → token turns (record {
      rest = (h * 16 + 2) ∷ ((interned_bytes name ++ attrs_bytes attrs) ++ (b ∷ ys));
      string_refs = r;
    })
      ≡ some (
        ok (some (start_element (string_of name) (attrs_of attrs))),
        record { rest = b ∷ ys; string_refs = attrs_refs attrs (interned_refs name r) },
      )
start_lem turns h name attrs r b ys is n = rw append_assoc (
    start_first turns (h * 16 + 2) _ r (omega arith)
    ∙ start_token_lem turns (string_of name) (attrs_of attrs) _ _ _
        (interned-Reads name r is.0 (attrs_bytes attrs ++ (b ∷ ys)))
        (read_attributes_lem attrs turns (interned_refs name r) b ys is.2 is.1 n))

-- For every number of turns: a start tag whose bytes end behind its attributes, all of them well
-- formed, is never returned, and the loop over the attributes runs on.
pub token-endless :
    (turns h : ℕ) (name : Interned) (attrs : Attrs) (r : Refs)
    → IsInterned name r
    → AreAttrs attrs (interned_refs name r)
    → token turns (record {
      rest = (h * 16 + 2) ∷ (interned_bytes name ++ attrs_bytes attrs);
      string_refs = r;
    })
      ≡ none
token-endless turns h name attrs r n_is a_are =
    start_first turns (h * 16 + 2) _ r (omega arith)
    ∙ start_token_endless turns (string_of name) _ _
        (ap (λ xs. read_interned_utf (record { rest = interned_bytes name ++ xs; string_refs = r }))
            (sym (append-nil (attrs_bytes attrs)))
          ∙ interned-Reads name r n_is (attrs_bytes attrs ++ []))
        (read_attributes_endless attrs turns (interned_refs name r) a_are)

ignored-Reads :
    (t : ℕ) (s : List ℕ) (r : Refs)
    → (t ≡ 6) ⊎ ((t ≡ 7) ⊎ ((t ≡ 8) ⊎ (t ≡ 10)))
    → length s < 65536
    → Reads (simple_token t) (string_bytes s) none r r
unfolding simple_token
ignored-Reads t s r is l =
    let reads =
      map-Reads {B = Option Token} read_bytes (λ x. none) (string_bytes s) s r r
        (bytes-Reads s r l) in
    let to : (k : ℕ)
        → Reads (simple_token k) (string_bytes s) none r r
        → t ≡ k
        → Reads (simple_token t) (string_bytes s) none r r =
      λ k f e. subst (λ j. Reads (simple_token j) (string_bytes s) none r r) (sym e) f in
    elim is [
      | inl e ↦ to 6 reads e
      | inr (inl e) ↦ to 7 reads e
      | inr (inr (inl e)) ↦ to 8 reads e
      | inr (inr (inr e)) ↦ to 10 reads e
    ]

event_lem :
    (turns h : ℕ) (e : Event) (r : Refs) (b : ℕ) (ys : List ℕ)
    → IsEvent turns e r
    → b % 16 ≢ 15
    → token turns
        (record { rest = (h * 16 + token_type e) ∷ (event_bytes e ++ (b ∷ ys)); string_refs = r })
      ≡ some (ok (token_of e), record { rest = b ∷ ys; string_refs = event_refs e r })
unfolding simple_token
event_lem turns h start_document r b ys is n =
    simple_lem turns h 0 [] r r none (b ∷ ys) (omega arith) (omega arith) (λ zs. refl)
event_lem turns h (start_tag name attrs) r b ys is n = start_lem turns h name attrs r b ys is n
event_lem turns h (end_tag name) r b ys is n =
    simple_lem turns h 3 (interned_bytes name) r (interned_refs name r)
      (some (end_element (string_of name))) (b ∷ ys) (omega arith) (omega arith)
      (map-Reads read_interned_utf (λ x. some (end_element x)) (interned_bytes name)
        (string_of name) r (interned_refs name r) (interned-Reads name r is))
event_lem turns h (text_event s) r b ys is n =
    simple_lem turns h 4 (string_bytes s) r r (some (char_data s)) (b ∷ ys) (omega arith)
      (omega arith)
      (map-Reads read_bytes (λ x. some (char_data x)) (string_bytes s) s r r (bytes-Reads s r is))
event_lem turns h (cdata_event s) r b ys is n =
    simple_lem turns h 5 (string_bytes s) r r (some (directive (cdata s))) (b ∷ ys) (omega arith)
      (omega arith)
      (map-Reads read_bytes (λ x. some (directive (cdata x))) (string_bytes s) s r r
        (bytes-Reads s r is))
event_lem turns h (comment_event s) r b ys is n =
    simple_lem turns h 9 (string_bytes s) r r (some (comment s)) (b ∷ ys) (omega arith)
      (omega arith)
      (map-Reads read_bytes (λ x. some (comment x)) (string_bytes s) s r r (bytes-Reads s r is))
event_lem turns h (ignored t s) r b ys is n =
    simple_lem turns h t (string_bytes s) r r none (b ∷ ys) (ground (arith, is.0))
      (ground (arith, is.0)) (ignored-Reads t s r is.0 is.1)

type_small : (turns : ℕ) (e : Event) (r : Refs) → IsEvent turns e r → token_type e < 15
type_small turns start_document r is = omega arith
type_small turns (start_tag name attrs) r is = omega arith
type_small turns (end_tag name) r is = omega arith
type_small turns (text_event s) r is = omega arith
type_small turns (cdata_event s) r is = omega arith
type_small turns (comment_event s) r is = omega arith
type_small turns (ignored t s) r is = ground (arith, is.0)

-- Every event, and the end of the document, begins with a byte that begins no attribute.
first_byte :
    (turns : ℕ) (es : Document) (r : Refs)
    → AreEvents turns es r
    → (b : ℕ) × (ys : List ℕ) × (document_bytes es ≡ b ∷ ys) × (b % 16 ≢ 15)
first_byte turns [] r are = (1, [], refl, omega arith)
first_byte turns ((h, e) ∷ es) r are = (
  h * 16 + token_type e,
  event_bytes e ++ document_bytes es,
  refl,
  omega (arith, type_small turns e r are.0),
)

Tokens_lem :
    (turns : ℕ) (es : Document) (r : Refs)
    → AreEvents turns es r
    → Tokens turns (record { rest = document_bytes es; string_refs = r }) (tokens_of es)
unfolding token simple_token
Tokens_lem turns [] r are = (record { rest = []; string_refs = r }, refl)
Tokens_lem turns ((h, e) ∷ es) r are =
    let (b, ys, eq, n) = first_byte turns es (event_refs e r) are.1 in
    (
      record { rest = document_bytes es; string_refs = event_refs e r },
      subst
          (λ zs.
            token turns
              (record { rest = (h * 16 + token_type e) ∷ (event_bytes e ++ zs); string_refs = r })
            ≡ some (ok (token_of e), record { rest = zs; string_refs = event_refs e r }))
          (sym eq) (event_lem turns h e r b ys are.0 n),
      Tokens_lem turns es (event_refs e r) are.1,
    )

-- A document of any events with the magic in front, whose strings are shorter than 65536 bytes, whose
-- numbers have the four or eight bytes of their types, and whose references are to strings written
-- before, is read event by event by successive calls of `Token`, with more turns than any tag has
-- attributes; then comes `io.EOF`.
pub new_reader-Tokens :
    (turns : ℕ) (es : Document)
    → AreEvents turns es []
    → (s : Source) × (new_reader (0x41 ∷ 0x42 ∷ 0x58 ∷ 0 ∷ document_bytes es) ≡ some s)
      × Tokens turns s (tokens_of es)
unfolding new_reader
new_reader-Tokens turns es are =
    (record { rest = document_bytes es; string_refs = [] }, refl, Tokens_lem turns es [] are)
