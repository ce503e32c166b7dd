-- ===== src/Abx.antt =====
-- common/abx/reader.go: the reader of Android's binary XML.
pub mod Bytes
pub mod Writes
pub mod RoundTrip
pub mod Tokens
pub mod Safe
mod Tests
use sing.Common.{
  ℕ, zero, suc, ◌+◌, ◌-◌, ◌*◌, ◌/◌, ◌%◌, Bool, true, false, ◌&&◌, ◌||◌, not, List, [], ◌∷◌, ◌++◌,
  Option, none, some, length, get_elem?, take, drop, ltb, leb, ◌==◌, if◌then◌else◌,
}
use sing.Common.Outcome.{Error, eof, new, Outcome, ok, err, panic}
use sing.Abx.Bytes.{Source, Read, ◌>>=◌, give, read_byte, unread_byte, read_some}

abbrev pub max_unsigned_short : ℕ
max_unsigned_short = 65535

-- The text of an attribute, before it is formatted: texts as they are, bytes in hexadecimal and in
-- base 64, the bits of integers and of floating point numbers in the base and with the width.
pub data Value : Type 0 where
  text hex base64 : List ℕ → Value
  integer : ℕ → ℕ → List ℕ → Value
  float : ℕ → List ℕ → Value

pub record Attr : Type 0 where
  pub name : List ℕ
  pub value : Value

abbrev pub zero_attr : Attr
zero_attr = record { name = []; value = text [] }

-- What `Token` returns; a `nil` token is `none`.
pub data Token : Type 0 where
  start_element : List ℕ → List Attr → Token
  end_element char_data directive comment : List ℕ → Token

pub read_unsigned_short : Read ℕ
read_unsigned_short = do
  bs ← read_some 2
  elim bs [ x ∷ y ∷ [] ↦ give (x * 256 + y) | _ ↦ (λ s. (panic, s)) ]

pub read_bytes : Read (List ℕ)
unfolding read_unsigned_short
read_bytes = do length ← read_unsigned_short; read_some length

-- The strings that a string with no reference is put behind, as long as there is room.
abbrev pub intern : List ℕ → List (List ℕ) → List (List ℕ)
intern utf refs = if ltb (length refs) max_unsigned_short then refs ++ (utf ∷ []) else refs

abbrev pub intern_string : List ℕ → Read (List ℕ)
intern_string utf s = (ok utf, record s { string_refs = intern utf s.string_refs })

abbrev pub string_ref : ℕ → Read (List ℕ)
string_ref ref s =
    if leb (length s.string_refs) ref
    then (err (new "invalid interned reference: "), s)
    else elim (get_elem? s.string_refs ref) [ none ↦ (panic, s) | some utf ↦ (ok utf, s) ]

pub read_interned_utf : Read (List ℕ)
unfolding read_unsigned_short read_bytes
read_interned_utf = do
  ref ← read_unsigned_short
  (if ref == max_unsigned_short then (do utf ← read_bytes; intern_string utf) else string_ref ref)

-- The switch over the type of an attribute.
abbrev number : ℕ → (List ℕ → Value) → Read Value
number n f = do bits ← read_some n; give (f bits)

pub read_value : ℕ → Read Value
unfolding read_bytes read_interned_utf
read_value event_type =
    if event_type == 0x10
    then give (text [])
    else if event_type == 0xc0
    then give (text (b't' ∷ b'r' ∷ b'u' ∷ b'e' ∷ []))
    else if event_type == 0xd0
    then give (text (b'f' ∷ b'a' ∷ b'l' ∷ b's' ∷ b'e' ∷ []))
    else if event_type == 0x20
    then (do value ← read_bytes; give (text value))
    else if event_type == 0x30
    then (do value ← read_interned_utf; give (text value))
    else if event_type == 0x40
    then (do bs ← read_bytes; give (hex bs))
    else if event_type == 0x50
    then (do bs ← read_bytes; give (base64 bs))
    else if event_type == 0x60
    then number 4 (integer 10 32)
    else if event_type == 0x70
    then number 4 (integer 16 32)
    else if event_type == 0x80
    then number 8 (integer 10 64)
    else if event_type == 0x90
    then number 8 (integer 16 64)
    else if event_type == 0xa0
    then number 4 (float 32)
    else if event_type == 0xb0
    then number 8 (float 64)
    else (λ s. (err (new "unexpected attribute type, "), s))

-- `readAttribute`, behind its first byte.
pub read_named : ℕ → Read Attr
unfolding read_interned_utf read_value
read_named event_type = do
  name ← read_interned_utf
  value ← read_value event_type
  give (record { name = name; value = value })

-- A failed `ReadByte` is no error here.
pub read_attribute : Read Attr
unfolding read_named
read_attribute s =
    let (event, s) = read_byte s in
    elim event [
      | ok b ↦ if not (b % 16 == 15) then (err eof, unread_byte b s) else read_named (b - b % 16) s
      | err e ↦ (ok zero_attr, s)
      | panic ↦ (panic, s)
    ]

-- An attribute in front of what the loop still returns.
abbrev pub Attributes : Type 0
Attributes = Option ((Outcome (List Attr)) × Source)

abbrev pub and_then : Attr → Attributes → Attributes
and_then a none = none
and_then a (some (ok attrs, s)) = some (ok (a ∷ attrs), s)
and_then a (some (err e, s)) = some (err e, s)
and_then a (some (panic, s)) = some (panic, s)

-- The loop of `readAttributes`: only `io.EOF` ends it, and what else fails is the zero attribute.
-- With no turn left the loop still runs.
pub read_attributes : ℕ → Source → Option ((Outcome (List Attr)) × Source)
unfolding read_attribute
read_attributes zero s = none
read_attributes (suc turns) s =
    let (attr, s) = read_attribute s in
    let rest = read_attributes turns s in
    elim attr [
      | ok a ↦ and_then a rest
      | err e ↦ elim e [ eof ↦ some (ok [], s) | _ ↦ and_then zero_attr rest ]
      | panic ↦ some (panic, s)
    ]

abbrev cdata_start : List ℕ
cdata_start = b'<' ∷ b'!' ∷ b'[' ∷ b'C' ∷ b'D' ∷ b'A' ∷ b'T' ∷ b'A' ∷ b'[' ∷ []

abbrev cdata_end : List ℕ
cdata_end = b']' ∷ b']' ∷ b'>' ∷ []

abbrev pub cdata : List ℕ → List ℕ
cdata s = (cdata_start ++ s) ++ cdata_end

-- `Token`, behind its first byte and but for a start tag.
pub simple_token : ℕ → Read (Option Token)
unfolding read_interned_utf read_bytes read_attribute
simple_token token_type =
    if token_type == 0
    then give none
    else if token_type == 1
    then (λ s. (err eof, s))
    else if token_type == 3
    then (do name ← read_interned_utf; give (some (end_element name)))
    else if token_type == 4
    then (do s ← read_bytes; give (some (char_data s)))
    else if token_type == 5
    then (do s ← read_bytes; give (some (directive (cdata s))))
    else if token_type == 9
    then (do s ← read_bytes; give (some (comment s)))
    else if leb 6 token_type && leb token_type 10
    then (do s ← read_bytes; give none)
    else if token_type == 15
    then (do attr ← read_attribute; give none)
    else (λ s. (err (new "unknown token type "), s))

-- `Token`, behind the first byte of a start tag.
pub start_token : ℕ → Source → Option ((Outcome (Option Token)) × Source)
unfolding read_interned_utf read_attributes
start_token turns s =
    let (name, s) = read_interned_utf s in
    elim name [
      | ok name ↦ elim (read_attributes turns s) [
        | none ↦ none
        | some (ok attrs, s) ↦ some (ok (some (start_element name attrs)), s)
        | some (err e, s) ↦ some (err e, s)
        | some (panic, s) ↦ some (panic, s)
      ]
      | err e ↦ some (err e, s)
      | panic ↦ some (panic, s)
    ]

-- `Token`, with so many turns for the attributes.
pub token : ℕ → Source → Option ((Outcome (Option Token)) × Source)
unfolding start_token simple_token
token turns s =
    let (event, s) = read_byte s in
    elim event [
      | ok b ↦ if b % 16 == 2 then start_token turns s else some (simple_token (b % 16) s)
      | err e ↦ some (err e, s)
      | panic ↦ some (panic, s)
    ]

-- `NewReader`
pub new_reader : List ℕ → Option Source
new_reader (a ∷ b ∷ c ∷ d ∷ content) =
    if a == 0x41 && (b == 0x42 && (c == 0x58 && d == 0))
    then some (record { rest = content; string_refs = [] })
    else none
new_reader _ = none
