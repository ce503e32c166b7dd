-- ===== src/Abx/Writes.antt =====
-- Android's binary XML as its writer puts it.
use sing.Common.{
  ℕ, ◌+◌, ◌*◌, ◌<◌, ◌≡◌, List, [], ◌∷◌, ◌++◌, Option, none, some, length, get_elem?, ◌⊎◌,
}
use sing.Stream.{uint16_bytes}
use sing.Abx.{
  Value, text, hex, base64, integer, float, Attr, Token, start_element, end_element, char_data,
  directive, comment, intern, cdata, max_unsigned_short,
}

abbrev pub Refs : Type 0
Refs = List (List ℕ)

abbrev pub string_bytes : List ℕ → List ℕ
string_bytes s = uint16_bytes (length s) ++ s

-- An interned string is written out, or referred to by its place.
pub data Interned : Type 0 where
  written : List ℕ → Interned
  referred : ℕ → List ℕ → Interned

abbrev pub string_of : Interned → List ℕ
string_of (written s) = s
string_of (referred i s) = s

abbrev pub interned_bytes : Interned → List ℕ
interned_bytes (written s) = 0xff ∷ 0xff ∷ string_bytes s
interned_bytes (referred i s) = uint16_bytes i

abbrev pub interned_refs : Interned → Refs → Refs
interned_refs (written s) refs = intern s refs
interned_refs (referred i s) refs = refs

abbrev pub IsInterned : Interned → Refs → Type 0
IsInterned (written s) refs = length s < 65536
IsInterned (referred i s) refs = (i < max_unsigned_short) × (get_elem? refs i ≡ some s)

-- The value of an attribute: its type, its bytes, and what it says.
pub data Coded : Type 0 where
  null_value true_value false_value : Coded
  string_value hex_value base64_value : List ℕ → Coded
  interned_value : Interned → Coded
  int_value int_hex_value long_value long_hex_value float_value double_value : List ℕ → Coded

abbrev pub event_type : Coded → ℕ
event_type null_value = 0x10
event_type true_value = 0xc0
event_type false_value = 0xd0
event_type (string_value s) = 0x20
event_type (hex_value s) = 0x40
event_type (base64_value s) = 0x50
event_type (interned_value s) = 0x30
event_type (int_value bits) = 0x60
event_type (int_hex_value bits) = 0x70
event_type (long_value bits) = 0x80
event_type (long_hex_value bits) = 0x90
event_type (float_value bits) = 0xa0
event_type (double_value bits) = 0xb0

abbrev pub coded_bytes : Coded → List ℕ
coded_bytes null_value = []
coded_bytes true_value = []
coded_bytes false_value = []
coded_bytes (string_value s) = string_bytes s
coded_bytes (hex_value s) = string_bytes s
coded_bytes (base64_value s) = string_bytes s
coded_bytes (interned_value s) = interned_bytes s
coded_bytes (int_value bits) = bits
coded_bytes (int_hex_value bits) = bits
coded_bytes (long_value bits) = bits
coded_bytes (long_hex_value bits) = bits
coded_bytes (float_value bits) = bits
coded_bytes (double_value bits) = bits

abbrev pub meaning : Coded → Value
meaning null_value = text []
meaning true_value = text (b't' ∷ b'r' ∷ b'u' ∷ b'e' ∷ [])
meaning false_value = text (b'f' ∷ b'a' ∷ b'l' ∷ b's' ∷ b'e' ∷ [])
meaning (string_value s) = text s
meaning (hex_value s) = hex s
meaning (base64_value s) = base64 s
meaning (interned_value s) = text (string_of s)
meaning (int_value bits) = integer 10 32 bits
meaning (int_hex_value bits) = integer 16 32 bits
meaning (long_value bits) = integer 10 64 bits
meaning (long_hex_value bits) = integer 16 64 bits
meaning (float_value bits) = float 32 bits
meaning (double_value bits) = float 64 bits

abbrev pub coded_refs : Coded → Refs → Refs
coded_refs (interned_value s) refs = interned_refs s refs
coded_refs _ refs = refs

abbrev pub IsCoded : Coded → Refs → Type 0
IsCoded null_value refs = Unit
IsCoded true_value refs = Unit
IsCoded false_value refs = Unit
IsCoded (string_value s) refs = length s < 65536
IsCoded (hex_value s) refs = length s < 65536
IsCoded (base64_value s) refs = length s < 65536
IsCoded (interned_value s) refs = IsInterned s refs
IsCoded (int_value bits) refs = length bits ≡ 4
IsCoded (int_hex_value bits) refs = length bits ≡ 4
IsCoded (long_value bits) refs = length bits ≡ 8
IsCoded (long_hex_value bits) refs = length bits ≡ 8
IsCoded (float_value bits) refs = length bits ≡ 4
IsCoded (double_value bits) refs = length bits ≡ 8

-- Attributes: names and values.
abbrev pub Attrs : Type 0
Attrs = List (Interned × Coded)

abbrev pub attrs_bytes : Attrs → List ℕ
attrs_bytes [] = []
attrs_bytes ((name, value) ∷ attrs) =
    ((event_type value + 15) ∷ (interned_bytes name ++ coded_bytes value)) ++ attrs_bytes attrs

abbrev pub attr_of : Interned → Coded → Attr
attr_of name value = record { name = string_of name; value = meaning value }

abbrev pub attrs_of : Attrs → List Attr
attrs_of [] = []
attrs_of ((name, value) ∷ attrs) = attr_of name value ∷ attrs_of attrs

abbrev pub attrs_refs : Attrs → Refs → Refs
attrs_refs [] refs = refs
attrs_refs ((name, value) ∷ attrs) refs =
    attrs_refs attrs (coded_refs value (interned_refs name refs))

abbrev pub AreAttrs : Attrs → Refs → Type 0
AreAttrs [] refs = Unit
AreAttrs ((name, value) ∷ attrs) refs =
    IsInterned name refs
    × IsCoded value (interned_refs name refs)
    × AreAttrs attrs (coded_refs value (interned_refs name refs))

-- Events: the start of the document, tags, texts, and what is passed over.
pub data Event : Type 0 where
  start_document : Event
  start_tag : Interned → Attrs → Event
  end_tag : Interned → Event
  text_event cdata_event comment_event : List ℕ → Event
  ignored : ℕ → List ℕ → Event

abbrev pub token_type : Event → ℕ
token_type start_document = 0
token_type (start_tag name attrs) = 2
token_type (end_tag name) = 3
token_type (text_event s) = 4
token_type (cdata_event s) = 5
token_type (comment_event s) = 9
token_type (ignored t s) = t

abbrev pub event_bytes : Event → List ℕ
event_bytes start_document = []
event_bytes (start_tag name attrs) = interned_bytes name ++ attrs_bytes attrs
event_bytes (end_tag name) = interned_bytes name
event_bytes (text_event s) = string_bytes s
event_bytes (cdata_event s) = string_bytes s
event_bytes (comment_event s) = string_bytes s
event_bytes (ignored t s) = string_bytes s

abbrev pub token_of : Event → Option Token
token_of start_document = none
token_of (start_tag name attrs) = some (start_element (string_of name) (attrs_of attrs))
token_of (end_tag name) = some (end_element (string_of name))
token_of (text_event s) = some (char_data s)
token_of (cdata_event s) = some (directive (cdata s))
token_of (comment_event s) = some (comment s)
token_of (ignored t s) = none

abbrev pub event_refs : Event → Refs → Refs
event_refs (start_tag name attrs) refs = attrs_refs attrs (interned_refs name refs)
event_refs (end_tag name) refs = interned_refs name refs
event_refs _ refs = refs

-- Entity references, white space, processing instructions and document types are passed over. The
-- attributes of a tag are fewer than `turns`.
abbrev pub IsEvent : ℕ → Event → Refs → Type 0
IsEvent turns start_document refs = Unit
IsEvent turns (start_tag name attrs) refs =
    IsInterned name refs × AreAttrs attrs (interned_refs name refs) × (length attrs < turns)
IsEvent turns (end_tag name) refs = IsInterned name refs
IsEvent turns (text_event s) refs = length s < 65536
IsEvent turns (cdata_event s) refs = length s < 65536
IsEvent turns (comment_event s) refs = length s < 65536
IsEvent turns (ignored t s) refs = ((t ≡ 6) ⊎ ((t ≡ 7) ⊎ ((t ≡ 8) ⊎ (t ≡ 10)))) × (length s < 65536)

-- Events with what stands in the upper half of their first bytes, and the end of the document.
abbrev pub Document : Type 0
Document = List (ℕ × Event)

abbrev pub document_bytes : Document → List ℕ
document_bytes [] = 1 ∷ []
document_bytes ((h, e) ∷ es) = (h * 16 + token_type e) ∷ (event_bytes e ++ document_bytes es)

abbrev pub AreEvents : ℕ → Document → Refs → Type 0
AreEvents turns [] refs = Unit
AreEvents turns ((h, e) ∷ es) refs = IsEvent turns e refs × AreEvents turns es (event_refs e refs)

abbrev pub tokens_of : Document → List (Option Token)
tokens_of [] = []
tokens_of ((h, e) ∷ es) = token_of e ∷ tokens_of es
