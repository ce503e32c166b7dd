-- ===== src/Abx/Tests.antt =====
-- A small document, and one that is cut short.
use sing.Common.{ℕ, ◌+◌, ◌*◌, ◌≡◌, ◌≢◌, refl, List, [], ◌∷◌, ◌++◌, none, some, inl, inr, arith}
use sing.Common.Outcome.{panic}
use sing.Abx.{token, new_reader}
use sing.Abx.Bytes.{Source}
use sing.Abx.Writes.{
  written, referred, interned_bytes, Attrs, attrs_bytes, interned_value, int_value, start_document,
  start_tag, end_tag, text_event, ignored, Document, document_bytes, tokens_of,
}
use sing.Abx.Tokens.{Tokens, new_reader-Tokens, token-endless}
use sing.Abx.Safe.{token_safe_lem}

abbrev a_name : List ℕ
a_name = b'a' ∷ []

abbrev a_attrs : Attrs
a_attrs =
    (referred 0 a_name, interned_value (written (b'x' ∷ [])))
    ∷ (written (b'n' ∷ []), int_value (0 ∷ 0 ∷ 0 ∷ 7 ∷ []))
    ∷ []

abbrev small_document : Document
small_document =
    (1, start_document)
    ∷ (3, start_tag (written a_name) a_attrs)
    ∷ (2, text_event (b'h' ∷ b'i' ∷ []))
    ∷ (2, ignored 7 (b' ' ∷ []))
    ∷ (3, end_tag (referred 0 a_name))
    ∷ []

new_reader-Tokens_example :
    (s : Source) × (new_reader (0x41 ∷ 0x42 ∷ 0x58 ∷ 0 ∷ document_bytes small_document) ≡ some s)
    × Tokens 3 s (tokens_of small_document)
new_reader-Tokens_example = new_reader-Tokens 3 small_document (
  tt,
  (
    (omega arith, ((omega arith, refl), omega arith, (omega arith, refl, tt)), omega arith),
    (omega arith, ((inr (inl refl), omega arith), ((omega arith, refl), tt))),
  ),
)

token-endless_example :
    token 5 (record {
      rest = (3 * 16 + 2) ∷ (interned_bytes (written a_name) ++ attrs_bytes a_attrs);
      string_refs = [];
    })
    ≡ none
token-endless_example =
    token-endless 5 3 (written a_name) a_attrs [] (omega arith)
      ((omega arith, refl), omega arith, (omega arith, refl, tt))

-- A reference to a string that was not written.
abbrev dangling : Source
dangling = record { rest = 3 ∷ 0 ∷ 9 ∷ []; string_refs = a_name ∷ [] }

token_safe_lem_example : token 1 dangling ≢ some (panic, dangling)
token_safe_lem_example = token_safe_lem 1 dangling dangling
