-- ===== src/CommentFilter/Pieces.antt =====
-- The filter on texts that are put together from strings, comments and other bytes.
use sing.Common.{
  ℕ, ◌≡◌, ◌≢◌, refl, ap, sym, ◌∙◌, Bool, true, false, List, [], ◌∷◌, ◌++◌, ◌==◌, if◌then◌else◌,
  arith, append_assoc,
}
use sing.CommentFilter.{
  CommentFilterState, content, double_quote, single_quote, comment, multiline_comment,
  multiline_comment_star, step,
}
use sing.CommentFilter.Emits.{strip}

-- What stands in a string: a byte, or a backslash and a byte.
pub data Char : Type 0 where
  one : ℕ → Char
  escaped : ℕ → Char

pub data Piece : Type 0 where
  plain : ℕ → Piece
  backslash : ℕ → Piece
  double_quoted : List Char → Piece
  single_quoted : List Char → Piece
  lone_slash : ℕ → Piece
  line_comment : List ℕ → Piece
  hash_comment : List ℕ → Piece
  block_comment : List ℕ → Piece

abbrev pub chars : List Char → List ℕ
chars [] = []
chars (one x ∷ cs) = x ∷ chars cs
chars (escaped x ∷ cs) = 92 ∷ x ∷ chars cs

-- The newlines of a comment.
abbrev pub newlines : List ℕ → List ℕ
newlines [] = []
newlines (x ∷ xs) = if x == 10 then 10 ∷ newlines xs else newlines xs

-- A piece as it stands in the text.
abbrev pub source : Piece → List ℕ
source (plain x) = x ∷ []
source (backslash x) = 92 ∷ x ∷ []
source (double_quoted cs) = b'"' ∷ (chars cs ++ (b'"' ∷ []))
source (single_quoted cs) = 39 ∷ (chars cs ++ (39 ∷ []))
source (lone_slash x) = b'/' ∷ x ∷ []
source (line_comment body) = b'/' ∷ b'/' ∷ (body ++ (10 ∷ []))
source (hash_comment body) = b'#' ∷ (body ++ (10 ∷ []))
source (block_comment body) = b'/' ∷ b'*' ∷ (body ++ (b'*' ∷ b'/' ∷ []))

-- What is left of it: of a comment, its newlines.
abbrev pub kept : Piece → List ℕ
kept (line_comment body) = 10 ∷ []
kept (hash_comment body) = 10 ∷ []
kept (block_comment body) = newlines body
kept p = source p

abbrev pub AllNot : ℕ → List ℕ → Type 0
AllNot c [] = Unit {0}
AllNot c (x ∷ xs) = (x ≢ c) × AllNot c xs

-- Bytes that end no string with the quote `q`, and start no escape.
abbrev pub Inside : ℕ → List Char → Type 0
Inside q [] = Unit {0}
Inside q (one x ∷ cs) = (x ≢ q) × (x ≢ 92) × Inside q cs
Inside q (escaped x ∷ cs) = Inside q cs

-- A body without the end of a comment; `star` says that a star stands in front of it.
abbrev pub Open : Bool → List ℕ → Type 0
Open star [] = Unit {0}
Open true (x ∷ xs) = (x ≢ b'/') × Open (x == b'*') xs
Open false (x ∷ xs) = Open (x == b'*') xs

abbrev pub IsPiece : Piece → Type 0
IsPiece (plain x) = (x ≢ b'"') × (x ≢ 39) × (x ≢ 92) × (x ≢ b'#') × (x ≢ b'/')
IsPiece (backslash x) = Unit {0}
IsPiece (double_quoted cs) = Inside b'"' cs
IsPiece (single_quoted cs) = Inside 39 cs
IsPiece (lone_slash x) = (x ≢ b'/') × (x ≢ b'*')
IsPiece (line_comment body) = AllNot 10 body
IsPiece (hash_comment body) = AllNot 10 body
IsPiece (block_comment body) = Open false body

strip-double :
    (cs : List Char) (rest : List ℕ)
    → Inside b'"' cs
    → strip double_quote (chars cs ++ (b'"' ∷ rest)) ≡ chars cs ++ (b'"' ∷ strip content rest)
unfolding strip step
strip-double [] rest i = refl
strip-double (one x ∷ cs) rest i = ground (arith, i.0, i.1, strip-double cs rest i.2)
strip-double (escaped x ∷ cs) rest i = ap (λ s. 92 ∷ x ∷ s) (strip-double cs rest i)

strip-single :
    (cs : List Char) (rest : List ℕ)
    → Inside 39 cs
    → strip single_quote (chars cs ++ (39 ∷ rest)) ≡ chars cs ++ (39 ∷ strip content rest)
unfolding strip step
strip-single [] rest i = refl
strip-single (one x ∷ cs) rest i = ground (arith, i.0, i.1, strip-single cs rest i.2)
strip-single (escaped x ∷ cs) rest i = ap (λ s. 92 ∷ x ∷ s) (strip-single cs rest i)

strip-comment :
    (body rest : List ℕ)
    → AllNot 10 body
    → strip comment (body ++ (10 ∷ rest)) ≡ 10 ∷ strip content rest
unfolding strip step
strip-comment [] rest a = refl
strip-comment (x ∷ body) rest a = ground (arith, a.0, strip-comment body rest a.1)

-- The state inside a block comment.
abbrev in_block : Bool → CommentFilterState
in_block true = multiline_comment_star
in_block false = multiline_comment

strip-block :
    (star : Bool) (body rest : List ℕ)
    → Open star body
    → strip (in_block star) (body ++ (b'*' ∷ b'/' ∷ rest)) ≡ newlines body ++ strip content rest
unfolding strip step
strip-block true [] rest o = refl
strip-block false [] rest o = refl
strip-block true (x ∷ body) rest o = ground (arith, o.0, strip-block (x == b'*') body rest o.1)
strip-block false (x ∷ body) rest o = ground (arith, strip-block (x == b'*') body rest o)

strip-piece :
    (p : Piece) (rest : List ℕ)
    → IsPiece p
    → strip content (source p ++ rest) ≡ kept p ++ strip content rest
unfolding strip step
strip-piece (plain x) rest i = ground (arith, i.0, i.1, i.2, i.3, i.4)
strip-piece (backslash x) rest i = refl
strip-piece (double_quoted cs) rest i =
    ap (λ s. b'"' ∷ strip double_quote s) (append_assoc (chars cs) (b'"' ∷ []) rest)
    ∙ ap (λ s. b'"' ∷ s)
        (strip-double cs rest i ∙ sym (append_assoc (chars cs) (b'"' ∷ []) (strip content rest)))
strip-piece (single_quoted cs) rest i =
    ap (λ s. 39 ∷ strip single_quote s) (append_assoc (chars cs) (39 ∷ []) rest)
    ∙ ap (λ s. 39 ∷ s)
        (strip-single cs rest i ∙ sym (append_assoc (chars cs) (39 ∷ []) (strip content rest)))
strip-piece (lone_slash x) rest i = ground (arith, i.0, i.1)
strip-piece (line_comment body) rest i =
    ap (strip comment) (append_assoc body (10 ∷ []) rest) ∙ strip-comment body rest i
strip-piece (hash_comment body) rest i =
    ap (strip comment) (append_assoc body (10 ∷ []) rest) ∙ strip-comment body rest i
strip-piece (block_comment body) rest i =
    ap (strip multiline_comment) (append_assoc body (b'*' ∷ b'/' ∷ []) rest)
    ∙ strip-block false body rest i

abbrev pub text : List Piece → List ℕ
text [] = []
text (p ∷ ps) = source p ++ text ps

abbrev pub kept_text : List Piece → List ℕ
kept_text [] = []
kept_text (p ∷ ps) = kept p ++ kept_text ps

abbrev pub Pieces : List Piece → Type 0
Pieces [] = Unit {0}
Pieces (p ∷ ps) = IsPiece p × Pieces ps

-- A text of bytes, escapes, strings, single slashes and closed comments is emitted with each
-- comment replaced by its newlines, and nothing else changed: what looks like a comment inside a
-- string stays.
pub strip-text : (ps : List Piece) → Pieces ps → strip content (text ps) ≡ kept_text ps
unfolding strip
strip-text [] i = refl
strip-text (p ∷ ps) i = strip-piece p (text ps) i.0 ∙ ap (λ s. kept p ++ s) (strip-text ps i.1)
