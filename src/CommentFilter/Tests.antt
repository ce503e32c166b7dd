-- ===== src/CommentFilter/Tests.antt =====
-- The filter on small texts.
use sing.Common.{ℕ, ◌<◌, ◌≡◌, refl, length, List, [], ◌∷◌, some, arith}
use sing.CommentFilter.{new_comment_filter, content, read_all, step, read}
use sing.CommentFilter.Emits.{strip, ahead}
use sing.CommentFilter.Reads.{Good, read-Good, read_all-strip, read_all-text}
use sing.CommentFilter.Pieces.{Piece, Pieces, text, kept_text}
use sing.CommentFilter.Pieces.Char.{one}
use sing.CommentFilter.Pieces.Piece.{plain, double_quoted, block_comment, line_comment}

-- 1/*(newline)*/"//"//2
abbrev sample : List Piece
sample =
    plain 49
    ∷ block_comment (10 ∷ [])
    ∷ double_quoted (one 47 ∷ one 47 ∷ [])
    ∷ line_comment (50 ∷ [])
    ∷ []

sample-Pieces : Pieces sample
sample-Pieces = ground arith

abbrev twos : List ℕ
twos = 2 ∷ 2 ∷ 2 ∷ 2 ∷ 2 ∷ 2 ∷ 2 ∷ 2 ∷ []

read_all-text_example : read_all twos new_comment_filter (text sample) ≡ some (kept_text sample)
read_all-text_example = read_all-text twos sample sample-Pieces (omega arith) (omega arith)

-- A backslash at the end of the text is lost.
backslash_lost : strip content (49 ∷ 92 ∷ []) ≡ 49 ∷ []
unfolding strip step
backslash_lost = refl

slash_short : length (strip content (49 ∷ b'/' ∷ [])) < 8
unfolding strip step
slash_short = omega arith

read_all-strip_example :
    read_all twos new_comment_filter (49 ∷ b'/' ∷ []) ≡ some (strip content (49 ∷ b'/' ∷ []))
read_all-strip_example = read_all-strip twos (49 ∷ b'/' ∷ []) (omega arith) slash_short

read-Good_example :
    Good 1 (ahead new_comment_filter (92 ∷ 49 ∷ [])) (read 1 new_comment_filter (92 ∷ 49 ∷ []))
read-Good_example = read-Good 1 new_comment_filter (92 ∷ 49 ∷ []) (omega arith)
