-- ===== src/CommentFilter.antt =====
-- common/json/comment.go: the reader that takes the comments out of a JSON text.
pub mod Emits
pub mod Reads
pub mod Pieces
mod Tests
use sing.Common.{
  ℕ, ◌+◌, ◌-◌, Bool, true, false, List, [], ◌∷◌, ◌++◌, Option, none, some, length, take, drop, ltb,
  leb, ◌==◌, if◌then◌else◌,
}

pub data CommentFilterState : Type 0 where
  content : CommentFilterState
  escape : CommentFilterState
  double_quote : CommentFilterState
  double_quote_escape : CommentFilterState
  single_quote : CommentFilterState
  single_quote_escape : CommentFilterState
  comment : CommentFilterState
  slash : CommentFilterState
  multiline_comment : CommentFilterState
  multiline_comment_star : CommentFilterState

-- `pending` holds the first `pendingN` of its bytes. The underlying reader is the list of the bytes
-- to come, an argument of the operations.
pub record CommentFilter : Type 0 where
  state : CommentFilterState
  pub pending : List ℕ

abbrev pub new_comment_filter : CommentFilter
new_comment_filter = record { state = content; pending = [] }

-- What the switch does with the byte `x`: the next state, and the bytes that it emits.
pub step : CommentFilterState → ℕ → CommentFilterState × List ℕ
step content x =
    if x == b'"'
    then (double_quote, x ∷ [])
    else if x == 39
    then (single_quote, x ∷ [])
    else if x == 92
    then (escape, [])
    else if x == b'#'
    then (comment, [])
    else if x == b'/'
    then (slash, [])
    else (content, x ∷ [])
step escape x = (content, 92 ∷ x ∷ [])
step double_quote x =
    if x == b'"'
    then (content, x ∷ [])
    else if x == 92
    then (double_quote_escape, [])
    else (double_quote, x ∷ [])
step double_quote_escape x = (double_quote, 92 ∷ x ∷ [])
step single_quote x =
    if x == 39
    then (content, x ∷ [])
    else if x == 92
    then (single_quote_escape, [])
    else (single_quote, x ∷ [])
step single_quote_escape x = (single_quote, 92 ∷ x ∷ [])
step comment x = if x == 10 then (content, 10 ∷ []) else (comment, [])
step slash x =
    if x == b'/'
    then (comment, [])
    else if x == b'*'
    then (multiline_comment, [])
    else (content, b'/' ∷ x ∷ [])
step multiline_comment x =
    if x == b'*'
    then (multiline_comment_star, [])
    else if x == 10
    then (multiline_comment, 10 ∷ [])
    else (multiline_comment, [])
step multiline_comment_star x =
    if x == b'/'
    then (content, [])
    else if x == b'*'
    then (multiline_comment_star, [])
    else if x == 10
    then (multiline_comment, 10 ∷ [])
    else (multiline_comment, [])

-- A call of `Read` under way or done: the first `n` bytes of `b`, the filter, and the bytes that it
-- has not read.
pub record Run : Type 0 where
  pub out : List ℕ
  pub filter : CommentFilter
  pub src : List ℕ

-- `emit` into a buffer of `size` bytes; whether to go on, and the run.
pub emit : ℕ → List ℕ → Run → Bool × Run
emit size bs r =
    let remaining = size - length r.out in
    if remaining == 0
    then (false, record r { filter = record (r.filter) { pending = bs } })
    else if leb (length bs) remaining
    then (true, record r { out = r.out ++ bs })
    else (
      false,
      record r {
        out = r.out ++ take remaining bs;
        filter = record (r.filter) { pending = drop remaining bs };
      },
    )

abbrev pub in_slash : CommentFilterState → Bool
in_slash slash = true
in_slash _ = false

-- The end of the underlying reader: `none` is its error.
pub finish : Run → Option Run
finish r = if length r.out == 0 then none else some r

pub at_end : ℕ → Run → Option Run
unfolding emit finish
at_end size r =
    if in_slash r.filter.state
    then (let (go, r') =
          emit size (b'/' ∷ []) (record r { filter = record (r.filter) { state = content } }) in
        if go then finish r' else some r')
    else finish r

-- One turn of the loop on the byte `x`: whether to go on, and the run.
pub turn : ℕ → ℕ → Run → Bool × Run
unfolding emit step
turn size x r =
    let (next, bs) = step r.filter.state x in
    let r' : Run = record r { filter = record (r.filter) { state = next } } in
    if length bs == 0 then (true, r') else emit size bs r'

-- The loop, on the bytes that the underlying reader has.
pub read_loop : ℕ → List ℕ → List ℕ → CommentFilter → Option Run
unfolding at_end turn
read_loop size out [] v =
    let r : Run = record { out = out; filter = v; src = [] } in
    if ltb (length out) size then at_end size r else some r
read_loop size out (x ∷ src) v =
    let (go, r) = turn size x (record { out = out; filter = v; src = src }) in
    let rest = read_loop size r.out src r.filter in
    if ltb (length out) size
    then (if go then rest else some r)
    else some (record { out = out; filter = v; src = x ∷ src })

-- `Read` into a slice of `size` bytes: `none` is the end of the underlying reader, else the bytes
-- written.
pub read : ℕ → CommentFilter → List ℕ → Option Run
unfolding read_loop
read size v src =
    if size == 0
    then some (record { out = []; filter = v; src = src })
    else if ltb size (length v.pending)
    then some (record {
      out = take size v.pending;
      filter = record v { pending = drop size v.pending };
      src = src;
    })
    else read_loop size v.pending src (record v { pending = [] })

-- Reads into slices of the given sizes up to the end: all that they return, or none where the end
-- is not met.
pub read_all : List ℕ → CommentFilter → List ℕ → Option (List ℕ)
unfolding read
read_all [] v src = none
read_all (size ∷ sizes) v src = elim (read size v src) [
  | none ↦ some []
  | some r ↦ elim (read_all sizes r.filter r.src) [ none ↦ none | some more ↦ some (r.out ++ more) ]
]
