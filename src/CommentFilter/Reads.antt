-- ===== src/CommentFilter/Reads.antt =====
-- However the text is cut into reads, the filter returns the same bytes.
use sing.Common.{
  ltb→lt, subst, ℕ, ◌≤◌, ◌<◌, ◌≡◌, refl, sym, ap, ◌∙◌, true, false, List, [], ◌∷◌, ◌++◌, Option,
  none, some, length, take, drop, ltb, ◌==◌, arith, append_assoc, append-nil, length-append,
  length-take, take_append-drop, Bool-cases, inl, inr,
}
use sing.Metadata.Serializer.Wire.{suc-eq_zero}
use sing.CommentFilter.{
  CommentFilterState, content, CommentFilter, new_comment_filter, Run, emit, in_slash, finish,
  at_end, turn, read_loop, read, read_all,
}
use sing.CommentFilter.Pieces.{Piece, Pieces, text, kept_text, strip-text}
use sing.CommentFilter.Emits.{strip, ahead, turn-Emitted, joined-rest, joined-going}

-- A read that is to return `text` in the end: `r` has its first part, not empty, and no more than
-- the slice has room for.
pub record Serves (size : ℕ) (text : List ℕ) (r : Run) : Type 0 where
  pub together : r.out ++ ahead r.filter r.src ≡ text
  pub fits : length r.out ≤ size
  pub moves : 0 < length r.out

pub Good : ℕ → List ℕ → Option Run → Type 0
Good size text none = text ≡ []
Good size text (some r) = Serves size text r

finish-Good :
    (size : ℕ) (text out : List ℕ) (v : CommentFilter) (src : List ℕ)
    → ahead v src ≡ []
    → out ++ ahead v src ≡ text
    → length out ≤ size
    → Good size text (finish (record { out = out; filter = v; src = src }))
unfolding finish Good
finish-Good size text [] v src e t h = sym t ∙ e
finish-Good size text (x ∷ xs) v src e t h =
    rw suc-eq_zero (record { together = t; fits = h; moves = omega arith })

emit_one :
    (size x : ℕ) (r : Run)
    → length r.out < size
    → emit size (x ∷ []) r ≡ (true, record r { out = r.out ++ (x ∷ []) })
unfolding emit
emit_one size x r h = ground arith

at_end-Good :
    (size : ℕ) (out : List ℕ) (s : CommentFilterState)
    → length out < size
    → Good size
        (out ++ strip s [])
        (at_end size (record { out = out; filter = record { state = s; pending = [] }; src = [] }))
unfolding at_end strip
at_end-Good size out s h = elim (Bool-cases (in_slash s)) [
  | inl slashed ↦
      rw
        (
          slashed,
          emit_one size b'/'
              (record { out = out; filter = record { state = content; pending = [] }; src = [] }) h,
        )
        (finish-Good size (out ++ (b'/' ∷ [])) (out ++ (b'/' ∷ [])) new_comment_filter [] refl
          (append-nil (out ++ (b'/' ∷ []))) (omega (arith, length-append out (b'/' ∷ []))))
  | inr other ↦ rw other (
      finish-Good size (out ++ []) out (record { state = s; pending = [] }) [] (rw other) (rw other)
        (omega arith))
]

-- A run whose slice is full.
full-Serves :
    (size : ℕ) (text : List ℕ) (r : Run)
    → 0 < size
    → r.out ++ ahead r.filter r.src ≡ text
    → length r.out ≡ size
    → Serves size text r
full-Serves size text r pos e f = record { together = e; fits = omega arith; moves = omega arith }

read_loop-Good :
    (size : ℕ) (out src : List ℕ) (v : CommentFilter)
    → 0 < size
    → length out ≤ size
    → v.pending ≡ []
    → Good size (out ++ strip v.state src) (read_loop size out src v)
unfolding read_loop Good
read_loop-Good size out [] v pos h e = elim (Bool-cases (ltb (length out) size)) [
  | inl space ↦ rw space (
      subst
        (λ w.
          Good size (out ++ strip w.state [])
            (at_end size (record { out = out; filter = w; src = [] })))
        (sym (ap (λ p. record v { pending = p }) e))
        (at_end-Good size out v.state (ltb→lt _ _ space)))
  | inr none_left ↦ rw none_left (full-Serves size _ _ pos (rw e) (ground (arith, none_left)))
]
read_loop-Good size out (x ∷ src) v pos h e = elim (Bool-cases (ltb (length out) size)) [
  | inl space ↦
      let r : Run = record { out = out; filter = v; src = src } in
      let m = turn-Emitted size x r e (ltb→lt _ _ space) in
      elim (Bool-cases (turn size x r).0) [
        | inl goes ↦
            rw (space, goes)
              (subst
                (λ text.
                  Good size text
                    (read_loop size (turn size x r).1.out src (turn size x r).1.filter))
                (joined-going x src out v m goes)
                (read_loop-Good size (turn size x r).1.out src (turn size x r).1.filter pos
                  m.bounded (m.going goes)))
        | inr stops ↦
            rw (space, stops) (full-Serves size _ _ pos (joined-rest x src out v m) (m.full stops))
      ]
  | inr none_left ↦ rw none_left (full-Serves size _ _ pos (rw e) (ground (arith, none_left)))
]

not_zero : (size : ℕ) → 0 < size → (size == 0) ≡ false
not_zero size h = ground arith

-- A read into a slice that is not empty returns the next part of what the filter has still to
-- return, not empty and no longer than the slice, and leaves the rest for later reads. It meets
-- the end only where nothing is left.
pub read-Good :
    (size : ℕ) (v : CommentFilter) (src : List ℕ)
    → 0 < size
    → Good size (ahead v src) (read size v src)
unfolding read Good
read-Good size v src pos = elim (Bool-cases (ltb size (length v.pending))) [
  | inl more ↦
      rw (not_zero size pos, more)
        (record {
          together =
              sym (append_assoc (take size v.pending) (drop size v.pending) (strip v.state src))
              ∙ ap (λ p. p ++ strip v.state src) (take_append-drop size v.pending);
          fits = omega (arith, length-take size v.pending);
          moves = omega (arith, length-take size v.pending, ltb→lt _ _ more);
        })
  | inr fits ↦
      rw (not_zero size pos, fits)
        (read_loop-Good size v.pending src (record v { pending = [] }) pos (ground (arith, fits))
          refl)
]

-- Slices that are not empty.
abbrev pub Positive : List ℕ → Type 0
Positive [] = Unit {0}
Positive (size ∷ sizes) = (0 < size) × Positive sizes

read_all-Good :
    (sizes text : List ℕ) (res : Option Run)
    → ((v' : CommentFilter) (src' : List ℕ)
        → length (ahead v' src') < length sizes
        → read_all sizes v' src' ≡ some (ahead v' src'))
    → length text ≤ length sizes
    → (size : ℕ) → Good size text res
    → (elim res [
      | none ↦ some []
      | some r ↦ elim (read_all sizes r.filter r.src) [
        | none ↦ none
        | some more ↦ some (r.out ++ more)
      ]
    ])
      ≡ some text
unfolding Good
read_all-Good sizes text none rec h size g = ap some (sym g)
read_all-Good sizes text (some r) rec h size g =
    rw (rec r.filter r.src shorter) (ap some g.together)
  where
    shorter : length (ahead r.filter r.src) < length sizes
    shorter =
        omega (arith, g.moves, ap length g.together, length-append r.out (ahead r.filter r.src))

read_all-ahead :
    (sizes : List ℕ) (v : CommentFilter) (src : List ℕ)
    → Positive sizes
    → length (ahead v src) < length sizes
    → read_all sizes v src ≡ some (ahead v src)
unfolding read_all
read_all-ahead [] v src p h = elim h [ ]
read_all-ahead (size ∷ sizes) v src p h =
    read_all-Good sizes (ahead v src) (read size v src)
      (λ v' src' k. read_all-ahead sizes v' src' p.1 k) (omega arith) size
      (read-Good size v src p.0)

-- However a text is read, in slices that are not empty and more of them than the filter returns
-- bytes, the reads return `strip content` of it and meet the end.
pub read_all-strip :
    (sizes text : List ℕ)
    → Positive sizes
    → length (strip content text) < length sizes
    → read_all sizes new_comment_filter text ≡ some (strip content text)
read_all-strip sizes text p h = read_all-ahead sizes new_comment_filter text p h

-- However a text of pieces is read, in slices that are not empty and more of them than bytes are
-- kept, the reads return the kept text and then the end: each comment is replaced by its newlines,
-- and strings, escapes and all other bytes are unchanged.
pub read_all-text :
    (sizes : List ℕ) (ps : List Piece)
    → Pieces ps
    → Positive sizes
    → length (kept_text ps) < length sizes
    → read_all sizes new_comment_filter (text ps) ≡ some (kept_text ps)
read_all-text sizes ps i p h =
    read_all-strip sizes (text ps) p (rw (strip-text ps i) h) ∙ ap some (strip-text ps i)
