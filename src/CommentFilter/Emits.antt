-- ===== src/CommentFilter/Emits.antt =====
-- What the filter emits on a byte, and on a whole text.
use sing.Common.{
  ap₂, ℕ, ◌-◌, ◌≤◌, ◌<◌, ◌≡◌, refl, sym, ap, ◌∙◌, Bool, true, false, List, [], ◌∷◌, ◌++◌, length,
  take, drop, leb, ◌==◌, if◌then◌else◌, arith, append_assoc, append-nil, length-append, length-take,
  take_append-drop, Bool-cases, inl, inr,
}
use sing.Metadata.Serializer.Wire.{suc-eq_zero}
use sing.CommentFilter.{CommentFilterState, CommentFilter, step, Run, emit, in_slash, turn}

-- All that the filter emits on a text, from a state on.
unfoldable pub strip : CommentFilterState → List ℕ → List ℕ
strip s [] = if in_slash s then b'/' ∷ [] else []
strip s (x ∷ xs) = (step s x).1 ++ strip (step s x).0 xs

-- What a filter has still to return.
abbrev pub ahead : CommentFilter → List ℕ → List ℕ
ahead v src = v.pending ++ strip v.state src

-- `r'` has emitted `bs` behind `r`; where it is not to go on, the slice is full.
pub record Emitted (size : ℕ) (bs : List ℕ) (r : Run) (go : Bool) (r' : Run) : Type 0 where
  pub same_src : r'.src ≡ r.src
  pub same_state : r'.filter.state ≡ r.filter.state
  pub joined : r'.out ++ r'.filter.pending ≡ r.out ++ bs
  pub bounded : length r'.out ≤ size
  pub going : go ≡ true → r'.filter.pending ≡ []
  pub full : go ≡ false → length r'.out ≡ size

emit-Emitted :
    (size : ℕ) (bs : List ℕ) (r : Run)
    → r.filter.pending ≡ []
    → length r.out < size
    → Emitted size bs r (emit size bs r).0 (emit size bs r).1
unfolding emit
emit-Emitted size bs r e h = elim (Bool-cases (leb (length bs) (size - length r.out))) [
  | inl fits ↦ record {
    same_src = ground (arith, fits);
    same_state = ground (arith, fits);
    joined = ground (arith, fits, e, append-nil (r.out ++ bs));
    bounded = ground (arith, fits, length-append r.out bs);
    going = ground (arith, fits, e);
    full = ground (arith, fits);
  }
  | inr more ↦ record {
    same_src = ground (arith, more);
    same_state = ground (arith, more);
    joined = ground (
      arith,
      more,
      append_assoc r.out (take (size - length r.out) bs) (drop (size - length r.out) bs),
      take_append-drop (size - length r.out) bs,
    );
    bounded = ground (
      arith,
      more,
      length-append r.out (take (size - length r.out) bs),
      length-take (size - length r.out) bs,
    );
    going = ground (arith, more);
    full = ground (
      arith,
      more,
      length-append r.out (take (size - length r.out) bs),
      length-take (size - length r.out) bs,
    );
  }
]

guarded-Emitted :
    (size : ℕ) (bs : List ℕ) (r : Run)
    → r.filter.pending ≡ []
    → length r.out < size
    → let res = if length bs == 0 then (true, r) else emit size bs r in
      Emitted size bs r res.0 res.1
guarded-Emitted size [] r e h = record {
  same_src = refl;
  same_state = refl;
  joined = rw e;
  bounded = omega arith;
  going = λ go. e;
  full = λ stop. cc;
}
guarded-Emitted size (x ∷ xs) r e h = rw suc-eq_zero (emit-Emitted size (x ∷ xs) r e h)

pub turn-Emitted :
    (size x : ℕ) (r : Run)
    → r.filter.pending ≡ []
    → length r.out < size
    → Emitted size
        (step r.filter.state x).1
        (record r { filter = record (r.filter) { state = (step r.filter.state x).0 } })
        (turn size x r).0
        (turn size x r).1
unfolding turn
turn-Emitted size x r e h =
    guarded-Emitted size (step r.filter.state x).1
      (record r { filter = record (r.filter) { state = (step r.filter.state x).0 } }) e h

-- What is behind an emission, put in front of the rest of the text.
pub joined-rest :
    {size : ℕ} (x : ℕ) (src out : List ℕ) (v : CommentFilter) {go : Bool} {r : Run}
    → Emitted size
        (step v.state x).1
        (record { out = out; filter = record v { state = (step v.state x).0 }; src = src })
        go
        r
    → r.out ++ ahead r.filter r.src ≡ out ++ strip v.state (x ∷ src)
unfolding strip
joined-rest x src out v {r = r} m =
    ap (λ more. r.out ++ (r.filter.pending ++ more)) (ap₂ strip m.same_state m.same_src)
    ∙ sym (append_assoc r.out r.filter.pending (strip (step v.state x).0 src))
    ∙ ap (λ front. front ++ strip (step v.state x).0 src) m.joined
    ∙ append_assoc out (step v.state x).1 (strip (step v.state x).0 src)

pub joined-going :
    {size : ℕ} (x : ℕ) (src out : List ℕ) (v : CommentFilter) {go : Bool} {r : Run}
    → Emitted size
        (step v.state x).1
        (record { out = out; filter = record v { state = (step v.state x).0 }; src = src })
        go
        r
    → go ≡ true
    → r.out ++ strip r.filter.state src ≡ out ++ strip v.state (x ∷ src)
joined-going x src out v {r = r} m goes =
    ap₂ (λ p rest. r.out ++ (p ++ strip r.filter.state rest)) (sym (m.going goes)) (sym m.same_src)
    ∙ joined-rest x src out v m
