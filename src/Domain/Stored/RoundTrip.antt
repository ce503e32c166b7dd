-- ===== src/Domain/Stored/RoundTrip.antt =====
-- What is stored is read back.
use sing.Common.{
  subst, false, ℕ, suc, ◌*◌, ◌^◌, ◌<◌, ◌≤◌, ◌≡◌, refl, ap, ap₂, sym, ◌∙◌, List, [], ◌∷◌, ◌++◌,
  append_assoc, append-nil, length, ◌==◌, if◌then◌else◌, arith,
}
use sing.Common.Outcome.{Outcome, ok, ◌>>=◌, >>=_assoc}
use sing.Stream.{Reader, next, read_full, read_full-append}
use sing.Varbin.{write_uvarint, read_uvarint, max_len}
use sing.Varbin.Uvarint.{groups, put_all, read_uvarint_lem, write_uvarint-put_all}
use sing.Domain.{SuccinctSet}
use sing.Domain.Stored.{
  big_endian, words_bytes, from_big_endian, words_of, make, read_uint64_slice, read_byte_slice,
  read_succinct_set, read_matcher, Writer, write_uint64_slice, write_byte_slice, write_succinct_set,
  write_matcher,
}

-- A writer that keeps all bytes, such as a `bytes.Buffer`.
abbrev pub bytes_writer : Writer (List ℕ)
bytes_writer = record { write_byte = λ b w. ok (w ++ (b ∷ [])); write = λ bs w. ok (w ++ bs) }

put_all_append : (bs w : List ℕ) → put_all bytes_writer.write_byte bs w ≡ ok (w ++ bs)
unfolding put_all
put_all_append [] w = ap ok (sym (append-nil w))
put_all_append (b ∷ bs) w = put_all_append bs (w ++ (b ∷ [])) ∙ ap ok (append_assoc w (b ∷ []) bs)

-- Words are 64 bits wide.
abbrev pub AreWords : List ℕ → Type 0
AreWords [] = Unit
AreWords (w ∷ ws) = (w < 2 ^ 64) × AreWords ws

word_lem : (w : ℕ) → w < 2 ^ 64 → from_big_endian 0 (big_endian 8 w) ≡ w
word_lem w h = omega (arith, h)

length-words_bytes : (ws : List ℕ) → length (words_bytes ws) ≡ 8 * length ws
length-words_bytes [] = refl
length-words_bytes (w ∷ ws) = omega (arith, length-words_bytes ws)

words_of_bytes : (ws : List ℕ) → AreWords ws → words_of (length ws) (words_bytes ws) ≡ ws
words_of_bytes [] h = refl
words_of_bytes (w ∷ ws) h = ap₂ (λ x xs. x ∷ xs) (word_lem w h.0) (words_of_bytes ws h.1)

-- `m` appends bytes that `r` reads as `a`, in front of any others.
abbrev Stores : {A : Type 0} → (List ℕ → Outcome (List ℕ)) → Reader A → A → Type 0
Stores m r a =
    (bs : List ℕ) × ((w : List ℕ) → m w ≡ ok (w ++ bs))
    × ((rest : List ℕ) → r (bs ++ rest) ≡ ok (a, rest))

then-Stores :
    {A B : Type 0} (m m' : List ℕ → Outcome (List ℕ)) (r : Reader A) (f : A → Reader B) (a : A)
    (b : B)
    → Stores m r a
    → Stores m' (f a) b
    → Stores (λ w. m w >>= m') (λ src. r src >>= λ x. f x.0 x.1) b
then-Stores m m' r f a b (bs, h, k) (bs', h', k') = (
  bs ++ bs',
  λ w. ap (λ o. o >>= m') (h w) ∙ h' (w ++ bs) ∙ ap ok (append_assoc w bs bs'),
  λ rest.
      ap (λ xs. r xs >>= λ x. f x.0 x.1) (append_assoc bs bs' rest)
      ∙ ap (λ o. o >>= λ x. f x.0 x.1) (k (bs' ++ rest))
      ∙ k' rest,
)

map-Stores :
    {A B : Type 0} (m : List ℕ → Outcome (List ℕ)) (r : Reader A) (f : A → B) (a : A)
    → Stores m r a
    → Stores m (λ src. r src >>= λ x. ok (f x.0, x.1)) (f a)
map-Stores m r f a (bs, h, k) = (bs, h, λ rest. ap (λ o. o >>= λ x. ok (f x.0, x.1)) (k rest))

abbrev uncounted : ℕ × List ℕ → Outcome (List ℕ)
uncounted x = ok x.1

abbrev counted : ℕ → List ℕ → Outcome (ℕ × List ℕ)
counted n w = ok (n, w)

uvarint-Stores :
    (v : ℕ)
    → v < 2 ^ 64
    → Stores (λ w. write_uvarint bytes_writer.write_byte v w >>= uncounted) read_uvarint v
uvarint-Stores v h = (
  groups max_len v,
  λ w.
      ap (λ o. o >>= uncounted) (write_uvarint-put_all bytes_writer.write_byte v w h)
      ∙ ap (λ o. (o >>= counted (length (groups max_len v))) >>= uncounted)
          (put_all_append (groups max_len v) w),
  λ rest. read_uvarint_lem v rest h,
)

read_full_lem :
    (n : ℕ) (bs rest : List ℕ) → length bs ≡ n → read_full n (bs ++ rest) ≡ ok (bs, rest)
read_full_lem n bs rest e =
    subst (λ k. read_full k (bs ++ rest) ≡ ok (bs, rest)) e (read_full-append bs rest)

nothing_stored : {A : Type 0} (a : A) → Stores (λ w. ok w) (λ src. ok (a, src)) a
nothing_stored a = ([], λ w. ap ok (sym (append-nil w)), λ rest. refl)

module _ (max_alloc : ℕ) where
  -- What is behind the length.
  words_behind : ℕ → Reader (List ℕ)
  words_behind n src = if n == 0 then ok ([], src) else (do
    _ ← make max_alloc (8 * n)
    (bs, src) ← read_full (8 * n) src
    ok (words_of n bs, src))

  words_behind_lem :
      (n : ℕ) (bs rest : List ℕ)
      → 8 * suc n ≤ max_alloc
      → length bs ≡ 8 * suc n
      → words_behind (suc n) (bs ++ rest) ≡ ok (words_of (suc n) bs, rest)
  unfolding words_behind
  words_behind_lem n bs rest l e = ground (arith, l, read_full_lem (8 * suc n) bs rest e)

  words_behind-Stores :
      (ws : List ℕ)
      → AreWords ws
      → 8 * length ws ≤ max_alloc
      → Stores
          (λ w. if length ws == 0 then ok w else bytes_writer.write (words_bytes ws) w)
          (words_behind (length ws))
          ws
  unfolding words_behind
  words_behind-Stores [] h l = nothing_stored []
  words_behind-Stores (x ∷ ws) h l =
      let e : length (x ∷ ws) == 0 ≡ false = ground arith in
      (
        words_bytes (x ∷ ws),
        λ w. ap (λ b. if b then ok w else bytes_writer.write (words_bytes (x ∷ ws)) w) e,
        λ rest.
            words_behind_lem (length ws) (words_bytes (x ∷ ws)) rest l (length-words_bytes (x ∷ ws))
            ∙ ap (λ r. ok (r, rest)) (words_of_bytes (x ∷ ws) h),
      )

  uint64_slice-Stores :
      (ws : List ℕ)
      → AreWords ws
      → length ws < 2 ^ 64
      → 8 * length ws ≤ max_alloc
      → Stores (write_uint64_slice bytes_writer ws) (read_uint64_slice max_alloc) ws
  unfolding words_behind write_uint64_slice read_uint64_slice
  uint64_slice-Stores ws h n l =
      let (bs, written, read) =
        then-Stores (λ w. write_uvarint bytes_writer.write_byte (length ws) w >>= uncounted)
          (λ w. if length ws == 0 then ok w else bytes_writer.write (words_bytes ws) w) read_uvarint
          words_behind (length ws) ws (uvarint-Stores (length ws) n) (words_behind-Stores ws h l) in
      (
        bs,
        λ w.
            sym (>>=_assoc (write_uvarint bytes_writer.write_byte (length ws) w) uncounted _)
            ∙ written w,
        read,
      )

  -- The same for bytes.
  bytes_behind : ℕ → Reader (List ℕ)
  bytes_behind n src = if n == 0 then ok ([], src) else (do _ ← make max_alloc n; read_full n src)

  bytes_behind_lem :
      (x : ℕ) (bs rest : List ℕ)
      → length (x ∷ bs) ≤ max_alloc
      → bytes_behind (length (x ∷ bs)) (x ∷ bs ++ rest) ≡ ok (x ∷ bs, rest)
  unfolding bytes_behind
  bytes_behind_lem x bs rest l = ground (arith, l, read_full-append (x ∷ bs) rest)

  bytes_behind-Stores :
      (bs : List ℕ)
      → length bs ≤ max_alloc
      → Stores
          (λ w. if length bs == 0 then ok w else bytes_writer.write bs w)
          (bytes_behind (length bs))
          bs
  unfolding bytes_behind
  bytes_behind-Stores [] l = nothing_stored []
  bytes_behind-Stores (x ∷ bs) l =
      let e : length (x ∷ bs) == 0 ≡ false = ground arith in
      (
        x ∷ bs,
        λ w. ap (λ b. if b then ok w else bytes_writer.write (x ∷ bs) w) e,
        λ rest. bytes_behind_lem x bs rest l,
      )

  byte_slice-Stores :
      (xs : List ℕ)
      → length xs < 2 ^ 64
      → length xs ≤ max_alloc
      → Stores (write_byte_slice bytes_writer xs) (read_byte_slice max_alloc) xs
  unfolding bytes_behind write_byte_slice read_byte_slice
  byte_slice-Stores xs n l =
      let (bs, written, read) =
        then-Stores (λ w. write_uvarint bytes_writer.write_byte (length xs) w >>= uncounted)
          (λ w. if length xs == 0 then ok w else bytes_writer.write xs w) read_uvarint bytes_behind
          (length xs) xs (uvarint-Stores (length xs) n) (bytes_behind-Stores xs l) in
      (
        bs,
        λ w.
            sym (>>=_assoc (write_uvarint bytes_writer.write_byte (length xs) w) uncounted _)
            ∙ written w,
        read,
      )

  -- Words of 64 bits, no more of them, and no more labels, than memory has room for.
  abbrev pub IsStorable : SuccinctSet → Type 0
  IsStorable set =
      AreWords set.leaves
      × AreWords set.label_bitmap
      × (8 * length set.leaves ≤ max_alloc)
      × (8 * length set.label_bitmap ≤ max_alloc)
      × (length set.labels ≤ max_alloc)
      × (max_alloc < 2 ^ 64)

  abbrev Index : Type 0
  Index = List ℕ → (ℕ → Outcome ℕ) × (ℕ → Outcome ℕ)

  abbrev set_with : Index → List ℕ → List ℕ → List ℕ → SuccinctSet
  set_with init leaves label_bitmap labels =
      let (count_zeros, select_ith_one) = init label_bitmap in
      record {
        leaves = leaves;
        label_bitmap = label_bitmap;
        labels = labels;
        count_zeros = count_zeros;
        select_ith_one = select_ith_one;
      }

  set-Stores :
      (init : Index) (set : SuccinctSet)
      → IsStorable set
      → Stores
          (write_succinct_set bytes_writer set)
          (read_succinct_set max_alloc init)
          (set_with init set.leaves set.label_bitmap set.labels)
  unfolding write_succinct_set read_succinct_set
  set-Stores init set h =
      let (leaves_are, bitmap_is, leaves_fit, bitmap_fits, labels_fit, room) = h in
      let stored_labels =
        map-Stores (write_byte_slice bytes_writer set.labels) (read_byte_slice max_alloc)
          (set_with init set.leaves set.label_bitmap) set.labels
          (byte_slice-Stores set.labels (omega (arith, labels_fit, room)) labels_fit) in
      let stored_bitmap =
        then-Stores (write_uint64_slice bytes_writer set.label_bitmap)
          (write_byte_slice bytes_writer set.labels) (read_uint64_slice max_alloc)
          (λ bitmap src.
            read_byte_slice max_alloc src >>= λ x. ok (set_with init set.leaves bitmap x.0, x.1))
          set.label_bitmap (set_with init set.leaves set.label_bitmap set.labels)
          (uint64_slice-Stores set.label_bitmap bitmap_is (omega (arith, bitmap_fits, room))
            bitmap_fits)
          stored_labels in
      let bitmap_on : List ℕ → Reader SuccinctSet = λ leaves src.
        read_uint64_slice max_alloc src >>= λ y.
        read_byte_slice max_alloc y.1 >>= λ x. ok (set_with init leaves y.0 x.0, x.1) in
      let stored_leaves =
        then-Stores (write_uint64_slice bytes_writer set.leaves)
          (λ w.
            write_uint64_slice bytes_writer set.label_bitmap w
            >>= write_byte_slice bytes_writer set.labels)
          (read_uint64_slice max_alloc) bitmap_on set.leaves
          (set_with init set.leaves set.label_bitmap set.labels)
          (uint64_slice-Stores set.leaves leaves_are (omega (arith, leaves_fit, room)) leaves_fit)
          stored_bitmap in
      then-Stores (λ w. ok (w ++ (0 ∷ [])))
        (λ w. write_uint64_slice bytes_writer set.leaves w >>= λ w.
          write_uint64_slice bytes_writer set.label_bitmap w
          >>= write_byte_slice bytes_writer set.labels)
        next (λ version src. read_uint64_slice max_alloc src >>= λ z. bitmap_on z.0 z.1) 0
        (set_with init set.leaves set.label_bitmap set.labels) (0 ∷ [], λ w. refl, λ rest. refl)
        stored_leaves

  -- A matcher with the index that `init` makes, whose words are below 2^64 and whose three slices fit
  -- into the memory of an allocation, is written into a buffer behind what is there, and is read back,
  -- in front of any bytes, as the same matcher.
  pub read_matcher-write :
      (init : List ℕ → (ℕ → Outcome ℕ) × (ℕ → Outcome ℕ)) (set : SuccinctSet) (w rest : List ℕ)
      → IsStorable set
      → (set.count_zeros, set.select_ith_one) ≡ init set.label_bitmap
      → (bs : List ℕ) × (write_matcher bytes_writer set w ≡ ok (w ++ bs))
        × (read_matcher max_alloc init (bs ++ rest) ≡ ok (set, rest))
  unfolding write_matcher read_matcher
  read_matcher-write init set w rest h e =
      let (bs, written, read) = set-Stores init set h in
      (
        bs,
        written w,
        read rest
            ∙ ap
                (λ i. ok (
                  let s : SuccinctSet = record {
                    leaves = set.leaves;
                    label_bitmap = set.label_bitmap;
                    labels = set.labels;
                    count_zeros = i.0;
                    select_ith_one = i.1;
                  } in
                      s,
                  rest,
                ))
                (sym e),
      )
