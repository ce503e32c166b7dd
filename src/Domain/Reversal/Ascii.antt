-- ===== src/Domain/Reversal/Ascii.antt =====
-- `reverseDomain` on a string of one-byte characters.
use sing.Common.{
  ℕ, zero, suc, ◌+◌, ◌-◌, ◌<◌, ◌≡◌, refl, ap, ap₂, sym, ◌∙◌, true, List, [], ◌∷◌, ◌++◌, length,
  drop, drop-append, splice, replicate, ltb, length-append, length-replicate, append_assoc,
  append-nil, arith,
}
use sing.Common.Outcome.{ok}
use sing.Slices.Reverse.{reversed}
use sing.Domain.Reversal.{decode_rune, rune_bytes, encode_rune, reverse_loop, reverse_domain}

abbrev pub Ascii : List ℕ → Type 0
Ascii [] = Unit
Ascii (c ∷ s) = (c < 0x80) × Ascii s

decode_rune_lem : (c : ℕ) (s : List ℕ) → c < 0x80 → decode_rune (c ∷ s) ≡ (c, 1)
unfolding decode_rune
decode_rune_lem c [] h = ground arith
decode_rune_lem c (d ∷ []) h = ground arith
decode_rune_lem c (d ∷ e ∷ []) h = ground arith
decode_rune_lem c (d ∷ e ∷ f ∷ s) h = ground arith

splice-zeros :
    (n c : ℕ) (r : List ℕ) → splice n (c ∷ []) (replicate (suc n) 0 ++ r) ≡ replicate n 0 ++ (c ∷ r)
splice-zeros zero c [] = refl
splice-zeros zero c (x ∷ r) = refl
splice-zeros (suc n) c r = ap (λ t. 0 ∷ t) (splice-zeros n c r)

encode_rune_lem :
    (n c : ℕ) (r : List ℕ)
    → c < 0x80
    → encode_rune n c (replicate (suc n) 0 ++ r) ≡ ok (replicate n 0 ++ (c ∷ r))
unfolding encode_rune rune_bytes
encode_rune_lem n c r h = ground (
  arith,
  splice-zeros n c r,
  length-append (replicate (suc n) 0) r,
  length-replicate n (let z : ℕ = 0 in z),
)

reverse_loop_step :
    (turns i c n : ℕ) (domain rest b b' : List ℕ)
    → drop i domain ≡ c ∷ rest
    → length domain ≡ i + suc n
    → c < 0x80
    → encode_rune n c b ≡ ok b'
    → reverse_loop (suc turns) domain i b ≡ reverse_loop turns domain (i + 1) b'
unfolding reverse_loop
reverse_loop_step turns i c n domain rest b b' d l h e =
    let p : ltb i (length domain) ≡ true = ground (arith, l) in
    let q : length domain - (i + 1) ≡ n = omega (arith, l) in
    ground (arith, p, d, decode_rune_lem c rest h, q, e)

reverse_loop_lem :
    (rest done r : List ℕ)
    → Ascii rest
    → reverse_loop (length rest) (done ++ rest) (length done) (replicate (length rest) 0 ++ r)
      ≡ ok (reversed rest ++ r)
unfolding reverse_loop reversed
reverse_loop_lem [] done r h = refl
reverse_loop_lem (c ∷ rest) done r h =
    let zeros = replicate (length rest) 0 ++ (c ∷ r) in
    let ih = reverse_loop_lem rest (done ++ (c ∷ [])) (c ∷ r) h.1 in
    let eq =
      ap₂ (λ d n. reverse_loop (length rest) d n zeros) (append_assoc done (c ∷ []) rest)
        (length-append done (c ∷ [])) in
    rw append_assoc (
      reverse_loop_step (length rest) (length done) c (length rest) (done ++ (c ∷ rest)) rest
        (replicate (suc (length rest)) 0 ++ r) zeros (drop-append done (c ∷ rest))
        (length-append done (c ∷ rest)) h.0 (encode_rune_lem (length rest) c r h.0)
      ∙ sym eq
      ∙ ih)

pub reverse_domain-reversed :
    (domain : List ℕ) → Ascii domain → reverse_domain domain ≡ ok (reversed domain)
unfolding reverse_domain
reverse_domain-reversed domain h =
    rw (← append-nil (replicate (length domain) (let z : ℕ = 0 in z)))
      (reverse_loop_lem domain [] [] h ∙ ap ok (append-nil (reversed domain)))
