-- ===== src/Format/Lz4/RoundTrip.antt =====
-- What lz4.rs compresses, decompressed.
use alpheidae.Prelude.{
  ℕ, zero, suc, ◌+◌, ◌-◌, ◌*◌, ◌/◌, ◌%◌, ◌^◌, ◌<◌, ◌≤◌, min, ◌≡◌, refl, sym, ap, subst, ◌∙◌, true,
  false, List, [], ◌∷◌, ◌++◌, length, take, drop, ltb, ◌==◌, arith, All, length-drop, length-append,
  append-nil, take-append, drop-append, take-append-drop, Bool-cases, inl, inr,
}
use alpheidae.Wire.{le_bytes}
use alpheidae.Wire.Laws.{from_le_bytes-le_bytes, length-le_bytes}
use alpheidae.Format.Lz4.{
  hash, read_u32, put_rest, match_length, put_sequence, put_last, is_match, Table, store,
  compress_loop, compress_prepend_size, Outcome, ok, get_rest, finished, more, get_match,
  get_literals, get_sequence, decompress_loop, decompress_size_prepended,
}
use alpheidae.Format.Lz4.Lengths.{get_rest-put_rest}
use alpheidae.Format.Lz4.Match.{IsByte, IsTaken, is_match-IsTaken}
use alpheidae.Format.Lz4.Sequence.{literals_there, sequence_there, sequence_back}

-- The trailing literals, on fuel.
last_back :
    (g : ℕ) (src : List ℕ) (anchor : ℕ)
    → anchor ≤ length src
    → length (put_last src anchor) ≤ g
    → decompress_loop g (put_last src anchor) (take anchor src) ≡ ok src
unfolding put_last decompress_loop get_match
last_back zero src anchor le h = absurd (omega arith)
last_back (suc g) src anchor le h =
    let lit = length src - anchor in
    let body = drop anchor src in
    let token = min lit 15 * 16 in
    let high : token / 16 ≡ min lit 15 = omega arith in
    let step : get_sequence token (put_rest lit ++ body) (take anchor src) ≡ finished (ok src) =
      sequence_there token lit (put_rest lit ++ body) body (take anchor src)
        (ap (λ n. get_rest n (put_rest lit ++ body)) high ∙ get_rest-put_rest lit body)
      ∙ ap (λ b. get_literals token lit b (take anchor src)) (sym (append-nil body))
      ∙ literals_there token lit body [] (take anchor src) (length-drop anchor src)
      ∙ ap (λ o. finished (ok o)) (take-append-drop anchor src) in
    rw (step, decompress_loop)

-- One sequence of the loop.
sequence_step :
    (g token : ℕ) (tail rest out decoded : List ℕ) (r : Outcome)
    → get_sequence token tail out ≡ more rest decoded
    → decompress_loop g rest decoded ≡ r
    → decompress_loop (suc g) (token ∷ tail) out ≡ r
unfolding decompress_loop
sequence_step g token tail rest out decoded r e h = rw (e, decompress_loop) h

-- Bytes that bring the decoder from the first `anchor` bytes of the source to all of it.
abbrev Completes : List ℕ → ℕ → List ℕ → Type 0
Completes src anchor bs = (g : ℕ) → length bs ≤ g → decompress_loop g bs (take anchor src) ≡ ok src

last_Completes :
    (src : List ℕ) (anchor : ℕ) → anchor ≤ length src → Completes src anchor (put_last src anchor)
last_Completes src anchor le = λ g h. last_back g src anchor le h

no_fuel :
    (src : List ℕ) (table : Table) (i anchor : ℕ)
    → compress_loop 0 src table i anchor ≡ put_last src anchor
unfolding compress_loop
no_fuel src table i anchor = refl

module _ (f : ℕ) (src : List ℕ) (table : Table) (i anchor : ℕ) where
  abbrev candidate : ℕ
  candidate = table (hash (read_u32 src i))

  abbrev stored : Table
  stored = store table (hash (read_u32 src i)) (i % 2 ^ 32)

  abbrev end : ℕ
  end = i + match_length src candidate i

  at_end :
      ltb i (length src - 12) ≡ false
      → compress_loop (suc f) src table i anchor ≡ put_last src anchor
  unfolding compress_loop
  at_end h = rw h refl

  at_miss :
      ltb i (length src - 12) ≡ true
      → is_match src candidate i ≡ false
      → compress_loop (suc f) src table i anchor ≡ compress_loop f src stored (i + 1) anchor
  unfolding compress_loop
  at_miss h m = rw (h, m) refl

  at_hit :
      ltb i (length src - 12) ≡ true
      → is_match src candidate i ≡ true
      → compress_loop (suc f) src table i anchor
        ≡ put_sequence src anchor i (i - candidate) (match_length src candidate i)
          ++ compress_loop f src stored end end
  unfolding compress_loop
  at_hit h m = rw (h, m) refl

-- A sequence in front of bytes that complete from the end of its match.
sequence_Completes :
    (src : List ℕ) (anchor i cand : ℕ) (bs : List ℕ)
    → anchor ≤ i
    → IsTaken src cand i
    → Completes src (i + match_length src cand i) bs
    → Completes src anchor (put_sequence src anchor i (i - cand) (match_length src cand i) ++ bs)
sequence_Completes src anchor i cand bs le taken h g fits =
    let (token, tail, parts, longer, step) = sequence_back src anchor i cand bs le taken in
    let size : length (token ∷ tail) ≤ g = subst (λ out. length out ≤ g) parts fits in
    ap (λ out. decompress_loop g out (take anchor src)) parts
    ∙ (elim g
          as (λ g.
            length (token ∷ tail) ≤ g
            → decompress_loop g (token ∷ tail) (take anchor src) ≡ ok src) [
              | zero ↦ λ s. absurd (omega arith)
              | suc g ↦ λ s.
                  sequence_step g token tail bs (take anchor src) _ (ok src) step
                    (h g (omega arith))
            ])
        size

-- What the compressor's loop writes is read back to the whole source.
loop_Completes :
    (f : ℕ) (src : List ℕ) (table : Table) (i anchor : ℕ)
    → All IsByte src
    → anchor ≤ i
    → anchor ≤ length src
    → Completes src anchor (compress_loop f src table i anchor)
loop_Completes zero src table i anchor bytes le inside =
    subst (Completes src anchor) (sym (no_fuel src table i anchor))
      (last_Completes src anchor inside)
loop_Completes (suc f) src table i anchor bytes le inside =
    let cand = candidate f src table i anchor in
    elim (Bool-cases (ltb i (length src - 12))) [
      | inr last ↦
          subst (Completes src anchor) (sym (at_end f src table i anchor last))
            (last_Completes src anchor inside)
      | inl before ↦ elim (Bool-cases (is_match src cand i)) [
        | inr missed ↦
            subst (Completes src anchor) (sym (at_miss f src table i anchor before missed)) (
              loop_Completes f src (stored f src table i anchor) (i + 1) anchor bytes (omega arith)
                inside)
        | inl hit ↦
            let taken = is_match-IsTaken src cand i bytes (ground arith) hit in
            let next = end f src table i anchor in
            subst (Completes src anchor) (sym (at_hit f src table i anchor before hit)) (
              sequence_Completes src anchor i cand _ le taken (
                loop_Completes f src (stored f src table i anchor) next next bytes (omega arith)
                  taken.inside))
      ]
    ]

decompress_sized :
    (n : ℕ) (body src : List ℕ)
    → n < 2 ^ 32
    → length src ≡ n
    → Completes src 0 body
    → decompress_size_prepended (le_bytes 4 n ++ body) ≡ ok src
unfolding decompress_size_prepended
decompress_sized n body src small size h =
    let four = length-le_bytes 4 n in
    let all = length-append (le_bytes 4 n) body in
    let enough : ltb (length (le_bytes 4 n ++ body)) 4 ≡ false = ground (arith, four, all) in
    let head : take 4 (le_bytes 4 n ++ body) ≡ le_bytes 4 n =
      ap (λ k. take k (le_bytes 4 n ++ body)) (sym four) ∙ take-append (le_bytes 4 n) body in
    let tail : drop 4 (le_bytes 4 n ++ body) ≡ body =
      ap (λ k. drop k (le_bytes 4 n ++ body)) (sym four) ∙ drop-append (le_bytes 4 n) body in
    let decoded : decompress_loop (length (le_bytes 4 n ++ body)) body [] ≡ ok src =
      h _ (omega (arith, all)) in
    let same : length src == n ≡ true = ground arith in
    rw (enough, head, tail, decoded, from_le_bytes-le_bytes 4 n (omega arith), same)

-- Any sequence of bytes shorter than 4 GiB that is compressed is decompressed to itself.
pub decompress-compress :
    (src : List ℕ)
    → All IsByte src
    → length src < 2 ^ 32
    → decompress_size_prepended (compress_prepend_size src) ≡ ok src
unfolding compress_prepend_size
decompress-compress src bytes small =
    let wrapped : length src % 2 ^ 32 ≡ length src = omega arith in
    elim (Bool-cases (ltb (length src) 13)) [
      | inl short ↦
          rw (wrapped, short)
            (decompress_sized (length src) _ src small refl (last_Completes src 0 (omega arith)))
      | inr long ↦
          rw (wrapped, long)
            (decompress_sized (length src) _ src small refl
              (loop_Completes (length src) src (λ h. 0) 0 0 bytes (omega arith) (omega arith)))
    ]
