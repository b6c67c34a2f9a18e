-- ===== src/Format/Lz4/Sequence.antt =====
-- One sequence of lz4.rs, written and read back.
use alpheidae.Prelude.{
  ℕ, zero, suc, ◌+◌, ◌-◌, ◌*◌, ◌/◌, ◌%◌, ◌^◌, ◌<◌, ◌≤◌, min, ◌≡◌, refl, sym, ap, ap₂, ◌∙◌, false,
  some, List, [], ◌∷◌, ◌++◌, length, take, drop, ltb, arith, length-take, length-drop,
  length-append, append_assoc, take-append, drop-append,
}
use alpheidae.Wire.{le_bytes}
use alpheidae.Wire.Laws.{from_le_bytes-le_bytes}
use alpheidae.Format.Lz4.{
  min_match, put_rest, match_length, put_sequence, get_rest, copy, more, copy_match, get_match,
  get_literals, get_sequence,
}
use alpheidae.Format.Lz4.Lengths.{get_rest-put_rest, upper, lower}
use alpheidae.Format.Lz4.Copy.{copy-take}
use alpheidae.Format.Lz4.Match.{IsTaken}

take-nil : (n : ℕ) → take {A = ℕ} n [] ≡ []
take-nil zero = refl
take-nil (suc n) = refl

-- The literals of a sequence are the source from `anchor` to `i`.
literals :
    (src : List ℕ) (anchor i : ℕ)
    → anchor ≤ i
    → take anchor src ++ take (i - anchor) (drop anchor src) ≡ take i src
literals src zero i h = ap (λ n. take n src) (let e : i - 0 ≡ i = omega arith in e)
literals [] (suc anchor) zero h = absurd (omega arith)
literals [] (suc anchor) (suc i) h = take-nil (suc i - suc anchor)
literals (x ∷ src) (suc anchor) zero h = absurd (omega arith)
literals (x ∷ src) (suc anchor) (suc i) h =
    let e : suc i - suc anchor ≡ i - anchor = omega arith in
    ap (◌∷◌ x) (
      ap (λ n. take anchor src ++ take n (drop anchor src)) e ∙ literals src anchor i (omega arith))

-- Literals that are all there are appended.
pub literals_there :
    (token lit : ℕ) (body bs out : List ℕ)
    → length body ≡ lit
    → get_literals token lit (body ++ bs) out ≡ get_match token bs (out ++ body)
unfolding get_literals
literals_there token lit body bs out e =
    let d : drop lit (body ++ bs) ≡ bs =
      ap (λ n. drop n (body ++ bs)) (sym e) ∙ drop-append body bs in
    let t : take lit (body ++ bs) ≡ body =
      ap (λ n. take n (body ++ bs)) (sym e) ∙ take-append body bs in
    let fits : ltb (length (body ++ bs)) lit ≡ false = ground (arith, length-append body bs) in
    rw (fits, d, t)

copy_there :
    (offset ml : ℕ) (bs out : List ℕ)
    → 0 < offset
    → offset ≤ length out
    → copy_match offset ml bs out ≡ more bs (copy (ml + min_match) (length out - offset) out)
unfolding copy_match
copy_there offset ml bs out pos le = ground arith

match_there :
    (token ml offset : ℕ) (bs rest out : List ℕ)
    → get_rest (token % 16) bs ≡ some (ml, rest)
    → 0 < offset
    → offset < 2 ^ 16
    → offset ≤ length out
    → get_match token (le_bytes 2 offset ++ bs) out
      ≡ more rest (copy (ml + min_match) (length out - offset) out)
unfolding get_match le_bytes
match_there token ml offset bs rest out e pos small le =
    rw (e, get_match)
      (ap (λ o. copy_match o ml rest out) (from_le_bytes-le_bytes 2 offset (omega arith))
        ∙ copy_there offset ml rest out pos le)

pub sequence_there :
    (token lit : ℕ) (bs rest out : List ℕ)
    → get_rest (token / 16) bs ≡ some (lit, rest)
    → get_sequence token bs out ≡ get_literals token lit rest out
unfolding get_sequence
sequence_there token lit bs rest out e = rw (e, get_sequence)

-- The bytes of a sequence, one part after another.
parts :
    (src : List ℕ) (anchor i off ml : ℕ) (bs : List ℕ)
    → off < 2 ^ 16
    → put_sequence src anchor i off ml ++ bs
      ≡ (min (i - anchor) 15 * 16 + min (ml - min_match) 15)
        ∷ (put_rest (i - anchor)
            ++ (take (i - anchor) (drop anchor src)
                ++ (le_bytes 2 off ++ (put_rest (ml - min_match) ++ bs))))
unfolding put_sequence
parts src anchor i off ml bs h =
    let small : off % 2 ^ 16 ≡ off = omega arith in
    let body = take (i - anchor) (drop anchor src) in
    let low = le_bytes 2 (off % 2 ^ 16) in
    ap (◌∷◌ (min (i - anchor) 15 * 16 + min (ml - min_match) 15)) (
      append_assoc (put_rest (i - anchor)) (body ++ (low ++ put_rest (ml - min_match))) bs
      ∙ ap (◌++◌ (put_rest (i - anchor))) (
          append_assoc body (low ++ put_rest (ml - min_match)) bs
          ∙ ap (◌++◌ body) (
              append_assoc low (put_rest (ml - min_match)) bs
              ∙ ap (λ n. le_bytes 2 n ++ (put_rest (ml - min_match) ++ bs)) small)))

pub length_behind : (xs ys : List ℕ) (n : ℕ) → n ≤ length ys → n ≤ length (xs ++ ys)
length_behind xs ys n h = omega (arith, length-append xs ys)

-- A sequence that the compressor writes takes the decoded bytes from `anchor` to the end of its match.
pub sequence_back :
    (src : List ℕ) (anchor i cand : ℕ) (bs : List ℕ)
    → anchor ≤ i
    → IsTaken src cand i
    → (token : ℕ) × (tail : List ℕ) × (put_sequence src anchor i
            (i - cand)
            (match_length src cand i)
          ++ bs
        ≡ token ∷ tail)
      × (length bs ≤ length tail)
      × (get_sequence token tail (take anchor src)
          ≡ more bs (take (i + match_length src cand i) src))
sequence_back src anchor i cand bs le taken =
    let ml = match_length src cand i in
    let lit = i - anchor in
    let token = min lit 15 * 16 + min (ml - min_match) 15 in
    let body = take lit (drop anchor src) in
    let off = i - cand in
    let after = put_rest (ml - min_match) ++ bs in
    let behind = body ++ (le_bytes 2 off ++ after) in
    let small : off % 2 ^ 16 ≡ off = omega (arith, taken.near) in
    let spread : put_sequence src anchor i off ml ++ bs ≡ token ∷ (put_rest lit ++ behind) =
      parts src anchor i off ml bs (omega (arith, taken.near)) in
    let size : length body ≡ lit =
      omega (arith, length-take lit (drop anchor src), length-drop anchor src, taken.inside) in
    let whole : length (take i src) ≡ i = omega (arith, length-take i src, taken.inside) in
    let out = literals src anchor i le in
    (
      token,
      put_rest lit ++ behind,
      spread,
      length_behind (put_rest lit) behind (length bs) (
          length_behind body (le_bytes 2 off ++ after) (length bs) (
            length_behind (le_bytes 2 off) after (length bs)
              (length_behind (put_rest (ml - min_match)) bs (length bs) (omega arith)))),
      sequence_there token lit (put_rest lit ++ behind) behind (take anchor src) (
            ap (λ n. get_rest n (put_rest lit ++ behind)) (upper lit (ml - min_match))
            ∙ get_rest-put_rest lit behind)
          ∙ literals_there token lit body (le_bytes 2 off ++ after) (take anchor src) size
          ∙ ap (get_match token (le_bytes 2 off ++ after)) out
          ∙ match_there token (ml - min_match) off after bs (take i src)
              (ap (λ n. get_rest n after) (lower lit (ml - min_match))
                ∙ get_rest-put_rest (ml - min_match) bs)
              (omega (arith, taken.earlier)) (omega (arith, taken.near)) (omega (arith, whole))
          ∙ ap (more bs) (
              ap₂ (λ n start. copy n start (take i src))
                (let e : ml - min_match + min_match ≡ ml = omega (arith, taken.long) in e)
                (let e : length (take i src) - off ≡ cand = omega (arith, whole, taken.earlier) in
                  e)
              ∙ copy-take ml cand i src taken.earlier taken.inside taken.repeats),
    )
