-- ===== src/Format/Lz4.antt =====
-- crates/blitz-format/src/lz4.rs: the LZ4 block codec. Bytes that the compressor pushes one after another
-- are a list here, with what it pushes later behind. An index out of range is a panic.
pub mod Lengths
pub mod Copy
pub mod Match
pub mod Sequence
pub mod RoundTrip
use alpheidae.Prelude.{
  ℕ, zero, suc, ◌+◌, ◌-◌, ◌*◌, ◌/◌, ◌%◌, ◌^◌, min, Bool, true, false, ◌&&◌, ◌||◌, Option, none,
  some, List, [], ◌∷◌, ◌++◌, ltb, leb, ◌==◌, if◌then◌else◌, length, take, drop, get_or,
}
use alpheidae.Wire.{le_bytes, from_le_bytes}

abbrev pub min_match : ℕ
min_match = 4

abbrev pub hash : ℕ → ℕ
hash seq = seq * 2654435761 % 2 ^ 32 / 2 ^ 16

unfoldable pub read_u32 : List ℕ → ℕ → ℕ
read_u32 b i = from_le_bytes (take 4 (drop i b))

-- The loop of `put_len`, on fuel.
unfoldable pub put_len_loop : ℕ → ℕ → List ℕ
put_len_loop zero l = []
put_len_loop (suc fuel) l =
    let rest = put_len_loop fuel (l - 255) in if leb 255 l then 255 ∷ rest else l ∷ []

unfoldable pub put_len : ℕ → List ℕ
unfolding put_len_loop
put_len l = put_len_loop (l + 1) l

-- `if l >= 15 { put_len(&mut out, l - 15); }`
unfoldable pub put_rest : ℕ → List ℕ
put_rest l = if leb 15 l then put_len (l - 15) else []

-- The loop that extends a match, on fuel.
unfoldable pub extend : ℕ → List ℕ → ℕ → ℕ → ℕ → ℕ → ℕ
extend zero src cand i limit ml = ml
extend (suc fuel) src cand i limit ml =
    let more = extend fuel src cand i limit (ml + 1) in
    if ltb ml limit && get_or src (cand + ml) 0 == get_or src (i + ml) 0 then more else ml

-- Match bytes stop five bytes before the end. `saturating_sub` is the subtraction here.
unfoldable pub match_length : List ℕ → ℕ → ℕ → ℕ
unfolding extend
match_length src cand i = let limit = length src - 5 - i in extend limit src cand i limit min_match

-- One sequence: the literals from `anchor` to `i`, then a match.
unfoldable pub put_sequence : List ℕ → ℕ → ℕ → ℕ → ℕ → List ℕ
put_sequence src anchor i offset ml =
    let lit = i - anchor in
    (min lit 15 * 16 + min (ml - min_match) 15)
    ∷ (put_rest lit
        ++ (take lit (drop anchor src)
            ++ (le_bytes 2 (offset % 2 ^ 16) ++ put_rest (ml - min_match))))

-- The trailing literals.
unfoldable pub put_last : List ℕ → ℕ → List ℕ
put_last src anchor =
    let lit = length src - anchor in (min lit 15 * 16) ∷ (put_rest lit ++ drop anchor src)

abbrev pub is_match : List ℕ → ℕ → ℕ → Bool
is_match src cand i = ltb cand i && (leb (i - cand) 0xFFFF && read_u32 src cand == read_u32 src i)

abbrev pub Table : Type 0
Table = ℕ → ℕ

abbrev pub store : Table → ℕ → ℕ → Table
store table h i k = if h == k then i else table k

-- The loop over the source, on fuel, and the trailing literals.
unfoldable pub compress_loop : ℕ → List ℕ → Table → ℕ → ℕ → List ℕ
compress_loop zero src table i anchor = put_last src anchor
compress_loop (suc fuel) src table i anchor =
    let h = hash (read_u32 src i) in
    let cand = table h in
    let stored = store table h (i % 2 ^ 32) in
    let ml = match_length src cand i in
    let matched = compress_loop fuel src stored (i + ml) (i + ml) in
    let missed = compress_loop fuel src stored (i + 1) anchor in
    if ltb i (length src - 12)
    then (if is_match src cand i
        then put_sequence src anchor i (i - cand) ml ++ matched
        else missed)
    else put_last src anchor

unfoldable pub compress_prepend_size : List ℕ → List ℕ
unfolding compress_loop
compress_prepend_size src =
    le_bytes 4 (length src % 2 ^ 32)
    ++ (if ltb (length src) 13 then put_last src 0 else compress_loop (length src) src (λ h. 0) 0 0)

pub data Error : Type 0 where
  short bad_offset length_mismatch : Error

pub data Outcome : Type 0 where
  ok : List ℕ → Outcome
  err : Error → Outcome
  panic : Outcome

-- The loop that reads the rest of a length.
unfoldable pub get_len : List ℕ → ℕ → Option (ℕ × List ℕ)
get_len [] l = none
get_len (b ∷ bs) l = let rest = get_len bs (l + b) in if b == 255 then rest else some (l + b, bs)

-- A length from its half of the token.
unfoldable pub get_rest : ℕ → List ℕ → Option (ℕ × List ℕ)
unfolding get_len
get_rest nibble bs = if nibble == 15 then get_len bs 15 else some (nibble, bs)

-- The loop that copies a match; it may read what it has just pushed.
unfoldable pub copy : ℕ → ℕ → List ℕ → List ℕ
copy zero start out = out
copy (suc n) start out = copy n (start + 1) (out ++ (get_or out start 0 ∷ []))

-- A sequence ends the loop, or leaves bytes to read and what is decoded so far.
pub data Step : Type 0 where
  finished : Outcome → Step
  more : List ℕ → List ℕ → Step

unfoldable pub copy_match : ℕ → ℕ → List ℕ → List ℕ → Step
copy_match offset ml bs out =
    if offset == 0 || ltb (length out) offset
    then finished (err bad_offset)
    else more bs (copy (ml + min_match) (length out - offset) out)

-- What stands behind the literals: nothing in the last sequence.
unfoldable pub get_match : ℕ → List ℕ → List ℕ → Step
unfolding copy_match
get_match token [] out = finished (ok out)
get_match token (b ∷ []) out = finished panic
get_match token (b ∷ c ∷ bs) out = elim (get_rest (token % 16) bs) [
  | none ↦ finished panic
  | some (ml, rest) ↦ copy_match (from_le_bytes (b ∷ c ∷ [])) ml rest out
]

unfoldable pub get_literals : ℕ → ℕ → List ℕ → List ℕ → Step
unfolding get_match
get_literals token lit bs out =
    if ltb (length bs) lit
    then finished panic
    else get_match token (drop lit bs) (out ++ take lit bs)

unfoldable pub get_sequence : ℕ → List ℕ → List ℕ → Step
unfolding get_literals
get_sequence token bs out = elim (get_rest (token / 16) bs) [
  | none ↦ finished panic
  | some (lit, rest) ↦ get_literals token lit rest out
]

-- The loop over the sequences, on fuel.
unfoldable pub decompress_loop : ℕ → List ℕ → List ℕ → Outcome
unfolding get_sequence
decompress_loop fuel [] out = ok out
decompress_loop zero (token ∷ bs) out = panic
decompress_loop (suc fuel) (token ∷ bs) out = elim (get_sequence token bs out) [
  | finished r ↦ r
  | more rest decoded ↦ decompress_loop fuel rest decoded
]

abbrev pub sized : ℕ → Outcome → Outcome
sized n (ok out) = if length out == n then ok out else err length_mismatch
sized n (err e) = err e
sized n panic = panic

unfoldable pub decompress_size_prepended : List ℕ → Outcome
unfolding decompress_loop
decompress_size_prepended src =
    if ltb (length src) 4
    then err short
    else sized (from_le_bytes (take 4 src)) (decompress_loop (length src) (drop 4 src) [])
