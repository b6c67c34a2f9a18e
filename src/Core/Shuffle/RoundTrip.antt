-- ===== src/Core/Shuffle/RoundTrip.antt =====
-- The bytes of a column of crates/blitz-core/src/lib.rs, written and read.
use alpheidae.Prelude.{
  ℕ, suc, ◌+◌, ◌*◌, ◌/◌, ◌%◌, ◌^◌, ◌<◌, ◌≤◌, ◌≡◌, refl, sym, ap, ap₂, ◌∙◌, List, [], ◌∷◌, ◌++◌,
  length, take, drop, All, arith, take-append, drop-append, length-append, append_assoc,
}
use alpheidae.Wire.{le_bytes, from_le_bytes, write_items}
use alpheidae.Wire.Laws.{from_le_bytes-le_bytes, length-le_bytes}
use alpheidae.Core.Shuffle.{
  Column, i64, f64, date, decimal, ok, map_ok, w_values, to_bytes, chunks, r_values, from_bytes,
}

-- The first `n` bytes, when a list of `n` stands in front.
front : (n : ℕ) (s rest : List ℕ) → length s ≡ n → take n (s ++ rest) ≡ s
front n s rest h = ap (λ k. take k (s ++ rest)) (sym h) ∙ take-append s rest

behind : (n : ℕ) (s rest : List ℕ) → length s ≡ n → drop n (s ++ rest) ≡ rest
behind n s rest h = ap (λ k. drop k (s ++ rest)) (sym h) ∙ drop-append s rest

length-write_items :
    (width : ℕ) (v : List ℕ) → length (write_items (le_bytes width) v) ≡ length v * width
unfolding write_items
length-write_items width [] = omega arith
length-write_items width (x ∷ v) =
    length-append (le_bytes width x) (write_items (le_bytes width) v)
    ∙ ap₂ ◌+◌ (length-le_bytes width x) (length-write_items width v)
    ∙ suc_mul (length v) width
  where
    suc_mul : (n w : ℕ) → w + n * w ≡ suc n * w
    suc_mul n w = grind arith

chunks-write_items :
    (width : ℕ) (v rest : List ℕ)
    → All (λ x. x < 256 ^ width) v
    → chunks (length v) width (write_items (le_bytes width) v ++ rest) ≡ v
unfolding chunks write_items
chunks-write_items width [] rest h = refl
chunks-write_items width (x ∷ v) rest (hx, hs) =
    let more = write_items (le_bytes width) v ++ rest in
    let split = append_assoc (le_bytes width x) (write_items (le_bytes width) v) rest in
    let first =
      ap (take width) split ∙ front width (le_bytes width x) more (length-le_bytes width x) in
    let others =
      ap (drop width) split ∙ behind width (le_bytes width x) more (length-le_bytes width x) in
    ap₂ ◌∷◌ (ap from_le_bytes first ∙ from_le_bytes-le_bytes width x hx)
      (ap (chunks (length v) width) others ∙ chunks-write_items width v rest hs)

-- A buffer with `n` in front and all the bytes that `n` values need.
enough_bytes :
    (width n bytes : ℕ) (buf body v : List ℕ)
    → from_le_bytes (take 8 buf) ≡ n
    → drop 8 buf ≡ body
    → 8 ≤ length buf
    → n * width % 2 ^ 64 ≡ bytes
    → bytes ≤ length body
    → chunks (bytes / width) width body ≡ v
    → r_values width buf ≡ ok v
unfolding r_values
enough_bytes width n bytes buf body v en eb long em more ec = ground arith

r_values-w_values :
    (width : ℕ) (v rest : List ℕ)
    → 0 < width
    → length v * width < 2 ^ 64
    → All (λ x. x < 256 ^ width) v
    → r_values width (w_values width v ++ rest) ≡ ok v
unfolding r_values w_values
r_values-w_values width v rest pos fits h =
    let body = write_items (le_bytes width) v ++ rest in
    let split = append_assoc (le_bytes 8 (length v)) (write_items (le_bytes width) v) rest in
    let size =
      ap from_le_bytes (front 8 (le_bytes 8 (length v)) body (length-le_bytes 8 (length v)))
      ∙ from_le_bytes-le_bytes 8 (length v) (short (length v) width pos fits) in
    let data_ = behind 8 (le_bytes 8 (length v)) body (length-le_bytes 8 (length v)) in
    let count : length v * width / width ≡ length v = whole (length v) width pos in
    ap (r_values width) split
    ∙ enough_bytes width (length v) (length v * width) (le_bytes 8 (length v) ++ body) body v size
        data_
        (omega (arith, length-append (le_bytes 8 (length v)) body, length-le_bytes 8 (length v)))
        (omega arith)
        (omega
          (arith, length-append (write_items (le_bytes width) v) rest, length-write_items width v))
        (ap (λ k. chunks k width body) count ∙ chunks-write_items width v rest h)
  where
    short : (n w : ℕ) → 0 < w → n * w < 2 ^ 64 → n < 256 ^ 8
    short n w pos fits = grind arith

    whole : (n w : ℕ) → 0 < w → n * w / w ≡ n
    whole n w pos = grind arith

-- The values fit their width, and their bytes can be counted.
abbrev pub FitsColumn : Column → Type 0
FitsColumn (i64 v) = (length v * 8 < 2 ^ 64) × All (λ x. x < 256 ^ 8) v
FitsColumn (f64 v) = (length v * 8 < 2 ^ 64) × All (λ x. x < 256 ^ 8) v
FitsColumn (decimal v scale) = (length v * 16 < 2 ^ 64) × All (λ x. x < 256 ^ 16) v
FitsColumn (date v) = (length v * 4 < 2 ^ 64) × All (λ x. x < 256 ^ 4) v

-- A column whose values fit their width comes back from its bytes, whatever bytes follow them, with
-- its type, and its scale if it is a decimal one, provided that its bytes are fewer than 2 ^ 64.
pub from_bytes-to_bytes :
    (c : Column) (rest : List ℕ) → FitsColumn c → from_bytes (to_bytes c ++ rest) ≡ ok c
unfolding from_bytes to_bytes
from_bytes-to_bytes (i64 v) rest (n, h) =
    ap (map_ok i64) (r_values-w_values 8 v rest (omega arith) n h)
from_bytes-to_bytes (f64 v) rest (n, h) =
    ap (map_ok f64) (r_values-w_values 8 v rest (omega arith) n h)
from_bytes-to_bytes (decimal v scale) rest (n, h) =
    ap (map_ok (λ x. decimal x scale)) (r_values-w_values 16 v rest (omega arith) n h)
from_bytes-to_bytes (date v) rest (n, h) =
    ap (map_ok date) (r_values-w_values 4 v rest (omega arith) n h)
