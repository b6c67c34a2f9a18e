-- ===== src/Core/Shuffle.antt =====
-- The bytes of a column in crates/blitz-core/src/lib.rs, for a shuffle between nodes. A value is its bit
-- pattern, of 8, 8, 16 or 4 bytes, so an f64 is its bits. The product of the length and the width of a
-- value wraps at 2 ^ 64, as in a release build.
pub mod RoundTrip
use alpheidae.Prelude.{
  ℕ, zero, suc, ◌*◌, ◌/◌, ◌%◌, ◌^◌, List, [], ◌∷◌, ◌++◌, ltb, ◌==◌, if◌then◌else◌, length, take,
  drop,
}
use alpheidae.Wire.{le_bytes, from_le_bytes, write_items}

pub data Column : Type 0 where
  i64 f64 date : List ℕ → Column
  decimal : List ℕ → ℕ → Column

-- The messages of the errors, all of the kind `InvalidData`.
pub data Error : Type 0 where
  empty_buffer truncated_length truncated_data missing_scale unknown_column_type : Error

pub data Result (A : Type 0) : Type 0 where
  ok : A → Result A
  err : Error → Result A

abbrev pub map_ok : {A B : Type 0} → (A → B) → Result A → Result B
map_ok f (ok a) = ok (f a)
map_ok f (err e) = err e

-- The number of values and the values, each of `width` bytes.
unfoldable pub w_values : ℕ → List ℕ → List ℕ
w_values width v = le_bytes 8 (length v) ++ write_items (le_bytes width) v

unfoldable pub to_bytes : Column → List ℕ
to_bytes (i64 v) = 0 ∷ w_values 8 v
to_bytes (f64 v) = 1 ∷ w_values 8 v
to_bytes (decimal v scale) = 2 ∷ scale ∷ w_values 16 v
to_bytes (date v) = 3 ∷ w_values 4 v

-- `chunks_exact(width)` on the first `k * width` bytes.
unfoldable pub chunks : ℕ → ℕ → List ℕ → List ℕ
chunks zero width buf = []
chunks (suc k) width buf = from_le_bytes (take width buf) ∷ chunks k width (drop width buf)

unfoldable pub r_values : ℕ → List ℕ → Result (List ℕ)
r_values width buf =
    let bytes = from_le_bytes (take 8 buf) * width % 2 ^ 64 in
    if ltb (length buf) 8
    then err truncated_length
    else if ltb (length (drop 8 buf)) bytes
    then err truncated_data
    else ok (chunks (bytes / width) width (drop 8 buf))

abbrev pub r_decimal : List ℕ → Result Column
r_decimal [] = err missing_scale
r_decimal (scale ∷ buf) = map_ok (λ v. decimal v scale) (r_values 16 buf)

unfoldable pub from_bytes : List ℕ → Result Column
from_bytes [] = err empty_buffer
from_bytes (typ ∷ buf) =
    if typ == 0
    then map_ok i64 (r_values 8 buf)
    else if typ == 1
    then map_ok f64 (r_values 8 buf)
    else if typ == 2
    then r_decimal buf
    else if typ == 3
    then map_ok date (r_values 4 buf)
    else err unknown_column_type
