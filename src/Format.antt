-- ===== src/Format.antt =====
-- crates/blitz-format/src/lib.rs: the encoding of an i64 page. Each value is the difference from the one
-- before it, in zigzag form, as a varint, and the bytes are compressed. An i64 is its 64-bit pattern. The
-- dictionary pages and the footer are not modelled.
pub mod Varint
pub mod Deltas
pub mod Page
pub mod Lz4
use alpheidae.Prelude.{
  ℕ, zero, suc, ◌+◌, ◌-◌, ◌*◌, ◌/◌, ◌%◌, ◌^◌, Bool, true, false, Option, none, some, List, [], ◌∷◌,
  ◌++◌, ltb, leb, ◌==◌, if◌then◌else◌,
}
use alpheidae.Core.{wrapping_add}

-- `x ^ s`, where `s` has all its bits set or none.
abbrev pub xor_sign : ℕ → Bool → ℕ
xor_sign x negative = if negative then 2 ^ 64 - 1 - x else x

-- `n >> 63` has all bits set just when the number is negative.
unfoldable pub zigzag : ℕ → ℕ
zigzag n = xor_sign (n * 2 % 2 ^ 64) (leb (2 ^ 63) n)

unfoldable pub unzigzag : ℕ → ℕ
unzigzag n = xor_sign (n / 2) (n % 2 == 1)

-- The loop of `put_varint`, on fuel. A byte below 128 with its top bit set is that byte plus 128.
unfoldable pub put_loop : ℕ → ℕ → List ℕ
put_loop zero v = []
put_loop (suc fuel) v =
    let b = v % 128 in
    let rest = put_loop fuel (v / 128) in if v / 128 == 0 then b ∷ [] else (b + 128) ∷ rest

-- A u64 has ten groups of seven bits at most.
unfoldable pub put_varint : ℕ → List ℕ
unfolding put_loop
put_varint v = put_loop 10 v

-- The loop of `get_varint`. The groups do not overlap, so `|=` is the sum. Reading past the end and
-- a shift by 64 or more are panics.
unfoldable pub get_loop : List ℕ → ℕ → ℕ → Option (ℕ × List ℕ)
get_loop [] v shift = none
get_loop (b ∷ bs) v shift =
    let acc = (v + b % 128 * 2 ^ shift) % 2 ^ 64 in
    let more = get_loop bs acc (shift + 7) in
    if leb 64 shift then none else if ltb b 128 then some (acc, bs) else more

unfoldable pub get_varint : List ℕ → Option (ℕ × List ℕ)
unfolding get_loop
get_varint buf = get_loop buf 0 0

abbrev pub wrapping_sub : ℕ → ℕ → ℕ
wrapping_sub a b = (a + (2 ^ 64 - b)) % 2 ^ 64

-- The loop of `encode_i64_page`.
unfoldable pub put_deltas : ℕ → List ℕ → List ℕ
put_deltas prev [] = []
put_deltas prev (v ∷ vals) = put_varint (zigzag (wrapping_sub v prev)) ++ put_deltas v vals

-- The loop of `decode_i64_page`.
unfoldable pub get_deltas : ℕ → ℕ → List ℕ → Option (List ℕ)
get_deltas zero prev raw = some []
get_deltas (suc rows) prev raw = elim (get_varint raw) [
  | none ↦ none
  | some (d, rest) ↦ elim (get_deltas rows (wrapping_add prev (unzigzag d)) rest) [
    | none ↦ none
    | some out ↦ some (wrapping_add prev (unzigzag d) ∷ out)
  ]
]
