-- ===== src/Core.antt =====
-- crates/blitz-core/src/lib.rs: columns and kernels. An i64 is its 64-bit pattern, a number below 2 ^ 64;
-- `bias` turns the order of the integers into the order of the numbers, and `wrapping_add` is the sum
-- modulo 2 ^ 64. There are no floats here: the f64 kernels are left out.
pub mod Groups
pub mod Group
pub mod Filter
pub mod Agg
pub mod Lanes
pub mod Shuffle
use alpheidae.Prelude.{
  ℕ, ◌+◌, ◌-◌, ◌*◌, ◌/◌, ◌%◌, ◌^◌, ◌<◌, ◌≡◌, Bool, true, false, ltb, leb, ◌==◌, if◌then◌else◌,
}

abbrev pub word : ℕ
word = 2 ^ 64

-- The place of a pattern in the order of the integers.
abbrev pub bias : ℕ → ℕ
bias a = (a + 2 ^ 63) % 2 ^ 64

abbrev pub lt_i64 : ℕ → ℕ → Bool
lt_i64 a b = ltb (bias a) (bias b)

abbrev pub le_i64 : ℕ → ℕ → Bool
le_i64 a b = leb (bias a) (bias b)

abbrev pub min_i64 : ℕ → ℕ → ℕ
min_i64 a b = if lt_i64 b a then b else a

abbrev pub max_i64 : ℕ → ℕ → ℕ
max_i64 a b = if lt_i64 a b then b else a

abbrev pub i64_max : ℕ
i64_max = 2 ^ 63 - 1

abbrev pub i64_min : ℕ
i64_min = 2 ^ 63

abbrev pub wrapping_add : ℕ → ℕ → ℕ
wrapping_add a b = (a + b) % 2 ^ 64

abbrev pub IsI64 : ℕ → Type 0
IsI64 a = a < 2 ^ 64

pub data CmpOp : Type 0 where
  gt lt ge le eq : CmpOp

unfoldable pub to_u8 : CmpOp → ℕ
to_u8 gt = 0
to_u8 lt = 1
to_u8 ge = 2
to_u8 le = 3
to_u8 eq = 4

unfoldable pub from_u8 : ℕ → CmpOp
from_u8 b =
    if b == 0 then gt else if b == 1 then lt else if b == 2 then ge else if b == 3 then le else eq

-- The comparison that `run!` is given for an operator, at an i64.
abbrev pub compares : CmpOp → ℕ → ℕ → Bool
compares gt v lit = lt_i64 lit v
compares lt v lit = lt_i64 v lit
compares ge v lit = le_i64 lit v
compares le v lit = le_i64 v lit
compares eq v lit = v == lit
