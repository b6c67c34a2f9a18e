-- ===== src/Format/Lz4/Lengths.antt =====
-- The lengths of lz4.rs: four bits in the token, and the rest in bytes.
use alpheidae.Prelude.{
  ℕ, zero, suc, ◌+◌, ◌-◌, ◌*◌, ◌/◌, ◌%◌, ◌<◌, min, ◌≡◌, some, List, ◌++◌, arith,
}
use alpheidae.Format.Lz4.{put_len_loop, put_len, put_rest, get_len, get_rest}

get_len-put_len_loop :
    (fuel l acc : ℕ) (rest : List ℕ)
    → l < fuel
    → get_len (put_len_loop fuel l ++ rest) acc ≡ some (acc + l, rest)
unfolding get_len put_len_loop
get_len-put_len_loop zero l acc rest h = absurd (omega arith)
get_len-put_len_loop (suc fuel) l acc rest h =
    ground (arith, get_len-put_len_loop fuel (l - 255) (acc + 255) rest)

-- A length is read back from its half of the token and the bytes behind.
pub get_rest-put_rest :
    (l : ℕ) (rest : List ℕ) → get_rest (min l 15) (put_rest l ++ rest) ≡ some (l, rest)
unfolding get_rest put_rest put_len
get_rest-put_rest l rest = ground (arith, get_len-put_len_loop (l - 15 + 1) (l - 15) 15 rest)

-- The two halves of a token.
pub upper : (a b : ℕ) → (min a 15 * 16 + min b 15) / 16 ≡ min a 15
upper a b = omega arith

pub lower : (a b : ℕ) → (min a 15 * 16 + min b 15) % 16 ≡ min b 15
lower a b = omega arith
