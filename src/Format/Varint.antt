-- ===== src/Format/Varint.antt =====
-- The varints of crates/blitz-format/src/lib.rs.
use alpheidae.Prelude.{
  ℕ, zero, suc, ◌+◌, ◌*◌, ◌/◌, ◌%◌, ◌^◌, ◌<◌, ◌≡◌, ap, some, List, ◌++◌, ◌==◌, arith, Bool-cases,
  inl, inr,
}
use alpheidae.Format.{put_loop, put_varint, get_loop, get_varint}
use native.Mathlib.Nat.{div-add-mod}
use native.Mathlib.Numerals.{towards_suc}

double_seven : (s : ℕ) → 2 ^ (s + 7) ≡ 128 * 2 ^ s
double_seven s = simp towards_suc (omega arith)

-- The lowest group of `v` and the groups above it, from bit `s` on.
groups : (v s : ℕ) → v * 2 ^ s ≡ v % 128 * 2 ^ s + v / 128 * 2 ^ (s + 7)
groups v s = omega (
  arith,
  ap (λ (t : ℕ). t * 2 ^ s) (div-add-mod v 128),
  ap (λ (t : ℕ). v / 128 * t) (double_seven s),
)

-- `v` is what is still to come, from bit `shift` on, in `k + 1` groups at most.
get_loop-put_loop :
    (k v acc shift : ℕ) (rest : List ℕ)
    → v < 128 ^ suc k
    → shift + 7 * k < 64
    → acc + v * 2 ^ shift < 2 ^ 64
    → get_loop (put_loop (suc k) v ++ rest) acc shift ≡ some (acc + v * 2 ^ shift, rest)
unfolding put_loop get_loop
get_loop-put_loop zero v acc shift rest hv hs fits = ground arith
get_loop-put_loop (suc k) v acc shift rest hv hs fits = elim (Bool-cases (v / 128 == 0)) [
  | inl last ↦ rw last (ground arith)
  | inr more ↦
      let split = groups v shift in
      let ih =
        get_loop-put_loop k (v / 128) (acc + v % 128 * 2 ^ shift) (shift + 7) rest (omega arith)
          (omega arith) (omega (arith, split)) in
      rw more (ground (arith, split, ih))
]

-- A varint of a u64 is read back, whatever follows it.
pub get_varint-put_varint :
    (v : ℕ) (rest : List ℕ) → v < 2 ^ 64 → get_varint (put_varint v ++ rest) ≡ some (v, rest)
unfolding put_varint get_varint
get_varint-put_varint v rest h = ground (arith, get_loop-put_loop 9 v 0 0 rest)
