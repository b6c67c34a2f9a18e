-- ===== src/Format/Lz4/Match.antt =====
-- Finding a match in lz4.rs: four equal bytes, then as many more as there are.
use alpheidae.Prelude.{
  ℕ, zero, suc, ◌+◌, ◌-◌, ◌<◌, ◌≤◌, ◌≡◌, refl, sym, ap, ap₂, ◌∙◌, true, ◌&&◌, List, [], ◌∷◌, length,
  take, drop, get_or, ltb, ◌==◌, arith, All, All-take, All-drop, length-take, length-drop,
  Bool-cases, inl, inr,
}
use alpheidae.Wire.{from_le_bytes}
use alpheidae.Format.Lz4.{read_u32, extend, match_length, min_match, is_match}
use alpheidae.Format.Lz4.Copy.{Repeats, get_or-take, get_or-drop}

abbrev pub IsByte : ℕ → Type 0
IsByte b = b < 256

-- Numbers of as many bytes are equal only if the bytes are.
from_le_bytes_inj :
    (xs ys : List ℕ)
    → length xs ≡ length ys
    → All IsByte xs
    → All IsByte ys
    → from_le_bytes xs ≡ from_le_bytes ys
    → xs ≡ ys
unfolding from_le_bytes
from_le_bytes_inj [] [] len hx hy e = refl
from_le_bytes_inj [] (y ∷ ys) len hx hy e = absurd (omega arith)
from_le_bytes_inj (x ∷ xs) [] len hx hy e = absurd (omega arith)
from_le_bytes_inj (x ∷ xs) (y ∷ ys) len (hx, hxs) (hy, hys) e =
    let same : x ≡ y = omega arith in
    ap₂ ◌∷◌ same (from_le_bytes_inj xs ys (omega arith) hxs hys (omega arith))

read_u32-Repeats :
    (src : List ℕ) (cand i : ℕ)
    → All IsByte src
    → cand + 4 ≤ length src
    → i + 4 ≤ length src
    → read_u32 src cand ≡ read_u32 src i
    → Repeats src cand i 4
unfolding read_u32
read_u32-Repeats src cand i bytes hc hi e = λ k lt.
    let four : (j : ℕ) → j + 4 ≤ length src → length (take 4 (drop j src)) ≡ 4 =
      λ j h. omega (arith, length-take 4 (drop j src), length-drop j src) in
    let same =
      from_le_bytes_inj (take 4 (drop cand src)) (take 4 (drop i src))
        (four cand hc ∙ sym (four i hi))
        (All-take IsByte 4 (drop cand src) (All-drop IsByte cand src bytes))
        (All-take IsByte 4 (drop i src) (All-drop IsByte i src bytes)) e in
    sym (get_or-take 4 k (drop cand src) lt ∙ get_or-drop cand k src)
    ∙ ap (λ xs. get_or xs k 0) same
    ∙ get_or-take 4 k (drop i src) lt
    ∙ get_or-drop i k src

-- What the extension keeps: a match that is no longer than the limit, or than it was.
record IsExtended (src : List ℕ) (cand i limit ml : ℕ) (r : ℕ) : Type 0 where
  repeats : Repeats src cand i r
  from : ml ≤ r
  within : r ≤ limit

one_more :
    (src : List ℕ) (cand i ml : ℕ)
    → Repeats src cand i ml
    → get_or src (cand + ml) 0 ≡ get_or src (i + ml) 0
    → Repeats src cand i (ml + 1)
one_more src cand i ml h e = λ k lt. elim (Bool-cases (ltb k ml)) [
  | inl before ↦ h k (ground arith)
  | inr not_before ↦
      let last : k ≡ ml = ground arith in
      ap (λ j. get_or src (cand + j) 0) last ∙ e ∙ ap (λ j. get_or src (i + j) 0) (sym last)
]

extend-IsExtended :
    (fuel : ℕ) (src : List ℕ) (cand i limit ml : ℕ)
    → ml ≤ limit
    → Repeats src cand i ml
    → IsExtended src cand i limit ml (extend fuel src cand i limit ml)
unfolding extend
extend-IsExtended zero src cand i limit ml le h = record {
  repeats = h;
  from = omega arith;
  within = le;
}
extend-IsExtended (suc fuel) src cand i limit ml le h =
    elim (Bool-cases (ltb ml limit && get_or src (cand + ml) 0 == get_or src (i + ml) 0)) [
      | inl go ↦
          let x =
            extend-IsExtended fuel src cand i limit (ml + 1) (ground arith)
              (one_more src cand i ml h (ground arith)) in
          let f : ml ≤ extend fuel src cand i limit (ml + 1) = omega (arith, x.from) in
          rw go (record { repeats = x.repeats; from = f; within = x.within })
      | inr stop ↦ rw stop (record { repeats = h; from = omega arith; within = le })
    ]

-- A match that the compressor takes at `i` repeats what stands at `cand`, and stops inside the source.
pub record IsTaken (src : List ℕ) (cand i : ℕ) : Type 0 where
  pub earlier : cand < i
  pub near : i - cand ≤ 0xFFFF
  pub repeats : Repeats src cand i (match_length src cand i)
  pub long : min_match ≤ match_length src cand i
  pub inside : i + match_length src cand i ≤ length src

pub is_match-IsTaken :
    (src : List ℕ) (cand i : ℕ)
    → All IsByte src
    → i < length src - 12
    → is_match src cand i ≡ true
    → IsTaken src cand i
unfolding match_length
is_match-IsTaken src cand i bytes lt h =
    let earlier : cand < i = ground arith in
    let four : read_u32 src cand ≡ read_u32 src i = ground arith in
    let x =
      extend-IsExtended (length src - 5 - i) src cand i (length src - 5 - i) 4 (omega arith)
        (read_u32-Repeats src cand i bytes (omega arith) (omega arith) four) in
    record {
      earlier = earlier;
      near = ground arith;
      repeats = x.repeats;
      long = x.from;
      inside = omega (arith, x.within);
    }
