-- ===== src/Format/Lz4/Copy.antt =====
-- Copying a match in lz4.rs: the decoded bytes are a prefix of the source, and the source repeats itself.
use alpheidae.Prelude.{
  ℕ, zero, suc, ◌+◌, ◌<◌, ◌≤◌, ◌≡◌, refl, sym, ap, ◌∙◌, List, [], ◌∷◌, ◌++◌, length, take, drop,
  get_or, arith,
}
use alpheidae.Format.Lz4.{copy}

pub take-snoc :
    (n : ℕ) (xs : List ℕ) → n < length xs → take n xs ++ (get_or xs n 0 ∷ []) ≡ take (suc n) xs
take-snoc n [] h = absurd (omega arith)
take-snoc zero (x ∷ xs) h = refl
take-snoc (suc n) (x ∷ xs) h = ap (◌∷◌ x) (take-snoc n xs (omega arith))

pub get_or-take : (n i : ℕ) (xs : List ℕ) → i < n → get_or (take n xs) i 0 ≡ get_or xs i 0
get_or-take zero i xs h = absurd (omega arith)
get_or-take (suc n) i [] h = refl
get_or-take (suc n) zero (x ∷ xs) h = refl
get_or-take (suc n) (suc i) (x ∷ xs) h = get_or-take n i xs (omega arith)

pub get_or-drop : (n i : ℕ) (xs : List ℕ) → get_or (drop n xs) i 0 ≡ get_or xs (n + i) 0
get_or-drop zero i xs = ap (λ k. get_or xs k 0) (let e : i ≡ 0 + i = omega arith in e)
get_or-drop (suc n) i [] = refl
get_or-drop (suc n) i (x ∷ xs) =
    get_or-drop n i xs
    ∙ ap (λ k. get_or (x ∷ xs) k 0) (let e : suc (n + i) ≡ suc n + i = omega arith in e)

-- The source has the same bytes at `cand` and at `i`, `n` of them.
abbrev pub Repeats : List ℕ → ℕ → ℕ → ℕ → Type 0
Repeats src cand i n = (k : ℕ) → k < n → get_or src (cand + k) 0 ≡ get_or src (i + k) 0

Repeats-tail :
    (src : List ℕ) (cand i n : ℕ) → Repeats src cand i (suc n) → Repeats src (cand + 1) (i + 1) n
Repeats-tail src cand i n h = λ k lt.
    let a : cand + 1 + k ≡ cand + (k + 1) = omega arith in
    let b : i + 1 + k ≡ i + (k + 1) = omega arith in
    ap (λ j. get_or src j 0) a ∙ h (k + 1) (omega arith) ∙ ap (λ j. get_or src j 0) (sym b)

pub copy-take :
    (n cand i : ℕ) (src : List ℕ)
    → cand < i
    → i + n ≤ length src
    → Repeats src cand i n
    → copy n cand (take i src) ≡ take (i + n) src
unfolding copy
copy-take zero cand i src lt fits h = ap (λ k. take k src) (let e : i ≡ i + 0 = omega arith in e)
copy-take (suc n) cand i src lt fits h =
    let here : get_or (take i src) cand 0 ≡ get_or src i 0 =
      get_or-take i cand src lt
      ∙ ap (λ j. get_or src j 0) (let e : cand ≡ cand + 0 = omega arith in e)
      ∙ h 0 (omega arith)
      ∙ ap (λ j. get_or src j 0) (let e : i + 0 ≡ i = omega arith in e) in
    let pushed : take i src ++ (get_or (take i src) cand 0 ∷ []) ≡ take (i + 1) src =
      ap (λ b. take i src ++ (b ∷ [])) here
      ∙ take-snoc i src (omega arith)
      ∙ ap (λ k. take k src) (let e : suc i ≡ i + 1 = omega arith in e) in
    ap (copy n (cand + 1)) pushed
    ∙ copy-take n (cand + 1) (i + 1) src (omega arith) (omega arith) (Repeats-tail src cand i n h)
    ∙ ap (λ k. take k src) (let e : i + 1 + n ≡ i + suc n = omega arith in e)
