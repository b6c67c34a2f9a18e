-- ===== src/Core/Lanes.antt =====
-- `sum_i64` of crates/blitz-core/src/lib.rs, with its eight lanes, against one pass over the column.
use mathlib.Core.List.{foldl}
use alpheidae.Prelude.{
  ℕ, zero, suc, ◌+◌, ◌%◌, ◌^◌, ◌<◌, ◌≤◌, ◌≡◌, refl, sym, ap, ◌∙◌, false, List, [], ◌∷◌, ◌++◌, leb,
  ◌==◌, length, take, drop, replicate, length-take, take-append-drop, arith, Bool-cases, inl, inr,
}
use alpheidae.Core.{min_i64, max_i64, i64_min, i64_max, wrapping_add}
use alpheidae.Core.Agg.{Acc, default, push, push_all, Acc-eq, add_lanes, Lanes, chunk_loop, sum_i64}

-- The plain sum, of which the wrapping one is the remainder.
abbrev plain_sum : List ℕ → ℕ
plain_sum [] = 0
plain_sum (x ∷ xs) = x + plain_sum xs

foldl-append {ℓ} :
    {A : Type ℓ} (f : A → ℕ → A) (a : A) (xs ys : List ℕ)
    → foldl f a (xs ++ ys) ≡ foldl f (foldl f a xs) ys
foldl-append f a [] ys = refl
foldl-append f a (x ∷ xs) ys = foldl-append f (f a x) xs ys

foldl-wrapping_add :
    (a : ℕ) (xs : List ℕ) → a < 2 ^ 64 → foldl wrapping_add a xs ≡ (a + plain_sum xs) % 2 ^ 64
foldl-wrapping_add a [] h = omega arith
foldl-wrapping_add a (x ∷ xs) h =
    omega (arith, foldl-wrapping_add (wrapping_add a x) xs (omega arith))

plain_sum-add_lanes :
    (ls c : List ℕ)
    → length c ≤ length ls
    → plain_sum (add_lanes ls c) % 2 ^ 64 ≡ (plain_sum ls + plain_sum c) % 2 ^ 64
plain_sum-add_lanes [] [] h = refl
plain_sum-add_lanes [] (x ∷ c) h = absurd (omega arith)
plain_sum-add_lanes (l ∷ ls) [] h = omega arith
plain_sum-add_lanes (l ∷ ls) (x ∷ c) h = omega (arith, plain_sum-add_lanes ls c (omega arith))

length-add_lanes : (ls c : List ℕ) → length (add_lanes ls c) ≡ length ls
length-add_lanes [] c = refl
length-add_lanes (l ∷ ls) [] = refl
length-add_lanes (l ∷ ls) (x ∷ c) = ap suc (length-add_lanes ls c)

plain_sum-append : (xs ys : List ℕ) → plain_sum (xs ++ ys) ≡ plain_sum xs + plain_sum ys
plain_sum-append [] ys = omega arith
plain_sum-append (x ∷ xs) ys = omega (arith, plain_sum-append xs ys)

-- What is still to come of a state of the loop.
record SameTotals (s t : Lanes) : Type 0 where
  sum :
      (plain_sum s.lanes + plain_sum s.rest) % 2 ^ 64
      ≡ (plain_sum t.lanes + plain_sum t.rest) % 2 ^ 64
  least : foldl min_i64 s.least s.rest ≡ foldl min_i64 t.least t.rest
  most : foldl max_i64 s.most s.rest ≡ foldl max_i64 t.most t.rest

abbrev after : Lanes → Lanes
after s = record {
  lanes = add_lanes s.lanes (take 8 s.rest);
  least = foldl min_i64 s.least (take 8 s.rest);
  most = foldl max_i64 s.most (take 8 s.rest);
  rest = drop 8 s.rest;
}

after-SameTotals : (s : Lanes) → length s.lanes ≡ 8 → SameTotals (after s) s
after-SameTotals s h =
    let whole = take-append-drop 8 s.rest in
    record {
      sum = omega (
        arith,
        plain_sum-add_lanes s.lanes (take 8 s.rest) (omega (arith, length-take 8 s.rest)),
        plain_sum-append (take 8 s.rest) (drop 8 s.rest),
        ap plain_sum whole,
      );
      least =
          sym (foldl-append min_i64 s.least (take 8 s.rest) (drop 8 s.rest))
          ∙ ap (foldl min_i64 s.least) whole;
      most =
          sym (foldl-append max_i64 s.most (take 8 s.rest) (drop 8 s.rest))
          ∙ ap (foldl max_i64 s.most) whole;
    }

chunk_loop-SameTotals :
    (fuel : ℕ) (s : Lanes) → length s.lanes ≡ 8 → SameTotals (chunk_loop fuel s) s
unfolding chunk_loop
chunk_loop-SameTotals zero s h = record { sum = refl; least = refl; most = refl }
chunk_loop-SameTotals (suc fuel) s h = elim (Bool-cases (leb 8 (length s.rest))) [
  | inl more ↦
      let one = after-SameTotals s h in
      let all =
        chunk_loop-SameTotals fuel (after s) (length-add_lanes s.lanes (take 8 s.rest) ∙ h) in
      rw more (record {
        sum = all.sum ∙ one.sum;
        least = all.least ∙ one.least;
        most = all.most ∙ one.most;
      })
  | inr done ↦ rw done (record { sum = refl; least = refl; most = refl })
]

push_all-folds :
    (a : Acc) (xs : List ℕ)
    → push_all a xs ≡ record {
      sum = foldl wrapping_add a.sum xs;
      count = a.count + length xs;
      min = foldl min_i64 a.min xs;
      max = foldl max_i64 a.max xs;
    }
unfolding push_all push
push_all-folds a [] = Acc-eq _ _ refl (omega arith) refl refl
push_all-folds a (x ∷ xs) = push_all-folds (push a x) xs ∙ Acc-eq _ _ refl (omega arith) refl refl

-- The eight lanes come to the same: `sum_i64` of a column is the accumulator that has every value
-- pushed in turn, in its sum modulo 2 ^ 64, its count, its least and its greatest value.
pub sum_i64-push_all : (xs : List ℕ) → sum_i64 xs ≡ push_all default xs
unfolding sum_i64
sum_i64-push_all [] = unfold push_all chunk_loop in refl
sum_i64-push_all (x ∷ xs) =
    let start : Lanes = record {
      lanes = replicate 8 0;
      least = i64_max;
      most = i64_min;
      rest = x ∷ xs;
    } in
    let s = chunk_loop (length (x ∷ xs)) start in
    let same = chunk_loop-SameTotals (length (x ∷ xs)) start refl in
    let lanes = foldl-wrapping_add 0 s.lanes (omega arith) in
    let rest = foldl-wrapping_add (foldl wrapping_add 0 s.lanes) s.rest (omega (arith, lanes)) in
    let all = foldl-wrapping_add 0 (x ∷ xs) (omega arith) in
    let some_rows : (length (x ∷ xs) == 0) ≡ false = ground arith in
    Acc-eq (sum_i64 (x ∷ xs))
      (record {
        sum = foldl wrapping_add 0 (x ∷ xs);
        count = 0 + length (x ∷ xs);
        min = foldl min_i64 i64_max (x ∷ xs);
        max = foldl max_i64 i64_min (x ∷ xs);
      })
      (omega (arith, lanes, rest, same.sum, all)) (omega arith) (rw some_rows same.least)
      (rw some_rows same.most)
    ∙ sym (push_all-folds default (x ∷ xs))
