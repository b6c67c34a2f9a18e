-- ===== src/Core/Agg.antt =====
-- The aggregates of crates/blitz-core/src/lib.rs: one accumulator, eight lanes, and gathering by a
-- selection. A count stays below 2 ^ 64, as a number of rows does.
use mathlib.Core.List.{foldl}
use alpheidae.Prelude.{
  ℕ, zero, suc, ◌+◌, ◌≡◌, refl, sym, ap, ◌∙◌, List, [], ◌∷◌, ◌++◌, ltb, leb, ◌==◌, if◌then◌else◌,
  length, take, drop, replicate, get_or, arith, All,
}
use alpheidae.Core.{bias, min_i64, max_i64, i64_min, i64_max, wrapping_add, IsI64}

pub record Acc : Type 0 where
  pub sum : ℕ
  pub count : ℕ
  pub min : ℕ
  pub max : ℕ

abbrev pub default : Acc
default = record { sum = 0; count = 0; min = i64_max; max = i64_min }

unfoldable pub push : Acc → ℕ → Acc
push a v = record {
  sum = wrapping_add a.sum v;
  count = a.count + 1;
  min = min_i64 a.min v;
  max = max_i64 a.max v;
}

unfoldable pub merge : Acc → Acc → Acc
merge a o = record {
  sum = wrapping_add a.sum o.sum;
  count = a.count + o.count;
  min = min_i64 a.min o.min;
  max = max_i64 a.max o.max;
}

-- Pushing values one after another.
unfoldable pub push_all : Acc → List ℕ → Acc
push_all a [] = a
push_all a (v ∷ vs) = push_all (push a v) vs

-- `get_unchecked` past the end is undefined behaviour; here it reads 0.
unfoldable pub gather : List ℕ → List ℕ → List ℕ
gather data_ [] = []
gather data_ (i ∷ sel) = get_or data_ i 0 ∷ gather data_ sel

unfoldable pub sum_i64_sel : List ℕ → List ℕ → Acc
unfolding push_all gather
sum_i64_sel data_ sel = push_all default (gather data_ sel)

-- The chunk loop of `sum_i64`, on fuel: eight lanes, and the least and the greatest value so far.
abbrev pub add_lanes : List ℕ → List ℕ → List ℕ
add_lanes [] c = []
add_lanes (l ∷ ls) [] = l ∷ ls
add_lanes (l ∷ ls) (x ∷ c) = wrapping_add l x ∷ add_lanes ls c

pub record Lanes : Type 0 where
  pub lanes : List ℕ
  pub least : ℕ
  pub most : ℕ
  pub rest : List ℕ

unfoldable pub chunk_loop : ℕ → Lanes → Lanes
chunk_loop zero s = s
chunk_loop (suc fuel) s =
    let c = take 8 s.rest in
    let more = chunk_loop fuel (record {
      lanes = add_lanes s.lanes c;
      least = foldl min_i64 s.least c;
      most = foldl max_i64 s.most c;
      rest = drop 8 s.rest;
    }) in
    if leb 8 (length s.rest) then more else s

unfoldable pub sum_i64 : List ℕ → Acc
unfolding chunk_loop push
sum_i64 data_ =
    let s =
      chunk_loop (length data_)
        (record { lanes = replicate 8 0; least = i64_max; most = i64_min; rest = data_ }) in
    record {
      sum = foldl wrapping_add (foldl wrapping_add 0 s.lanes) s.rest;
      count = length data_;
      min = if length data_ == 0 then i64_max else foldl min_i64 s.least s.rest;
      max = if length data_ == 0 then i64_min else foldl max_i64 s.most s.rest;
    }

-- The lesser by `f`, the first of equals; and the greater.
least_assoc :
    (f : ℕ → ℕ) (a b c : ℕ)
    → (if ltb (f c) (f (if ltb (f b) (f a) then b else a))
        then c
        else if ltb (f b) (f a)
        then b
        else a)
      ≡ (if ltb (f (if ltb (f c) (f b) then c else b)) (f a)
          then (if ltb (f c) (f b) then c else b)
          else a)
least_assoc f a b c = ground arith

most_assoc :
    (f : ℕ → ℕ) (a b c : ℕ)
    → (if ltb (f (if ltb (f a) (f b) then b else a)) (f c)
        then c
        else if ltb (f a) (f b)
        then b
        else a)
      ≡ (if ltb (f a) (f (if ltb (f b) (f c) then c else b))
          then (if ltb (f b) (f c) then c else b)
          else a)
most_assoc f a b c = ground arith

wrapping_add_assoc :
    (a b c : ℕ) → wrapping_add (wrapping_add a b) c ≡ wrapping_add a (wrapping_add b c)
wrapping_add_assoc a b c = omega arith

pub Acc-eq : (a b : Acc) → a.sum ≡ b.sum → a.count ≡ b.count → a.min ≡ b.min → a.max ≡ b.max → a ≡ b
Acc-eq a b p q r s = λ i. record { sum = p i; count = q i; min = r i; max = s i }

push-merge : (a b : Acc) (v : ℕ) → push (merge a b) v ≡ merge a (push b v)
unfolding push merge
push-merge a b v =
    Acc-eq _ _ (wrapping_add_assoc a.sum b.sum v) (omega arith) (least_assoc bias a.min b.min v)
      (most_assoc bias a.max b.max v)

push_all-merge : (a b : Acc) (vs : List ℕ) → push_all (merge a b) vs ≡ merge a (push_all b vs)
unfolding push_all
push_all-merge a b [] = refl
push_all-merge a b (v ∷ vs) =
    ap (λ x. push_all x vs) (push-merge a b v) ∙ push_all-merge a (push b v) vs

-- The values of an accumulator are i64s.
abbrev pub IsAcc : Acc → Type 0
IsAcc a = IsI64 a.sum × IsI64 a.min × IsI64 a.max

merge-default : (a : Acc) → IsAcc a → merge a default ≡ a
unfolding merge
merge-default a (hs, hn, hx) = Acc-eq _ _ (omega arith) (omega arith) (ground arith) (ground arith)

push-IsAcc : (a : Acc) (v : ℕ) → IsAcc a → IsI64 v → IsAcc (push a v)
unfolding push
push-IsAcc a v h hv = ground arith

pub push_all-IsAcc : (a : Acc) (vs : List ℕ) → IsAcc a → All IsI64 vs → IsAcc (push_all a vs)
unfolding push_all
push_all-IsAcc a [] h hs = h
push_all-IsAcc a (v ∷ vs) h (hv, hs) = push_all-IsAcc (push a v) vs (push-IsAcc a v h hv) hs

push_all-append : (a : Acc) (xs ys : List ℕ) → push_all a (xs ++ ys) ≡ push_all (push_all a xs) ys
unfolding push_all
push_all-append a [] ys = refl
push_all-append a (x ∷ xs) ys = push_all-append (push a x) xs ys

-- Two partial aggregates merge into the aggregate of all the values, where those of the first are
-- i64s: a column may be cut anywhere, and its parts aggregated apart.
pub merge-push_all :
    (xs ys : List ℕ)
    → All IsI64 xs
    → merge (push_all default xs) (push_all default ys) ≡ push_all default (xs ++ ys)
merge-push_all xs ys h =
    let a = push_all default xs in
    sym (push_all-merge a default ys)
    ∙ ap (λ x. push_all x ys) (merge-default a (push_all-IsAcc default xs (omega arith) h))
    ∙ sym (push_all-append default xs ys)
