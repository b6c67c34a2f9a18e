-- ===== src/Exec/Algebra.antt =====
-- Accumulators of i64s under merging, in any order.
use alpheidae.Prelude.{
  ℕ, ◌≡◌, refl, sym, ap, ◌∙◌, Option, none, some, List, [], ◌∷◌, ◌++◌, arith, All, All-append,
  append_assoc,
}
use alpheidae.Core.{IsI64, min_i64, max_i64}
use alpheidae.Core.Agg.{
  Acc, default, push_all, merge, merge-push_all, Acc-eq, IsAcc, push_all-IsAcc,
}
use alpheidae.Core.Groups.{or_default}
use alpheidae.Core.Group.ByKey.{extend}

min_comm : (a b : ℕ) → IsI64 a → IsI64 b → min_i64 a b ≡ min_i64 b a
min_comm a b ha hb = ground arith

max_comm : (a b : ℕ) → IsI64 a → IsI64 b → max_i64 a b ≡ max_i64 b a
max_comm a b ha hb = ground arith

merge_comm : (a b : Acc) → IsAcc a → IsAcc b → merge a b ≡ merge b a
unfolding merge
merge_comm a b (sa, na, xa) (sb, nb, xb) =
    Acc-eq _ _ (omega arith) (omega arith) (min_comm a.min b.min na nb) (max_comm a.max b.max xa xb)

pub total-IsAcc : (vs : List ℕ) → All IsI64 vs → IsAcc (push_all default vs)
total-IsAcc vs h = push_all-IsAcc default vs (omega arith) h

-- Two runs of values may change places.
total_swap :
    (xs ys : List ℕ)
    → All IsI64 xs
    → All IsI64 ys
    → push_all default (xs ++ ys) ≡ push_all default (ys ++ xs)
total_swap xs ys hx hy =
    sym (merge-push_all xs ys hx)
    ∙ merge_comm (push_all default xs) (push_all default ys) (total-IsAcc xs hx) (total-IsAcc ys hy)
    ∙ merge-push_all ys xs hy

-- A run of values may move to the front.
pub total_front :
    (as' xs bs : List ℕ)
    → All IsI64 as'
    → All IsI64 xs
    → All IsI64 bs
    → push_all default (as' ++ (xs ++ bs)) ≡ push_all default (xs ++ (as' ++ bs))
total_front as' xs bs ha hx hb =
    ap (push_all default) (sym (append_assoc as' xs bs))
    ∙ sym (merge-push_all (as' ++ xs) bs (All-append IsI64 as' xs ha hx))
    ∙ ap (λ a. merge a (push_all default bs)) (total_swap as' xs ha hx)
    ∙ merge-push_all (xs ++ as') bs (All-append IsI64 xs as' hx ha)
    ∙ ap (push_all default) (append_assoc xs as' bs)

-- The entry of a key whose rows have these values: none without a row.
abbrev pub entry_of : List ℕ → Option Acc
entry_of vs = extend none vs

entry_of-cons : (v : ℕ) (vs : List ℕ) → entry_of (v ∷ vs) ≡ some (push_all default (v ∷ vs))
unfolding extend
entry_of-cons v vs = refl

pub entry_of-front :
    (as' xs bs : List ℕ)
    → All IsI64 as'
    → All IsI64 xs
    → All IsI64 bs
    → entry_of (as' ++ (xs ++ bs)) ≡ entry_of (xs ++ (as' ++ bs))
entry_of-front [] xs bs ha hx hb = refl
entry_of-front (a ∷ as') [] bs ha hx hb = refl
entry_of-front (a ∷ as') (x ∷ xs) bs ha hx hb =
    entry_of-cons a (as' ++ ((x ∷ xs) ++ bs))
    ∙ ap some (total_front (a ∷ as') (x ∷ xs) bs ha hx hb)
    ∙ sym (entry_of-cons x (xs ++ ((a ∷ as') ++ bs)))

-- An entry into which an entry is merged.
pub entry_of-merge :
    (vs : List ℕ) (w : ℕ) (ws : List ℕ)
    → All IsI64 vs
    → some (merge (or_default (entry_of vs)) (push_all default (w ∷ ws)))
      ≡ entry_of (vs ++ (w ∷ ws))
unfolding extend
entry_of-merge [] w ws h = ap some (merge-push_all [] (w ∷ ws) h)
entry_of-merge (v ∷ vs) w ws h = ap some (merge-push_all (v ∷ vs) (w ∷ ws) h)
