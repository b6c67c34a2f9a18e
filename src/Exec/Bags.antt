-- ===== src/Exec/Bags.antt =====
-- Morsels in any order: two lists with the same morsels give the same aggregate.
use alpheidae.Prelude.{
  ℕ, ◌+◌, ◌<◌, ◌≡◌, refl, sym, ap, ◌∙◌, List, [], ◌∷◌, ◌++◌, ◌==◌, if◌then◌else◌, arith, All,
  All-append, append_assoc, Bool-cases, inl, inr,
}
use alpheidae.Core.{IsI64}

unfoldable pub count : ℕ → List ℕ → ℕ
count m [] = 0
count m (x ∷ xs) = (if x == m then 1 else 0) + count m xs

pub count-append : (m : ℕ) (xs ys : List ℕ) → count m (xs ++ ys) ≡ count m xs + count m ys
unfolding count
count-append m [] ys = omega arith
count-append m (x ∷ xs) ys = omega (arith, count-append m xs ys)

-- The same morsels, each as often.
abbrev pub Same : List ℕ → List ℕ → Type 0
Same xs ys = (m : ℕ) → count m xs ≡ count m ys

-- A morsel that is in a list has a place there.
split_at :
    (m : ℕ) (ys : List ℕ) → 0 < count m ys → (as' : List ℕ) × (bs : List ℕ) × (ys ≡ as' ++ (m ∷ bs))
unfolding count
split_at m [] h = absurd (omega arith)
split_at m (y ∷ ys) h = elim (Bool-cases (y == m)) [
  | inl same ↦ ([], ys, ap (λ x. x ∷ ys) (let e : y ≡ m = ground arith in e))
  | inr other ↦
      let (as', bs, e) = split_at m ys (ground (arith, other)) in (y ∷ as', bs, ap (◌∷◌ y) e)
]

rest-Same : (x : ℕ) (xs as' bs : List ℕ) → Same (x ∷ xs) (as' ++ (x ∷ bs)) → Same xs (as' ++ bs)
unfolding count
rest-Same x xs as' bs h =
    λ m. omega (arith, h m, count-append m as' (x ∷ bs), count-append m as' bs)

-- The values of the morsels of a list.
unfoldable pub flat : (ℕ → List ℕ) → List ℕ → List ℕ
flat f [] = []
flat f (m ∷ ms) = f m ++ flat f ms

pub flat-append : (f : ℕ → List ℕ) (xs ys : List ℕ) → flat f (xs ++ ys) ≡ flat f xs ++ flat f ys
unfolding flat
flat-append f [] ys = refl
flat-append f (x ∷ xs) ys =
    ap (◌++◌ (f x)) (flat-append f xs ys) ∙ sym (append_assoc (f x) (flat f xs) (flat f ys))

pub flat-I64 : (f : ℕ → List ℕ) (xs : List ℕ) → ((m : ℕ) → All IsI64 (f m)) → All IsI64 (flat f xs)
unfolding flat
flat-I64 f [] h = tt
flat-I64 f (x ∷ xs) h = All-append IsI64 (f x) (flat f xs) (h x) (flat-I64 f xs h)

-- An aggregate of values that can be computed in parts, the parts in any order.
module _ {X : Type 0} (total : List ℕ → X) (op : X → X → X)
    (parts : (vs ws : List ℕ) → All IsI64 vs → total (vs ++ ws) ≡ op (total vs) (total ws))
    (front : (as' xs bs : List ℕ)
      → All IsI64 as'
      → All IsI64 xs
      → All IsI64 bs
      → total (as' ++ (xs ++ bs)) ≡ total (xs ++ (as' ++ bs)))
    (f : ℕ → List ℕ) (bytes : (m : ℕ) → All IsI64 (f m)) where
  moved :
      (x : ℕ) (as' bs : List ℕ)
      → total (flat f (as' ++ (x ∷ bs))) ≡ op (total (f x)) (total (flat f (as' ++ bs)))
  unfolding flat
  moved x as' bs =
      ap total (flat-append f as' (x ∷ bs))
      ∙ front (flat f as') (f x) (flat f bs) (flat-I64 f as' bytes) (bytes x) (flat-I64 f bs bytes)
      ∙ ap (λ ws. total (f x ++ ws)) (sym (flat-append f as' bs))
      ∙ parts (f x) (flat f (as' ++ bs)) (bytes x)

  pub total-Same : (xs ys : List ℕ) → Same xs ys → total (flat f xs) ≡ total (flat f ys)
  unfolding flat count
  total-Same [] [] h = refl
  total-Same [] (y ∷ ys) h = absurd (ground (arith, h y))
  total-Same (x ∷ xs) ys h =
      let (as', bs, e) = split_at x ys (ground (arith, h x)) in
      let rest = total-Same xs (as' ++ bs) (rest-Same x xs as' bs (λ m. h m ∙ ap (count m) e)) in
      parts (f x) (flat f xs) (bytes x)
      ∙ ap (op (total (f x))) rest
      ∙ sym (moved x as' bs)
      ∙ ap (λ zs. total (flat f zs)) (sym e)
