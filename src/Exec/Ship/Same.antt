-- ===== src/Exec/Ship/Same.antt =====
-- A worker answers the same whether it gets a morsel's number or its columns.
use alpheidae.Prelude.{
  ℕ, zero, suc, ◌+◌, ◌<◌, ◌≤◌, ◌≡◌, refl, ap, ap₂, subst, ◌∙◌, true, false, Option, none, some,
  List, [], ◌∷◌, ◌++◌, ◌==◌, ◌||◌, length, replicate, set, get_or, max, arith, Bool-cases, inl, inr,
  length-set, length-replicate,
}
use alpheidae.Core.{CmpOp}
use alpheidae.Core.Agg.{default}
use alpheidae.Core.Filter.{filter_i64}
use alpheidae.Core.Group.{group_agg}
use alpheidae.Cluster.{Block}
use alpheidae.Sql.{Clauses}
use alpheidae.Exec.{column, exec_morsel, selection, aggregate}
use alpheidae.Exec.Ship.{
  contains, add_needed, add_filter, add_group, needed_columns, max_id, place, block_of,
}

-- The columns `ids` of a block, with their numbers.
abbrev pub with_ids : Block → List ℕ → List (ℕ × List ℕ)
with_ids b [] = []
with_ids b (c ∷ ids) = (c, column b c) ∷ with_ids b ids

get_or-set-same : (g : Block) (c : ℕ) (v : List ℕ) → c < length g → get_or (set g c v) c [] ≡ v
get_or-set-same [] c v h = absurd (omega arith)
get_or-set-same (x ∷ g) zero v h = refl
get_or-set-same (x ∷ g) (suc c) v h = get_or-set-same g c v (omega arith)

get_or-set-other :
    (g : Block) (c d : ℕ) (v : List ℕ) → (c == d) ≡ false → get_or (set g c v) d [] ≡ get_or g d []
get_or-set-other [] c d v h = refl
get_or-set-other (x ∷ g) zero zero v h = absurd (ground arith)
get_or-set-other (x ∷ g) zero (suc d) v h = refl
get_or-set-other (x ∷ g) (suc c) zero v h = refl
get_or-set-other (x ∷ g) (suc c) (suc d) v h = get_or-set-other g c d v (ground arith)

-- A column that is there stays, and is not changed by the columns of the same block.
place_stays :
    (b g : Block) (ids : List ℕ) (d : ℕ)
    → d < length g
    → column g d ≡ column b d
    → column (place g (with_ids b ids)) d ≡ column b d
unfolding place
place_stays b g [] d lt h = h
place_stays b g (c ∷ ids) d lt h =
    place_stays b (set g c (column b c)) ids d (omega (arith, length-set g c (column b c)))
      (elim (Bool-cases (c == d)) [
        | inl same ↦
            let e : c ≡ d = ground arith in
            subst (λ x. column (set g c (column b c)) x ≡ column b x) e
              (get_or-set-same g c (column b c) (omega arith))
        | inr other ↦ get_or-set-other g c d (column b c) other ∙ h
      ])

max_id-≤ : (b : Block) (ids : List ℕ) (m d : ℕ) → d ≤ m → d ≤ max_id (with_ids b ids) m
max_id-≤ b [] m d h = h
max_id-≤ b (c ∷ ids) m d h = max_id-≤ b ids (max m c) d (omega arith)

max_id-contains :
    (b : Block) (ids : List ℕ) (m d : ℕ) → contains ids d ≡ true → d ≤ max_id (with_ids b ids) m
max_id-contains b [] m d h = absurd (ground arith)
max_id-contains b (c ∷ ids) m d h = elim (Bool-cases (c == d)) [
  | inl same ↦ max_id-≤ b ids (max m c) d (ground arith)
  | inr other ↦ max_id-contains b ids (max m c) d (ground (arith, other))
]

place_there :
    (b g : Block) (ids : List ℕ) (d : ℕ)
    → d < length g
    → contains ids d ≡ true
    → column (place g (with_ids b ids)) d ≡ column b d
unfolding place
place_there b g [] d lt h = absurd (ground arith)
place_there b g (c ∷ ids) d lt h =
    let longer : d < length (set g c (column b c)) = omega (arith, length-set g c (column b c)) in
    elim (Bool-cases (c == d)) [
      | inl same ↦
          let e : c ≡ d = ground arith in
          place_stays b (set g c (column b c)) ids d longer (
            subst (λ x. column (set g c (column b c)) x ≡ column b x) e
              (get_or-set-same g c (column b c) (omega arith)))
      | inr other ↦ place_there b (set g c (column b c)) ids d longer (ground (arith, other))
    ]

-- The columns that are sent arrive in their places.
pub block_of-column :
    (b : Block) (ids : List ℕ) (d : ℕ)
    → contains ids d ≡ true
    → column (block_of (with_ids b ids)) d ≡ column b d
unfolding block_of
block_of-column b ids d h =
    let n = max_id (with_ids b ids) 0 + 1 in
    place_there b (replicate n []) ids d
      (omega (arith, max_id-contains b ids 0 d h, length-replicate {A = List ℕ} n [])) h

contains-snoc : (xs : List ℕ) (c d : ℕ) → contains (xs ++ (c ∷ [])) d ≡ (contains xs d || c == d)
contains-snoc [] c d = ground arith
contains-snoc (x ∷ xs) c d = ground (arith, contains-snoc xs c d)

add_needed-keeps :
    (xs : List ℕ) (c d : ℕ) → contains xs d ≡ true → contains (add_needed xs c) d ≡ true
add_needed-keeps xs c d h = ground (arith, contains-snoc xs c d)

add_needed-adds : (xs : List ℕ) (c : ℕ) → contains (add_needed xs c) c ≡ true
add_needed-adds xs c = ground (arith, contains-snoc xs c c)

add_filter-keeps :
    (xs : List ℕ) (f : Option (ℕ × CmpOp × ℕ)) (d : ℕ)
    → contains xs d ≡ true
    → contains (add_filter xs f) d ≡ true
add_filter-keeps xs none d h = h
add_filter-keeps xs (some (c, op, lit)) d h = add_needed-keeps xs c d h

add_group-keeps :
    (xs : List ℕ) (g : Option ℕ) (d : ℕ) → contains xs d ≡ true → contains (add_group xs g) d ≡ true
add_group-keeps xs none d h = h
add_group-keeps xs (some c) d h = add_needed-keeps xs c d h

-- Blocks that agree in the columns of a query are the same to it.
selection-agrees :
    (b b' : Block) (f : Option (ℕ × CmpOp × ℕ)) (xs : List ℕ)
    → ((d : ℕ) → contains (add_filter xs f) d ≡ true → column b' d ≡ column b d)
    → selection b' f ≡ selection b f
selection-agrees b b' none xs h = refl
selection-agrees b b' (some (c, op, lit)) xs h =
    ap (λ data_. some (filter_i64 data_ op lit)) (h c (add_needed-adds xs c))

aggregate-agrees :
    (b b' : Block) (data_ : List ℕ) (sel : Option (List ℕ)) (g : Option ℕ) (xs : List ℕ)
    → ((d : ℕ) → contains (add_group xs g) d ≡ true → column b' d ≡ column b d)
    → aggregate b' data_ sel g ≡ aggregate b data_ sel g
aggregate-agrees b b' data_ sel none xs h = refl
aggregate-agrees b b' data_ sel (some c) xs h =
    ap (λ keys. record { scalar = default; groups = group_agg keys data_ sel })
      (h c (add_needed-adds xs c))

-- The pipeline reads no other columns than those that the coordinator sends.
pub exec_morsel-needed :
    (b b' : Block) (q : Clauses)
    → ((d : ℕ) → contains (needed_columns q) d ≡ true → column b' d ≡ column b d)
    → exec_morsel b' q ≡ exec_morsel b q
unfolding exec_morsel
exec_morsel-needed b b' q h =
    let first = q.agg_col ∷ [] in
    let filtered = add_filter first q.filter in
    let agg = h q.agg_col (
      add_group-keeps filtered q.group_by q.agg_col
        (add_filter-keeps first q.filter q.agg_col (ground arith))) in
    ap₂ (λ data_ sel. aggregate b' data_ sel q.group_by) agg
      (selection-agrees b b' q.filter first (λ d e. h d (add_group-keeps filtered q.group_by d e)))
    ∙ aggregate-agrees b b' (column b q.agg_col) (selection b q.filter) q.group_by filtered h
