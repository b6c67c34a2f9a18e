-- ===== src/Cluster/Rebuild.antt =====
-- crates/blitz-cluster/src/lib.rs: how `recluster` rebuilds the blocks from the rows in their new order. The
-- order is a list of blocks and rows; how the rows are sorted along the curve is not modelled.
use alpheidae.Prelude.{
  ℕ, zero, suc, ◌+◌, ◌<◌, ◌≡◌, refl, sym, ap, ap₂, ◌∙◌, List, [], ◌∷◌, ◌++◌, ◌==◌, if◌then◌else◌,
  length, map, get_or, replicate, arith, All, append_assoc, append-nil, length-append,
  length-replicate, Bool-cases, inl, inr,
}
use alpheidae.Cluster.{Block, ClusteredTable, build_zones}

-- `src.columns[c].as_i64()[r]`; past the end, which is a panic there, it reads 0.
abbrev pub value_at : List Block → ℕ → ℕ × ℕ → ℕ
value_at blocks c (bi, r) = get_or (get_or (get_or blocks bi []) c []) r 0

-- A row is pushed to the columns from `c` on.
unfoldable pub push_row : List Block → ℕ × ℕ → ℕ → Block → Block
push_row blocks e c [] = []
push_row blocks e c (col ∷ cur) =
    (col ++ (value_at blocks c e ∷ [])) ∷ push_row blocks e (c + 1) cur

-- The loop over the rows, with the block that is being filled.
unfoldable pub rebuild_loop : ℕ → ℕ → List Block → List (ℕ × ℕ) → Block → List Block
rebuild_loop block_rows ncols blocks [] cur = if length (get_or cur 0 []) == 0 then [] else cur ∷ []
rebuild_loop block_rows ncols blocks (e ∷ idx) cur =
    let filled = push_row blocks e 0 cur in
    let fresh = rebuild_loop block_rows ncols blocks idx (replicate ncols []) in
    let on = rebuild_loop block_rows ncols blocks idx filled in
    if length (get_or filled 0 []) == block_rows then filled ∷ fresh else on

-- The table with its rows in the order `idx`, clustered by `keys`.
unfoldable pub rebuild : ℕ → ClusteredTable → List (ℕ × ℕ) → List ℕ → ClusteredTable
unfolding rebuild_loop
rebuild block_rows t idx keys =
    let ncols = length (get_or t.blocks 0 []) in
    let blocks = rebuild_loop block_rows ncols t.blocks idx (replicate ncols []) in
    record { blocks = blocks; zones = build_zones blocks; cluster_keys = keys }

-- A column of a table, all blocks one after another.
unfoldable pub whole_column : ℕ → List Block → List ℕ
whole_column c [] = []
whole_column c (b ∷ blocks) = get_or b c [] ++ whole_column c blocks

get_or-push_row :
    (blocks : List Block) (e : ℕ × ℕ) (from c : ℕ) (cur : Block)
    → c < length cur
    → get_or (push_row blocks e from cur) c []
      ≡ get_or cur c [] ++ (value_at blocks (from + c) e ∷ [])
unfolding push_row
get_or-push_row blocks e from c [] h = absurd (omega arith)
get_or-push_row blocks e from zero (col ∷ cur) h =
    ap (λ k. col ++ (value_at blocks k e ∷ [])) (let s : from ≡ from + 0 = omega arith in s)
get_or-push_row blocks e from (suc c) (col ∷ cur) h =
    get_or-push_row blocks e (from + 1) c cur (omega arith)
    ∙ ap (λ k. get_or cur c [] ++ (value_at blocks k e ∷ []))
        (let s : from + 1 + c ≡ from + suc c = omega arith in s)

length-push_row :
    (blocks : List Block) (e : ℕ × ℕ) (from : ℕ) (cur : Block)
    → length (push_row blocks e from cur) ≡ length cur
unfolding push_row
length-push_row blocks e from [] = refl
length-push_row blocks e from (col ∷ cur) = ap suc (length-push_row blocks e (from + 1) cur)

-- The columns have `n` rows each.
abbrev pub IsEven : ℕ → Block → Type 0
IsEven n cur = All (λ col. length col ≡ n) cur

push_row-IsEven :
    (blocks : List Block) (e : ℕ × ℕ) (from n : ℕ) (cur : Block)
    → IsEven n cur
    → IsEven (n + 1) (push_row blocks e from cur)
unfolding push_row
push_row-IsEven blocks e from n [] h = tt
push_row-IsEven blocks e from n (col ∷ cur) (hc, hs) = (
  omega (arith, hc, length-append col (value_at blocks from e ∷ [])),
  push_row-IsEven blocks e (from + 1) n cur hs,
)

replicate-IsEven : (n : ℕ) → IsEven 0 (replicate n [])
replicate-IsEven zero = tt
replicate-IsEven (suc n) = (refl, replicate-IsEven n)

get_or-replicate : (n c : ℕ) → get_or (replicate {A = List ℕ} n []) c [] ≡ []
get_or-replicate zero c = refl
get_or-replicate (suc n) zero = refl
get_or-replicate (suc n) (suc c) = get_or-replicate n c

length-get_or :
    (n c : ℕ) (cur : Block) → IsEven n cur → c < length cur → length (get_or cur c []) ≡ n
length-get_or n c [] h lt = absurd (omega arith)
length-get_or n zero (col ∷ cur) (hc, hs) lt = hc
length-get_or n (suc c) (col ∷ cur) (hc, hs) lt = length-get_or n c cur hs (omega arith)

length_zero : (xs : List ℕ) → length xs ≡ 0 → xs ≡ []
length_zero [] h = refl
length_zero (x ∷ xs) h = absurd (omega arith)

rebuild_loop-column :
    (block_rows ncols : ℕ) (blocks : List Block) (idx : List (ℕ × ℕ)) (n : ℕ) (cur : Block) (c : ℕ)
    → length cur ≡ ncols
    → c < ncols
    → IsEven n cur
    → whole_column c (rebuild_loop block_rows ncols blocks idx cur)
      ≡ get_or cur c [] ++ map (value_at blocks c) idx
unfolding rebuild_loop whole_column
rebuild_loop-column block_rows ncols blocks [] n cur c len lt even =
    elim (Bool-cases (length (get_or cur 0 []) == 0)) [
      | inl empty ↦
          let none_left : length (get_or cur c []) ≡ 0 = ground (
            arith,
            empty,
            length-get_or n c cur even (omega arith),
            length-get_or n 0 cur even (omega arith),
          ) in
          rw empty (sym (append-nil (get_or cur c []) ∙ length_zero (get_or cur c []) none_left))
      | inr some_rows ↦ rw some_rows refl
    ]
rebuild_loop-column block_rows ncols blocks (e ∷ idx) n cur c len lt even =
    let filled = push_row blocks e 0 cur in
    let here : get_or filled c [] ≡ get_or cur c [] ++ (value_at blocks c e ∷ []) =
      get_or-push_row blocks e 0 c cur (omega arith)
      ∙ ap (λ k. get_or cur c [] ++ (value_at blocks k e ∷ []))
          (let s : 0 + c ≡ c = omega arith in s) in
    let values = map (value_at blocks c) idx in
    elim (Bool-cases (length (get_or filled 0 []) == block_rows)) [
      | inl full ↦
          let fresh = replicate ncols [] in
          let rest =
            rebuild_loop-column block_rows ncols blocks idx 0 fresh c
              (length-replicate {A = List ℕ} ncols []) lt (replicate-IsEven ncols) in
          rw full (
            ap₂ ◌++◌ here (rest ∙ ap (λ vs. vs ++ values) (get_or-replicate ncols c))
            ∙ append_assoc (get_or cur c []) (value_at blocks c e ∷ []) values)
      | inr room ↦
          let rest =
            rebuild_loop-column block_rows ncols blocks idx (n + 1) filled c
              (length-push_row blocks e 0 cur ∙ len) lt (push_row-IsEven blocks e 0 n cur even) in
          rw room (
            rest
            ∙ ap (λ vs. vs ++ values) here
            ∙ append_assoc (get_or cur c []) (value_at blocks c e ∷ []) values)
    ]

-- Whatever the size of a block, the rebuilt table has in each column the values of the given rows in the
-- given order, none lost and none added, and its zone maps are those of its own blocks.
pub rebuild-whole_column :
    (block_rows : ℕ) (t : ClusteredTable) (idx : List (ℕ × ℕ)) (keys : List ℕ) (c : ℕ)
    → c < length (get_or t.blocks 0 [])
    → (whole_column c (rebuild block_rows t idx keys).blocks ≡ map (value_at t.blocks c) idx)
      × ((rebuild block_rows t idx keys).zones ≡ build_zones (rebuild block_rows t idx keys).blocks)
unfolding rebuild
rebuild-whole_column block_rows t idx keys c lt =
    let ncols = length (get_or t.blocks 0 []) in
    (
      rebuild_loop-column block_rows ncols t.blocks idx 0 (replicate ncols []) c
            (length-replicate {A = List ℕ} ncols []) lt (replicate-IsEven ncols)
          ∙ ap (λ vs. vs ++ map (value_at t.blocks c) idx) (get_or-replicate ncols c),
      refl,
    )
