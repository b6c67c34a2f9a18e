-- ===== src/Format/Deltas.antt =====
-- The delta pages of crates/blitz-format/src/lib.rs.
use alpheidae.Prelude.{
  ℕ, suc, ◌^◌, ◌<◌, ◌≡◌, refl, ap, ◌∙◌, some, List, [], ◌∷◌, ◌++◌, arith, All, length, append_assoc,
}
use alpheidae.Core.{IsI64, wrapping_add}
use alpheidae.Format.{
  zigzag, unzigzag, put_varint, get_varint, wrapping_sub, put_deltas, get_deltas,
}
use alpheidae.Format.Varint.{get_varint-put_varint}

-- Zigzag maps i64s to u64s, and `unzigzag` undoes it.
pub unzigzag-zigzag : (n : ℕ) → IsI64 n → (zigzag n < 2 ^ 64) × (unzigzag (zigzag n) ≡ n)
unfolding zigzag unzigzag
unzigzag-zigzag n h = (ground arith, ground arith)

wrapping_add-sub : (a b : ℕ) → a < 2 ^ 64 → b < 2 ^ 64 → wrapping_add b (wrapping_sub a b) ≡ a
wrapping_add-sub a b ha hb = omega arith

read_one :
    (rows prev d v : ℕ) (raw rest out : List ℕ)
    → get_varint raw ≡ some (d, rest)
    → wrapping_add prev (unzigzag d) ≡ v
    → get_deltas rows v rest ≡ some out
    → get_deltas (suc rows) prev raw ≡ some (v ∷ out)
unfolding get_deltas
read_one rows prev d v raw rest out h e hs = ground arith

deltas_from :
    (vals : List ℕ) (prev : ℕ) (rest : List ℕ)
    → IsI64 prev
    → All IsI64 vals
    → get_deltas (length vals) prev (put_deltas prev vals ++ rest) ≡ some vals
unfolding put_deltas get_deltas
deltas_from [] prev rest hp hs = refl
deltas_from (v ∷ vals) prev rest hp (hv, hs) =
    let d = wrapping_sub v prev in
    let (short, back) = unzigzag-zigzag d (omega arith) in
    let next : wrapping_add prev (unzigzag (zigzag d)) ≡ v =
      ap (wrapping_add prev) back ∙ wrapping_add-sub v prev hv hp in
    ap (get_deltas (length (v ∷ vals)) prev)
      (append_assoc (put_varint (zigzag d)) (put_deltas v vals) rest)
    ∙ read_one (length vals) prev (zigzag d) v _ (put_deltas v vals ++ rest) vals
        (get_varint-put_varint (zigzag d) (put_deltas v vals ++ rest) short) next
        (deltas_from vals v rest hv hs)

-- A page of i64s that was written as deltas is read back, whatever bytes follow it.
pub get_deltas-put_deltas :
    (vals : List ℕ) (rest : List ℕ)
    → All IsI64 vals
    → get_deltas (length vals) 0 (put_deltas 0 vals ++ rest) ≡ some vals
get_deltas-put_deltas vals rest h = deltas_from vals 0 rest (omega arith) h
