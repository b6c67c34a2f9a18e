-- ===== src/Core/Group.antt =====
-- The grouped aggregation of crates/blitz-core/src/lib.rs: a flat table for small keys, and a hash map.
pub mod ByKey
use alpheidae.Prelude.{
  ℕ, zero, suc, ◌+◌, ◌<◌, ◌≡◌, refl, sym, ap, ◌∙◌, Bool, true, false, ◌&&◌, Option, none, some,
  List, [], ◌∷◌, ltb, leb, ◌==◌, if◌then◌else◌, length, take, range, get_or,
}
use mathlib.Core.List.{foldl}
use alpheidae.Core.{lt_i64, le_i64, min_i64, max_i64, i64_min, i64_max}
use alpheidae.Core.Agg.{Acc, default, push}
use alpheidae.Core.Groups.{Groups, upsert, insert}

-- The rows that are selected, all of them without a selection.
abbrev pub rows : List ℕ → Option (List ℕ) → List ℕ
rows keys none = range 0 (length keys)
rows keys (some sel) = sel

-- The flat table: an accumulator, and whether it is in use, for each key below 4096.
pub record Flat : Type 0 where
  pub table : ℕ → Acc
  pub seen : ℕ → Bool

-- The pattern of an i64 is below 4096 just when the i64 is from 0 to 4095.
abbrev pub is_flat : ℕ → Bool
is_flat k = ltb k 4096

abbrev pub emit : Flat → ℕ → ℕ → Flat
emit f k v = record {
  table = λ j. if k == j then push (f.table k) v else f.table j;
  seen = λ j. if k == j then true else f.seen j;
}

abbrev pub unused : Flat
unused = record { table = λ k. default; seen = λ k. false }

-- The loop over the rows; `none` is the fall back to the hash map. An index past the end is undefined
-- behaviour there; here it reads 0.
unfoldable pub emit_loop : List ℕ → List ℕ → List ℕ → Flat → Option Flat
emit_loop keys vals [] f = some f
emit_loop keys vals (i ∷ sel) f =
    let more = emit_loop keys vals sel (emit f (get_or keys i 0) (get_or vals i 0)) in
    if is_flat (get_or keys i 0) then more else none

-- The loop over the `n` keys from `k` on that collects those in use.
unfoldable pub collect : ℕ → ℕ → Flat → Groups → Groups
collect zero k f out = out
collect (suc n) k f out = collect n (k + 1) f (if f.seen k then insert out k (f.table k) else out)

-- The general path.
unfoldable pub general_loop : List ℕ → List ℕ → List ℕ → Groups → Groups
general_loop keys vals [] out = out
general_loop keys vals (i ∷ sel) out =
    general_loop keys vals sel (upsert out (get_or keys i 0) (λ a. push a (get_or vals i 0)))

-- The least and the greatest of the first 1024 keys decide.
abbrev pub flat_ok : List ℕ → Bool
flat_ok keys =
    let sample = take 1024 keys in
    le_i64 0 (foldl min_i64 i64_max sample) && lt_i64 (foldl max_i64 i64_min sample) 4096

unfoldable pub group_agg : List ℕ → List ℕ → Option (List ℕ) → Groups
unfolding emit_loop general_loop
group_agg keys vals sel =
    let general = general_loop keys vals (rows keys sel) [] in
    if flat_ok keys
    then elim (emit_loop keys vals (rows keys sel)
        (record { table = λ k. default; seen = λ k. false })) [
          | none ↦ general
          | some f ↦ collect 4096 0 f []
        ]
    else general
