-- ===== src/Exec/Morsel.antt =====
-- What one morsel contributes in crates/blitz-exec: the rows of its block that pass the filter.
use alpheidae.Prelude.{
  ℕ, zero, suc, ◌+◌, ◌≡◌, refl, sym, ap, subst, Option, none, some, List, [], ◌∷◌, ◌==◌, arith, All,
  get_or, Bool-cases, Option-cases, inl, inr,
}
use alpheidae.Core.{CmpOp, IsI64, compares}
use alpheidae.Core.Agg.{Acc, default, push_all, gather, sum_i64_sel}
use alpheidae.Core.Lanes.{sum_i64-push_all}
use alpheidae.Core.Filter.{hits, filter_i64-hits}
use alpheidae.Core.Groups.{Groups, insert, get}
use alpheidae.Core.Group.{rows, flat_ok, unused, Flat, collect, general_loop, emit_loop, group_agg}
use alpheidae.Core.Group.ByKey.{at_key, extend, group_agg-at_key}
use alpheidae.Cluster.{Block}
use alpheidae.Sql.{Clauses}
use alpheidae.Exec.{column, selection, sum_selected, aggregate, exec_morsel}
use alpheidae.Exec.Answers.{IsMap, upsert-IsMap, Values, Answers, AreI64}

-- The rows that pass, `none` without a filter.
abbrev pub passing : Block → Option (ℕ × CmpOp × ℕ) → Option (List ℕ)
passing b none = none
passing b (some (c, op, lit)) = some (hits (λ v. compares op v lit) (column b c) 0)

abbrev pub picked : List ℕ → Option (List ℕ) → List ℕ
picked data_ none = data_
picked data_ (some sel) = gather data_ sel

abbrev pub values_by : Block → List ℕ → Option (List ℕ) → Option ℕ → Values
values_by b data_ sel none = record { plain = picked data_ sel; keyed = λ k. [] }
values_by b data_ sel (some gc) = record {
  plain = [];
  keyed = λ k. at_key k (column b gc) data_ (rows (column b gc) sel);
}

-- The values that a block contributes.
abbrev pub block_values : Block → Clauses → Values
block_values b q = values_by b (column b q.agg_col) (passing b q.filter) q.group_by

selection-passing : (b : Block) (f : Option (ℕ × CmpOp × ℕ)) → selection b f ≡ passing b f
selection-passing b none = refl
selection-passing b (some (c, op, lit)) = ap some (filter_i64-hits (column b c) op lit)

sum_selected-picked :
    (data_ : List ℕ) (sel : Option (List ℕ))
    → sum_selected data_ sel ≡ push_all default (picked data_ sel)
unfolding sum_i64_sel
sum_selected-picked data_ none = sum_i64-push_all data_
sum_selected-picked data_ (some sel) = refl

general_loop-IsMap :
    (keys vals sel : List ℕ) (g : Groups) → IsMap g → IsMap (general_loop keys vals sel g)
unfolding general_loop
general_loop-IsMap keys vals [] g h = h
general_loop-IsMap keys vals (i ∷ sel) g h =
    general_loop-IsMap keys vals sel _ (upsert-IsMap g _ _ h)

insert-IsMap : (g : Groups) (k : ℕ) (a : Acc) → IsMap g → IsMap (insert g k a)
unfolding insert
insert-IsMap g k a h = upsert-IsMap g k (λ old. a) h

collect-IsMap : (n k : ℕ) (f : Flat) (g : Groups) → IsMap g → IsMap (collect n k f g)
unfolding collect
collect-IsMap zero k f g h = h
collect-IsMap (suc n) k f g h = elim (Bool-cases (f.seen k)) [
  | inl used ↦ rw used (collect-IsMap n (k + 1) f _ (insert-IsMap g k (f.table k) h))
  | inr free ↦ rw free (collect-IsMap n (k + 1) f g h)
]

group_agg-IsMap : (keys vals : List ℕ) (sel : Option (List ℕ)) → IsMap (group_agg keys vals sel)
unfolding group_agg
group_agg-IsMap keys vals sel =
    let general = general_loop-IsMap keys vals (rows keys sel) [] tt in
    elim (Bool-cases (flat_ok keys)) [
      | inr wide ↦ rw wide general
      | inl narrow ↦ elim (Option-cases (emit_loop keys vals (rows keys sel) unused)) [
        | inl out ↦ rw (narrow, out) general
        | inr (f, e) ↦ rw (narrow, e) (collect-IsMap 4096 0 f [] tt)
      ]
    ]

aggregate-Answers :
    (b : Block) (data_ : List ℕ) (sel : Option (List ℕ)) (gc : Option ℕ)
    → Answers (aggregate b data_ sel gc) (values_by b data_ sel gc)
unfolding push_all extend get
aggregate-Answers b data_ sel none = record {
  scalar = sum_selected-picked data_ sel;
  groups = λ k. refl;
  distinct = tt;
}
aggregate-Answers b data_ sel (some gc) = record {
  scalar = refl;
  groups = λ k. group_agg-at_key (column b gc) data_ sel k;
  distinct = group_agg-IsMap (column b gc) data_ sel;
}

-- The pipeline answers for the rows of the block that pass the filter, with their groups.
pub exec_morsel-Answers : (b : Block) (q : Clauses) → Answers (exec_morsel b q) (block_values b q)
unfolding exec_morsel
exec_morsel-Answers b q =
    subst (λ sel. Answers (aggregate b (column b q.agg_col) sel q.group_by) (block_values b q))
      (sym (selection-passing b q.filter))
      (aggregate-Answers b (column b q.agg_col) (passing b q.filter) q.group_by)

All-get_or : (data_ : List ℕ) (i : ℕ) → All IsI64 data_ → IsI64 (get_or data_ i 0)
All-get_or [] i h = omega arith
All-get_or (x ∷ data_) zero (hx, hs) = hx
All-get_or (x ∷ data_) (suc i) (hx, hs) = All-get_or data_ i hs

All-gather : (data_ sel : List ℕ) → All IsI64 data_ → All IsI64 (gather data_ sel)
unfolding gather
All-gather data_ [] h = tt
All-gather data_ (i ∷ sel) h = (All-get_or data_ i h, All-gather data_ sel h)

All-at_key : (k : ℕ) (keys vals sel : List ℕ) → All IsI64 vals → All IsI64 (at_key k keys vals sel)
unfolding at_key
All-at_key k keys vals [] h = tt
All-at_key k keys vals (i ∷ sel) h = elim (Bool-cases (get_or keys i 0 == k)) [
  | inl same ↦ rw same (All-get_or vals i h, All-at_key k keys vals sel h)
  | inr other ↦ rw other (All-at_key k keys vals sel h)
]

-- The columns of a block are i64s.
abbrev pub IsBlock : Block → Type 0
IsBlock b = All (All IsI64) b

All-column : (b : Block) (c : ℕ) → IsBlock b → All IsI64 (column b c)
All-column [] c h = tt
All-column (x ∷ b) zero (hx, hs) = hx
All-column (x ∷ b) (suc c) (hx, hs) = All-column b c hs

values_by-AreI64 :
    (b : Block) (data_ : List ℕ) (sel : Option (List ℕ)) (gc : Option ℕ)
    → All IsI64 data_
    → AreI64 (values_by b data_ sel gc)
values_by-AreI64 b data_ none none h = (h, λ k. tt)
values_by-AreI64 b data_ (some sel) none h = (All-gather data_ sel h, λ k. tt)
values_by-AreI64 b data_ sel (some gc) h =
    (tt, λ k. All-at_key k (column b gc) data_ (rows (column b gc) sel) h)

pub block_values-AreI64 : (b : Block) (q : Clauses) → IsBlock b → AreI64 (block_values b q)
block_values-AreI64 b q h =
    values_by-AreI64 b _ (passing b q.filter) q.group_by (All-column b q.agg_col h)
