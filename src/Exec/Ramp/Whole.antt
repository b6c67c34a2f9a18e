-- ===== src/Exec/Ramp/Whole.antt =====
-- A ramped query against the rows of the whole table, pruned blocks included.
use alpheidae.Prelude.{
  ℕ, zero, suc, ◌≤◌, ◌≡◌, refl, sym, ap, ◌∙◌, Bool, true, false, not, Option, none, some, List, [],
  ◌∷◌, ◌++◌, length, get_or, keep, range, arith, All, Bool-cases, inl, inr,
}
use alpheidae.Core.{CmpOp}
use alpheidae.Core.Agg.{gather, push_all, default}
use alpheidae.Exec.Algebra.{entry_of}
use alpheidae.Core.Filter.{filter_i64-hits}
use alpheidae.Core.Group.ByKey.{at_key}
use alpheidae.Cluster.{Block, from_blocks, pruned_morsels, prunes, zone_of}
use alpheidae.Cluster.Prune.{skipped, keep_in, keep_out}
use alpheidae.Sql.{Clauses}
use alpheidae.Exec.{Partial, column}
use alpheidae.Exec.Answers.{Values, Answers}
use alpheidae.Exec.Morsel.{
  passing, values_by, block_values, exec_morsel-Answers, IsBlock, block_values-AreI64,
}
use alpheidae.Exec.Bags.{flat}
use alpheidae.Exec.Ramp.{Ramp, start, Reach}
use alpheidae.Exec.Ramp.Kept.{values_of}
use alpheidae.Exec.Ramp.Result.{done_answers}

-- The values of the rows of one block of the table.
abbrev pub values_in : List Block → Clauses → ℕ → Values
values_in blocks q m = block_values (get_or blocks m []) q

-- The values of the rows of all blocks that pass the query's filter.
abbrev pub table_values : List Block → Clauses → Values
table_values blocks q = values_of (values_in blocks q) (range 0 (length blocks))

All-get_or : (blocks : List Block) (m : ℕ) → All IsBlock blocks → IsBlock (get_or blocks m [])
All-get_or [] m h = tt
All-get_or (b ∷ blocks) zero (hb, hs) = hb
All-get_or (b ∷ blocks) (suc m) (hb, hs) = All-get_or blocks m hs

-- Without a row that passes there are no values.
no_rows : (b : Block) (data_ : List ℕ) (gc : Option ℕ) → (values_by b data_ (some []) gc).plain ≡ []
unfolding gather
no_rows b data_ none = refl
no_rows b data_ (some c) = refl

no_keyed_rows :
    (b : Block) (data_ : List ℕ) (gc : Option ℕ) (k : ℕ)
    → (values_by b data_ (some []) gc).keyed k ≡ []
unfolding at_key
no_keyed_rows b data_ none k = refl
no_keyed_rows b data_ (some c) k = refl

-- Morsels without values may be left out.
flat-keep :
    (f : ℕ → List ℕ) (p : ℕ → Bool) (ms : List ℕ)
    → ((m : ℕ) → p m ≡ false → f m ≡ [])
    → flat f (keep p ms) ≡ flat f ms
unfolding flat
flat-keep f p [] h = refl
flat-keep f p (m ∷ ms) h = elim (Bool-cases (p m)) [
  | inl kept ↦ ap (flat f) (keep_in p m ms kept) ∙ ap (◌++◌ (f m)) (flat-keep f p ms h)
  | inr out ↦
      ap (flat f) (keep_out p m ms out)
      ∙ flat-keep f p ms h
      ∙ ap (λ vs. vs ++ flat f ms) (sym (h m out))
]

-- The blocks that pruning leaves have all the values.
module _ (blocks : List Block) (c : ℕ) (op : CmpOp) (lit : ℕ) where
  pruned_passing :
      (m : ℕ)
      → not (prunes (zone_of (from_blocks blocks) m c) op lit) ≡ false
      → passing (get_or blocks m []) (some (c, op, lit)) ≡ some []
  unfolding from_blocks
  pruned_passing m h =
      let p : prunes (zone_of (from_blocks blocks) m c) op lit ≡ true = ground arith in
      ap some
        (sym (filter_i64-hits (column (get_or blocks m []) c) op lit) ∙ skipped blocks m c op lit p)

pruned_values :
    (blocks : List Block) (q : Clauses) (p : Partial) (f : Option (ℕ × CmpOp × ℕ))
    → q.filter ≡ f
    → Answers p (values_of (values_in blocks q) (pruned_morsels (from_blocks blocks) f))
    → Answers p (table_values blocks q)
unfolding pruned_morsels from_blocks
pruned_values blocks q p none e a = a
pruned_values blocks q p (some (c, op, lit)) e a =
    let keeps : ℕ → Bool = λ b. not (prunes (zone_of (from_blocks blocks) b c) op lit) in
    let empty : (m : ℕ) → keeps m ≡ false → passing (get_or blocks m []) q.filter ≡ some [] =
      λ m h. ap (passing (get_or blocks m [])) e ∙ pruned_passing blocks c op lit m h in
    let data_ : ℕ → List ℕ = λ m. column (get_or blocks m []) q.agg_col in
    record {
      scalar =
          a.scalar
          ∙ ap (push_all default) (
              flat-keep (λ m. (values_in blocks q m).plain) keeps (range 0 (length blocks))
                (λ m h.
                  ap (λ sel. (values_by (get_or blocks m []) (data_ m) sel q.group_by).plain)
                    (empty m h)
                  ∙ no_rows (get_or blocks m []) (data_ m) q.group_by));
      groups = λ k.
          a.groups k
          ∙ ap entry_of (
              flat-keep (λ m. (values_in blocks q m).keyed k) keeps (range 0 (length blocks))
                (λ m h.
                  ap (λ sel. (values_by (get_or blocks m []) (data_ m) sel q.group_by).keyed k)
                    (empty m h)
                  ∙ no_keyed_rows (get_or blocks m []) (data_ m) q.group_by k));
      distinct = a.distinct;
    }

-- A ramped query on a table of i64 columns, however many threads and workers it has, in whatever order
-- they take morsels, join, answer, leave or die: once as many morsels are done as there are, the result
-- is that of the rows of the whole table that pass the filter, pruned blocks included. Its scalar is
-- the accumulator that has their values pushed in turn, its groups have for each key the accumulator of
-- the key's values and no entry for a key without a row, and no key stands twice.
pub ramp_lem :
    (blocks : List Block) (q : Clauses) (threads workers : ℕ) (r : Ramp)
    → All IsBlock blocks
    → Reach (from_blocks blocks) q (start (from_blocks blocks) q threads workers) r
    → r.shared.morsels_total ≤ r.shared.morsels_done
    → Answers r.shared.result (table_values blocks q)
unfolding from_blocks
ramp_lem blocks q threads workers r h reach le =
    pruned_values blocks q r.shared.result q.filter refl (
      done_answers (from_blocks blocks) q (values_in blocks q)
        (λ m. block_values-AreI64 (get_or blocks m []) q (All-get_or blocks m h))
        (λ m. exec_morsel-Answers (get_or blocks m []) q) threads workers r reach le)
