-- ===== src/Exec/Answers.antt =====
-- What a partial result of crates/blitz-exec stands for: the values of the rows that went into it.
use alpheidae.Prelude.{
  ℕ, ◌≡◌, refl, sym, ap, ap₂, ◌∙◌, Option, none, some, List, [], ◌∷◌, ◌++◌, ◌==◌, arith, All,
  append-nil, Bool-cases, inl, inr,
}
use alpheidae.Core.{IsI64}
use alpheidae.Core.Agg.{Acc, default, push_all, merge-push_all}
use alpheidae.Core.Agg
use alpheidae.Core.Groups.{Groups, get, upsert, or_default, get-upsert}
use alpheidae.Core.Group.ByKey.{extend}
use alpheidae.Exec.{Partial, nothing, merge_groups, merge}
use alpheidae.Exec.Algebra.{entry_of, entry_of-merge}

-- No key stands twice.
abbrev pub IsMap : Groups → Type 0
IsMap [] = Unit
IsMap ((k, a) ∷ g) = (get g k ≡ none) × IsMap g

pub upsert-IsMap : (g : Groups) (k : ℕ) (f : Acc → Acc) → IsMap g → IsMap (upsert g k f)
unfolding upsert get
upsert-IsMap [] k f h = (refl, tt)
upsert-IsMap ((j, a) ∷ g) k f (new, h) = elim (Bool-cases (j == k)) [
  | inl same ↦ rw same (new, h)
  | inr other ↦ rw other (get-upsert g k j f ∙ ground (arith, new), upsert-IsMap g k f h)
]

pub merge_groups-IsMap : (g o : Groups) → IsMap g → IsMap (merge_groups g o)
unfolding merge_groups
merge_groups-IsMap g [] h = h
merge_groups-IsMap g ((k, a) ∷ o) h =
    merge_groups-IsMap (upsert g k (λ b. Agg.merge b a)) o (upsert-IsMap g k (λ b. Agg.merge b a) h)

-- What merging the entry `a` does to an entry.
abbrev pub join : Option Acc → Option Acc → Option Acc
join old none = old
join old (some a) = some (Agg.merge (or_default old) a)

get-merge_groups :
    (g o : Groups) (j : ℕ) → IsMap o → get (merge_groups g o) j ≡ join (get g j) (get o j)
unfolding merge_groups get
get-merge_groups g [] j h = refl
get-merge_groups g ((k, a) ∷ o) j (new, h) =
    let f : Acc → Acc = λ b. Agg.merge b a in
    get-merge_groups (upsert g k f) o j h
    ∙ ap (λ x. join x (get o j)) (get-upsert g k j f)
    ∙ elim (Bool-cases (k == j)) [
      | inl same ↦
          let e : k ≡ j = ground arith in
          let absent : get o j ≡ none = ap (get o) (sym e) ∙ new in
          rw (same, absent) (ap (λ x. some (Agg.merge (or_default (get g x)) a)) e)
      | inr other ↦ rw other refl
    ]

-- The rows of a query without groups, and for each key of a query with groups.
pub record Values : Type 0 where
  pub plain : List ℕ
  pub keyed : ℕ → List ℕ

abbrev pub both : Values → Values → Values
both v w = record { plain = v.plain ++ w.plain; keyed = λ k. v.keyed k ++ w.keyed k }

pub record Answers (p : Partial) (v : Values) : Type 0 where
  pub scalar : p.scalar ≡ push_all default v.plain
  pub groups : (k : ℕ) → get p.groups k ≡ entry_of (v.keyed k)
  pub distinct : IsMap p.groups

abbrev pub AreI64 : Values → Type 0
AreI64 v = All IsI64 v.plain × ((k : ℕ) → All IsI64 (v.keyed k))

pub nothing-Answers : Answers nothing (record { plain = []; keyed = λ k. [] })
unfolding push_all get extend
nothing-Answers = record { scalar = refl; groups = λ k. refl; distinct = tt }

pub join_lem :
    (vs ws : List ℕ) → All IsI64 vs → join (entry_of vs) (entry_of ws) ≡ entry_of (vs ++ ws)
unfolding extend
join_lem vs [] h = ap entry_of (sym (append-nil vs))
join_lem vs (w ∷ ws) h = entry_of-merge vs w ws h

-- Partial results merge into the partial result of the rows of both.
pub merge-Answers :
    (p o : Partial) (v w : Values)
    → AreI64 v
    → Answers p v
    → Answers o w
    → Answers (merge p o) (both v w)
unfolding merge
merge-Answers p o v w (plain, keyed) a b = record {
  scalar = ap₂ Agg.merge a.scalar b.scalar ∙ merge-push_all v.plain w.plain plain;
  groups = λ k.
      get-merge_groups p.groups o.groups k b.distinct
      ∙ ap₂ join (a.groups k) (b.groups k)
      ∙ join_lem (v.keyed k) (w.keyed k) (keyed k);
  distinct = merge_groups-IsMap p.groups o.groups a.distinct;
}
