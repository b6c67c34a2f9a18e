-- ===== src/Core/Group/ByKey.antt =====
-- What the grouped aggregation holds for a key.
use alpheidae.Prelude.{
  ℕ, zero, suc, ◌+◌, ◌<◌, ◌≡◌, refl, sym, ap, subst, ◌∙◌, true, false, ◌&&◌, Option, none, some,
  List, [], ◌∷◌, ltb, leb, ◌==◌, if◌then◌else◌, get_or, arith, Bool-cases, inl, inr, Option-cases,
}
use alpheidae.Core.Agg.{Acc, default, push, push_all}
use alpheidae.Core.Groups.{Groups, get, upsert, insert, or_default, get-upsert}
use alpheidae.Core.Group.{
  rows, Flat, is_flat, emit, unused, emit_loop, collect, general_loop, flat_ok, group_agg,
}

-- The values of a key's rows, in their order.
unfoldable pub at_key : ℕ → List ℕ → List ℕ → List ℕ → List ℕ
at_key k keys vals [] = []
at_key k keys vals (i ∷ sel) =
    let rest = at_key k keys vals sel in
    if get_or keys i 0 == k then get_or vals i 0 ∷ rest else rest

-- An entry, possibly absent, after some more values.
unfoldable pub extend : Option Acc → List ℕ → Option Acc
unfolding push_all
extend old [] = old
extend old (v ∷ vs) = some (push_all (or_default old) (v ∷ vs))

extend-push :
    (old : Option Acc) (v : ℕ) (vs : List ℕ)
    → extend (some (push (or_default old) v)) vs ≡ extend old (v ∷ vs)
unfolding extend push_all
extend-push old v [] = refl
extend-push old v (w ∷ vs) = refl

extend_nil : (old : Option Acc) → extend old [] ≡ old
unfolding extend
extend_nil old = refl

extend_one :
    (g : Groups) (j k v : ℕ) (rest : List ℕ)
    → extend (if j == k then some (push (or_default (get g j)) v) else get g k) rest
      ≡ extend (get g k) (if j == k then v ∷ rest else rest)
extend_one g j k v rest = elim (Bool-cases (j == k)) [
  | inl same ↦
      let e : j ≡ k = ground arith in
      rw same (
        ap (λ x. extend (some (push (or_default (get g x)) v)) rest) e
        ∙ extend-push (get g k) v rest)
  | inr other ↦ rw other refl
]

general_loop-get :
    (keys vals sel : List ℕ) (g : Groups) (k : ℕ)
    → get (general_loop keys vals sel g) k ≡ extend (get g k) (at_key k keys vals sel)
unfolding general_loop at_key
general_loop-get keys vals [] g k = sym (extend_nil (get g k))
general_loop-get keys vals (i ∷ sel) g k =
    let j = get_or keys i 0 in
    let v = get_or vals i 0 in
    general_loop-get keys vals sel (upsert g j (λ a. push a v)) k
    ∙ ap (λ o. extend o (at_key k keys vals sel)) (get-upsert g j k (λ a. push a v))
    ∙ extend_one g j k v (at_key k keys vals sel)

-- What the flat table holds for a key, as an entry.
abbrev entry : Flat → ℕ → Option Acc
entry f k = if f.seen k then some (f.table k) else none

-- A key that is not in use has the accumulator that pushing starts from.
abbrev IsFresh : Flat → Type 0
IsFresh f = (k : ℕ) → f.seen k ≡ false → f.table k ≡ default

-- The keys in use are below the size of the table.
abbrev IsSmall : Flat → Type 0
IsSmall f = (k : ℕ) → f.seen k ≡ true → k < 4096

emit-IsFresh : (f : Flat) (j v : ℕ) → IsFresh f → IsFresh (emit f j v)
emit-IsFresh f j v h = λ k e. elim (Bool-cases (j == k)) [
  | inl same ↦ ground (arith, same)
  | inr other ↦ ground (arith, other, h k)
]

emit-IsSmall : (f : Flat) (j v : ℕ) → is_flat j ≡ true → IsSmall f → IsSmall (emit f j v)
emit-IsSmall f j v small h = λ k e. elim (Bool-cases (j == k)) [
  | inl same ↦ ground (arith, same)
  | inr other ↦ h k (ground (arith, other, e))
]

emit-entry :
    (f : Flat) (j k v : ℕ) (rest : List ℕ)
    → IsFresh f
    → extend (entry (emit f j v) k) rest ≡ extend (entry f k) (if j == k then v ∷ rest else rest)
emit-entry f j k v rest h = elim (Bool-cases (j == k)) [
  | inr other ↦ rw other refl
  | inl same ↦
      let moved : extend (some (push (f.table j) v)) rest
          ≡ extend (some (push (f.table k) v)) rest =
        ap (λ x. extend (some (push (f.table x) v)) rest) (let e : j ≡ k = ground arith in e) in
      elim (Bool-cases (f.seen k)) [
        | inl old ↦ rw (same, old) (moved ∙ extend-push (some (f.table k)) v rest)
        | inr new ↦
            rw (same, new)
              (moved ∙ ap (λ a. extend (some (push a v)) rest) (h k new) ∙ extend-push none v rest)
      ]
]

-- The flat table that the loop ends with.
record IsEmitted (keys vals sel : List ℕ) (f f' : Flat) : Type 0 where
  entries : (k : ℕ) → entry f' k ≡ extend (entry f k) (at_key k keys vals sel)
  small : IsSmall f'

emit_loop-IsEmitted :
    (keys vals sel : List ℕ) (f f' : Flat)
    → IsFresh f
    → IsSmall f
    → emit_loop keys vals sel f ≡ some f'
    → IsEmitted keys vals sel f f'
unfolding emit_loop at_key
emit_loop-IsEmitted keys vals [] f f' fresh small e =
    let same : f ≡ f' = ground arith in
    record {
      entries = λ k. ap (λ x. entry x k) (sym same) ∙ sym (extend_nil (entry f k));
      small = subst IsSmall same small;
    }
emit_loop-IsEmitted keys vals (i ∷ sel) f f' fresh small e =
    let j = get_or keys i 0 in
    let v = get_or vals i 0 in
    elim (Bool-cases (is_flat j)) [
      | inr big ↦ absurd (ground (arith, big, e))
      | inl flat ↦
          let later : emit_loop keys vals sel (emit f j v) ≡ some f' = ground (arith, flat, e) in
          let x =
            emit_loop-IsEmitted keys vals sel (emit f j v) f' (emit-IsFresh f j v fresh)
              (emit-IsSmall f j v flat small) later in
          record {
            entries = λ k. x.entries k ∙ emit-entry f j k v (at_key k keys vals sel) fresh;
            small = x.small;
          }
    ]

collect_one :
    (f : Flat) (out : Groups) (k j : ℕ)
    → get (if f.seen k then insert out k (f.table k) else out) j
      ≡ (if k == j && f.seen j then some (f.table j) else get out j)
unfolding insert
collect_one f out k j = elim (Bool-cases (k == j)) [
  | inl same ↦
      let e : k ≡ j = ground arith in
      rw same (
        subst
          (λ k.
            get (if f.seen k then insert out k (f.table k) else out) j
            ≡ (if f.seen j then some (f.table j) else get out j))
          (sym e)
          (elim (Bool-cases (f.seen j)) [
            | inl used ↦ rw used (get-upsert out j j (λ old. f.table j) ∙ ground arith)
            | inr free ↦ rw free refl
          ]))
  | inr other ↦ elim (Bool-cases (f.seen k)) [
    | inl used ↦ rw (other, used) (get-upsert out k j (λ old. f.table k) ∙ ground (arith, other))
    | inr free ↦ rw (other, free) refl
  ]
]

-- Collecting `n` keys from `k` on.
collect-get :
    (n k : ℕ) (f : Flat) (out : Groups) (j : ℕ)
    → get (collect n k f out) j
      ≡ (if leb k j && (ltb j (k + n) && f.seen j) then some (f.table j) else get out j)
unfolding collect
collect-get zero k f out j = ground arith
collect-get (suc n) k f out j =
    let next = if f.seen k then insert out k (f.table k) else out in
    collect-get n (k + 1) f next j ∙ ground (arith, collect_one f out k j)

flat_lem :
    (keys vals sel : List ℕ) (f : Flat) (k : ℕ)
    → emit_loop keys vals sel unused ≡ some f
    → get (collect 4096 0 f []) k ≡ extend none (at_key k keys vals sel)
unfolding get
flat_lem keys vals sel f k e =
    let x =
      emit_loop-IsEmitted keys vals sel unused f (λ j h. refl) (λ j h. absurd (ground arith)) e in
    collect-get 4096 0 f [] k ∙ ground (arith, x.small k) ∙ x.entries k

-- Whether the keys take the flat table, leave it for the hash map half way, or go to the hash map at
-- once, the grouped aggregation holds for each key what pushing the values of its selected rows one
-- after another gives, and has no entry for a key without a row.
pub group_agg-at_key :
    (keys vals : List ℕ) (sel : Option (List ℕ)) (k : ℕ)
    → get (group_agg keys vals sel) k ≡ extend none (at_key k keys vals (rows keys sel))
unfolding group_agg get
group_agg-at_key keys vals sel k =
    let general = general_loop-get keys vals (rows keys sel) [] k in
    elim (Bool-cases (flat_ok keys)) [
      | inr wide ↦ rw wide general
      | inl narrow ↦ elim (Option-cases (emit_loop keys vals (rows keys sel) unused)) [
        | inl out ↦ rw (narrow, out) general
        | inr (f, e) ↦ rw (narrow, e) (flat_lem keys vals (rows keys sel) f k e)
      ]
    ]
