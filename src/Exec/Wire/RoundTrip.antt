-- ===== src/Exec/Wire/RoundTrip.antt =====
-- The messages of crates/blitz-exec read back.
use alpheidae.Prelude.{
  ℕ, ◌%◌, ◌^◌, ◌<◌, ◌≡◌, refl, sym, ap, subst, ◌∙◌, Bool, true, false, Option, none, some, List, [],
  ◌∷◌, ◌++◌, ◌==◌, length, arith, All, append_assoc, append-nil, Bool-cases, inl, inr,
}
use alpheidae.Wire.{le_bytes, Reader, ◌>>=◌, done, r_u64, r_u32, w_u64, read_items, write_items}
use alpheidae.Wire.Laws.{
  Reads, Reads-bind, Reads-map, Reads-check, Reads-u64, Reads-u32, Reads-items,
}
use alpheidae.Core.{CmpOp, gt, lt, ge, le, eq, IsI64}
use alpheidae.Core
use alpheidae.Core.Agg.{Acc, IsAcc}
use alpheidae.Core.Groups.{Groups, insert, upsert, get}
use alpheidae.Sql.{AggFn, Clauses}
use alpheidae.Sql
use alpheidae.Exec.{Partial}
use alpheidae.Exec.Answers.{IsMap}
use alpheidae.Exec.Wire.{
  msg_partial, r_u8, w_u32, w_filter, w_number, w_order, r_filter, r_number, r_order, read_query,
  w_acc, w_entry, write_partial, r_acc, r_entry, insert_all, read_partial, read_partial_msg,
}

pub Reads-u8 : (b : ℕ) → Reads r_u8 (b ∷ []) b
unfolding r_u8
Reads-u8 b = record { reads = λ rest. refl }

pub Reads-w_u32 : (v : ℕ) → v < 2 ^ 32 → Reads r_u32 (w_u32 v) v
unfolding w_u32
Reads-w_u32 v h = let e : v % 2 ^ 32 ≡ v = omega arith in rw e (Reads-u32 v h)

-- A byte in front.
pub Reads-byte :
    {B : Type 0} (f : ℕ → Reader B) (b : ℕ) (w : List ℕ) (x : B)
    → Reads (f b) w x
    → Reads (r_u8 >>= f) (b ∷ w) x
Reads-byte f b w x h = Reads-bind r_u8 f (b ∷ []) w b x (Reads-u8 b) h

op_back : (op : CmpOp) → Core.from_u8 (Core.to_u8 op) ≡ op
unfolding Core.from_u8 Core.to_u8
op_back gt = refl
op_back lt = refl
op_back ge = refl
op_back le = refl
op_back eq = refl

agg_back : (a : AggFn) → Sql.from_u8 (Sql.to_u8 a) ≡ a
unfolding Sql.from_u8 Sql.to_u8
agg_back Sql.sum = refl
agg_back Sql.count = refl
agg_back Sql.min = refl
agg_back Sql.max = refl
agg_back Sql.avg = refl

-- The columns and the limit fit a u32, and the literal is an i64.
abbrev pub IsFilter : Option (ℕ × CmpOp × ℕ) → Type 0
IsFilter none = Unit
IsFilter (some (c, op, lit)) = (c < 2 ^ 32) × IsI64 lit

abbrev pub IsNumber : Option ℕ → Type 0
IsNumber none = Unit
IsNumber (some n) = n < 2 ^ 32

abbrev pub IsOrder : Option (ℕ × Bool) → Type 0
IsOrder none = Unit
IsOrder (some (c, asc)) = c < 2 ^ 32

Reads-filter : (f : Option (ℕ × CmpOp × ℕ)) → IsFilter f → Reads r_filter (w_filter f) f
unfolding r_filter w_filter le_bytes w_u64
Reads-filter none h = Reads-byte _ 0 _ _ (
    Reads-byte _ 0 _ _ (
      Reads-bind r_u32 _ (le_bytes 4 0) (w_u64 0) 0 _ (Reads-u32 0 (omega arith))
        (Reads-map r_u64 (λ l. none) (w_u64 0) 0 (Reads-u64 0 (omega arith)))))
Reads-filter (some (c, op, lit)) (hc, hl) = Reads-byte _ 1 _ _ (
    Reads-byte _ (Core.to_u8 op) _ _ (
      Reads-bind r_u32 _ (w_u32 c) (w_u64 lit) c _ (Reads-w_u32 c hc) (
        rw (op_back op)
          (Reads-map r_u64 (λ l. some (c, op, l)) (w_u64 lit) lit (Reads-u64 lit hl)))))

Reads-number : (n : Option ℕ) → IsNumber n → Reads r_number (w_number n) n
unfolding r_number w_number le_bytes
Reads-number none h =
    Reads-byte _ 0 _ _ (Reads-map r_u32 (λ n. none) (le_bytes 4 0) 0 (Reads-u32 0 (omega arith)))
Reads-number (some n) h = Reads-byte _ 1 _ _ (Reads-map r_u32 some (w_u32 n) n (Reads-w_u32 n h))

Reads-order : (o : Option (ℕ × Bool)) → IsOrder o → Reads r_order (w_order o) o
unfolding r_order w_order le_bytes
Reads-order none h =
    Reads-byte _ 0 _ _ (
      Reads-byte _ 0 _ _ (Reads-map r_u32 (λ n. none) (le_bytes 4 0) 0 (Reads-u32 0 (omega arith))))
Reads-order (some (c, true)) h =
    Reads-byte _ 1 _ _
      (Reads-byte _ 1 _ _ (Reads-map r_u32 (λ n. some (n, true)) (w_u32 c) c (Reads-w_u32 c h)))
Reads-order (some (c, false)) h =
    Reads-byte _ 1 _ _
      (Reads-byte _ 0 _ _ (Reads-map r_u32 (λ n. some (n, false)) (w_u32 c) c (Reads-w_u32 c h)))

-- A query that its message can carry.
pub record IsSent (q : Clauses) : Type 0 where
  pub agg_col : q.agg_col < 2 ^ 32
  pub filter : IsFilter q.filter
  pub group_by : IsNumber q.group_by
  pub order_by : IsOrder q.order_by
  pub limit : IsNumber q.limit

-- The message of a query without the byte of its kind.
abbrev pub query_body : Clauses → List ℕ
query_body q =
    Sql.to_u8 q.agg
    ∷ (w_u32 q.agg_col
        ++ (w_filter q.filter ++ (w_number q.group_by ++ (w_order q.order_by ++ w_number q.limit))))

pub Reads-query : (q : Clauses) → IsSent q → Reads read_query (query_body q) q
unfolding read_query
Reads-query q h = Reads-byte _ (Sql.to_u8 q.agg) _ _ (
    rw (agg_back q.agg) (
      Reads-bind r_u32 _ (w_u32 q.agg_col) _ q.agg_col _ (Reads-w_u32 q.agg_col h.agg_col) (
        Reads-bind r_filter _ (w_filter q.filter) _ q.filter _ (Reads-filter q.filter h.filter) (
          Reads-bind r_number _ (w_number q.group_by) _ q.group_by _
            (Reads-number q.group_by h.group_by)
            (Reads-bind r_order _ (w_order q.order_by) _ q.order_by _
              (Reads-order q.order_by h.order_by)
              (Reads-map r_number _ (w_number q.limit) q.limit (Reads-number q.limit h.limit)))))))

-- Numbers of 64 bits.
abbrev pub IsSentAcc : Acc → Type 0
IsSentAcc a = IsAcc a × (a.count < 2 ^ 64)

Reads-acc : (a : Acc) → IsSentAcc a → Reads r_acc (w_acc a) a
unfolding r_acc w_acc
Reads-acc a ((hs, hn, hx), hc) = Reads-bind r_u64 _ (w_u64 a.sum) _ a.sum _ (Reads-u64 a.sum hs) (
    Reads-bind r_u64 _ (w_u64 a.count) _ a.count _ (Reads-u64 a.count hc) (
      Reads-bind r_u64 _ (w_u64 a.min) _ a.min _ (Reads-u64 a.min hn)
        (Reads-map r_u64 _ (w_u64 a.max) a.max (Reads-u64 a.max hx))))

abbrev pub IsSentEntry : ℕ × Acc → Type 0
IsSentEntry (k, a) = IsI64 k × IsSentAcc a

Reads-entry : (e : ℕ × Acc) → IsSentEntry e → Reads r_entry (w_entry e) e
unfolding r_entry w_entry
Reads-entry (k, a) (hk, ha) =
    Reads-bind r_u64 _ (w_u64 k) _ k _ (Reads-u64 k hk)
      (Reads-map r_acc _ (w_acc a) a (Reads-acc a ha))

-- A new key goes to the end.
insert_new : (g : Groups) (k : ℕ) (a : Acc) → get g k ≡ none → insert g k a ≡ g ++ ((k, a) ∷ [])
unfolding insert upsert get
insert_new [] k a h = refl
insert_new ((j, b) ∷ g) k a h = elim (Bool-cases (j == k)) [
  | inl same ↦ absurd (ground (arith, same, h))
  | inr other ↦ rw other (ap (◌∷◌ (j, b)) (insert_new g k a (ground (arith, other, h))))
]

found : (g rest : Groups) (k : ℕ) (a : Acc) → get (g ++ ((k, a) ∷ rest)) k ≡ none → ⊥
unfolding get
found [] rest k a h = ground arith
found ((j, b) ∷ g) rest k a h = elim (Bool-cases (j == k)) [
  | inl same ↦ ground (arith, same, h)
  | inr other ↦ found g rest k a (ground (arith, other, h))
]

-- A key whose entry stands further on is not in what stands before.
absent_before : (g rest : Groups) (k : ℕ) (a : Acc) → IsMap (g ++ ((k, a) ∷ rest)) → get g k ≡ none
unfolding get
absent_before [] rest k a h = refl
absent_before ((j, b) ∷ g) rest k a (new, h) = elim (Bool-cases (j == k)) [
  | inl same ↦
      absurd (
        found g rest k a
          (ap (get (g ++ ((k, a) ∷ rest))) (let e : k ≡ j = ground arith in e) ∙ new))
  | inr other ↦ rw other (absent_before g rest k a h)
]

insert_all-append :
    (g entries : Groups) → IsMap (g ++ entries) → insert_all g entries ≡ g ++ entries
unfolding insert_all
insert_all-append g [] h = sym (append-nil g)
insert_all-append g ((k, a) ∷ entries) h =
    ap (λ x. insert_all x entries) (insert_new g k a (absent_before g entries k a h))
    ∙ insert_all-append (g ++ ((k, a) ∷ [])) entries
        (subst IsMap (sym (append_assoc g ((k, a) ∷ []) entries)) h)
    ∙ append_assoc g ((k, a) ∷ []) entries

-- A partial result that its message can carry.
pub record IsSentPartial (p : Partial) : Type 0 where
  pub scalar : IsSentAcc p.scalar
  pub groups : All IsSentEntry p.groups
  pub distinct : IsMap p.groups
  pub size : length p.groups < 2 ^ 64

pub Reads-partial : (p : Partial) → IsSentPartial p → Reads read_partial_msg (write_partial p) p
unfolding read_partial_msg write_partial read_partial
Reads-partial p h = Reads-byte _ msg_partial _ _ (
    Reads-check _ _ _ _ refl (
      Reads-bind r_acc _ (w_acc p.scalar) _ p.scalar _ (Reads-acc p.scalar h.scalar) (
        Reads-bind r_u64 _ (w_u64 (length p.groups)) _ (length p.groups) _
          (Reads-u64 (length p.groups) h.size)
          (subst
            (λ g.
              Reads {A = Partial}
                (read_items r_entry (length p.groups) >>= λ es.
                  done (record { scalar = p.scalar; groups = insert_all [] es }))
                (write_items w_entry p.groups) (record { scalar = p.scalar; groups = g }))
            (insert_all-append [] p.groups h.distinct)
            (Reads-map (read_items r_entry (length p.groups))
              (λ es. record { scalar = p.scalar; groups = insert_all [] es })
              (write_items w_entry p.groups) p.groups
              (Reads-items r_entry w_entry IsSentEntry Reads-entry p.groups h.groups))))))
