-- ===== src/Exec/Ship/Exchange.antt =====
-- One morsel sent to a worker and answered.
use alpheidae.Prelude.{
  ℕ, zero, suc, ◌+◌, ◌^◌, ◌<◌, ◌≤◌, ◌≡◌, refl, sym, ap, subst, ◌∙◌, Bool, true, false, Option, none,
  some, List, [], ◌∷◌, ◌++◌, ◌==◌, if◌then◌else◌, length, length-append, get_elem?, arith, All,
  append-nil, Bool-cases, inl, inr, not,
}
use alpheidae.Wire.{Reader, ◌>>◌, done, check, r_u64, r_u32, w_u64, read_items, write_items}
use alpheidae.Wire.Laws.{
  Reads, Reads-done, Reads-bind, Reads-map, Reads-check, Reads-u64, Reads-items,
}
use alpheidae.Core.{CmpOp, IsI64}
use alpheidae.Cluster.{Block, ClusteredTable}
use alpheidae.Sql.{Clauses}
use alpheidae.Exec.{column, exec_morsel}
use alpheidae.Exec.Wire.{w_u32, msg_query, msg_morsel, write_query, write_partial, read_partial_msg}
use alpheidae.Exec.Wire.RoundTrip.{
  IsFilter, IsNumber, IsSent, Reads-query, Reads-w_u32, Reads-byte, IsSentPartial, Reads-partial,
}
use alpheidae.Exec.Ship.{
  has_columns, contains, add_needed, add_filter, add_group, needed_columns, w_i64_slice, r_i64_vec,
  inline_marker, w_column, w_morsel, r_column, block_of, stored_block, r_inline, r_block,
  answer_morsel, receive_query, first, exchange,
}
use alpheidae.Exec.Ship.Same.{with_ids, block_of-column, exec_morsel-needed}

-- Columns of i64s whose length a u64 can count.
abbrev IsColumn : List ℕ → Type 0
IsColumn v = All IsI64 v × (length v < 2 ^ 64)

abbrev pub IsWireBlock : Block → Type 0
IsWireBlock b = All IsColumn b

column-IsColumn : (b : Block) (c : ℕ) → IsWireBlock b → IsColumn (column b c)
column-IsColumn [] c h = (tt, omega arith)
column-IsColumn (x ∷ b) zero (hx, hs) = hx
column-IsColumn (x ∷ b) (suc c) (hx, hs) = column-IsColumn b c hs

Reads-slice : (v : List ℕ) → IsColumn v → Reads r_i64_vec (w_i64_slice v) v
unfolding r_i64_vec w_i64_slice
Reads-slice v (h, size) =
    Reads-bind r_u64 _ (w_u64 (length v)) _ (length v) _ (Reads-u64 (length v) size)
      (Reads-items r_u64 w_u64 IsI64 Reads-u64 v h)

Reads-column :
    (b : Block) (c : ℕ) → IsWireBlock b → c < 2 ^ 32 → Reads r_column (w_column b c) (c, column b c)
unfolding r_column w_column
Reads-column b c h small = Reads-bind r_u32 _ (w_u32 c) _ c _ (Reads-w_u32 c small) (
    Reads-map r_i64_vec _ (w_i64_slice (column b c)) (column b c)
      (Reads-slice (column b c) (column-IsColumn b c h)))

Reads-columns :
    (b : Block) (ids : List ℕ)
    → IsWireBlock b
    → All (λ c. c < 2 ^ 32) ids
    → Reads (read_items r_column (length ids)) (write_items (w_column b) ids) (with_ids b ids)
unfolding read_items write_items
Reads-columns b [] h hs = Reads-done []
Reads-columns b (c ∷ ids) h (hc, hs) =
    Reads-bind r_column _ (w_column b c) _ (c, column b c) _ (Reads-column b c h hc)
      (Reads-map (read_items r_column (length ids)) _ (write_items (w_column b) ids)
        (with_ids b ids) (Reads-columns b ids h hs))

-- The needed columns are columns of a message, from one to three.
record IsNeeded (n : ℕ) (ids : List ℕ) : Type 0 where
  small : All (λ c. c < 2 ^ 32) ids
  some_id : 0 < length ids
  few : length ids ≤ n

All-snoc :
    (ids : List ℕ) (c : ℕ)
    → All (λ c. c < 2 ^ 32) ids
    → c < 2 ^ 32
    → All (λ c. c < 2 ^ 32) (ids ++ (c ∷ []))
All-snoc [] c h hc = (hc, tt)
All-snoc (x ∷ ids) c (hx, hs) hc = (hx, All-snoc ids c hs hc)

add_needed-IsNeeded :
    (n : ℕ) (ids : List ℕ) (c : ℕ)
    → IsNeeded n ids
    → c < 2 ^ 32
    → IsNeeded (n + 1) (add_needed ids c)
add_needed-IsNeeded n ids c h hc = elim (Bool-cases (contains ids c)) [
  | inl old ↦ rw old (record { small = h.small; some_id = h.some_id; few = omega (arith, h.few) })
  | inr new ↦ rw new (record {
    small = All-snoc ids c h.small hc;
    some_id = omega (arith, h.some_id, length-append ids (c ∷ []));
    few = omega (arith, h.few, length-append ids (c ∷ []));
  })
]

more : (n : ℕ) (ids : List ℕ) → IsNeeded n ids → IsNeeded (n + 1) ids
more n ids h = record { small = h.small; some_id = h.some_id; few = omega (arith, h.few) }

add_filter-IsNeeded :
    (n : ℕ) (ids : List ℕ) (f : Option (ℕ × CmpOp × ℕ))
    → IsNeeded n ids
    → IsFilter f
    → IsNeeded (n + 1) (add_filter ids f)
add_filter-IsNeeded n ids none h hf = more n ids h
add_filter-IsNeeded n ids (some (c, op, lit)) h (hc, hl) = add_needed-IsNeeded n ids c h hc

add_group-IsNeeded :
    (n : ℕ) (ids : List ℕ) (g : Option ℕ)
    → IsNeeded n ids
    → IsNumber g
    → IsNeeded (n + 1) (add_group ids g)
add_group-IsNeeded n ids none h hg = more n ids h
add_group-IsNeeded n ids (some c) h hg = add_needed-IsNeeded n ids c h hg

needed-IsNeeded : (q : Clauses) → IsSent q → IsNeeded 3 (needed_columns q)
needed-IsNeeded q h =
    add_group-IsNeeded 2 _ q.group_by
      (add_filter-IsNeeded 1 _ q.filter
        (record { small = (h.agg_col, tt); some_id = omega arith; few = omega arith }) h.filter)
      h.group_by

length-with_ids : (b : Block) (ids : List ℕ) → length (with_ids b ids) ≡ length ids
length-with_ids b [] = refl
length-with_ids b (c ∷ ids) = ap suc (length-with_ids b ids)

Reads-end : {A : Type 0} (r : Reader A) (w : List ℕ) (a : A) → Reads r (w ++ []) a → Reads r w a
Reads-end r w a h = subst (λ w. Reads r w a) (append-nil w) h

Reads-inline :
    (b : Block) (ids : List ℕ)
    → IsWireBlock b
    → IsNeeded 3 ids
    → Reads r_inline
        (w_u32 (length ids) ++ write_items (w_column b) ids)
        (block_of (with_ids b ids))
unfolding r_inline
Reads-inline b ids h n =
    Reads-bind r_u32 _ (w_u32 (length ids)) _ (length ids) _
      (Reads-w_u32 (length ids) (omega (arith, n.few)))
      (Reads-end _ (write_items (w_column b) ids) (block_of (with_ids b ids)) (
        Reads-bind (read_items r_column (length ids))
          (λ cols. check (not (length cols == 0)) >> done (block_of cols))
          (write_items (w_column b) ids) [] (with_ids b ids) _ (Reads-columns b ids h n.small)
          (Reads-check (not (length (with_ids b ids) == 0)) _ [] _
            (ground (arith, length-with_ids b ids, n.some_id))
            (Reads-done (block_of (with_ids b ids))))))

-- How the worker comes by the block: in the message, or in the storage, by a number that is no marker.
abbrev pub IsAtHand : Bool → Option ClusteredTable → Block → ℕ → Type 0
IsAtHand true storage b m = IsWireBlock b
IsAtHand false none b m = ⊥
IsAtHand false (some t) b m = (get_elem? t.blocks m ≡ some b) × (m < inline_marker)

-- The block that the worker works on.
abbrev received : Bool → Clauses → Block → Block
received true q b = block_of (with_ids b (needed_columns q))
received false q b = b

stored_there :
    (t : ClusteredTable) (b : Block) (m : ℕ)
    → get_elem? t.blocks m ≡ some b
    → m < inline_marker
    → Reads (if m == inline_marker then r_inline else stored_block (some t) m) [] b
stored_there t b m there small =
    let number : (m == inline_marker) ≡ false = ground arith in
    let by_number : (if m == inline_marker then r_inline else stored_block (some t) m)
        ≡ stored_block (some t) m =
      rw number refl in
    record { reads = λ rest. ap (λ r. r rest) by_number ∙ rw (there, stored_block) }

Reads-morsel :
    (storage : Option ClusteredTable) (ship_data : Bool) (q : Clauses) (b : Block) (m : ℕ)
    → IsSent q
    → IsAtHand ship_data storage b m
    → Reads
        (answer_morsel storage q)
        (w_morsel ship_data q b m)
        (write_partial (exec_morsel (received ship_data q b) q))
unfolding answer_morsel w_morsel r_block
Reads-morsel storage true q b m hq h = Reads-byte _ msg_morsel _ _ (
    Reads-check _ _ _ _ refl (
      Reads-map (r_block storage) _ _ _ (
        Reads-bind r_u32 _ (w_u32 inline_marker) _ inline_marker _
          (Reads-w_u32 inline_marker (omega arith))
          (Reads-inline b (needed_columns q) h (needed-IsNeeded q hq)))))
Reads-morsel none false q b m hq h = absurd h
Reads-morsel (some t) false q b m hq (there, small) = Reads-byte _ msg_morsel _ _ (
    Reads-check _ _ _ _ refl (
      Reads-map (r_block (some t)) _ _ _ (
        Reads-end (r_block (some t)) (w_u32 m) b (
          Reads-bind r_u32 _ (w_u32 m) [] m _ (Reads-w_u32 m (omega arith))
            (stored_there t b m there small)))))

received-same :
    (ship_data : Bool) (q : Clauses) (b : Block)
    → exec_morsel (received ship_data q b) q ≡ exec_morsel b q
received-same true q b =
    exec_morsel-needed b (block_of (with_ids b (needed_columns q))) q
      (λ d h. block_of-column b (needed_columns q) d h)
received-same false q b = refl

Reads-receive : (q : Clauses) → IsSent q → Reads receive_query (write_query q) q
unfolding receive_query write_query
Reads-receive q h = Reads-byte _ msg_query _ _ (Reads-check _ _ _ _ refl (Reads-query q h))

first-Reads :
    {A B : Type 0} (r : Reader A) (w : List ℕ) (a : A) (f : A → Option B)
    → Reads r w a
    → first (r w) f ≡ f a
first-Reads r w a f h = ap (λ x. first x f) (ap r (sym (append-nil w)) ∙ h.reads [])

-- Whether a morsel's columns are shipped or its number names a block in the worker's storage, the
-- coordinator gets back the partial result of `exec_morsel` on the block and the query, where the
-- block has the columns that the query needs, the query's columns and limit fit 32 bits, its literal is an i64, and the partial result has numbers of 64
-- bits and no key twice. The columns that are shipped are enough, and what is lost of the query on the
-- way has no part in it.
pub exchange_lem :
    (storage : Option ClusteredTable) (ship_data : Bool) (q : Clauses) (b : Block) (m : ℕ)
    → IsSent q
    → IsAtHand ship_data storage b m
    → IsSentPartial (exec_morsel b q)
    → has_columns b (needed_columns q) ≡ true
    → exchange storage ship_data q b m ≡ some (exec_morsel b q)
unfolding exchange
exchange_lem storage ship_data q b m hq h hp there = rw there (
    first-Reads receive_query (write_query q) q _ (Reads-receive q hq)
    ∙ first-Reads (answer_morsel storage q) (w_morsel ship_data q b m) _ _
        (Reads-morsel storage ship_data q b m hq h)
    ∙ ap (λ p. first (read_partial_msg (write_partial p)) some) (received-same ship_data q b)
    ∙ first-Reads read_partial_msg (write_partial (exec_morsel b q)) (exec_morsel b q) some
        (Reads-partial (exec_morsel b q) hp))
