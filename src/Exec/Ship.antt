-- ===== src/Exec/Ship.antt =====
-- crates/blitz-exec/src/lib.rs: how a morsel gets to a worker, by its number when both read the same
-- storage, and else with the columns that the query needs. The worker's answer is a partial result.
pub mod Same
pub mod Exchange
use alpheidae.Prelude.{
  ◌&&◌, ℕ, zero, suc, ◌+◌, ◌-◌, ◌*◌, ◌^◌, Bool, true, false, ◌||◌, Option, none, some, List, [],
  ◌∷◌, ◌++◌, ◌==◌, if◌then◌else◌, length, replicate, set, max, get_elem?, not, ltb,
}
use alpheidae.Wire.{Reader, ◌>>=◌, ◌>>◌, done, check, r_u64, r_u32, w_u64, read_items, write_items}
use alpheidae.Core.{CmpOp}
use alpheidae.Cluster.{Block, ClusteredTable}
use alpheidae.Sql.{Clauses}
use alpheidae.Exec.{Partial, column, exec_morsel}
use alpheidae.Exec.Wire.{
  r_u8, w_u32, msg_query, msg_morsel, write_query, read_query, write_partial, read_partial_msg,
}

-- `Vec::contains`.
abbrev pub contains : List ℕ → ℕ → Bool
contains [] c = false
contains (x ∷ xs) c = x == c || contains xs c

abbrev pub add_needed : List ℕ → ℕ → List ℕ
add_needed needed c = if contains needed c then needed else needed ++ (c ∷ [])

abbrev pub add_filter : List ℕ → Option (ℕ × CmpOp × ℕ) → List ℕ
add_filter needed none = needed
add_filter needed (some (c, op, lit)) = add_needed needed c

abbrev pub add_group : List ℕ → Option ℕ → List ℕ
add_group needed none = needed
add_group needed (some c) = add_needed needed c

-- The columns that a query needs.
abbrev pub needed_columns : Clauses → List ℕ
needed_columns q = add_group (add_filter (q.agg_col ∷ []) q.filter) q.group_by

unfoldable pub w_i64_slice : List ℕ → List ℕ
w_i64_slice v = w_u64 (length v) ++ write_items w_u64 v

unfoldable pub r_i64_vec : Reader (List ℕ)
r_i64_vec = do n ← r_u64; read_items r_u64 n

-- `u32::MAX` says that the columns follow.
abbrev pub inline_marker : ℕ
inline_marker = 2 ^ 32 - 1

unfoldable pub w_column : Block → ℕ → List ℕ
w_column b c = w_u32 c ++ w_i64_slice (column b c)

-- What the coordinator sends for morsel `m`, the block `b`.
unfoldable pub w_morsel : Bool → Clauses → Block → ℕ → List ℕ
w_morsel ship_data q b m =
    let needed = needed_columns q in
    msg_morsel
    ∷ (if ship_data
        then w_u32 inline_marker ++ (w_u32 (length needed) ++ write_items (w_column b) needed)
        else w_u32 m)

unfoldable pub r_column : Reader (ℕ × List ℕ)
r_column = do id ← r_u32; v ← r_i64_vec; done (id, v)

abbrev pub max_id : List (ℕ × List ℕ) → ℕ → ℕ
max_id [] m = m
max_id ((id, v) ∷ cols) m = max_id cols (max m id)

-- `columns[id] = v` for each column that came.
unfoldable pub place : Block → List (ℕ × List ℕ) → Block
place columns [] = columns
place columns ((id, v) ∷ cols) = place (set columns id v) cols

unfoldable pub block_of : List (ℕ × List ℕ) → Block
block_of cols = place (replicate (max_id cols 0 + 1) []) cols

-- A worker without a column to count the rows of, or without the block, panics: `none`.
abbrev pub stored_block : Option ClusteredTable → ℕ → Reader Block
stored_block none tag s = none
stored_block (some t) tag s = elim (get_elem? t.blocks tag) [ none ↦ none | some b ↦ some (b, s) ]

unfoldable pub r_inline : Reader Block
r_inline = do
  ncols ← r_u32
  cols ← read_items r_column ncols
  check (not (length cols == 0))
  done (block_of cols)

unfoldable pub r_block : Option ClusteredTable → Reader Block
r_block storage = do
  tag ← r_u32
  if tag == inline_marker then r_inline else stored_block storage tag

-- What the worker answers to the message of a morsel.
unfoldable pub answer_morsel : Option ClusteredTable → Clauses → Reader (List ℕ)
answer_morsel storage q = do
  kind ← r_u8
  check (kind == msg_morsel)
  b ← r_block storage
  done (write_partial (exec_morsel b q))

-- What the worker reads first.
unfoldable pub receive_query : Reader Clauses
receive_query = do kind ← r_u8; check (kind == msg_query); read_query

abbrev pub first : {A B : Type 0} → Option (A × List ℕ) → (A → Option B) → Option B
first none f = none
first (some (a, rest)) f = f a

-- Whether a block has the columns. One that it does not have is a panic of the coordinator where it
-- ships it, and of the worker where it reads it.
abbrev pub has_columns : Block → List ℕ → Bool
has_columns b [] = true
has_columns b (c ∷ cs) = ltb c (length b) && has_columns b cs

-- The query, then one morsel and the answer to it, from the coordinator's side. `none` is a panic on
-- either side, or bytes that cannot be read.
unfoldable pub exchange : Option ClusteredTable → Bool → Clauses → Block → ℕ → Option Partial
exchange storage ship_data q b m =
    let answer = first (receive_query (write_query q)) (λ sent.
      first (answer_morsel storage sent (w_morsel ship_data q b m))
        (λ reply. first (read_partial_msg reply) some)) in
    if has_columns b (needed_columns q) then answer else none
