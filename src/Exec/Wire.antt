-- ===== src/Exec/Wire.antt =====
-- The messages of crates/blitz-exec/src/lib.rs between a coordinator and its workers. The table and the
-- CTEs of a query are not sent: a worker gets a query on the table named "".
pub mod RoundTrip
use alpheidae.Prelude.{
  ℕ, zero, suc, ◌+◌, ◌*◌, ◌/◌, ◌%◌, ◌^◌, Bool, true, false, Option, none, some, List, [], ◌∷◌, ◌++◌,
  ◌==◌, if◌then◌else◌, length, replicate, not,
}
use alpheidae.Wire.{
  le_bytes, Reader, ◌>>=◌, ◌>>◌, done, check, r_u64, r_u32, w_u64, read_items, write_items,
}
use alpheidae.Core.{CmpOp}
use alpheidae.Core
use alpheidae.Core.Agg.{Acc}
use alpheidae.Core.Groups.{Groups, insert}
use alpheidae.Sql.{Clauses}
use alpheidae.Sql
use alpheidae.Exec.{Partial}

abbrev pub msg_query : ℕ
msg_query = 1

abbrev pub msg_morsel : ℕ
msg_morsel = 2

abbrev pub msg_partial : ℕ
msg_partial = 5

unfoldable pub r_u8 : Reader ℕ
r_u8 [] = none
r_u8 (b ∷ bs) = some (b, bs)

-- `c as u32`.
unfoldable pub w_u32 : ℕ → List ℕ
w_u32 v = le_bytes 4 (v % 2 ^ 32)

abbrev pub flag : Bool → ℕ
flag b = if b then 1 else 0

unfoldable pub w_filter : Option (ℕ × CmpOp × ℕ) → List ℕ
w_filter none = replicate 14 0
w_filter (some (c, op, lit)) = 1 ∷ Core.to_u8 op ∷ (w_u32 c ++ w_u64 lit)

-- The column of `GROUP BY`, and the number of `LIMIT`.
unfoldable pub w_number : Option ℕ → List ℕ
w_number none = replicate 5 0
w_number (some n) = 1 ∷ w_u32 n

unfoldable pub w_order : Option (ℕ × Bool) → List ℕ
w_order none = replicate 6 0
w_order (some (c, asc)) = 1 ∷ flag asc ∷ w_u32 c

unfoldable pub write_query : Clauses → List ℕ
write_query q =
    msg_query
    ∷ Sql.to_u8 q.agg
    ∷ (w_u32 q.agg_col
        ++ (w_filter q.filter ++ (w_number q.group_by ++ (w_order q.order_by ++ w_number q.limit))))

unfoldable pub r_filter : Reader (Option (ℕ × CmpOp × ℕ))
r_filter = do
  hf ← r_u8
  op ← r_u8
  fc ← r_u32
  lit ← r_u64
  done (if hf == 1 then some (fc, Core.from_u8 op, lit) else none)

unfoldable pub r_number : Reader (Option ℕ)
r_number = do has ← r_u8; n ← r_u32; done (if has == 1 then some n else none)

unfoldable pub r_order : Reader (Option (ℕ × Bool))
r_order = do
  ho ← r_u8
  oasc ← r_u8
  oc ← r_u32
  done (if ho == 1 then some (oc, not (oasc == 0)) else none)

-- What follows the byte of the message's kind.
unfoldable pub read_query : Reader Clauses
read_query = do
  agg ← r_u8
  agg_col ← r_u32
  filter ← r_filter
  group_by ← r_number
  order_by ← r_order
  limit ← r_number
  done (record {
    agg = Sql.from_u8 agg;
    agg_col = agg_col;
    filter = filter;
    group_by = group_by;
    order_by = order_by;
    limit = limit;
  })

unfoldable pub w_acc : Acc → List ℕ
w_acc a = w_u64 a.sum ++ (w_u64 a.count ++ (w_u64 a.min ++ w_u64 a.max))

unfoldable pub w_entry : ℕ × Acc → List ℕ
w_entry (k, a) = w_u64 k ++ w_acc a

unfoldable pub write_partial : Partial → List ℕ
write_partial p =
    msg_partial ∷ (w_acc p.scalar ++ (w_u64 (length p.groups) ++ write_items w_entry p.groups))

unfoldable pub r_acc : Reader Acc
r_acc = do
  sum ← r_u64
  count ← r_u64
  min ← r_u64
  max ← r_u64
  done (record { sum = sum; count = count; min = min; max = max })

unfoldable pub r_entry : Reader (ℕ × Acc)
r_entry = do k ← r_u64; a ← r_acc; done (k, a)

-- The entries are inserted as they are read.
unfoldable pub insert_all : Groups → List (ℕ × Acc) → Groups
insert_all g [] = g
insert_all g ((k, a) ∷ entries) = insert_all (insert g k a) entries

unfoldable pub read_partial : Reader Partial
read_partial = do
  scalar ← r_acc
  n ← r_u64
  entries ← read_items r_entry n
  done (record { scalar = scalar; groups = insert_all [] entries })

unfoldable pub read_partial_msg : Reader Partial
read_partial_msg = do kind ← r_u8; check (kind == msg_partial); read_partial
