-- ===== src/Tests/Exec.antt =====
-- Runs of crates/blitz-exec.
use alpheidae.Prelude.{◌<◌, ◌≤◌, ◌≡◌, refl, ap, false, none, some, [], ◌∷◌, length, arith}
use alpheidae.Core.{gt}
use alpheidae.Core.Agg.{push_all, push, gather, sum_i64_sel}
use alpheidae.Core.Filter.{filter_i64, filter_loop}
use alpheidae.Core.Groups.{get}
use alpheidae.Core.Group.{group_agg, rows}
use alpheidae.Core.Group.ByKey.{at_key, extend, group_agg-at_key}
use alpheidae.Cluster.{Block, ClusteredTable, from_blocks, build_zones, pruned_morsels}
use alpheidae.Prelude.Bytes.{ascii}
use alpheidae.Sql.{sum, Clauses, Query, query, table, cte, nil, cons}
use alpheidae.Exec.Resolve.{
  resolve_loop, resolve_table_source, find, depth, ok, Ends, resolve_table_source_lem,
}
use alpheidae.Exec.{nothing, exec_morsel}
use alpheidae.Exec.Answers.{Answers}
use alpheidae.Exec.Ramp.{
  local, absent, waiting, serving, Ramp, start, morsel, finish, join, serve, answer, Step, task,
  Reach, here, next,
}
use alpheidae.Exec.Ramp.Whole.{table_values, ramp_lem}
use alpheidae.Exec.Ramp.Stuck.{AllEnded, ramp_can_hang}
use alpheidae.Exec.Ship.{exchange}
use alpheidae.Exec.Ship.Exchange.{exchange_lem}

-- Key 7 has the values 1 and 3, and 5000 the value 2: too large for the flat table.
group_agg-at_key_example :
    get (group_agg (7 ∷ 5000 ∷ 7 ∷ []) (1 ∷ 2 ∷ 3 ∷ []) none) 7
    ≡ extend none (at_key 7 (7 ∷ 5000 ∷ 7 ∷ []) (1 ∷ 2 ∷ 3 ∷ []) (rows (7 ∷ 5000 ∷ 7 ∷ []) none))
group_agg-at_key_example = group_agg-at_key (7 ∷ 5000 ∷ 7 ∷ []) (1 ∷ 2 ∷ 3 ∷ []) none 7

at_key_test : at_key 7 (7 ∷ 5000 ∷ 7 ∷ []) (1 ∷ 2 ∷ 3 ∷ []) (0 ∷ 1 ∷ 2 ∷ []) ≡ 1 ∷ 3 ∷ []
unfolding at_key
at_key_test = refl

abbrev block : Block
block = (5 ∷ 9 ∷ []) ∷ (1 ∷ 2 ∷ []) ∷ []

-- SELECT SUM(c1) FROM t WHERE c0 > 6
abbrev q : Clauses
q = record {
  agg = sum;
  agg_col = 1;
  filter = some (0, gt, 6);
  group_by = none;
  order_by = none;
  limit = none;
}

abbrev t : ClusteredTable
t = from_blocks (block ∷ [])

-- One local thread, and one worker that joins, takes the morsel and answers.
abbrev begun : Ramp
begun = start t q 1 1

abbrev joined : Ramp
joined = record { shared = begun.shared; tasks = local nothing 0 ∷ waiting ∷ [] }

abbrev served : Ramp
served = record {
  shared = record begun.shared { queue = [] };
  tasks = local nothing 0 ∷ serving 0 ∷ [];
}

abbrev answered : Ramp
answered = record {
  shared = finish served.shared (morsel t q 0) 1;
  tasks = local nothing 0 ∷ waiting ∷ [];
}

queue_test : begun.shared.queue ≡ 0 ∷ []
unfolding pruned_morsels from_blocks build_zones alpheidae.Cluster.build
    alpheidae.Cluster.build_loop alpheidae.Cluster.prunes
queue_test = refl

joining : Step t q begun joined
joining = task (local nothing 0 ∷ []) [] absent waiting refl (join refl refl refl refl) refl

serving_it : Step t q joined served
serving_it =
    task (local nothing 0 ∷ []) [] waiting (serving 0) refl (serve [] 0 refl queue_test refl refl)
      refl

answering : Step t q served answered
answering = task (local nothing 0 ∷ []) [] (serving 0) waiting refl (answer 0 refl refl refl) refl

answered_after : Reach t q begun answered
answered_after = next (next (next here joining) serving_it) answering

ramp_can_hang_example :
    (r : Ramp) × Reach t q begun r
    × AllEnded r.tasks
    × (r.shared.morsels_done < r.shared.morsels_total)
    × ¬ ((r' : Ramp) × Step t q r r')
ramp_can_hang_example = ramp_can_hang t q (omega (arith, ap length queue_test))

all_done : answered.shared.morsels_total ≤ answered.shared.morsels_done
all_done = omega (arith, ap length queue_test)

ramp_lem_example : Answers answered.shared.result (table_values (block ∷ []) q)
ramp_lem_example =
    ramp_lem (block ∷ []) q 1 1 answered
      (((omega arith, (omega arith, tt)), ((omega arith, (omega arith, tt)), tt)), tt)
      answered_after all_done

-- The answer of the block is the sum of one value.
exec_test :
    exec_morsel block q
    ≡ record { scalar = record { sum = 2; count = 1; min = 2; max = 2 }; groups = [] }
unfolding exec_morsel filter_i64 filter_loop sum_i64_sel push_all push gather
exec_test = refl

exchange_lem_example : exchange (some t) false q block 0 ≡ some (exec_morsel block q)
unfolding from_blocks exec_morsel filter_i64 filter_loop sum_i64_sel push_all push gather
exchange_lem_example =
    exchange_lem (some t) false q block 0
      (record {
        agg_col = omega arith;
        filter = (omega arith, omega arith);
        group_by = tt;
        order_by = tt;
        limit = tt;
      })
      (refl, omega arith)
      (record {
        scalar = ((omega arith, omega arith, omega arith), omega arith);
        groups = tt;
        distinct = tt;
        size = omega arith;
      })
      refl

-- The third column is not there.
missing_test : exchange (some t) false (record q { agg_col = 2 }) block 0 ≡ none
unfolding exchange
missing_test = refl

-- WITH x AS (SELECT SUM(c1) FROM t WHERE c0 > 6) SELECT SUM(c1) FROM x
abbrev on_cte : Query
on_cte =
    query (record q { filter = none }) (cte (ascii "X"))
      (cons (ascii "X") (query q (table (ascii "T")) nil) nil)

resolve_test : resolve_table_source on_cte ≡ ok (query q (table (ascii "T")) nil)
unfolding resolve_table_source resolve_loop find
resolve_test = refl

resolve_table_source_lem_example :
    Ends (record q { filter = none }) on_cte (resolve_table_source on_cte)
unfolding depth
resolve_table_source_lem_example =
    resolve_table_source_lem (record q { filter = none }) (cte (ascii "X"))
      (cons (ascii "X") (query q (table (ascii "T")) nil) nil) (omega arith)
