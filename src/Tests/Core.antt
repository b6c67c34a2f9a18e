-- ===== src/Tests/Core.antt =====
-- Runs of the kernels of crates/blitz-core.
use alpheidae.Prelude.{ℕ, ◌^◌, ◌-◌, List, [], ◌∷◌, ◌≡◌, refl, arith}
use alpheidae.Core.{gt, lt, compares}
use alpheidae.Core.Filter.{filter_i64, filter_loop, hits, filter_i64-hits}
use alpheidae.Core.Agg.{default, push_all, merge, sum_i64, merge-push_all}
use alpheidae.Core.Lanes.{sum_i64-push_all}
use alpheidae.Core.Shuffle.{
  i64, decimal, ok, err, truncated_data, unknown_column_type, to_bytes, from_bytes, w_values,
  r_values,
}
use alpheidae.Core.Shuffle.RoundTrip.{from_bytes-to_bytes}
use alpheidae.Wire.{le_bytes, from_le_bytes, write_items}
use alpheidae.Prelude.{take, ◌++◌}

-- 5, -1, 9 and 7.
abbrev column : List ℕ
column = 5 ∷ (2 ^ 64 - 1) ∷ 9 ∷ 7 ∷ []

filter_i64-hits_test : filter_i64 column gt 5 ≡ hits (λ v. compares gt v 5) column 0
filter_i64-hits_test = filter_i64-hits column gt 5

filter_i64_test : filter_i64 column lt 6 ≡ 0 ∷ 1 ∷ []
unfolding filter_i64 filter_loop
filter_i64_test = refl

merge-push_all_example :
    merge (push_all default (5 ∷ 3 ∷ [])) (push_all default (9 ∷ []))
    ≡ push_all default (5 ∷ 3 ∷ 9 ∷ [])
merge-push_all_example = merge-push_all (5 ∷ 3 ∷ []) (9 ∷ []) (omega arith, (omega arith, tt))

sum_i64-push_all_example : sum_i64 column ≡ push_all default column
sum_i64-push_all_example = sum_i64-push_all column

from_bytes-to_bytes_example :
    from_bytes (to_bytes (decimal (5 ∷ 7 ∷ []) 2) ++ (9 ∷ [])) ≡ ok (decimal (5 ∷ 7 ∷ []) 2)
from_bytes-to_bytes_example =
    from_bytes-to_bytes (decimal (5 ∷ 7 ∷ []) 2) (9 ∷ [])
      (omega arith, (omega arith, (omega arith, tt)))

-- A buffer that is cut, and one of an unknown type.
cut_test : from_bytes (take 15 (to_bytes (i64 column))) ≡ err truncated_data
unfolding from_bytes to_bytes w_values r_values le_bytes from_le_bytes write_items
cut_test = refl

unknown_test : from_bytes (9 ∷ []) ≡ err unknown_column_type
unfolding from_bytes
unknown_test = refl
