-- ===== src/Tests/Format.antt =====
-- Runs of crates/blitz-format and crates/blitz-cluster.
use alpheidae.Prelude.{
  map, ℕ, zero, suc, All, replicate, ◌-◌, ◌^◌, none, some, List, [], ◌∷◌, ◌++◌, ◌≡◌, refl, arith,
}
use alpheidae.Core.{gt}
use alpheidae.Cluster.{
  ClusteredTable, Block, from_blocks, pruned_morsels, prunes, build, build_loop, build_zones,
}
use alpheidae.Cluster.Rebuild.{
  value_at, push_row, rebuild_loop, rebuild, whole_column, rebuild-whole_column,
}
use alpheidae.Cluster.Prune.{scan, scan-pruned_morsels}
use alpheidae.Wire.{le_bytes, from_le_bytes}
use alpheidae.Format.Lz4.{
  compress_prepend_size, compress_loop, put_sequence, put_last, put_rest, match_length, extend,
  read_u32, decompress_size_prepended, ok,
}
use alpheidae.Format.Lz4.Match.{IsByte}
use alpheidae.Format.Lz4.RoundTrip.{decompress-compress}
use alpheidae.Format.Page.{encode_i64_page, decode_i64_page, decode_i64_page-encode}
use alpheidae.Format.{put_varint, get_varint, put_deltas, get_deltas}
use alpheidae.Format.Varint.{get_varint-put_varint}
use alpheidae.Format.Deltas.{get_deltas-put_deltas}

-- Two blocks of one column.
abbrev blocks : List Block
blocks = ((5 ∷ 9 ∷ []) ∷ []) ∷ ((1 ∷ 2 ∷ []) ∷ []) ∷ []

scan-pruned_morsels_example :
    scan (from_blocks blocks) 0 gt 4 (pruned_morsels (from_blocks blocks) (some (0, gt, 4)))
    ≡ scan (from_blocks blocks) 0 gt 4 (pruned_morsels (from_blocks blocks) none)
scan-pruned_morsels_example = scan-pruned_morsels blocks 0 gt 4

-- The second block is skipped.
pruned_test : pruned_morsels (from_blocks blocks) (some (0, gt, 4)) ≡ 0 ∷ []
unfolding pruned_morsels from_blocks build_zones build build_loop prunes
pruned_test = refl

put_varint_test : put_varint 300 ≡ 0xAC ∷ 2 ∷ []
unfolding put_varint
put_varint_test = refl

get_varint-put_varint_test : get_varint (put_varint 300 ++ (9 ∷ [])) ≡ some (300, 9 ∷ [])
get_varint-put_varint_test = get_varint-put_varint 300 (9 ∷ []) (omega arith)

-- 7, -1 and 7.
abbrev page : List ℕ
page = 7 ∷ (2 ^ 64 - 1) ∷ 7 ∷ []

get_deltas-put_deltas_test : get_deltas 3 0 (put_deltas 0 page ++ []) ≡ some page
get_deltas-put_deltas_test =
    get_deltas-put_deltas page [] (omega arith, (omega arith, (omega arith, tt)))

-- Twenty bytes, all the same: one literal, a match of fourteen, and the last literals.
abbrev twenty : List ℕ
twenty = replicate 20 97

All-replicate : (n : ℕ) → All IsByte (replicate n 97)
All-replicate zero = tt
All-replicate (suc n) = (omega arith, All-replicate n)

compress_test :
    compress_prepend_size twenty
    ≡ 20 ∷ 0 ∷ 0 ∷ 0 ∷ 26 ∷ 97 ∷ 1 ∷ 0 ∷ 80 ∷ 97 ∷ 97 ∷ 97 ∷ 97 ∷ 97 ∷ []
unfolding compress_prepend_size compress_loop put_sequence put_last put_rest match_length extend
    read_u32 le_bytes from_le_bytes
compress_test = refl

decompress-compress_example : decompress_size_prepended (compress_prepend_size twenty) ≡ ok twenty
decompress-compress_example = decompress-compress twenty (All-replicate 20) (omega arith)

decode_i64_page-encode_example : decode_i64_page (encode_i64_page page) 3 ≡ some page
decode_i64_page-encode_example =
    decode_i64_page-encode page (omega arith, (omega arith, (omega arith, tt))) (omega arith)

-- The rows of the two blocks in another order, in blocks of three.
abbrev table : ClusteredTable
table = record { blocks = blocks; zones = []; cluster_keys = [] }

abbrev order : List (ℕ × ℕ)
order = (1, 0) ∷ (0, 1) ∷ (1, 1) ∷ (0, 0) ∷ []

rebuild_test :
    (rebuild 3 table order (0 ∷ [])).blocks ≡ ((1 ∷ 9 ∷ 2 ∷ []) ∷ []) ∷ ((5 ∷ []) ∷ []) ∷ []
unfolding rebuild rebuild_loop push_row
rebuild_test = refl

rebuild-whole_column_example :
    (whole_column 0 (rebuild 3 table order (0 ∷ [])).blocks ≡ map (value_at blocks 0) order)
    × ((rebuild 3 table order (0 ∷ [])).zones ≡ build_zones (rebuild 3 table order (0 ∷ [])).blocks)
rebuild-whole_column_example = rebuild-whole_column 3 table order (0 ∷ []) 0 (omega arith)
