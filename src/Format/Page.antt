-- ===== src/Format/Page.antt =====
-- The i64 pages of crates/blitz-format/src/lib.rs: deltas, compressed.
use alpheidae.Prelude.{
  ℕ, zero, suc, ◌*◌, ◌/◌, ◌^◌, ◌<◌, ◌≤◌, ◌≡◌, sym, ap, ◌∙◌, Option, none, some, List, [], ◌∷◌,
  arith, All, All-append, Bool-cases, inl, inr, length, length-append, append-nil, ◌==◌,
}
use alpheidae.Core.{IsI64}
use alpheidae.Format.{zigzag, put_loop, put_varint, wrapping_sub, put_deltas, get_deltas}
use alpheidae.Format.Deltas.{get_deltas-put_deltas}
use alpheidae.Format.Lz4.{compress_prepend_size, decompress_size_prepended, ok, err, panic}
use alpheidae.Format.Lz4.Match.{IsByte}
use alpheidae.Format.Lz4.RoundTrip.{decompress-compress}

unfoldable pub encode_i64_page : List ℕ → List ℕ
encode_i64_page vals = compress_prepend_size (put_deltas 0 vals)

-- Bytes that do not decompress are a panic.
unfoldable pub decode_i64_page : List ℕ → ℕ → Option (List ℕ)
decode_i64_page comp rows = elim (decompress_size_prepended comp) [
  | ok raw ↦ get_deltas rows 0 raw
  | err e ↦ none
  | panic ↦ none
]

put_loop-IsByte : (fuel v : ℕ) → All IsByte (put_loop fuel v) × (length (put_loop fuel v) ≤ fuel)
unfolding put_loop
put_loop-IsByte zero v = (tt, omega arith)
put_loop-IsByte (suc fuel) v =
    let (bytes, size) = put_loop-IsByte fuel (v / 128) in
    elim (Bool-cases (v / 128 == 0)) [
      | inl last ↦ rw last ((omega arith, tt), omega arith)
      | inr more ↦ rw more ((omega arith, bytes), omega arith)
    ]

put_deltas-IsByte :
    (prev : ℕ) (vals : List ℕ)
    → All IsByte (put_deltas prev vals) × (length (put_deltas prev vals) ≤ 10 * length vals)
unfolding put_deltas put_varint
put_deltas-IsByte prev [] = (tt, omega arith)
put_deltas-IsByte prev (v ∷ vals) =
    let z = zigzag (wrapping_sub v prev) in
    let (bytes, size) = put_deltas-IsByte v vals in
    let (first, ten) = put_loop-IsByte 10 z in
    (
      All-append IsByte (put_loop 10 z) (put_deltas v vals) first bytes,
      omega (arith, length-append (put_loop 10 z) (put_deltas v vals)),
    )

-- A page whose bytes decompress is read as deltas.
decoded :
    (comp raw : List ℕ) (rows : ℕ)
    → decompress_size_prepended comp ≡ ok raw
    → decode_i64_page comp rows ≡ get_deltas rows 0 raw
unfolding decode_i64_page
decoded comp raw rows e = rw (e, decode_i64_page)

-- A page of i64s, fewer than 2 ^ 32 / 10 of them, is read back as the values that were written.
pub decode_i64_page-encode :
    (vals : List ℕ)
    → All IsI64 vals
    → 10 * length vals < 2 ^ 32
    → decode_i64_page (encode_i64_page vals) (length vals) ≡ some vals
unfolding encode_i64_page
decode_i64_page-encode vals h small =
    let raw = put_deltas 0 vals in
    let (bytes, size) = put_deltas-IsByte 0 vals in
    decoded (compress_prepend_size raw) raw (length vals)
      (decompress-compress raw bytes (omega arith))
    ∙ ap (get_deltas (length vals) 0) (sym (append-nil raw))
    ∙ get_deltas-put_deltas vals [] h
