-- ===== src/Tests/Sql.antt =====
-- Runs of crates/blitz-sql, on ASCII texts.
use alpheidae.Prelude.{
  ℕ, ◌-◌, ◌^◌, ◌≡◌, refl, Bool, ◌&&◌, map, none, some, leb, ◌==◌, if◌then◌else◌, false, arith, ◌||◌,
  true, ap₂, Bool-cases, inl, inr, [], ◌∷◌,
}
use alpheidae.Prelude.Bytes.{Str, ascii}
use alpheidae.Core.{gt}
use alpheidae.Sql.{sum, Clauses, Query, query, table, nil}
use alpheidae.Sql.Lex.{split, tokens}
use alpheidae.Sql.Parse.{
  ok, err, expected_paren, digits, parse_usize, parse_i64, col, parens, with_loop,
  parse_with_clause, parse_agg, parse_source, parse_op, clause_loop, parse_inner_query, parse,
}
use alpheidae.Sql.Print.{query_tokens, parse_inner_query-query_tokens}
use alpheidae.Sql.Text.{is_word_char, all, join, IsAscii}
use alpheidae.Sql.Written.{parse-join}
use alpheidae.Sql.Plain.{IsPlain, parse-IsPlain}

abbrev is_whitespace : ℕ → Bool
is_whitespace c = c == 32

abbrev to_uppercase : Str → Str
to_uppercase s = map (λ c. if leb 97 c && leb c 122 then c - 32 else c) s

abbrev text : Str
text = ascii "select sum(c0) from t where c1 > -5 limit 3;"

abbrev parsed : Query
parsed =
    query
      (record {
        agg = sum;
        agg_col = 0;
        filter = some (1, gt, 2 ^ 64 - 5);
        group_by = none;
        order_by = none;
        limit = some 3;
      })
      (table (ascii "T")) nil

parse_test : parse is_whitespace to_uppercase text ≡ ok parsed
unfolding split tokens digits parse_usize parse_i64 col parens with_loop parse_with_clause parse_agg
    parse_source parse_op clause_loop parse_inner_query parse
parse_test = refl

parse-IsPlain_example : IsPlain parsed
parse-IsPlain_example = parse-IsPlain is_whitespace to_uppercase text parsed parse_test

-- The parentheses are gone before the parser looks for them.
with_test :
    parse is_whitespace to_uppercase
      (ascii "WITH x AS (SELECT SUM(c0) FROM t) SELECT SUM(c0) FROM x")
    ≡ err expected_paren
unfolding split tokens digits parse_usize parse_i64 col parens with_loop parse_with_clause parse_agg
    parse_source parse_op clause_loop parse_inner_query parse
with_test = refl

-- A query in parentheses is read as a query on a table named SELECT, whose clauses stop at once.
subquery_test :
    parse is_whitespace to_uppercase
      (ascii "SELECT SUM(c0) FROM (SELECT SUM(c1) FROM t) AS x WHERE c0 > 1")
    ≡ ok (
        query
          (record {
            agg = sum;
            agg_col = 0;
            filter = none;
            group_by = none;
            order_by = none;
            limit = none;
          })
          (table (ascii "SELECT"))
          nil)
unfolding split tokens digits parse_usize parse_i64 col parens with_loop parse_with_clause parse_agg
    parse_source parse_op clause_loop parse_inner_query parse
subquery_test = refl

-- A sum with a filter, an order and a limit.
abbrev printed : Clauses
printed = record {
  agg = sum;
  agg_col = 0;
  filter = some (1, gt, 2 ^ 64 - 5);
  group_by = none;
  order_by = some (2, false);
  limit = some 3;
}

parse_inner_query-query_tokens_test :
    parse_inner_query 1 (query_tokens printed (ascii "T"))
    ≡ ok (query printed (table (ascii "T")) nil)
parse_inner_query-query_tokens_test =
    parse_inner_query-query_tokens 0 printed (ascii "T")
      (record {
        agg_col = omega arith;
        filter = (omega arith, omega arith);
        group_by = tt;
        order_by = omega arith;
        limit = omega arith;
      })
      refl

upper_same : (s : Str) → all (λ c. is_word_char c || c == 32) s ≡ true → to_uppercase s ≡ s
upper_same [] h = refl
upper_same (c ∷ s) h = elim (Bool-cases (is_word_char c || c == 32)) [
  | inl good ↦
      let same : (if leb 97 c && leb c 122 then c - 32 else c) ≡ c = ground (arith, good) in
      ap₂ ◌∷◌ same (upper_same s (ground (arith, good, h)))
  | inr bad ↦ absurd (ground (arith, bad, h))
]

known_tables : IsAscii is_whitespace to_uppercase
known_tables = record { space = refl; visible = λ c h. ground (arith, h); upper = upper_same }

parse-join_example :
    parse is_whitespace to_uppercase (join (query_tokens printed (ascii "T")))
    ≡ ok (query printed (table (ascii "T")) nil)
parse-join_example =
    parse-join is_whitespace to_uppercase printed (ascii "T") known_tables
      (record {
        agg_col = omega arith;
        filter = (omega arith, omega arith);
        group_by = tt;
        order_by = omega arith;
        limit = omega arith;
      })
      refl
