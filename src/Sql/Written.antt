-- ===== src/Sql/Written.antt =====
-- A query on a table, written as a text and parsed by crates/blitz-sql.
use alpheidae.Prelude.{
  ℕ, suc, ◌+◌, ◌-◌, ◌^◌, ◌≡◌, refl, sym, ap, subst, ◌∙◌, Bool, true, false, ◌||◌, Option, none,
  some, List, [], ◌∷◌, length, ltb, ◌==◌, arith, All, All-append, Bool-cases, inl, inr,
}
use alpheidae.Prelude.Bytes.{Str, ascii, str_eq}
use alpheidae.Core.{CmpOp, gt, lt, ge, le, eq}
use alpheidae.Sql.{AggFn, sum, count, min, max, avg, Clauses, query, table, nil}
use alpheidae.Sql.Lex.{trim_start, trim_end, split, tokens}
use alpheidae.Sql.Parse.{ok, parse_inner_query, parse}
use alpheidae.Sql.Numbers.{decimal, decimal_i64, dec-BeginsWithDigit}
use alpheidae.Sql.Print.{
  column_token, op_token, agg_token, where_tokens, group_tokens, order_tokens, limit_tokens,
  clause_tokens, query_tokens, IsPrintable, parse_inner_query-query_tokens,
}
use alpheidae.Sql.Text.{
  is_word_char, all, IsWord, join, all-append, all-dec, Stays-join, word_chars, IsAscii, split-join,
}

IsWord-decimal : (n : ℕ) → IsWord (decimal n)
IsWord-decimal n =
    let b = dec-BeginsWithDigit (n + 1) n [] (omega arith) in
    let chars = all-dec (n + 1) n [] refl in
    subst IsWord (sym b.parts) (subst (λ s. all is_word_char s ≡ true) b.parts chars)

IsWord-column_token : (n : ℕ) → IsWord (column_token n)
IsWord-column_token n = all-dec (n + 1) n [] refl

IsWord-decimal_i64 : (n : ℕ) → IsWord (decimal_i64 n)
IsWord-decimal_i64 n = elim (Bool-cases (ltb n (2 ^ 63))) [
  | inl low ↦ rw low (IsWord-decimal n)
  | inr high ↦ rw high (all-dec (2 ^ 64 - n + 1) (2 ^ 64 - n) [] refl)
]

IsWord-op_token : (op : CmpOp) → IsWord (op_token op)
IsWord-op_token gt = refl
IsWord-op_token lt = refl
IsWord-op_token ge = refl
IsWord-op_token le = refl
IsWord-op_token eq = refl

IsWord-agg_token : (a : AggFn) → IsWord (agg_token a)
IsWord-agg_token sum = refl
IsWord-agg_token count = refl
IsWord-agg_token min = refl
IsWord-agg_token max = refl
IsWord-agg_token avg = refl

where_words : (f : Option (ℕ × CmpOp × ℕ)) → All IsWord (where_tokens f)
where_words none = tt
where_words (some (c, op, lit)) =
    (refl, (IsWord-column_token c, (IsWord-op_token op, (IsWord-decimal_i64 lit, tt))))

group_words : (g : Option ℕ) → All IsWord (group_tokens g)
group_words none = tt
group_words (some c) = (refl, (refl, (IsWord-column_token c, tt)))

order_words : (o : Option (ℕ × Bool)) → All IsWord (order_tokens o)
order_words none = tt
order_words (some (c, true)) = (refl, (refl, (IsWord-column_token c, (refl, tt))))
order_words (some (c, false)) = (refl, (refl, (IsWord-column_token c, (refl, tt))))

limit_words : (l : Option ℕ) → All IsWord (limit_tokens l)
limit_words none = tt
limit_words (some n) = (refl, (IsWord-decimal n, tt))

clause_words : (q : Clauses) → All IsWord (clause_tokens q)
clause_words q = All-append IsWord (where_tokens q.filter) _ (where_words q.filter) (
    All-append IsWord (group_tokens q.group_by) _ (group_words q.group_by) (
      All-append IsWord (order_tokens q.order_by) _ (order_words q.order_by) (limit_words q.limit)))

-- The tokens behind SELECT.
abbrev tail_tokens : Clauses → Str → List Str
tail_tokens q name =
    agg_token q.agg ∷ column_token q.agg_col ∷ ascii "FROM" ∷ name ∷ clause_tokens q

tail_words : (q : Clauses) (name : Str) → IsWord name → All IsWord (tail_tokens q name)
tail_words q name h =
    (IsWord-agg_token q.agg, (IsWord-column_token q.agg_col, (refl, (h, clause_words q))))

all-more :
    (p r : ℕ → Bool) (s : Str)
    → ((c : ℕ) → p c ≡ true → r c ≡ true)
    → all p s ≡ true
    → all r s ≡ true
all-more p r [] h e = refl
all-more p r (c ∷ s) h e = elim (Bool-cases (p c)) [
  | inl good ↦ let rest = all-more p r s h (ground (arith, good, e)) in rw (h c good) rest
  | inr bad ↦ absurd (ground (arith, bad, e))
]

abbrev is_text_char : ℕ → Bool
is_text_char c = is_word_char c || c == 32

word_text : (t : Str) → IsWord t → all is_text_char t ≡ true
word_text t h = all-more is_word_char is_text_char t (λ c e. ground (arith, e)) (word_chars t h)

join_text : (toks : List Str) → All IsWord toks → all is_text_char (join toks) ≡ true
join_text [] h = refl
join_text (t ∷ []) (ht, hs) = word_text t ht
join_text (t ∷ u ∷ toks) (ht, hs) =
    all-append is_text_char t (32 ∷ join (u ∷ toks)) (word_text t ht) (join_text (u ∷ toks) hs)

trim_start_visible : (p : ℕ → Bool) (c : ℕ) (s : Str) → p c ≡ false → trim_start p (c ∷ s) ≡ c ∷ s
trim_start_visible p c s h = rw h refl

no_parenthesis : (name : Str) → IsWord name → str_eq name (ascii "(") ≡ false
no_parenthesis [] h = refl
no_parenthesis (c ∷ name) h = elim (Bool-cases (is_word_char c)) [
  | inl good ↦ ground (arith, good)
  | inr bad ↦ absurd (ground (arith, bad, h))
]

tokens-join :
    (is_whitespace : ℕ → Bool) (to_uppercase : Str → Str) (q : Clauses) (name : Str)
    → IsAscii is_whitespace to_uppercase
    → IsWord name
    → tokens is_whitespace to_uppercase (join (query_tokens q name)) ≡ query_tokens q name
unfolding tokens
tokens-join is_whitespace to_uppercase q name known h =
    let toks = tail_tokens q name in
    let words = tail_words q name h in
    let text = join (query_tokens q name) in
    let started : trim_start is_whitespace text ≡ text =
      trim_start_visible is_whitespace 83 _ (known.visible 83 refl) in
    let ended = Stays-join is_whitespace (ascii "SELECT") toks known.visible refl words in
    let unclosed =
      Stays-join (λ c. c == 59) (ascii "SELECT") toks (λ c e. ground (arith, e)) refl words in
    ap (split is_whitespace to_uppercase []) (
      ap (λ s. to_uppercase (trim_end (λ c. c == 59) (trim_end is_whitespace s))) started
      ∙ ap (λ s. to_uppercase (trim_end (λ c. c == 59) s)) ended
      ∙ ap to_uppercase unclosed
      ∙ known.upper text (join_text (query_tokens q name) (refl, words)))
    ∙ split-join is_whitespace to_uppercase known (ascii "SELECT") toks refl words

-- A query on a table, written as a text in capitals with a space between two words: SELECT, the aggregate
-- and its column, FROM, the table, then WHERE, GROUP BY, ORDER BY and LIMIT as far as the query has
-- them, each number in decimal. The parser returns that query, where its numbers fit 64 bits, the
-- table's name is a word in capitals, and the Unicode tables say of ASCII what they are documented to.
pub parse-join :
    (is_whitespace : ℕ → Bool) (to_uppercase : Str → Str) (q : Clauses) (name : Str)
    → IsAscii is_whitespace to_uppercase
    → IsPrintable q
    → IsWord name
    → parse is_whitespace to_uppercase (join (query_tokens q name)) ≡ ok (query q (table name) nil)
unfolding parse
parse-join is_whitespace to_uppercase q name known printable h =
    ap (λ toks. parse_inner_query (length toks + 1) toks)
      (tokens-join is_whitespace to_uppercase q name known h)
    ∙ ap (λ n. parse_inner_query n (query_tokens q name))
        (let e : length (query_tokens q name) + 1 ≡ suc (length (query_tokens q name)) =
            omega arith in
          e)
    ∙ parse_inner_query-query_tokens (length (query_tokens q name)) q name printable
        (no_parenthesis name h)
