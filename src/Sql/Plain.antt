-- ===== src/Sql/Plain.antt =====
-- The tokens of crates/blitz-sql have no parentheses, so no query within a query is ever parsed.
use alpheidae.Prelude.{
  ℕ, zero, suc, ◌≡◌, refl, sym, ap, ap₂, subst, ◌∙◌, Bool, true, false, List, [], ◌∷◌, ◌++◌, length,
  drop, if◌then◌else◌, arith, All, All-drop, All-append, Bool-cases, ◌⊎◌, inl, inr,
}
use alpheidae.Prelude.Bytes.{Str, ascii, str_eq}
use alpheidae.Sql.{Clauses, Query, query, TableSource, table, Ctes, nil}
use alpheidae.Sql.Lex.{is_separator, add_part, split, tokens}
use alpheidae.Sql.Parse.{
  Error, Result, ok, err, ◌>>=◌, next_is, peek, expect, ok_or, expected_as, expected_paren,
  with_loop, parse_with_clause, parse_source, parse_agg, col, clause_loop, bare, expected,
  parse_inner_query, parse,
}

-- A step of a chain that ends well ended well.
pub bind_ok :
    {A B : Type 0} (m : Result A) (f : A → Result B) (b : B)
    → (m >>= f) ≡ ok b
    → (a : A) × (m ≡ ok a) × (f a ≡ ok b)
bind_ok (ok a) f b h = (a, refl, h)
bind_ok (err e) f b h = absurd (ground arith)

abbrev NoParen : List Str → Type 0
NoParen = All (λ t. str_eq t (ascii "(") ≡ false)

next_is-NoParen : (toks : List Str) → NoParen toks → next_is toks (ascii "(") ≡ false
next_is-NoParen [] h = refl
next_is-NoParen (t ∷ toks) (h, hs) = h

when_ok :
    {A : Type 0} (c : Bool) (a b : A) (e : Error)
    → (if c then ok a else err e) ≡ ok b
    → (c ≡ true) × (a ≡ b)
when_ok true a b e h = (refl, ground arith)
when_ok false a b e h = absurd (ground arith)

with_loop_fails :
    (sub : List Str → Result Query) (fuel : ℕ) (toks : List Str) (x : Ctes × List Str)
    → NoParen toks
    → with_loop sub fuel toks ≡ ok x
    → ⊥
unfolding with_loop
with_loop_fails sub zero toks x h e = ground arith
with_loop_fails sub (suc fuel) toks x h e =
    let (name, named, e1) = bind_ok (ok_or (peek toks) _) _ x e in
    let (after_as, is_as, e2) = bind_ok _ _ x e1 in
    let (yes_as, at) =
      when_ok (next_is (drop 1 toks) (ascii "AS")) (drop 2 toks) after_as expected_as is_as in
    let (inside, opened, e3) =
      bind_ok (if next_is after_as (ascii "(") then ok (drop 1 after_as) else err expected_paren) _
        x e2 in
    let (paren, at') =
      when_ok (next_is after_as (ascii "(")) (drop 1 after_as) inside expected_paren opened in
    let no_paren = next_is-NoParen after_as (subst NoParen at (All-drop _ 2 toks h)) in
    ground (arith, paren, no_paren)

ok_inj : {A : Type 0} (a b : A) → (ok a) ≡ (ok b) → a ≡ b
ok_inj a b h = ground arith

branches :
    {A : Type 0} (c : Bool) (a b x : A)
    → (if c then a else b) ≡ x
    → ((c ≡ true) × (a ≡ x)) ⊎ ((c ≡ false) × (b ≡ x))
branches true a b x h = inl (refl, h)
branches false a b x h = inr (refl, h)

with_clause_none :
    (sub : List Str → Result Query) (fuel : ℕ) (toks : List Str) (x : Ctes × List Str)
    → NoParen toks
    → parse_with_clause sub fuel toks ≡ ok x
    → (nil, toks) ≡ x
unfolding parse_with_clause
with_clause_none sub fuel toks x h e =
    elim (branches (next_is toks (ascii "WITH")) (with_loop sub fuel (drop 1 toks)) (ok (nil, toks))
      (ok x) e) [
        | inl (with_ctes, w) ↦
            absurd (with_loop_fails sub fuel (drop 1 toks) x (All-drop _ 1 toks h) w)
        | inr (without, w) ↦ ok_inj (nil, toks) x w
      ]

source_table :
    (sub : List Str → Result Query) (toks : List Str) (x : TableSource × List Str)
    → NoParen toks
    → parse_source sub nil toks ≡ ok x
    → (name : Str) × (x.0 ≡ table name)
unfolding parse_source
source_table sub [] x h e = absurd (ground arith)
source_table sub (name ∷ toks) x (hn, hs) e =
    elim (branches (str_eq name (ascii "(")) _ (ok (table name, toks)) (ok x) e) [
      | inl (paren, w) ↦ absurd (ground (arith, hn, paren))
      | inr (plain, w) ↦
          (name, ap (λ (y : TableSource × List Str). y.0) (sym (ok_inj (table name, toks) x w)))
    ]

expect_rest :
    (toks : List Str) (w : Str) (rest : List Str)
    → NoParen toks
    → expect toks w ≡ ok rest
    → NoParen rest
expect_rest toks w rest h e =
    subst NoParen (when_ok (next_is toks w) (drop 1 toks) rest (expected w) e).1
      (All-drop _ 1 toks h)

-- A query on a table, without CTEs.
abbrev pub IsPlain : Query → Type 0
IsPlain q = (c : Clauses) × (name : Str) × (q ≡ query c (table name) nil)

parse_inner_query-IsPlain :
    (fuel : ℕ) (toks : List Str) (q : Query)
    → NoParen toks
    → parse_inner_query fuel toks ≡ ok q
    → IsPlain q
unfolding parse_inner_query
parse_inner_query-IsPlain zero toks q h e = absurd (ground arith)
parse_inner_query-IsPlain (suc fuel) toks q h e =
    let sub = parse_inner_query fuel in
    let (x, with_clause, e1) = bind_ok (parse_with_clause sub (length toks) toks) _ q e in
    let none_with = with_clause_none sub (length toks) toks x h with_clause in
    let no_ctes : x.0 ≡ nil = ap (λ (y : Ctes × List Str). y.0) (sym none_with) in
    let hx : NoParen x.1 = subst (λ (y : Ctes × List Str). NoParen y.1) none_with h in
    let (rest, select, e2) = bind_ok (expect x.1 (ascii "SELECT")) _ q e1 in
    let hr = expect_rest x.1 (ascii "SELECT") rest hx select in
    let (agg, is_agg, e3) = bind_ok (parse_agg rest) _ q e2 in
    let (c, is_col, e4) = bind_ok (col (drop 1 rest)) _ q e3 in
    let (from, is_from, e5) = bind_ok (expect (drop 2 rest) (ascii "FROM")) _ q e4 in
    let hf = expect_rest (drop 2 rest) (ascii "FROM") from (All-drop _ 2 rest hr) is_from in
    let (source, is_source, e6) = bind_ok (parse_source sub x.0 from) _ q e5 in
    let (name, named) =
      source_table sub from source hf
        (subst (λ ctes. parse_source sub ctes from ≡ ok source) no_ctes is_source) in
    let (clauses, is_clauses, e7) =
      bind_ok (clause_loop (length source.1) (bare agg c) source.1) _ q e6 in
    (clauses, name, sym (ok_inj _ q e7) ∙ ap₂ (query clauses) named no_ctes)

module _ (is_whitespace : ℕ → Bool) (to_uppercase : Str → Str) where
  -- The characters of a token are none that separates.
  abbrev IsPart : Str → Type 0
  IsPart = All (λ c. is_separator is_whitespace to_uppercase c ≡ false)

  part_no_paren : (c : ℕ) (part : Str) → IsPart (c ∷ part) → str_eq (c ∷ part) (ascii "(") ≡ false
  part_no_paren c part (hc, hs) = ground arith

  add_part-NoParen :
      (part : Str) (rest : List Str) → IsPart part → NoParen rest → NoParen (add_part part rest)
  add_part-NoParen [] rest h hs = hs
  add_part-NoParen (c ∷ part) rest h hs = (part_no_paren c part h, hs)

  split-NoParen : (part s : Str) → IsPart part → NoParen (split is_whitespace to_uppercase part s)
  unfolding split
  split-NoParen part [] h = add_part-NoParen part [] h tt
  split-NoParen part (c ∷ s) h = elim (Bool-cases (is_separator is_whitespace to_uppercase c)) [
    | inl apart ↦ rw apart (add_part-NoParen part _ h (split-NoParen [] s tt))
    | inr inside ↦
        rw inside (split-NoParen (part ++ (c ∷ [])) s (All-append _ part (c ∷ []) h (inside, tt)))
  ]

  -- Whatever the white space and the upper case of a text are, a text that the parser takes is parsed to
  -- a query on a named table, without CTEs: never to one on a CTE or on a query in parentheses.
  pub parse-IsPlain :
      (sql : Str) (q : Query) → parse is_whitespace to_uppercase sql ≡ ok q → IsPlain q
  unfolding parse tokens
  parse-IsPlain sql q e =
      parse_inner_query-IsPlain _ (tokens is_whitespace to_uppercase sql) q (split-NoParen [] _ tt)
        e
