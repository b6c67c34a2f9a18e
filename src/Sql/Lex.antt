-- ===== src/Sql/Lex.antt =====
-- The tokens of crates/blitz-sql/src/lib.rs. A text is the list of its characters' numbers. What is white
-- space and what the upper case of a text is are for the standard library's Unicode tables to say.
use alpheidae.Prelude.{ℕ, Bool, ◌||◌, List, [], ◌∷◌, ◌++◌, ◌==◌, if◌then◌else◌}
use alpheidae.Prelude.Bytes.{Str}

abbrev pub trim_start : (ℕ → Bool) → Str → Str
trim_start p [] = []
trim_start p (c ∷ s) = let rest = trim_start p s in if p c then rest else c ∷ s

-- The end of a text without the characters that `p` holds of.
abbrev pub trim_end : (ℕ → Bool) → Str → Str
trim_end p [] = []
trim_end p (c ∷ s) = elim (trim_end p s) [ [] ↦ if p c then [] else c ∷ [] | d ∷ ds ↦ c ∷ d ∷ ds ]

-- A part is a token unless it is empty.
abbrev pub add_part : Str → List Str → List Str
add_part [] rest = rest
add_part (c ∷ part) rest = (c ∷ part) ∷ rest

module _ (is_whitespace : ℕ → Bool) (to_uppercase : Str → Str) where
  -- White space, `(`, `)` and `,`.
  abbrev pub is_separator : ℕ → Bool
  is_separator c = is_whitespace c || (c == 40 || (c == 41 || c == 44))

  -- The parts between separators, the first of them begun with `part`, and no empty ones.
  unfoldable pub split : Str → Str → List Str
  split part [] = add_part part []
  split part (c ∷ s) =
      let on = split (part ++ (c ∷ [])) s in
      let next = split [] s in if is_separator c then add_part part next else on

  unfoldable pub tokens : Str → List Str
  unfolding split
  tokens sql = split [] (
      to_uppercase
        (trim_end (λ c. c == 59) (trim_end is_whitespace (trim_start is_whitespace sql))))
