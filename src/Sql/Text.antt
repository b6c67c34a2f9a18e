-- ===== src/Sql/Text.antt =====
-- A query on a table as a text, through the tokens and the parser of crates/blitz-sql.
use alpheidae.Prelude.{
  ℕ, zero, suc, ◌+◌, ◌/◌, ◌%◌, ◌<◌, ◌≡◌, refl, sym, ap, ◌∙◌, Bool, true, false, ◌&&◌, ◌||◌, not,
  List, [], ◌∷◌, ◌++◌, length, length-append, leb, ltb, ◌==◌, if◌then◌else◌, arith, All,
  append_assoc, append-nil, Bool-cases, inl, inr,
}
use alpheidae.Prelude.Bytes.{Str}
use alpheidae.Sql.Lex.{trim_end, is_separator, add_part, split}
use alpheidae.Sql.Numbers.{dec}

-- A printing ASCII character that is no small letter, no parenthesis, no comma and no semicolon.
abbrev pub is_word_char : ℕ → Bool
is_word_char c =
    (leb 33 c && leb c 96 || leb 123 c && leb c 126)
    && not (c == 40 || (c == 41 || (c == 44 || c == 59)))

abbrev pub all : (ℕ → Bool) → Str → Bool
all p [] = true
all p (c ∷ s) = let rest = all p s in if p c then rest else false

abbrev pub is_word : Str → Bool
is_word [] = false
is_word (c ∷ s) = all is_word_char (c ∷ s)

abbrev pub IsWord : Str → Type 0
IsWord t = is_word t ≡ true

-- Tokens with spaces between them.
abbrev pub join : List Str → Str
join [] = []
join (t ∷ []) = t
join (t ∷ u ∷ toks) = t ++ (32 ∷ join (u ∷ toks))

pub all-append :
    (p : ℕ → Bool) (s t : Str) → all p s ≡ true → all p t ≡ true → all p (s ++ t) ≡ true
all-append p [] t hs ht = ht
all-append p (c ∷ s) t hs ht = elim (Bool-cases (p c)) [
  | inl good ↦ rw good (all-append p s t (ground (arith, good, hs)) ht)
  | inr bad ↦ absurd (ground (arith, bad, hs))
]

pub digit :
    (d : ℕ) (s : Str) → d < 10 → all is_word_char s ≡ true → all is_word_char ((48 + d) ∷ s) ≡ true
digit d s h hs = let good : is_word_char (48 + d) ≡ true = ground arith in rw good hs

pub all-dec :
    (f n : ℕ) (behind : Str)
    → all is_word_char behind ≡ true
    → all is_word_char (dec f n behind) ≡ true
unfolding dec
all-dec zero n behind h = h
all-dec (suc f) n behind h = elim (Bool-cases (ltb n 10)) [
  | inl short ↦ rw short (digit n behind (ground (arith, short)) h)
  | inr long ↦
      rw long (all-dec f (n / 10) ((48 + n % 10) ∷ behind) (digit (n % 10) behind (omega arith) h))
]

-- A text that ends with what is not trimmed.
abbrev pub Stays : (ℕ → Bool) → Str → Type 0
Stays p s = trim_end p s ≡ s

Stays-cons : (p : ℕ → Bool) (c : ℕ) (s : Str) → 0 < length s → Stays p s → Stays p (c ∷ s)
Stays-cons p c [] h e = absurd (omega arith)
Stays-cons p c (d ∷ s) h e =
    ap
      (λ (x : Str). elim x as (λ x. Str) [
        | [] ↦ if p c then [] else c ∷ []
        | a ∷ as' ↦ c ∷ a ∷ as'
      ])
      e

Stays-all : (p : ℕ → Bool) (w : Str) → All (λ c. p c ≡ false) w → Stays p w
Stays-all p [] h = refl
Stays-all p (c ∷ []) (hc, hs) = rw hc refl
Stays-all p (c ∷ d ∷ w) (hc, hs) = Stays-cons p c (d ∷ w) (omega arith) (Stays-all p (d ∷ w) hs)

Stays-append : (p : ℕ → Bool) (s t : Str) → 0 < length t → Stays p t → Stays p (s ++ t)
Stays-append p [] t h e = e
Stays-append p (c ∷ s) t h e =
    Stays-cons p c (s ++ t) (omega (arith, length-append s t, h)) (Stays-append p s t h e)

pub length-join :
    (t : Str) (toks : List Str) → IsWord t → All IsWord toks → 0 < length (join (t ∷ toks))
length-join [] toks h hs = absurd (ground arith)
length-join (c ∷ t) [] h hs = omega arith
length-join (c ∷ t) (u ∷ toks) h hs = omega arith

-- What a character that a word may have is not.
All-word :
    (p : ℕ → Bool) (w : Str)
    → ((c : ℕ) → is_word_char c ≡ true → p c ≡ false)
    → all is_word_char w ≡ true
    → All (λ c. p c ≡ false) w
All-word p [] h hw = tt
All-word p (c ∷ w) h hw = elim (Bool-cases (is_word_char c)) [
  | inl good ↦ (h c good, All-word p w h (ground (arith, good, hw)))
  | inr bad ↦ absurd (ground (arith, bad, hw))
]

pub word_chars : (t : Str) → IsWord t → all is_word_char t ≡ true
word_chars [] h = absurd (ground arith)
word_chars (c ∷ t) h = h

pub Stays-join :
    (p : ℕ → Bool) (t : Str) (toks : List Str)
    → ((c : ℕ) → is_word_char c ≡ true → p c ≡ false)
    → IsWord t
    → All IsWord toks
    → Stays p (join (t ∷ toks))
Stays-join p t [] h ht hs = Stays-all p t (All-word p t h (word_chars t ht))
Stays-join p t (u ∷ toks) h ht (hu, hs) =
    let later = length-join u toks hu hs in
    Stays-append p t (32 ∷ join (u ∷ toks)) (omega arith)
      (Stays-cons p 32 (join (u ∷ toks)) later (Stays-join p u toks h hu hs))

-- What is known of the Unicode tables on printing ASCII characters that are no small letters: none is
-- white space, a space is, and the upper case of a text of them and of spaces is that text.
pub record IsAscii (is_whitespace : ℕ → Bool) (to_uppercase : Str → Str) : Type 0 where
  pub space : is_whitespace 32 ≡ true
  pub visible : (c : ℕ) → is_word_char c ≡ true → is_whitespace c ≡ false
  pub upper : (s : Str) → all (λ c. is_word_char c || c == 32) s ≡ true → to_uppercase s ≡ s

module _ (is_whitespace : ℕ → Bool) (to_uppercase : Str → Str)
    (known : IsAscii is_whitespace to_uppercase) where
  no_separator : (c : ℕ) → is_word_char c ≡ true → is_separator is_whitespace to_uppercase c ≡ false
  no_separator c h = ground (arith, known.visible c h)

  split-word :
      (part w rest : Str)
      → All (λ c. is_separator is_whitespace to_uppercase c ≡ false) w
      → split is_whitespace to_uppercase part (w ++ rest)
        ≡ split is_whitespace to_uppercase (part ++ w) rest
  unfolding split
  split-word part [] rest h =
      ap (λ p. split is_whitespace to_uppercase p rest) (sym (append-nil part))
  split-word part (c ∷ w) rest (hc, hs) = rw hc (
      split-word (part ++ (c ∷ [])) w rest hs
      ∙ ap (λ p. split is_whitespace to_uppercase p rest) (append_assoc part (c ∷ []) w))

  split-space :
      (part rest : Str)
      → split is_whitespace to_uppercase part (32 ∷ rest)
        ≡ add_part part (split is_whitespace to_uppercase [] rest)
  unfolding split
  split-space part rest = rw known.space refl

  split-end : (part : Str) → split is_whitespace to_uppercase part [] ≡ add_part part []
  unfolding split
  split-end part = refl

  add_part-word : (t : Str) (toks : List Str) → IsWord t → add_part t toks ≡ t ∷ toks
  add_part-word [] toks h = absurd (ground arith)
  add_part-word (c ∷ t) toks h = refl

  pub split-join :
      (t : Str) (toks : List Str)
      → IsWord t
      → All IsWord toks
      → split is_whitespace to_uppercase [] (join (t ∷ toks)) ≡ t ∷ toks
  split-join t [] ht hs =
      ap (split is_whitespace to_uppercase []) (sym (append-nil t))
      ∙ split-word [] t [] (All-word _ t no_separator (word_chars t ht))
      ∙ split-end t
      ∙ add_part-word t [] ht
  split-join t (u ∷ toks) ht (hu, hs) =
      split-word [] t (32 ∷ join (u ∷ toks)) (All-word _ t no_separator (word_chars t ht))
      ∙ split-space t (join (u ∷ toks))
      ∙ ap (add_part t) (split-join u toks hu hs)
      ∙ add_part-word t (u ∷ toks) ht
