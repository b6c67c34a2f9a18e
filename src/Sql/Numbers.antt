-- ===== src/Sql/Numbers.antt =====
-- Numbers in decimal, as crates/blitz-sql reads them.
use alpheidae.Prelude.{
  ℕ, zero, suc, ◌+◌, ◌-◌, ◌*◌, ◌/◌, ◌%◌, ◌^◌, ◌<◌, ◌≤◌, ◌≡◌, refl, sym, ap, ◌∙◌, true, false, ◌&&◌,
  some, [], ◌∷◌, ltb, ◌==◌, if◌then◌else◌, arith, Bool-cases, inl, inr,
}
use alpheidae.Prelude.Bytes.{Str}
use alpheidae.Sql.Parse.{is_digit, digits, parse_digits, negated, parse_usize, parse_i64}

-- The digits of a number in front of `behind`, on fuel.
unfoldable pub dec : ℕ → ℕ → Str → Str
dec zero n behind = behind
dec (suc f) n behind =
    let more = dec f (n / 10) ((48 + n % 10) ∷ behind) in
    if ltb n 10 then (48 + n) ∷ behind else more

abbrev pub decimal : ℕ → Str
decimal n = dec (n + 1) n []

-- The decimal of an i64, which is given by its pattern.
abbrev pub decimal_i64 : ℕ → Str
decimal_i64 n = if ltb n (2 ^ 63) then decimal n else 45 ∷ decimal (2 ^ 64 - n)

digit_step :
    (bound d m : ℕ) (s : Str)
    → d < 10
    → m * 10 + d < bound
    → digits bound ((48 + d) ∷ s) m ≡ digits bound s (m * 10 + d)
unfolding digits
digit_step bound d m s small fits =
    let e : m * 10 + (48 + d - 48) ≡ m * 10 + d = omega arith in
    let good : (is_digit (48 + d) && ltb (m * 10 + (48 + d - 48)) bound) ≡ true = ground arith in
    rw good (ap (digits bound s) e)

digits-dec :
    (f n bound : ℕ) (behind : Str)
    → n < f
    → n < bound
    → digits bound (dec f n behind) 0 ≡ digits bound behind n
unfolding digits dec
digits-dec zero n bound behind h b = absurd (omega arith)
digits-dec (suc f) n bound behind h b = elim (Bool-cases (ltb n 10)) [
  | inl short ↦
      let e : 0 * 10 + n ≡ n = omega arith in
      rw short (
        digit_step bound n 0 behind (ground (arith, short)) (omega arith)
        ∙ ap (digits bound behind) e)
  | inr long ↦
      let e : n / 10 * 10 + n % 10 ≡ n = omega arith in
      rw long (
        digits-dec f (n / 10) bound ((48 + n % 10) ∷ behind) (ground (arith, long)) (omega arith)
        ∙ digit_step bound (n % 10) (n / 10) behind (omega arith) (omega (arith, e))
        ∙ ap (digits bound behind) e)
]

-- A decimal begins with a digit.
pub record BeginsWithDigit (s : Str) : Type 0 where
  pub digit : ℕ
  pub behind : Str
  pub parts : s ≡ digit ∷ behind
  pub at_least : 48 ≤ digit

pub dec-BeginsWithDigit : (f n : ℕ) (behind : Str) → n < f → BeginsWithDigit (dec f n behind)
unfolding dec
dec-BeginsWithDigit zero n behind h = absurd (omega arith)
dec-BeginsWithDigit (suc f) n behind h = elim (Bool-cases (ltb n 10)) [
  | inl short ↦
      rw short (record { digit = 48 + n; behind = behind; parts = refl; at_least = omega arith })
  | inr long ↦
      rw long (dec-BeginsWithDigit f (n / 10) ((48 + n % 10) ∷ behind) (ground (arith, long)))
]

begins_lem : (bound : ℕ) (s : Str) → BeginsWithDigit s → parse_digits bound s ≡ digits bound s 0
begins_lem bound s b = ap (parse_digits bound) b.parts ∙ sym (ap (λ s. digits bound s 0) b.parts)

parse_digits-decimal : (bound n : ℕ) → n < bound → parse_digits bound (decimal n) ≡ some n
unfolding digits
parse_digits-decimal bound n h =
    begins_lem bound (decimal n) (dec-BeginsWithDigit (n + 1) n [] (omega arith))
    ∙ digits-dec (n + 1) n bound [] (omega arith) h

unsigned : (c : ℕ) (s : Str) → 48 ≤ c → parse_usize (c ∷ s) ≡ parse_digits (2 ^ 64) (c ∷ s)
unfolding parse_usize
unsigned c s h = let plus : (c == 43) ≡ false = ground arith in rw plus refl

signed : (c : ℕ) (s : Str) → 48 ≤ c → parse_i64 (c ∷ s) ≡ parse_digits (2 ^ 63) (c ∷ s)
unfolding parse_i64
signed c s h =
    let minus : (c == 45) ≡ false = ground arith in
    let plus : (c == 43) ≡ false = ground arith in rw (minus, plus) refl

pub parse_usize-decimal : (n : ℕ) → n < 2 ^ 64 → parse_usize (decimal n) ≡ some n
parse_usize-decimal n h =
    let b = dec-BeginsWithDigit (n + 1) n [] (omega arith) in
    ap parse_usize b.parts
    ∙ unsigned b.digit b.behind b.at_least
    ∙ sym (ap (parse_digits (2 ^ 64)) b.parts)
    ∙ parse_digits-decimal (2 ^ 64) n h

positive : (n : ℕ) → n < 2 ^ 63 → parse_i64 (decimal n) ≡ some n
positive n h =
    let b = dec-BeginsWithDigit (n + 1) n [] (omega arith) in
    ap parse_i64 b.parts
    ∙ signed b.digit b.behind b.at_least
    ∙ sym (ap (parse_digits (2 ^ 63)) b.parts)
    ∙ parse_digits-decimal (2 ^ 63) n h

negative : (n : ℕ) → 2 ^ 63 ≤ n → n < 2 ^ 64 → parse_i64 (45 ∷ decimal (2 ^ 64 - n)) ≡ some n
unfolding parse_i64
negative n h small =
    ap negated (parse_digits-decimal (2 ^ 63 + 1) (2 ^ 64 - n) (omega arith))
    ∙ ap some (let e : (2 ^ 64 - (2 ^ 64 - n)) % 2 ^ 64 ≡ n = omega arith in e)

pub parse_i64-decimal : (n : ℕ) → n < 2 ^ 64 → parse_i64 (decimal_i64 n) ≡ some n
parse_i64-decimal n h = elim (Bool-cases (ltb n (2 ^ 63))) [
  | inl low ↦ rw low (positive n (ground (arith, low)))
  | inr high ↦ rw high (negative n (ground (arith, high)) h)
]
