-- ===== src/Meta/Raft/Append/Matching.antt =====
-- Log matching of two logs of raft.rs, and what `place_entries` makes of it.
use alpheidae.Prelude.{
  ℕ, zero, suc, ◌+◌, ◌≤◌, false, some, List, [], ◌∷◌, ◌++◌, ◌==◌, length, get_elem?, take, drop,
  ◌≡◌, refl, sym, ap, ap₂, ◌∙◌, ◌≢◌, ◌⊎◌, inl, inr, arith, Bool-cases,
}
use alpheidae.Meta.Raft.{LogEntry}
use alpheidae.Prelude.{length-take, take-append-drop, take_all}
use alpheidae.Meta.Raft.Append.{place_entries}
use alpheidae.Meta.Raft.Append.Overwrite.{overwrite, place_entries-overwrite}

-- Raft's log matching property for two logs: where the terms agree, so do the logs up to there.
abbrev pub Matching : List LogEntry → List LogEntry → Type 0
Matching f l =
    (i : ℕ) (a b : LogEntry)
    → get_elem? f i ≡ some a
    → get_elem? l i ≡ some b
    → a.term ≡ b.term
    → take (suc i) f ≡ take (suc i) l

head_eq : {s t : LogEntry} {xs ys : List LogEntry} → s ∷ xs ≡ t ∷ ys → s ≡ t
head_eq h = cc

tail_eq : {s t : LogEntry} {xs ys : List LogEntry} → s ∷ xs ≡ t ∷ ys → xs ≡ ys
tail_eq h = cc

Matching-tail : (s t : LogEntry) (f l : List LogEntry) → Matching (s ∷ f) (t ∷ l) → Matching f l
Matching-tail s t f l m i a b ha hb e = tail_eq (m (suc i) a b ha hb e)

Matching-drop : (n : ℕ) (f l : List LogEntry) → Matching f l → Matching (drop n f) (drop n l)
Matching-drop zero f l m = m
Matching-drop (suc n) [] l m = λ i a b ha hb e. cc
Matching-drop (suc n) (s ∷ f) [] m = λ i a b ha hb e. cc
Matching-drop (suc n) (s ∷ f) (t ∷ l) m = Matching-drop n f l (Matching-tail s t f l m)

-- The entries are the next `k` of the leader, and the result begins with them. It is the old log if
-- that began with them too, and ends with them if not.
abbrev Adopts : ℕ → List LogEntry → List LogEntry → List LogEntry → Type 0
Adopts k f l r =
    (take (length (take k l)) r ≡ take k l)
    × ((r ≡ f) ⊎ ((r ≡ take k l) × (take (length (take k l)) f ≢ take k l)))

heads_differ : (s t : LogEntry) → (s.term == t.term) ≡ false → s ≢ t
heads_differ s t h e = ground arith

overwrite-Adopts :
    (k : ℕ) (f l : List LogEntry) → Matching f l → Adopts k f l (overwrite f (take k l))
unfolding overwrite
overwrite-Adopts zero f l m = (refl, inl refl)
overwrite-Adopts (suc k) f [] m = (refl, inl refl)
overwrite-Adopts (suc k) [] (t ∷ l) m =
    (ap (◌∷◌ t) (take_all _ (take k l) (omega arith)), inr (refl, λ e. cc))
overwrite-Adopts (suc k) (s ∷ f) (t ∷ l) m = elim (Bool-cases (s.term == t.term)) [
  | inl h ↦
      let same : s ≡ t = head_eq (m 0 s t refl refl (ground arith)) in
      let (agree, which) = overwrite-Adopts k f l (Matching-tail s t f l m) in
      rw h (
        ap₂ ◌∷◌ same agree,
        elim which [
          | inl e ↦ inl (ap (◌∷◌ s) e)
          | inr (e, differ) ↦ inr (ap₂ ◌∷◌ same e, λ p. differ (tail_eq p))
        ],
      )
  | inr h ↦ rw h (
    ap (◌∷◌ t) (take_all _ (take k l) (omega arith)),
    inr (refl, λ p. heads_differ s t h (head_eq p)),
  )
]

module _ {ℓ} {A : Type ℓ} where
  take-add : (a b : ℕ) (xs : List A) → take (a + b) xs ≡ take a xs ++ take b (drop a xs)
  take-add zero b xs = let e : 0 + b ≡ b = omega arith in rw e
  take-add (suc a) b [] =
      let e : suc a + b ≡ suc (a + b) = omega arith in rw e (sym (take_all b [] (omega arith)))
  take-add (suc a) b (x ∷ xs) =
      let e : suc a + b ≡ suc (a + b) = omega arith in rw e (ap (◌∷◌ x) (take-add a b xs))

  take_past : (p q : List A) (b : ℕ) → take (length p + b) (p ++ q) ≡ p ++ take b q
  take_past [] q b = let e : 0 + b ≡ b = omega arith in rw e
  take_past (x ∷ p) q b =
      let e : suc (length p) + b ≡ suc (length p + b) = omega arith in
      rw e (ap (◌∷◌ x) (take_past p q b))

  take_short : (k : ℕ) (xs : List A) → take (length (take k xs)) xs ≡ take k xs
  take_short zero xs = refl
  take_short (suc k) [] = refl
  take_short (suc k) (x ∷ xs) = ap (◌∷◌ x) (take_short k xs)

rest_agrees {ℓ} : {A : Type ℓ} (p q r : List A) → p ++ q ≡ p ++ r → q ≡ r
rest_agrees [] q r h = h
rest_agrees (x ∷ p) q r h = rest_agrees p q r (cc)

-- The same for the whole logs, once they agree up to `prev`.
abbrev pub Follows : ℕ → List LogEntry → List LogEntry → List LogEntry → Type 0
Follows n f l r = (take n r ≡ take n l) × ((r ≡ f) ⊎ ((r ≡ take n l) × (take n f ≢ take n l)))

pub place_entries-Follows :
    (f l : List LogEntry) (prev k : ℕ)
    → Matching f l
    → prev ≤ length f
    → take prev f ≡ take prev l
    → Follows
        (prev + length (take k (drop prev l)))
        f
        l
        (place_entries f prev (take k (drop prev l)))
place_entries-Follows f l prev k m le agree =
    let es = take k (drop prev l) in
    let new = overwrite (drop prev f) es in
    let (got, which) = overwrite-Adopts k (drop prev f) (drop prev l) (Matching-drop prev f l m) in
    let here : length (take prev l) ≡ prev = omega (arith, length-take prev f, ap length agree) in
    let upto : take (prev + length es) l ≡ take prev l ++ es =
      take-add prev (length es) l ∙ ap (◌++◌ (take prev l)) (take_short k (drop prev l)) in
    let whole : place_entries f prev es ≡ take prev l ++ new =
      place_entries-overwrite f prev es le ∙ ap (λ p. p ++ new) agree in
    (
      ap (take (prev + length es)) whole
          ∙ ap (λ n. take (n + length es) (take prev l ++ new)) (sym here)
          ∙ take_past (take prev l) new (length es)
          ∙ ap (◌++◌ (take prev l)) got
          ∙ sym upto,
      elim which [
        | inl e ↦ inl (
            whole
            ∙ ap (◌++◌ (take prev l)) e
            ∙ ap (λ p. p ++ drop prev f) (sym agree)
            ∙ take-append-drop prev f)
        | inr (e, differ) ↦ inr (
          whole ∙ ap (◌++◌ (take prev l)) e ∙ sym upto,
          λ p. differ (
              rest_agrees (take prev l) _ _ (
                sym (
                  take-add prev (length es) f ∙ ap (λ q. q ++ take (length es) (drop prev f)) agree)
                ∙ p
                ∙ upto)),
        )
      ],
    )
