-- ===== src/Meta/Raft/Append/Overwrite.antt =====
-- The loop over the entries of an append request against a direct description of its result.
use alpheidae.Prelude.{
  ℕ, zero, suc, ◌+◌, ◌≤◌, true, false, none, some, List, [], ◌∷◌, ◌++◌, ◌==◌, if◌then◌else◌, length,
  get_elem?, take, drop, ◌≡◌, refl, ap, inl, inr, arith, Bool-cases,
}
use alpheidae.Meta.Raft.{LogEntry}
use alpheidae.Prelude.{append_assoc, append-nil, length-append, length-take, take-append-drop}
use alpheidae.Meta.Raft.Append.{place_entry, place_entries, prev_log_ok}

-- Keep what agrees by term; from the first disagreement on, or past the end, the new entries stand.
unfoldable pub overwrite : List LogEntry → List LogEntry → List LogEntry
overwrite suf [] = suf
overwrite [] (e ∷ es) = e ∷ es
overwrite (s ∷ suf) (e ∷ es) = if s.term == e.term then s ∷ overwrite suf es else e ∷ es

pub overwrite-nil : (es : List LogEntry) → overwrite [] es ≡ es
unfolding overwrite
overwrite-nil [] = refl
overwrite-nil (e ∷ es) = refl

module _ {ℓ} {A : Type ℓ} where
  get_elem?-append_mid :
      (pre suf : List A) (s : A) → get_elem? (pre ++ (s ∷ suf)) (length pre) ≡ some s
  get_elem?-append_mid [] suf s = refl
  get_elem?-append_mid (x ∷ pre) suf s = get_elem?-append_mid pre suf s

  get_elem?-length : (pre : List A) → get_elem? pre (length pre) ≡ none
  get_elem?-length [] = refl
  get_elem?-length (x ∷ pre) = get_elem?-length pre

  take_mid : (pre suf : List A) → take (length pre) (pre ++ suf) ≡ pre
  take_mid [] suf = refl
  take_mid (x ∷ pre) suf = ap (◌∷◌ x) (take_mid pre suf)

-- A round at the end of the log, on an entry that agrees, and on one that does not.
place_entry_end :
    (pre : List LogEntry) (e : LogEntry) → place_entry pre (length pre) e ≡ pre ++ (e ∷ [])
unfolding place_entry
place_entry_end pre e = ground (arith, get_elem?-length pre)

place_entry_same :
    (pre suf : List LogEntry) (s e : LogEntry)
    → (s.term == e.term) ≡ true
    → place_entry (pre ++ (s ∷ suf)) (length pre) e ≡ pre ++ (s ∷ suf)
unfolding place_entry
place_entry_same pre suf s e h =
    ground (arith, get_elem?-append_mid pre suf s, length-append pre (s ∷ suf))

place_entry_other :
    (pre suf : List LogEntry) (s e : LogEntry)
    → (s.term == e.term) ≡ false
    → place_entry (pre ++ (s ∷ suf)) (length pre) e ≡ pre ++ (e ∷ [])
unfolding place_entry
place_entry_other pre suf s e h =
    ground (arith, get_elem?-append_mid pre suf s, take_mid pre (s ∷ suf))

-- One round that leaves `pre ++ (s ∷ suf)` goes on behind `s`.
place_entries_next :
    (es pre suf : List LogEntry) (s : LogEntry)
    → place_entries ((pre ++ (s ∷ [])) ++ suf) (length (pre ++ (s ∷ []))) es
      ≡ (pre ++ (s ∷ [])) ++ overwrite suf es
    → place_entries (pre ++ (s ∷ suf)) (length pre + 1) es ≡ pre ++ (s ∷ overwrite suf es)
place_entries_next es pre suf s h = ground (
  arith,
  h,
  length-append pre (s ∷ []),
  append_assoc pre (s ∷ []) suf,
  append_assoc pre (s ∷ []) (overwrite suf es),
)

-- The loop from the end of `pre` on.
place_entries_mid :
    (es pre suf : List LogEntry)
    → place_entries (pre ++ suf) (length pre) es ≡ pre ++ overwrite suf es
unfolding place_entries overwrite
place_entries_mid [] pre suf = refl
place_entries_mid (e ∷ es) pre [] =
    rw (append-nil, place_entry_end)
      (ground (
        arith,
        place_entries_next es pre [] e (place_entries_mid es (pre ++ (e ∷ [])) []),
        overwrite-nil es,
      ))
place_entries_mid (e ∷ es) pre (s ∷ suf) = elim (Bool-cases (s.term == e.term)) [
  | inl h ↦
      rw (place_entry_same pre suf s e h, h)
        (place_entries_next es pre suf s (place_entries_mid es (pre ++ (s ∷ [])) suf))
  | inr h ↦
      rw (place_entry_other pre suf s e h, h)
        (ground (
          arith,
          place_entries_next es pre [] e (place_entries_mid es (pre ++ (e ∷ [])) []),
          overwrite-nil es,
        ))
]

pub prev_log_ok-le :
    (log : List LogEntry) (prev term : ℕ) → prev_log_ok log prev term ≡ true → prev ≤ length log
unfolding prev_log_ok
prev_log_ok-le log zero term h = omega arith
prev_log_ok-le [] (suc i) term h = cc
prev_log_ok-le (x ∷ log) (suc zero) term h = omega arith
prev_log_ok-le (x ∷ log) (suc (suc i)) term h = omega (arith, prev_log_ok-le log (suc i) term h)

-- The loop of `handle_append_entries` keeps the log up to `prev_log_index`, which is inside the
-- log, and overwrites the rest: entries that agree by term stay, and the first that disagrees is
-- replaced together with everything behind it.
pub place_entries-overwrite :
    (log : List LogEntry) (prev : ℕ) (es : List LogEntry)
    → prev ≤ length log
    → place_entries log prev es ≡ take prev log ++ overwrite (drop prev log) es
place_entries-overwrite log prev es h =
    let e : length (take prev log) ≡ prev = omega (arith, length-take prev log) in
    let mid = place_entries_mid es (take prev log) (drop prev log) in
    rw (take-append-drop prev log, e) at mid
