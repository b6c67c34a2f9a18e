-- ===== src/Meta/Raft/Indexed.antt =====
-- Logs whose entry at position i has index i + 1, which is how `append_entry` of raft.rs numbers them.
use alpheidae.Prelude.{
  ℕ, zero, suc, ◌+◌, ◌≤◌, List, [], ◌∷◌, ◌++◌, length, take, drop, ◌≡◌, refl, arith,
}
use alpheidae.Prelude.Bytes.{Str}
use alpheidae.Meta.Raft.{LogEntry, RaftNode, index_of_last, append_entry}

-- The entries carry the indices i + 1, i + 2, … .
abbrev pub IsIndexed : ℕ → List LogEntry → Type 0
IsIndexed i [] = Unit
IsIndexed i (e ∷ es) = (e.index ≡ i + 1) × IsIndexed (i + 1) es

pub IsIndexed-append :
    (i : ℕ) (xs ys : List LogEntry)
    → IsIndexed i xs
    → IsIndexed (i + length xs) ys
    → IsIndexed i (xs ++ ys)
IsIndexed-append i [] ys hx hy = rw (let e : i + 0 ≡ i = omega arith in e) at hy
IsIndexed-append i (x ∷ xs) ys (h, hx) hy =
    let e : i + suc (length xs) ≡ i + 1 + length xs = omega arith in
    (h, IsIndexed-append (i + 1) xs ys hx (rw e at hy))

pub IsIndexed-take : (n i : ℕ) (xs : List LogEntry) → IsIndexed i xs → IsIndexed i (take n xs)
IsIndexed-take zero i xs h = tt
IsIndexed-take (suc n) i [] h = tt
IsIndexed-take (suc n) i (x ∷ xs) (h, hs) = (h, IsIndexed-take n (i + 1) xs hs)

pub IsIndexed-drop :
    (n i : ℕ) (xs : List LogEntry) → n ≤ length xs → IsIndexed i xs → IsIndexed (i + n) (drop n xs)
IsIndexed-drop zero i xs le h = let e : i + 0 ≡ i = omega arith in rw e h
IsIndexed-drop (suc n) i [] le h = tt
IsIndexed-drop (suc n) i (x ∷ xs) le (h, hs) =
    let e : i + suc n ≡ i + 1 + n = omega arith in
    rw e (IsIndexed-drop n (i + 1) xs (omega arith) hs)

-- The last entry's index is the length.
index_of_last-from :
    (i : ℕ) (e : LogEntry) (es : List LogEntry)
    → IsIndexed i (e ∷ es)
    → index_of_last (e ∷ es) ≡ i + length (e ∷ es)
index_of_last-from i e [] (h, hs) = omega (arith, h)
index_of_last-from i e (f ∷ es) (h, hs) = omega (arith, index_of_last-from (i + 1) f es hs)

pub index_of_last-length : (log : List LogEntry) → IsIndexed 0 log → index_of_last log ≡ length log
index_of_last-length [] h = refl
index_of_last-length (e ∷ es) h = omega (arith, index_of_last-from 0 e es h)

-- What stands at a position of an indexed list.
pub index_at :
    (i : ℕ) (xs : List LogEntry) (e : LogEntry) (rest : List LogEntry)
    → IsIndexed i xs
    → xs ≡ e ∷ rest
    → e.index ≡ i + 1
index_at i [] e rest h p = cc
index_at i (x ∷ xs) e rest (h, hs) p = ground arith

-- `append_entry` numbers its entry after the last one.
pub append_entry-IsIndexed :
    (n : RaftNode) (key val : Str) → IsIndexed 0 n.log → IsIndexed 0 (append_entry n key val).0.log
unfolding append_entry
append_entry-IsIndexed n key val h =
    IsIndexed-append 0 n.log _ h (omega (arith, index_of_last-length n.log h), tt)
