-- ===== src/Stream/Epoch/Threads.antt =====
-- Where the worker threads of an epoch of crates/blitz-stream stand: lemmas on their list.
use alpheidae.Prelude.{
  ℕ, ◌+◌, ◌≡◌, refl, ap, zero, suc, replicate, List, [], ◌∷◌, ◌++◌, length, arith,
}
use alpheidae.Stream.Plan.{WorkUnit}
use alpheidae.Stream.Epoch.{Thread, idle, working, ended, AllEnded}

-- The units that the threads have taken and not yet recorded.
abbrev pub running : List Thread → List WorkUnit
running [] = []
running (working u ∷ ts) = u ∷ running ts
running (idle ∷ ts) = running ts
running (ended ∷ ts) = running ts

abbrev pub count_ended : List Thread → ℕ
count_ended [] = 0
count_ended (ended ∷ ts) = 1 + count_ended ts
count_ended (idle ∷ ts) = count_ended ts
count_ended (working u ∷ ts) = count_ended ts

pub running-append : (ts us : List Thread) → running (ts ++ us) ≡ running ts ++ running us
running-append [] us = refl
running-append (idle ∷ ts) us = running-append ts us
running-append (working w ∷ ts) us = ap (◌∷◌ w) (running-append ts us)
running-append (ended ∷ ts) us = running-append ts us

pub count_ended-append :
    (ts us : List Thread) → count_ended (ts ++ us) ≡ count_ended ts + count_ended us
count_ended-append [] us = omega arith
count_ended-append (idle ∷ ts) us = count_ended-append ts us
count_ended-append (working w ∷ ts) us = count_ended-append ts us
count_ended-append (ended ∷ ts) us = omega (arith, count_ended-append ts us)

pub running-replicate : (n : ℕ) → running (replicate n idle) ≡ []
running-replicate zero = refl
running-replicate (suc n) = running-replicate n

pub count_ended-replicate : (n : ℕ) → count_ended (replicate n idle) ≡ 0
count_ended-replicate zero = refl
count_ended-replicate (suc n) = count_ended-replicate n

pub AllEnded-running : (ts : List Thread) → AllEnded ts → running ts ≡ []
AllEnded-running [] h = refl
AllEnded-running (ended ∷ ts) h = AllEnded-running ts h
AllEnded-running (idle ∷ ts) h = absurd h
AllEnded-running (working u ∷ ts) h = absurd h

pub AllEnded-count : (ts : List Thread) → AllEnded ts → count_ended ts ≡ length ts
AllEnded-count [] h = refl
AllEnded-count (ended ∷ ts) h = omega (arith, AllEnded-count ts h)
AllEnded-count (idle ∷ ts) h = absurd h
AllEnded-count (working u ∷ ts) h = absurd h
