-- ===== src/Core/Groups.antt =====
-- The hash maps from an i64 to an accumulator in crates/blitz-core and crates/blitz-exec: a list of keys
-- and accumulators, in the order in which an iteration meets them.
use alpheidae.Prelude.{ℕ, ◌≡◌, refl, Option, none, some, List, [], ◌∷◌, ◌==◌, if◌then◌else◌, arith}
use alpheidae.Core.Agg.{Acc, default}

abbrev pub Groups : Type 0
Groups = List (ℕ × Acc)

unfoldable pub get : Groups → ℕ → Option Acc
get [] k = none
get ((j, a) ∷ g) k = let rest = get g k in if j == k then some a else rest

-- `entry(k).or_default()` and what is done to it.
unfoldable pub upsert : Groups → ℕ → (Acc → Acc) → Groups
upsert [] k f = (k, f default) ∷ []
upsert ((j, a) ∷ g) k f = let rest = upsert g k f in if j == k then (j, f a) ∷ g else (j, a) ∷ rest

unfoldable pub insert : Groups → ℕ → Acc → Groups
unfolding upsert
insert g k a = upsert g k (λ old. a)

abbrev pub or_default : Option Acc → Acc
or_default none = default
or_default (some a) = a

pub get-upsert :
    (g : Groups) (k j : ℕ) (f : Acc → Acc)
    → get (upsert g k f) j ≡ (if k == j then some (f (or_default (get g k))) else get g j)
unfolding get upsert
get-upsert [] k j f = refl
get-upsert ((i, a) ∷ g) k j f = ground (arith, get-upsert g k j f)
