-- ===== src/Core/Filter.antt =====
-- The branch-free filter of crates/blitz-core/src/lib.rs writes every row's number to the next free place
-- and moves on only at a hit.
use alpheidae.Prelude.{
  ℕ, zero, ◌+◌, ◌≤◌, ◌≡◌, refl, sym, ap, ◌∙◌, Bool, List, [], ◌∷◌, ◌++◌, if◌then◌else◌, length, set,
  take, replicate, length-replicate, length-append, arith, append_assoc, append-nil,
}
use alpheidae.Core.{CmpOp, compares}

-- The loop: `i` is the row, `k` the next free place. `as u32` is the identity below 2 ^ 32 rows.
unfoldable pub filter_loop : (ℕ → Bool) → List ℕ → ℕ → ℕ → List ℕ → ℕ × List ℕ
filter_loop cmp [] i k out = (k, out)
filter_loop cmp (v ∷ data_) i k out =
    filter_loop cmp data_ (i + 1) (k + (if cmp v then 1 else 0)) (set out k i)

unfoldable pub filter_i64 : List ℕ → CmpOp → ℕ → List ℕ
unfolding filter_loop
filter_i64 data_ op lit =
    let (k, out) = filter_loop (λ v. compares op v lit) data_ 0 0 (replicate (length data_) 0) in
    take k out

-- The numbers of the rows that pass, from row `i` on.
unfoldable pub hits : (ℕ → Bool) → List ℕ → ℕ → List ℕ
hits cmp [] i = []
hits cmp (v ∷ data_) i = let rest = hits cmp data_ (i + 1) in if cmp v then i ∷ rest else rest

set_mid :
    (done : List ℕ) (x : ℕ) (free : List ℕ) (v : ℕ)
    → set (done ++ (x ∷ free)) (length done) v ≡ done ++ (v ∷ free)
set_mid [] x free v = refl
set_mid (d ∷ done) x free v = ap (◌∷◌ d) (set_mid done x free v)

take_done : (done free : List ℕ) → take (length done) (done ++ free) ≡ done
take_done [] free = refl
take_done (d ∷ done) free = ap (◌∷◌ d) (take_done done free)

-- With room for every row that is left, the loop puts the hits behind what is done.
filter_loop_lem :
    (cmp : ℕ → Bool) (data_ : List ℕ) (i k : ℕ) (done free : List ℕ)
    → k ≡ length done
    → length data_ ≤ length free
    → take (filter_loop cmp data_ i k (done ++ free)).0 (filter_loop cmp data_ i k (done ++ free)).1
      ≡ done ++ hits cmp data_ i
unfolding filter_loop hits
filter_loop_lem cmp [] i k done free e h =
    ap (λ n. take n (done ++ free)) e ∙ take_done done free ∙ sym (append-nil done)
filter_loop_lem cmp (v ∷ data_) i k done [] e h = absurd (omega arith)
filter_loop_lem cmp (v ∷ data_) i k done (x ∷ free) e h =
    let placed : set (done ++ (x ∷ free)) k i ≡ done ++ (i ∷ free) =
      ap (λ n. set (done ++ (x ∷ free)) n i) e ∙ set_mid done x free i in
    let joined = append_assoc done (i ∷ []) free in
    let joined' = append_assoc done (i ∷ []) (hits cmp data_ (i + 1)) in
    let len = length-append done (i ∷ []) in
    ground (
      arith,
      placed,
      joined,
      joined',
      filter_loop_lem cmp data_ (i + 1) (k + 1) (done ++ (i ∷ [])) free (omega (arith, e, len))
          (omega arith),
      filter_loop_lem cmp data_ (i + 1) (k + 0) done (i ∷ free) (omega (arith, e)) (omega arith),
    )

-- `filter_i64` returns the numbers of exactly the rows whose value passes the comparison, in order.
pub filter_i64-hits :
    (data_ : List ℕ) (op : CmpOp) (lit : ℕ)
    → filter_i64 data_ op lit ≡ hits (λ v. compares op v lit) data_ 0
unfolding filter_i64
filter_i64-hits data_ op lit =
    filter_loop_lem (λ v. compares op v lit) data_ 0 0 [] (replicate (length data_) 0) refl
      (omega (arith, length-replicate (length data_) zero))
