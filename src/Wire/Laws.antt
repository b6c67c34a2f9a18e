-- ===== src/Wire/Laws.antt =====
-- The readers of the byte formats of crates/blitz-meta beside their writers.
use alpheidae.Prelude.{
  ℕ, zero, suc, ◌/◌, ◌%◌, ◌^◌, ◌<◌, ◌≡◌, refl, ap, ◌∙◌, Bool, true, some, List, [], ◌∷◌, ◌++◌,
  length, arith, take-append, drop-append, length-append, append_assoc, All,
}
use alpheidae.Prelude.Bytes.{Str}
use alpheidae.Wire.{
  le_bytes, from_le_bytes, Reader, ◌>>=◌, ◌>>◌, done, check, read_exact, w_u64, r_u64, r_u32, w_str,
  r_str, read_items, write_items,
}

pub from_le_bytes-le_bytes : (k v : ℕ) → v < 256 ^ k → from_le_bytes (le_bytes k v) ≡ v
unfolding le_bytes from_le_bytes
from_le_bytes-le_bytes zero v h = omega arith
from_le_bytes-le_bytes (suc k) v h = omega (arith, from_le_bytes-le_bytes k (v / 256) (omega arith))

pub length-le_bytes : (k v : ℕ) → length (le_bytes k v) ≡ k
unfolding le_bytes
length-le_bytes zero v = refl
length-le_bytes (suc k) v = ap suc (length-le_bytes k (v / 256))

pub read_exact-append :
    (n : ℕ) (s rest : List ℕ) → length s ≡ n → read_exact n (s ++ rest) ≡ some (s, rest)
unfolding read_exact
read_exact-append n s rest h =
    rw (← h) (ground (arith, length-append s rest, take-append s rest, drop-append s rest))

-- The reader takes exactly these bytes, whatever follows them, and returns `a`.
pub record Reads {A : Type 0} (r : Reader A) (w : List ℕ) (a : A) : Type 0 where
  pub reads : (rest : List ℕ) → r (w ++ rest) ≡ some (a, rest)

pub Reads-done : {A : Type 0} (a : A) → Reads (done a) [] a
Reads-done a = record { reads = λ rest. refl }

pub >>=-eq_some :
    {A B : Type 0} (m : Reader A) (f : A → Reader B) (s : List ℕ) {a : A} {t : List ℕ}
    → m s ≡ some (a, t)
    → (m >>= f) s ≡ f a t
>>=-eq_some m f s h = rw (h, ◌>>=◌)

pub Reads-bind :
    {A B : Type 0} (m : Reader A) (f : A → Reader B) (w v : List ℕ) (a : A) (b : B)
    → Reads m w a
    → Reads (f a) v b
    → Reads (m >>= f) (w ++ v) b
Reads-bind m f w v a b hm hf = record {
  reads = λ rest.
      ap (m >>= f) (append_assoc w v rest)
      ∙ >>=-eq_some m f _ (hm.reads (v ++ rest))
      ∙ hf.reads rest;
}

-- The last step of a reader, which only builds its result.
pub Reads-map :
    {A B : Type 0} (m : Reader A) (g : A → B) (w : List ℕ) (a : A)
    → Reads m w a
    → Reads (m >>= λ x. done (g x)) w (g a)
Reads-map m g w a hm = record { reads = λ rest. >>=-eq_some m _ _ (hm.reads rest) }

pub Reads-check :
    {B : Type 0} (c : Bool) (k : Reader B) (w : List ℕ) (b : B)
    → c ≡ true
    → Reads k w b
    → Reads (check c >> k) w b
Reads-check c k w b h hk = record { reads = λ rest. rw h (hk.reads rest) }

pub Reads-exact : (n : ℕ) (s : List ℕ) → length s ≡ n → Reads (read_exact n) s s
Reads-exact n s h = record { reads = λ rest. read_exact-append n s rest h }

pub Reads-u64 : (v : ℕ) → v < 2 ^ 64 → Reads r_u64 (w_u64 v) v
unfolding r_u64 w_u64
Reads-u64 v h = record {
  reads = λ rest.
      >>=-eq_some (read_exact 8) _ _ (read_exact-append 8 (le_bytes 8 v) rest (length-le_bytes 8 v))
      ∙ ap (λ n. some (n, rest)) (from_le_bytes-le_bytes 8 v (omega arith));
}

pub Reads-u32 : (v : ℕ) → v < 2 ^ 32 → Reads r_u32 (le_bytes 4 v) v
unfolding r_u32
Reads-u32 v h = record {
  reads = λ rest.
      >>=-eq_some (read_exact 4) _ _ (read_exact-append 4 (le_bytes 4 v) rest (length-le_bytes 4 v))
      ∙ ap (λ n. some (n, rest)) (from_le_bytes-le_bytes 4 v (omega arith));
}

-- A string that a length of 32 bits can count, and that is UTF-8.
abbrev pub IsStr : (List ℕ → Bool) → Str → Type 0
IsStr utf8 s = (length s < 2 ^ 32) × (utf8 s ≡ true)

pub Reads-str : (utf8 : List ℕ → Bool) (s : Str) → IsStr utf8 s → Reads (r_str utf8) (w_str s) s
unfolding r_str w_str
Reads-str utf8 s (short, ok) =
    let e : length s % 2 ^ 32 ≡ length s = omega arith in
    rw e
      (Reads-bind r_u32 _ (le_bytes 4 (length s)) s (length s) s (Reads-u32 (length s) short) tail)
  where
    tail : Reads (do v ← read_exact (length s); check (utf8 v); done v) s s
    tail = record {
      reads = λ rest.
          >>=-eq_some (read_exact (length s)) _ _ (read_exact-append (length s) s rest refl)
          ∙ rw ok;
    }

pub Reads-items :
    {A : Type 0} (r : Reader A) (w : A → List ℕ) (P : A → Type 0)
    → ((a : A) → P a → Reads r (w a) a)
    → (as' : List A) → All P as'
    → Reads (read_items r (length as')) (write_items w as') as'
unfolding read_items write_items
Reads-items r w P h [] hs = Reads-done []
Reads-items r w P h (a ∷ as') (ha, hs) =
    Reads-bind r _ (w a) (write_items w as') a (a ∷ as') (h a ha) (
      Reads-map (read_items r (length as')) (◌∷◌ a) (write_items w as') as'
        (Reads-items r w P h as' hs))
