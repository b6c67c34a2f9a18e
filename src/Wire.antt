-- ===== src/Wire.antt =====
-- The byte formats of crates/blitz-meta/src/lib.rs and persist.rs: little-endian numbers and strings
-- with a length in front. A stream is the list of its bytes, and a reader returns what it read with
-- the bytes behind it; `none` is an `io::Error`.
pub mod Laws
use alpheidae.Prelude.{
  ℕ, zero, suc, ◌+◌, ◌*◌, ◌/◌, ◌%◌, ◌^◌, Bool, true, false, Option, none, some, List, [], ◌∷◌, ◌++◌,
  leb, length, take, drop,
}
use alpheidae.Prelude.Bytes.{Str}

-- `to_le_bytes` of a number of `k` bytes, and `from_le_bytes`.
unfoldable pub le_bytes : ℕ → ℕ → List ℕ
le_bytes zero v = []
le_bytes (suc k) v = (v % 256) ∷ le_bytes k (v / 256)

unfoldable pub from_le_bytes : List ℕ → ℕ
from_le_bytes [] = 0
from_le_bytes (b ∷ bs) = b + 256 * from_le_bytes bs

abbrev pub Reader : Type 0 → Type 0
Reader A = List ℕ → Option (A × List ℕ)

infixl 5 ◌>>=◌ ◌>>◌
abbrev pub ◌>>=◌ : {A B : Type 0} → Reader A → (A → Reader B) → Reader B
◌>>=◌ m f s = elim (m s) [ none ↦ none | some (a, rest) ↦ f a rest ]

abbrev pub ◌>>◌ : {B : Type 0} → Reader (Unit {0}) → Reader B → Reader B
m >> k = m >>= λ _. k

abbrev pub done : {A : Type 0} → A → Reader A
done a s = some (a, s)

abbrev pub check : Bool → Reader (Unit {0})
check b s = elim b [ true ↦ some (tt, s) | false ↦ none ]

-- `Read::read_exact`.
unfoldable pub read_exact : ℕ → Reader (List ℕ)
read_exact n s = elim (leb n (length s)) [ true ↦ some (take n s, drop n s) | false ↦ none ]

unfoldable pub w_u64 : ℕ → List ℕ
w_u64 v = le_bytes 8 v

unfoldable pub r_u64 : Reader ℕ
r_u64 = do b ← read_exact 8; done (from_le_bytes b)

unfoldable pub r_u32 : Reader ℕ
r_u32 = do b ← read_exact 4; done (from_le_bytes b)

-- The length is cut to a u32.
unfoldable pub w_str : Str → List ℕ
w_str v = le_bytes 4 (length v % 2 ^ 32) ++ v

-- Whether bytes are UTF-8 is for `String::from_utf8` of the standard library to say.
module _ (utf8 : List ℕ → Bool) where
  unfoldable pub r_str : Reader Str
  r_str = do n ← r_u32; v ← read_exact n; check (utf8 v); done v

-- A loop that reads `n` items, and the bytes of a list of items.
unfoldable pub read_items : {A : Type 0} → Reader A → ℕ → Reader (List A)
read_items r zero = done []
read_items r (suc n) = do a ← r; rest ← read_items r n; done (a ∷ rest)

unfoldable pub write_items : {A : Type 0} → (A → List ℕ) → List A → List ℕ
write_items w [] = []
write_items w (a ∷ as') = w a ++ write_items w as'
