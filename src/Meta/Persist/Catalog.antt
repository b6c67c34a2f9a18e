-- ===== src/Meta/Persist/Catalog.antt =====
-- The catalog file of crates/blitz-meta/src/persist.rs, written and read.
use alpheidae.Prelude.{
  ℕ, ◌^◌, ◌<◌, ◌≡◌, refl, sym, ap, ◌∙◌, Bool, false, none, some, List, [], ◌∷◌, ◌++◌, length, All,
  arith, append-nil, append_assoc, Bool-cases, inl, inr,
}
use alpheidae.Prelude.Bytes.{Str, str_eq, str_eq_refl, eq_of_str_eq}
use alpheidae.Wire.{le_bytes, read_exact, w_u64, r_u64, w_str, r_str, read_items, write_items}
use alpheidae.Wire.Laws.{
  Reads, Reads-bind, Reads-map, Reads-check, Reads-exact, Reads-u64, Reads-str, Reads-items, IsStr,
  length-le_bytes,
}
use alpheidae.Meta.Raft.{new}
use alpheidae.Meta.State.{LogEntry, Map, NodeState, insert}
use alpheidae.Meta.Persist.{
  magic, version, w_pair, w_catalog_entry, save_catalog, r_pair, r_catalog_entry, insert_all,
  parse_catalog, load_catalog, loaded,
}
use alpheidae.Meta.State.{get}

-- No key stands twice, as in a `HashMap`.
abbrev pub IsMap : Map → Type 0
IsMap [] = Unit
IsMap ((k, v) ∷ m) = (get k m ≡ none) × IsMap m

-- A key that is not there is added at the end.
insert_new : (k v : Str) (m : Map) → get k m ≡ none → insert k v m ≡ m ++ ((k, v) ∷ [])
unfolding get insert
insert_new k v [] h = refl
insert_new k v ((j, w) ∷ m) h = ground (arith, insert_new k v m)

get-append_none :
    (k : Str) (m : Map) (j v : Str)
    → get k m ≡ none
    → str_eq j k ≡ false
    → get k (m ++ ((j, v) ∷ [])) ≡ none
unfolding get
get-append_none k [] j v h e = ground arith
get-append_none k ((i, w) ∷ m) j v h e = ground (arith, get-append_none k m j v)

-- The keys of `new` are not in `old`.
abbrev pub Apart : Map → Map → Type 0
Apart old [] = Unit
Apart old ((k, v) ∷ new) = (get k old ≡ none) × Apart old new

key_apart : (j k v : Str) (m : Map) → get k ((j, v) ∷ m) ≡ none → str_eq j k ≡ false
unfolding get
key_apart j k v m h = ground arith

str_eq_comm : (s t : Str) → str_eq s t ≡ false → str_eq t s ≡ false
str_eq_comm s t h = elim (Bool-cases (str_eq t s)) [
  | inl e ↦ ground (arith, eq_of_str_eq t s e, str_eq_refl s)
  | inr e ↦ e
]

not_in_tail : (j k v : Str) (m : Map) → get k ((j, v) ∷ m) ≡ none → get k m ≡ none
unfolding get
not_in_tail j k v m h = ground arith

Apart-snoc :
    (old : Map) (k v : Str) (new : Map)
    → Apart old new
    → get k new ≡ none
    → Apart (old ++ ((k, v) ∷ [])) new
Apart-snoc old k v [] h e = tt
Apart-snoc old k v ((j, w) ∷ new) (hj, hs) e =
    let ne = key_apart j k w new e in
    (
      get-append_none j old k v hj (str_eq_comm j k ne),
      Apart-snoc old k v new hs (not_in_tail j k w new e),
    )

-- Inserting the pairs of a map one after another builds the same list.
pub insert_all_lem : (old new : Map) → IsMap new → Apart old new → insert_all old new ≡ old ++ new
unfolding insert_all
insert_all_lem old [] h a = sym (append-nil old)
insert_all_lem old ((k, v) ∷ new) (hk, hs) (a, as') =
    ap (λ m. insert_all m new) (insert_new k v old a)
    ∙ insert_all_lem (old ++ ((k, v) ∷ [])) new hs (Apart-snoc old k v new as' hk)
    ∙ append_assoc old ((k, v) ∷ []) new

pub Apart-nil : (new : Map) → Apart [] new
unfolding get
Apart-nil [] = tt
Apart-nil ((k, v) ∷ new) = (refl, Apart-nil new)

module _ (utf8 : List ℕ → Bool) where
  abbrev pub IsPair : Str × Str → Type 0
  IsPair p = IsStr utf8 p.0 × IsStr utf8 p.1

  abbrev pub IsCatalogEntry : LogEntry → Type 0
  IsCatalogEntry e = (e.epoch < 2 ^ 64) × (e.index < 2 ^ 64) × IsStr utf8 e.key × IsStr utf8 e.val

  pub record FitsCatalog (st : NodeState) : Type 0 where
    pub epoch : st.epoch < 2 ^ 64
    pub few_keys : length st.map < 2 ^ 64
    pub pairs : All IsPair st.map
    pub short_log : length st.log < 2 ^ 64
    pub entries : All IsCatalogEntry st.log

  pub Reads-pair : (p : Str × Str) → IsPair p → Reads (r_pair utf8) (w_pair p) p
  unfolding r_pair w_pair
  Reads-pair (k, v) (hk, hv) =
      Reads-bind (r_str utf8) _ (w_str k) _ k (k, v) (Reads-str utf8 k hk)
        (Reads-map (r_str utf8) (λ x. (k, x)) (w_str v) v (Reads-str utf8 v hv))

  Reads-catalog_entry :
      (e : LogEntry) → IsCatalogEntry e → Reads (r_catalog_entry utf8) (w_catalog_entry e) e
  unfolding r_catalog_entry w_catalog_entry
  Reads-catalog_entry e (ht, hi, hk, hv) =
      Reads-bind r_u64 _ (w_u64 e.epoch) _ e.epoch e (Reads-u64 e.epoch ht) (
        Reads-bind r_u64 _ (w_u64 e.index) _ e.index e (Reads-u64 e.index hi) (
          Reads-bind (r_str utf8) _ (w_str e.key) _ e.key e (Reads-str utf8 e.key hk)
            (Reads-map (r_str utf8) _ (w_str e.val) e.val (Reads-str utf8 e.val hv))))

  Reads-catalog :
      (st : NodeState)
      → FitsCatalog st
      → Reads (parse_catalog utf8) (save_catalog st) (st.epoch, insert_all [] st.map, st.log)
  unfolding parse_catalog save_catalog
  Reads-catalog st h =
      let r : ℕ × Map × List LogEntry = (st.epoch, insert_all [] st.map, st.log) in
      Reads-bind (read_exact 4) _ magic _ magic r (Reads-exact 4 magic refl) (
        Reads-check (str_eq magic magic) _ _ r refl (
          Reads-bind (read_exact 4) _ (le_bytes 4 version) _ (le_bytes 4 version) r
            (Reads-exact 4 _ (length-le_bytes 4 version))
            (Reads-bind r_u64 _ (w_u64 st.epoch) _ st.epoch r (Reads-u64 st.epoch h.epoch) (
              Reads-bind r_u64 _ (w_u64 (length st.map)) _ (length st.map) r
                (Reads-u64 _ h.few_keys)
                (Reads-bind (read_items (r_pair utf8) (length st.map)) _ (write_items w_pair st.map)
                  _ st.map r (Reads-items (r_pair utf8) w_pair IsPair Reads-pair st.map h.pairs)
                  (Reads-bind r_u64 _ (w_u64 (length st.log)) _ (length st.log) r
                    (Reads-u64 _ h.short_log)
                    (Reads-map (read_items (r_catalog_entry utf8) (length st.log)) _
                      (write_items w_catalog_entry st.log) st.log
                      (Reads-items (r_catalog_entry utf8) w_catalog_entry IsCatalogEntry
                        Reads-catalog_entry st.log h.entries))))))))

  -- A catalog that was saved comes back with its epoch, its map and its log, provided that they fit
  -- their fields and no key stands twice in the map.
  pub load_catalog-save_catalog :
      (st : NodeState)
      → FitsCatalog st
      → IsMap st.map
      → load_catalog utf8 (some (save_catalog st)) ≡ some (some (st.epoch, st.map, st.log))
  unfolding load_catalog
  load_catalog-save_catalog st h m =
      ap (λ f. load_catalog utf8 (some f)) (sym (append-nil (save_catalog st)))
      ∙ ap loaded ((Reads-catalog st h).reads [])
      ∙ ap (λ (g : Map). some (some (st.epoch, g, st.log)))
          (insert_all_lem [] st.map m (Apart-nil st.map))
