-- ===== src/Meta/State.antt =====
-- crates/blitz-meta/src/lib.rs: the state of a catalog node. A `HashMap` is the list of its entries, one
-- for each key.
use alpheidae.Prelude.{ℕ, Bool, true, false, Option, none, some, List, [], ◌∷◌}
use alpheidae.Prelude.Bytes.{Str, str_eq}
use alpheidae.Meta.Raft.{RaftNode}

pub record LogEntry : Type 0 where
  pub epoch : ℕ
  pub index : ℕ
  pub key : Str
  pub val : Str

abbrev pub Map : Type 0
Map = List (Str × Str)

-- `HashMap::get` and `HashMap::insert`.
unfoldable pub get : Str → Map → Option Str
get k [] = none
get k ((j, v) ∷ m) = elim (str_eq j k) [ true ↦ some v | false ↦ get k m ]

unfoldable pub insert : Str → Str → Map → Map
insert k v [] = (k, v) ∷ []
insert k v ((j, w) ∷ m) =
    let rest = insert k v m in elim (str_eq j k) [ true ↦ (j, v) ∷ m | false ↦ (j, w) ∷ rest ]

pub record NodeState : Type 0 where
  pub epoch : ℕ
  pub is_leader : Bool
  pub map : Map
  pub log : List LogEntry
  pub alive : Bool
  pub awaiting_snapshot : Bool

-- A node: its address, and what its two mutexes guard.
pub record MetaNode : Type 0 where
  pub addr : Str
  pub state : NodeState
  pub raft : RaftNode
