-- ===== src/Meta/Raft.antt =====
-- crates/blitz-meta/src/raft.rs: one Raft node. An `Instant` is a number of milliseconds, and the
-- time of a call is its argument `now`. Terms and indices are plain numbers: they are never near 2 ^ 64.
pub mod Members
pub mod Vote
pub mod Append
pub mod Apply
pub mod Snapshot
pub mod Events
pub mod Indexed
use Prim.Native.Nat.{bit_xor}
use mathlib.Core.List.{foldl}
use alpheidae.Prelude.{
  ℕ, zero, suc, ◌+◌, ◌-◌, ◌*◌, ◌/◌, ◌%◌, ◌^◌, min, Bool, true, false, ◌&&◌, ◌||◌, not, Option, none,
  some, List, [], ◌∷◌, ◌++◌, ltb, leb, ◌==◌, if◌then◌else◌, length, get_elem?, take, replicate,
  erase_idx, get_last?, any, find,
}
use alpheidae.Prelude.Bytes.{Str, ascii, str_eq, strip_prefix}

pub data RaftState : Type 0 where
  follower candidate leader : RaftState

abbrev pub is_leader : RaftState → Bool
is_leader leader = true
is_leader _ = false

pub record LogEntry : Type 0 where
  pub term : ℕ
  pub index : ℕ
  pub key : Str
  pub val : Str

abbrev pub add_prefix : Str
add_prefix = ascii "__raft/add:"

abbrev pub remove_prefix : Str
remove_prefix = ascii "__raft/remove:"

unfoldable pub is_add_peer : LogEntry → Option Str
is_add_peer e = strip_prefix add_prefix e.key

unfoldable pub is_remove_peer : LogEntry → Option Str
is_remove_peer e = strip_prefix remove_prefix e.key

unfoldable pub add_peer : ℕ → ℕ → Str → LogEntry
add_peer term index addr = record { term = term; index = index; key = add_prefix ++ addr; val = [] }

unfoldable pub remove_peer : ℕ → ℕ → Str → LogEntry
remove_peer term index addr = record {
  term = term;
  index = index;
  key = remove_prefix ++ addr;
  val = [];
}

pub record RequestVote : Type 0 where
  pub term : ℕ
  pub candidate_id : Str
  pub last_log_index : ℕ
  pub last_log_term : ℕ

pub record RequestVoteResponse : Type 0 where
  pub term : ℕ
  pub vote_granted : Bool

pub record AppendEntries : Type 0 where
  pub term : ℕ
  pub leader_id : Str
  pub prev_log_index : ℕ
  pub prev_log_term : ℕ
  pub entries : List LogEntry
  pub leader_commit : ℕ

pub record AppendEntriesResponse : Type 0 where
  pub term : ℕ
  pub success : Bool

pub record RaftNode : Type 0 where
  pub id : Str
  pub peers : List Str
  pub current_term : ℕ
  pub voted_for : Option Str
  pub log : List LogEntry
  pub state : RaftState
  pub commit_index : ℕ
  pub last_applied : ℕ
  pub next_index : List ℕ
  pub match_index : List ℕ
  pub election_timeout : ℕ
  pub heartbeat_timeout : ℕ

-- FNV-1a over the bytes of the id; `wrapping_mul` is the product modulo 2 ^ 64.
abbrev pub fnv_step : ℕ → ℕ → ℕ
fnv_step h b = bit_xor h b * 0x100000001b3 % 2 ^ 64

unfoldable pub jitter_ms : Str → ℕ
jitter_ms id = let h = foldl fnv_step 0xcbf29ce484222325 id in h % 400 + h / 2 ^ 8 % 50

unfoldable pub new : ℕ → Str → List Str → RaftNode
unfolding jitter_ms
new now id peers = record {
  id = id;
  peers = peers;
  current_term = 0;
  voted_for = none;
  log = [];
  state = follower;
  commit_index = 0;
  last_applied = 0;
  next_index = replicate (length peers) 0;
  match_index = replicate (length peers) 0;
  election_timeout = now + (250 + jitter_ms id);
  heartbeat_timeout = now + 50;
}

unfoldable pub cluster_size : RaftNode → ℕ
cluster_size n = length n.peers + 1

unfoldable pub majority : RaftNode → ℕ
unfolding cluster_size
majority n = cluster_size n / 2 + 1

unfoldable pub election_timeout_expired : ℕ → RaftNode → Bool
election_timeout_expired now n = ltb n.election_timeout now

unfoldable pub heartbeat_timeout_expired : ℕ → RaftNode → Bool
heartbeat_timeout_expired now n = ltb n.heartbeat_timeout now

unfoldable pub reset_election_timeout : ℕ → RaftNode → RaftNode
reset_election_timeout now n = record n { election_timeout = now + (250 + jitter_ms n.id) }

unfoldable pub reset_heartbeat_timeout : ℕ → RaftNode → RaftNode
reset_heartbeat_timeout now n = record n { heartbeat_timeout = now + 50 }

unfoldable pub start_election : ℕ → RaftNode → RaftNode
unfolding reset_election_timeout
start_election now n =
    reset_election_timeout now
      (record n { state = candidate; current_term = n.current_term + 1; voted_for = some n.id })

unfoldable pub become_leader : ℕ → RaftNode → RaftNode
unfolding reset_heartbeat_timeout
become_leader now n = reset_heartbeat_timeout now (record n {
  state = leader;
  next_index = replicate (length n.peers) (length n.log + 1);
  match_index = replicate (length n.peers) 0;
})

abbrev pub index_of_last : List LogEntry → ℕ
index_of_last log = elim (get_last? log) [ none ↦ 0 | some e ↦ e.index ]

abbrev pub term_of_last : List LogEntry → ℕ
term_of_last log = elim (get_last? log) [ none ↦ 0 | some e ↦ e.term ]

unfoldable pub last_log_index : RaftNode → ℕ
last_log_index n = index_of_last n.log

unfoldable pub last_log_term : RaftNode → ℕ
last_log_term n = term_of_last n.log

unfoldable pub append_entry : RaftNode → Str → Str → RaftNode × LogEntry
unfolding last_log_index
append_entry n key val =
    let e : LogEntry = record {
      term = n.current_term;
      index = last_log_index n + 1;
      key = key;
      val = val;
    } in
    (record n { log = n.log ++ (e ∷ []) }, e)

-- The opening of both handlers: a later term makes the node a follower that has not voted.
unfoldable pub observe_term : RaftNode → ℕ → RaftNode
observe_term n term =
    if ltb n.current_term term
    then record n { current_term = term; state = follower; voted_for = none }
    else n
