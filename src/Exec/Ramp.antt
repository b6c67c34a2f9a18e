-- ===== src/Exec/Ramp.antt =====
-- crates/blitz-exec/src/lib.rs: a query on a coordinator's threads and on workers that join while it runs.
-- A step is what one thread does between two accesses to the shared state; a thread that finishes adds its
-- partial result and then its count, and nothing reads the one without the other. What a worker answers is
-- what `exec_morsel` gives it.
pub mod Kept
pub mod Result
pub mod Whole
pub mod Stuck
use alpheidae.Prelude.{
  ℕ, zero, suc, ◌+◌, ◌≤◌, ◌≡◌, Bool, true, false, Option, none, some, List, [], ◌∷◌, ◌++◌, length,
  get_or, replicate, All,
}
use alpheidae.Cluster.{ClusteredTable, pruned_morsels}
use alpheidae.Sql.{Clauses}
use alpheidae.Exec.{Partial, nothing, merge, exec_morsel}

pub record Shared : Type 0 where
  pub queue : List ℕ
  pub result : Partial
  pub done_local : Bool
  pub morsels_total : ℕ
  pub morsels_done : ℕ

-- A local thread with its partial result and its count; a worker that has not joined; a connection that
-- waits for the worker to ask, or for its answer to a morsel; a thread that has ended.
pub data Task : Type 0 where
  local : Partial → ℕ → Task
  absent waiting ended : Task
  serving : ℕ → Task

pub record Ramp : Type 0 where
  pub shared : Shared
  pub tasks : List Task

abbrev pub start : ClusteredTable → Clauses → ℕ → ℕ → Ramp
start t q local_threads expected_workers =
    let morsels = pruned_morsels t q.filter in
    record {
      shared = record {
        queue = morsels;
        result = nothing;
        done_local = false;
        morsels_total = length morsels;
        morsels_done = 0;
      };
      tasks = replicate local_threads (local nothing 0) ++ replicate expected_workers absent;
    }

abbrev pub morsel : ClusteredTable → Clauses → ℕ → Partial
morsel t q m = exec_morsel (get_or t.blocks m []) q

-- `Shared::finish`.
abbrev pub finish : Shared → Partial → ℕ → Shared
finish s p n = record s { result = merge s.result p; morsels_done = s.morsels_done + n }

-- The local threads have ended.
abbrev pub IsJoined : List Task → Type 0
IsJoined [] = Unit
IsJoined (local p n ∷ tasks) = ⊥
IsJoined (absent ∷ tasks) = IsJoined tasks
IsJoined (waiting ∷ tasks) = IsJoined tasks
IsJoined (ended ∷ tasks) = IsJoined tasks
IsJoined (serving m ∷ tasks) = IsJoined tasks

module _ (t : ClusteredTable) (q : Clauses) where
  -- A step of one thread, from `a` to `a'`.
  pub data TaskStep (s : Shared) (a : Task) (s' : Shared) (a' : Task) : Type 0 where
    local_pop :
        (p : Partial) (n : ℕ) (rest : List ℕ) (m : ℕ)
        → a ≡ local p n
        → s.queue ≡ rest ++ (m ∷ [])
        → s' ≡ record s { queue = rest }
        → a' ≡ local (merge p (morsel t q m)) (n + 1)
        → TaskStep s a s' a'
    local_finish :
        (p : Partial) (n : ℕ)
        → a ≡ local p n
        → s.queue ≡ []
        → s' ≡ finish s p n
        → a' ≡ ended
        → TaskStep s a s' a'
    join : a ≡ absent → s.done_local ≡ false → s' ≡ s → a' ≡ waiting → TaskStep s a s' a'
    serve :
        (rest : List ℕ) (m : ℕ)
        → a ≡ waiting
        → s.queue ≡ rest ++ (m ∷ [])
        → s' ≡ record s { queue = rest }
        → a' ≡ serving m
        → TaskStep s a s' a'
    answer :
        (m : ℕ) → a ≡ serving m → s' ≡ finish s (morsel t q m) 1 → a' ≡ waiting → TaskStep s a s' a'
    die_serving :
        (m : ℕ)
        → a ≡ serving m
        → s' ≡ record s { queue = s.queue ++ (m ∷ []) }
        → a' ≡ ended
        → TaskStep s a s' a'
    -- A send that fails is a panic of the connection's thread, and the morsel is lost.
    panic_serving : (m : ℕ) → a ≡ serving m → s' ≡ s → a' ≡ ended → TaskStep s a s' a'
    die_waiting : a ≡ waiting → s' ≡ s → a' ≡ ended → TaskStep s a s' a'
    leave : a ≡ waiting → s.queue ≡ [] → s' ≡ s → a' ≡ ended → TaskStep s a s' a'

  -- A step of one of the threads, or of the coordinator's own thread.
  pub data Step (r r' : Ramp) : Type 0 where
    task :
        (before after : List Task) (a a' : Task)
        → r.tasks ≡ before ++ (a ∷ after)
        → TaskStep r.shared a r'.shared a'
        → r'.tasks ≡ before ++ (a' ∷ after)
        → Step r r'
    complete :
        IsJoined r.tasks
        → r.shared.morsels_total ≤ r.shared.morsels_done
        → r'.shared ≡ record r.shared { done_local = true }
        → r'.tasks ≡ r.tasks
        → Step r r'

  pub data Reach (from : Ramp) : Ramp → Type 0 where
    here : Reach from from
    next : {r r' : Ramp} → Reach from r → Step r r' → Reach from r'
