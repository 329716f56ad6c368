-- ===== src/DeadlockProfiler.antt =====
-- ServerCore/DeadLockProfiler.h and DeadLockProfiler.cpp, `CheckCycle` and `Dfs`: the search for a cycle in
-- the order in which locks were taken, which Stack records. `history here` lists the locks taken while
-- `here` was held. The search recurses on fuel; `no_fuel` is shown not to happen.
pub mod Cycles
pub mod Invariant
pub mod Detection
pub mod Stack
pub mod Edges
pub mod Pushing
pub mod Guarding
pub mod Kept
mod Examples
use jam_server_prototype.Common.{
  ℕ, zero, suc, ◌+◌, Bool, true, false, not, List, [], ◌∷◌, ◌++◌, ltb, ◌==◌, if◌then◌else◌,
}

pub record State : Type 0 where
  -- one more than `_discoveredOrder`, so 0 stands for -1
  pub order : ℕ → ℕ
  pub count : ℕ
  pub finished : ℕ → Bool

pub data Search : Type 0 where
  searched : State → Search
  -- `CRASH("DEADLOCK_DETECTED")`, at the edge between these two
  deadlock : ℕ → ℕ → Search
  no_fuel : Search

abbrev pub order_set : ℕ → ℕ → (ℕ → ℕ) → ℕ → ℕ
order_set here n f other = if here == other then n else f other

abbrev pub finished_set : ℕ → (ℕ → Bool) → ℕ → Bool
finished_set here f other = if here == other then true else f other

abbrev pub mark : ℕ → State → State
mark here s = record s { order = order_set here (s.count + 1) s.order; count = s.count + 1 }

-- The loop over the next locks, with the recursive call as an argument.
unfoldable pub visit : (ℕ → State → Search) → ℕ → List ℕ → State → Search
visit go here [] s = searched s
visit go here (there ∷ rest) s =
    if s.order there == 0
    then elim (go there s) [
      | searched s' ↦ visit go here rest s'
      | deadlock a b ↦ deadlock a b
      | no_fuel ↦ no_fuel
    ]
    else if ltb (s.order here) (s.order there)
    then visit go here rest s
    else if s.finished there
    then visit go here rest s
    else deadlock here there

unfoldable pub finish : ℕ → Search → Search
finish here (searched s) = searched (record s { finished = finished_set here s.finished })
finish here (deadlock a b) = deadlock a b
finish here no_fuel = no_fuel

unfoldable pub dfs : (ℕ → List ℕ) → ℕ → ℕ → State → Search
dfs history zero here s = no_fuel
dfs history (suc fuel) here s =
    if not (s.order here == 0)
    then searched s
    else finish here (visit (dfs history fuel) here (history here) (mark here s))

-- The loop over the lock ids from `lock_id` on, for as many as there are left.
unfoldable pub dfs_from : (ℕ → List ℕ) → ℕ → ℕ → ℕ → State → Search
dfs_from history fuel zero lock_id s = searched s
dfs_from history fuel (suc left) lock_id s = elim (dfs history fuel lock_id s) [
  | searched s' ↦ dfs_from history fuel left (suc lock_id) s'
  | deadlock a b ↦ deadlock a b
  | no_fuel ↦ no_fuel
]

abbrev pub start : State
start = record { order = λ _. 0; count = 0; finished = λ _. false }

-- For locks 0 up to `lock_count`.
unfoldable pub check_cycle : (ℕ → List ℕ) → ℕ → Search
check_cycle history lock_count = dfs_from history (suc lock_count) lock_count 0 start
