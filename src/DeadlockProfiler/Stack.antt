-- ===== src/DeadlockProfiler/Stack.antt =====
-- `PushLock` and `PopLock` of ServerCore/DeadLockProfiler.cpp: the ids of the locks by name, the lock
-- order, and the stack of locks of each thread. Names and threads are numbers. A `CRASH` is `none`. Both
-- functions hold the profiler's mutex throughout, so each call is one step. The table from ids back to
-- names is only printed and is left out.
use jam_server_prototype.Common.{
  ℕ, Bool, true, false, Option, none, some, List, [], ◌∷◌, ltb, ◌==◌, if◌then◌else◌, length,
}
use jam_server_prototype.Common.Dict.{Dict, lookup, insert}
use jam_server_prototype.DeadlockProfiler.{Search, searched, deadlock, no_fuel, check_cycle}

pub record Profiler : Type 0 where
  pub name_to_id : Dict ℕ
  -- `_lockHistory`: the locks that were taken while a lock was on top
  pub lock_history : ℕ → List ℕ
  -- `LLockStack` of each thread
  pub lock_stack : ℕ → List ℕ

abbrev pub fresh : Profiler
fresh = record { name_to_id = []; lock_history = λ _. []; lock_stack = λ _. [] }

-- `find` and `insert` of a set of ids, in ascending order.
unfoldable pub has_lock : ℕ → List ℕ → Bool
has_lock lock [] = false
has_lock lock (l ∷ locks) = if l == lock then true else has_lock lock locks

unfoldable pub add_lock : ℕ → List ℕ → List ℕ
add_lock lock [] = lock ∷ []
add_lock lock (l ∷ locks) =
    if l == lock
    then l ∷ locks
    else if ltb lock l
    then lock ∷ l ∷ locks
    else l ∷ add_lock lock locks

-- The order with the edge from `held` to `lock`.
abbrev pub with_edge : ℕ → ℕ → (ℕ → List ℕ) → ℕ → List ℕ
with_edge held lock history other =
    if held == other then add_lock lock (history other) else history other

abbrev pub set_stack : ℕ → List ℕ → (ℕ → List ℕ) → ℕ → List ℕ
set_stack thread stack stacks other = if thread == other then stack else stacks other

-- The id of a name, found or made.
unfoldable pub lock_id_of : ℕ → Profiler → ℕ × Profiler
lock_id_of name p = elim (lookup name p.name_to_id) [
  | some lock_id ↦ (lock_id, p)
  | none ↦ (
    length p.name_to_id,
    record p { name_to_id = insert name (length p.name_to_id) p.name_to_id },
  )
]

abbrev pub passed : Search → Profiler → Option Profiler
passed (searched t) p = some p
passed (deadlock a b) p = none
passed no_fuel p = none

-- The part of `PushLock` for a thread with this stack: a new edge is put into the order, which is then
-- searched for a cycle.
unfoldable pub record_order : List ℕ → ℕ → Profiler → Option Profiler
record_order [] lock_id p = some p
record_order (prev_id ∷ stack) lock_id p =
    if lock_id == prev_id
    then some p
    else if has_lock lock_id (p.lock_history prev_id)
    then some p
    else passed (check_cycle (with_edge prev_id lock_id p.lock_history) (length p.name_to_id))
        (record p { lock_history = with_edge prev_id lock_id p.lock_history })

unfoldable pub pushed : ℕ → ℕ → Option Profiler → Option Profiler
pushed thread lock_id none = none
pushed thread lock_id (some q) =
    some (record q { lock_stack = set_stack thread (lock_id ∷ q.lock_stack thread) q.lock_stack })

unfoldable pub push_lock : ℕ → ℕ → Profiler → Option Profiler
unfolding pushed
push_lock thread name p =
    let (lock_id, p') = lock_id_of name p in
    pushed thread lock_id (record_order (p'.lock_stack thread) lock_id p')

-- `_nameToId[name]` puts 0 for a name that is not there.
unfoldable pub subscript : ℕ → Profiler → ℕ × Profiler
subscript name p = elim (lookup name p.name_to_id) [
  | some lock_id ↦ (lock_id, p)
  | none ↦ (0, record p { name_to_id = insert name 0 p.name_to_id })
]

abbrev pub popped : ℕ → ℕ → List ℕ → Profiler → Option Profiler
popped thread lock_id [] p = none
popped thread lock_id (top ∷ stack) p =
    if top == lock_id
    then some (record p { lock_stack = set_stack thread stack p.lock_stack })
    else none

unfoldable pub pop_lock : ℕ → ℕ → Profiler → Option Profiler
unfolding subscript
pop_lock thread name p = elim (p.lock_stack thread) [
  | [] ↦ none
  | top ∷ stack ↦ let (lock_id, p') = subscript name p in popped thread lock_id (top ∷ stack) p'
]

-- Calls of threads, in the order in which they get the mutex.
pub data Call : Type 0 where
  push pop : ℕ → ℕ → Call

unfoldable pub run : List Call → Profiler → Option Profiler
run [] p = some p
run (push thread name ∷ calls) p = elim (push_lock thread name p) [
  | none ↦ none
  | some q ↦ run calls q
]
run (pop thread name ∷ calls) p = elim (pop_lock thread name p) [
  | none ↦ none
  | some q ↦ run calls q
]
