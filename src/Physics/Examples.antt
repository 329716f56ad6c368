-- ===== src/Physics/Examples.antt =====
-- Two workers and three rooms.
use jam_server_prototype.Common.{
  ℕ, ◌<◌, ◌≡◌, refl, true, some, List, [], ◌∷◌, ◌==◌, if◌then◌else◌, length, arith,
}
use jam_server_prototype.Common.Dict.{Dict, lookup, insert}
use jam_server_prototype.Common.Sets.{contains}
use jam_server_prototype.Physics.{
  Physics, init, init_workers, add_physics_queue, run_jobs, try_execute, execute_rooms, unassigned,
  worker_execute, manager_execute,
}
use jam_server_prototype.Physics.Assignment.{
  IsValid, or_queue, init-IsValid, add_physics_queue-IsValid,
}
use jam_server_prototype.Physics.Running.{Fair, queue_at, manager_execute-Fair}
use jam_server_prototype.Physics.Idle.{worker_idle}

two_workers : 0 < length (init 2).workers
unfolding init_workers
two_workers = omega arith

add_physics_queue-IsValid_example :
    (p' : Physics) × (add_physics_queue 7 (70 ∷ 71 ∷ []) (init 2) ≡ some p')
    × IsValid p'
    × ((other : ℕ)
        → lookup other p'.queues ≡ (
            if 7 == other
            then some (or_queue (70 ∷ 71 ∷ []) (lookup 7 (init 2).queues))
            else lookup other (init 2).queues))
add_physics_queue-IsValid_example =
    add_physics_queue-IsValid 7 (70 ∷ 71 ∷ []) (init 2) two_workers (init-IsValid 2)

abbrev three : Dict (List ℕ)
three = (1, 10 ∷ 11 ∷ []) ∷ (2, 20 ∷ []) ∷ (3, []) ∷ []

-- Room 1 is the worker's own: its jobs come first, and the other rooms' when it is empty.
three_run :
    (manager_execute 20 (1 ∷ []) (1 ∷ 2 ∷ 3 ∷ []) three 19).ran ≡ (1, 10) ∷ (1, 11) ∷ (2, 20) ∷ []
unfolding manager_execute worker_execute execute_rooms try_execute run_jobs unassigned contains
    lookup insert
three_run = refl

manager_execute-Fair_example :
    Fair three 19 (manager_execute 20 (1 ∷ []) (1 ∷ 2 ∷ 3 ∷ []) three 19)
    × ((manager_execute 20 (1 ∷ []) (1 ∷ 2 ∷ 3 ∷ []) three 19).ticks ≡ 0)
manager_execute-Fair_example =
    manager_execute-Fair 20 (1 ∷ []) (1 ∷ 2 ∷ 3 ∷ []) three 19 (omega arith)

abbrev empty_queues : Dict (List ℕ)
empty_queues = (1, []) ∷ (2, []) ∷ []

two_known : contains 2 (1 ∷ 2 ∷ []) ≡ true
unfolding contains
two_known = refl

time_left : 0 < (worker_execute (1 ∷ []) (1 ∷ 2 ∷ []) empty_queues 9).ticks
unfolding worker_execute execute_rooms try_execute run_jobs unassigned contains lookup insert
time_left = omega arith

nothing_run : (worker_execute (1 ∷ []) (1 ∷ 2 ∷ []) empty_queues 9).ran ≡ []
unfolding worker_execute execute_rooms try_execute run_jobs unassigned contains lookup insert
nothing_run = refl

worker_idle_example : queue_at 2 empty_queues ≡ []
worker_idle_example =
    worker_idle (1 ∷ []) (1 ∷ 2 ∷ []) empty_queues 9 2 two_known time_left nothing_run
