-- ===== src/Physics.antt =====
-- GameServer/PhysicsManager.h and PhysicsManager.cpp: the job queues of the rooms' physics, their
-- assignment to workers, and how a worker runs them. Jobs are numbers. Time is a number of ticks: how many
-- more readings of the clock find it before `LEndTime`, which it has reached for good after them. A worker
-- runs alone here, and its jobs push no further jobs.
pub mod Assignment
pub mod Running
pub mod Idle
mod Examples
use jam_server_prototype.Common.{
  ℕ, zero, suc, ◌+◌, ◌-◌, ◌%◌, Bool, true, false, not, Option, none, some, List, [], ◌∷◌, ◌++◌, ltb,
  ◌==◌, if◌then◌else◌, length, get_or,
}
use jam_server_prototype.Common.Dict.{Dict, lookup, insert, insert_new, erase}
use jam_server_prototype.Common.Sets.{contains, set_insert, set_erase}

pub record Physics : Type 0 where
  -- `_assignedRoomIds` of each worker
  pub workers : List (List ℕ)
  pub all_room_ids : List ℕ
  -- `_physicsQueues`, by room id
  pub queues : Dict (List ℕ)

-- `Init`, the part about the workers.
unfoldable pub init_workers : ℕ → List (List ℕ)
init_workers zero = []
init_workers (suc n) = [] ∷ init_workers n

abbrev pub init : ℕ → Physics
init num_workers = record { workers = init_workers num_workers; all_room_ids = []; queues = [] }

-- `static_cast<int32>(roomId) % _workers.size()`: the id as an int32, then as a 64-bit unsigned number.
unfoldable pub worker_index : ℕ → ℕ → ℕ
worker_index room_id count =
    if ltb room_id 2147483648
    then room_id % count
    else (room_id + 18446744073709551616 - 4294967296) % count

-- Changes the assignment of one worker.
unfoldable pub at_worker : ℕ → (List ℕ → List ℕ) → List (List ℕ) → List (List ℕ)
at_worker i f [] = []
at_worker zero f (w ∷ workers) = f w ∷ workers
at_worker (suc i) f (w ∷ workers) = w ∷ at_worker i f workers

-- `AssignRoom` and `UnassignRoom`
abbrev pub assign_room : ℕ → List ℕ → List ℕ
assign_room = set_insert

abbrev pub unassign_room : ℕ → List ℕ → List ℕ
unassign_room = set_erase

-- Without workers the remainder is a division by zero, `none`.
unfoldable pub add_physics_queue : ℕ → List ℕ → Physics → Option Physics
add_physics_queue room_id queue p = elim (lookup room_id p.queues) [
  | some there ↦ some p
  | none ↦
      if length p.workers == 0
      then none
      else some (record {
        queues = insert_new room_id queue p.queues;
        all_room_ids = set_insert room_id p.all_room_ids;
        workers =
            at_worker (worker_index room_id (length p.workers)) (assign_room room_id) p.workers;
      })
]

unfoldable pub remove_physics_queue : ℕ → Physics → Option Physics
remove_physics_queue room_id p =
    if length p.workers == 0
    then none
    else some (record {
      workers =
          at_worker (worker_index room_id (length p.workers)) (unassign_room room_id) p.workers;
      all_room_ids = set_erase room_id p.all_room_ids;
      queues = erase room_id p.queues;
    })

-- The loop of `TryExecute`: the jobs that were run, those left in the queue, and the ticks left.
unfoldable pub run_jobs : ℕ → List ℕ → List ℕ × List ℕ × ℕ
run_jobs zero queue = ([], queue, 0)
run_jobs (suc ticks) [] = ([], [], ticks)
run_jobs (suc ticks) (job ∷ queue) =
    let (ran, left, ticks') = run_jobs ticks queue in (job ∷ ran, left, ticks')

pub record Executed : Type 0 where
  -- room and job, in order; the counts of the source are its length
  pub ran : List (ℕ × ℕ)
  pub left : Dict (List ℕ)
  pub ticks : ℕ

abbrev pub of_room : ℕ → List ℕ → List (ℕ × ℕ)
of_room room_id [] = []
of_room room_id (job ∷ jobs) = (room_id, job) ∷ of_room room_id jobs

unfoldable pub try_execute : ℕ → Dict (List ℕ) → ℕ → Executed
try_execute room_id queues zero = record { ran = []; left = queues; ticks = 0 }
try_execute room_id queues (suc ticks) = elim (lookup room_id queues) [
  | none ↦ record { ran = []; left = queues; ticks = ticks }
  | some queue ↦
      let (ran, left, ticks') = run_jobs ticks queue in
      record { ran = of_room room_id ran; left = insert room_id left queues; ticks = ticks' }
]

-- A loop over rooms.
unfoldable pub execute_rooms : List ℕ → Dict (List ℕ) → ℕ → Executed
execute_rooms [] queues ticks = record { ran = []; left = queues; ticks = ticks }
execute_rooms (room_id ∷ rooms) queues ticks =
    let first = try_execute room_id queues ticks in
    let rest = execute_rooms rooms first.left first.ticks in
    record { ran = first.ran ++ rest.ran; left = rest.left; ticks = rest.ticks }

-- The rooms that are not assigned to this worker.
unfoldable pub unassigned : List ℕ → List ℕ → List ℕ
unassigned assigned [] = []
unassigned assigned (room_id ∷ rooms) =
    if contains room_id assigned
    then unassigned assigned rooms
    else room_id ∷ unassigned assigned rooms

-- `PhysicsWorker::Execute`
unfoldable pub worker_execute : List ℕ → List ℕ → Dict (List ℕ) → ℕ → Executed
worker_execute assigned all_room_ids queues ticks =
    let own = execute_rooms assigned queues ticks in
    elim own.ran [
      | _ ∷ _ ↦ own
      | [] ↦ execute_rooms (unassigned assigned all_room_ids) own.left own.ticks
    ]

-- `PhysicsManager::Execute`, for a thread with its worker: it goes on as long as there is time.
unfoldable pub manager_execute : ℕ → List ℕ → List ℕ → Dict (List ℕ) → ℕ → Executed
manager_execute zero assigned all_room_ids queues ticks = record {
  ran = [];
  left = queues;
  ticks = ticks;
}
manager_execute (suc fuel) assigned all_room_ids queues zero = record {
  ran = [];
  left = queues;
  ticks = 0;
}
manager_execute (suc fuel) assigned all_room_ids queues (suc ticks) =
    let first = worker_execute assigned all_room_ids queues ticks in
    let rest = manager_execute fuel assigned all_room_ids first.left first.ticks in
    record { ran = first.ran ++ rest.ran; left = rest.left; ticks = rest.ticks }
