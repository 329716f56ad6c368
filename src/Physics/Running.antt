-- ===== src/Physics/Running.antt =====
-- What the workers of GameServer/PhysicsManager.cpp run.
use jam_server_prototype.Common.{
  ℕ, zero, suc, ◌≤◌, ◌<◌, ◌≡◌, inl, inr, refl, sym, ap, ◌∙◌, subst, Option, none, some, List, [],
  ◌∷◌, ◌++◌, append_assoc, ◌==◌, if◌then◌else◌, Bool-cases, Option-cases, ==_iff, arith,
}
use jam_server_prototype.Common.Dict.{Dict, lookup, insert, lookup-insert}
use jam_server_prototype.Physics.{
  Executed, of_room, run_jobs, try_execute, execute_rooms, unassigned, worker_execute,
  manager_execute,
}

-- The jobs that were run of one room, and its queue.
abbrev pub ran_of : ℕ → List (ℕ × ℕ) → List ℕ
ran_of room_id [] = []
ran_of room_id ((at, job) ∷ ran) =
    if at == room_id then job ∷ ran_of room_id ran else ran_of room_id ran

abbrev pub or_empty : Option (List ℕ) → List ℕ
or_empty none = []
or_empty (some queue) = queue

abbrev pub queue_at : ℕ → Dict (List ℕ) → List ℕ
queue_at room_id queues = or_empty (lookup room_id queues)

ran_of-append :
    (room_id : ℕ) (xs ys : List (ℕ × ℕ))
    → ran_of room_id (xs ++ ys) ≡ ran_of room_id xs ++ ran_of room_id ys
ran_of-append room_id [] ys = refl
ran_of-append room_id ((at, job) ∷ xs) ys = ground (arith, ran_of-append room_id xs ys)

ran_of-of_room :
    (room_id at : ℕ) (jobs : List ℕ)
    → ran_of room_id (of_room at jobs) ≡ (if at == room_id then jobs else [])
ran_of-of_room room_id at [] = ground arith
ran_of-of_room room_id at (job ∷ jobs) = ground (arith, ran_of-of_room room_id at jobs)

-- Each room's jobs are run from the front of its queue, in order, and the rest is left; time only passes.
pub record Fair (queues : Dict (List ℕ)) (ticks : ℕ) (e : Executed) : Type 0 where
  pub in_order :
      (room_id : ℕ) → ran_of room_id e.ran ++ queue_at room_id e.left ≡ queue_at room_id queues
  pub passes : e.ticks ≤ ticks

run_jobs_lem :
    (ticks : ℕ) (queue : List ℕ)
    → ((run_jobs ticks queue).0 ++ (run_jobs ticks queue).1 ≡ queue)
      × ((run_jobs ticks queue).2 ≤ ticks)
unfolding run_jobs
run_jobs_lem zero queue = (refl, omega arith)
run_jobs_lem (suc ticks) [] = (refl, omega arith)
run_jobs_lem (suc ticks) (job ∷ queue) =
    let r = run_jobs_lem ticks queue in (ap (◌∷◌ job) r.0, omega (arith, r.1))

-- One room.
one_room :
    (at room_id : ℕ) (ran left : List ℕ) (queues : Dict (List ℕ))
    → ran ++ left ≡ queue_at at queues
    → ran_of room_id (of_room at ran) ++ queue_at room_id (insert at left queues)
      ≡ queue_at room_id queues
one_room at room_id ran left queues e = elim (Bool-cases (at == room_id)) [
  | inl same ↦
      rw (ran_of-of_room room_id at ran, lookup-insert at room_id left queues, same)
        (e ∙ ap (λ (r : ℕ). queue_at r queues) ((==_iff at room_id).0 same))
  | inr ne ↦ rw (ran_of-of_room room_id at ran, lookup-insert at room_id left queues, ne) refl
]

unfoldable pub tried : ℕ → List ℕ → Dict (List ℕ) → ℕ → Executed
tried room_id queue queues ticks =
    let (ran, left, ticks') = run_jobs ticks queue in
    record { ran = of_room room_id ran; left = insert room_id left queues; ticks = ticks' }

pub try_some :
    (room_id ticks : ℕ) (queue : List ℕ) (queues : Dict (List ℕ))
    → lookup room_id queues ≡ some queue
    → try_execute room_id queues (suc ticks) ≡ tried room_id queue queues ticks
unfolding try_execute tried
try_some room_id ticks queue queues e = rw (e, try_execute) refl

try_none :
    (room_id ticks : ℕ) (queues : Dict (List ℕ))
    → lookup room_id queues ≡ none
    → try_execute room_id queues (suc ticks) ≡ record { ran = []; left = queues; ticks = ticks }
unfolding try_execute
try_none room_id ticks queues e = rw (e, try_execute) refl

pub try_execute-Fair :
    (room_id : ℕ) (queues : Dict (List ℕ)) (ticks : ℕ)
    → Fair queues ticks (try_execute room_id queues ticks)
try_execute-Fair room_id queues zero =
    unfold try_execute in record { in_order = λ r. refl; passes = omega arith }
try_execute-Fair room_id queues (suc ticks) = elim (Option-cases (lookup room_id queues)) [
  | inl e ↦
      subst (Fair queues (suc ticks)) (sym (try_none room_id ticks queues e))
        (record { in_order = λ r. refl; passes = omega arith })
  | inr (queue, e) ↦
      let j = run_jobs_lem ticks queue in
      subst (Fair queues (suc ticks)) (sym (try_some room_id ticks queue queues e)) (
        unfold tried in
        record {
          in_order = λ r.
              one_room room_id r (run_jobs ticks queue).0 (run_jobs ticks queue).1 queues
                (j.0 ∙ sym (ap or_empty e));
          passes = omega (arith, j.1);
        })
]

-- One run after the other.
Fair-trans :
    (queues : Dict (List ℕ)) (ticks : ℕ) (e f : Executed)
    → Fair queues ticks e
    → Fair e.left e.ticks f
    → Fair queues ticks (record { ran = e.ran ++ f.ran; left = f.left; ticks = f.ticks })
Fair-trans queues ticks e f a b = record {
  in_order = λ r.
      ap (λ (xs : List ℕ). xs ++ queue_at r f.left) (ran_of-append r e.ran f.ran)
      ∙ append_assoc (ran_of r e.ran) (ran_of r f.ran) (queue_at r f.left)
      ∙ ap (λ (xs : List ℕ). ran_of r e.ran ++ xs) (b.in_order r)
      ∙ a.in_order r;
  passes = omega (arith, a.passes, b.passes);
}

Fair-refl :
    (queues : Dict (List ℕ)) (ticks : ℕ)
    → Fair queues ticks (record { ran = []; left = queues; ticks = ticks })
Fair-refl queues ticks = record { in_order = λ r. refl; passes = omega arith }

pub execute_rooms-Fair :
    (rooms : List ℕ) (queues : Dict (List ℕ)) (ticks : ℕ)
    → Fair queues ticks (execute_rooms rooms queues ticks)
unfolding execute_rooms
execute_rooms-Fair [] queues ticks = Fair-refl queues ticks
execute_rooms-Fair (room_id ∷ rooms) queues ticks =
    let first = try_execute room_id queues ticks in
    Fair-trans queues ticks first (execute_rooms rooms first.left first.ticks)
      (try_execute-Fair room_id queues ticks) (execute_rooms-Fair rooms first.left first.ticks)

-- The choice of `Execute` between its own rooms and the others.
worker_on :
    (assigned all_room_ids : List ℕ) (queues : Dict (List ℕ)) (ticks : ℕ) (own : Executed)
    (ran : List (ℕ × ℕ))
    → own.ran ≡ ran
    → Fair queues ticks own
    → Fair queues ticks (elim ran [
      | _ ∷ _ ↦ own
      | [] ↦ execute_rooms (unassigned assigned all_room_ids) own.left own.ticks
    ])
worker_on assigned all_room_ids queues ticks own (x ∷ ran) e f = f
worker_on assigned all_room_ids queues ticks own [] e f =
    let rest = execute_rooms (unassigned assigned all_room_ids) own.left own.ticks in
    let g = execute_rooms-Fair (unassigned assigned all_room_ids) own.left own.ticks in
    subst
      (λ xs.
        Fair queues ticks (record { ran = xs ++ rest.ran; left = rest.left; ticks = rest.ticks }))
      e (Fair-trans queues ticks own rest f g)

pub worker_execute-Fair :
    (assigned all_room_ids : List ℕ) (queues : Dict (List ℕ)) (ticks : ℕ)
    → Fair queues ticks (worker_execute assigned all_room_ids queues ticks)
unfolding worker_execute
worker_execute-Fair assigned all_room_ids queues ticks =
    let own = execute_rooms assigned queues ticks in
    worker_on assigned all_room_ids queues ticks own own.ran refl
      (execute_rooms-Fair assigned queues ticks)

-- A worker that goes on until its time is over does so with fuel for its ticks. Of every room, the jobs
-- that it ran are the first of the queue, in order and each once, and the queue keeps the rest.
pub manager_execute-Fair :
    (fuel : ℕ) (assigned all_room_ids : List ℕ) (queues : Dict (List ℕ)) (ticks : ℕ)
    → ticks < fuel
    → Fair queues ticks (manager_execute fuel assigned all_room_ids queues ticks)
      × ((manager_execute fuel assigned all_room_ids queues ticks).ticks ≡ 0)
unfolding manager_execute
manager_execute-Fair zero assigned all_room_ids queues ticks h = absurd (omega (arith, h))
manager_execute-Fair (suc fuel) assigned all_room_ids queues zero h = (Fair-refl queues 0, refl)
manager_execute-Fair (suc fuel) assigned all_room_ids queues (suc ticks) h =
    let first = worker_execute assigned all_room_ids queues ticks in
    let f = worker_execute-Fair assigned all_room_ids queues ticks in
    let rest =
      manager_execute-Fair fuel assigned all_room_ids first.left first.ticks
        (omega (arith, h, f.passes)) in
    (
      Fair-trans queues (suc ticks) first
          (manager_execute fuel assigned all_room_ids first.left first.ticks)
          (record { in_order = f.in_order; passes = omega (arith, f.passes) }) rest.0,
      rest.1,
    )
