-- ===== src/Physics/Idle.antt =====
-- When a worker of GameServer/PhysicsManager.cpp finds nothing to run.
use jam_server_prototype.Common.{
  ℕ, zero, suc, ◌<◌, ◌≡◌, inl, inr, refl, sym, ap, ◌∙◌, subst, true, false, List, [], ◌∷◌, ◌++◌,
  ◌==◌, Bool-cases, Option-cases, ==_iff, arith,
}
use jam_server_prototype.Common.Dict.{Dict, lookup}
use jam_server_prototype.Common.Sets.{contains}
use jam_server_prototype.Physics.{
  Executed, of_room, run_jobs, try_execute, execute_rooms, unassigned, worker_execute,
}
use jam_server_prototype.Physics.Running.{
  ran_of, or_empty, queue_at, tried, try_some, Fair, try_execute-Fair, execute_rooms-Fair,
}

left_nil : (xs ys : List (ℕ × ℕ)) → xs ++ ys ≡ [] → xs ≡ []
left_nil [] ys e = refl
left_nil (x ∷ xs) ys e = absurd (cc e)

-- With time left and nothing run, the queue was empty.
run_jobs_idle :
    (room_id ticks : ℕ) (queue : List ℕ)
    → 0 < (run_jobs ticks queue).2
    → of_room room_id (run_jobs ticks queue).0 ≡ []
    → queue ≡ []
unfolding run_jobs
run_jobs_idle room_id zero queue h e = absurd (omega (arith, h))
run_jobs_idle room_id (suc ticks) [] h e = refl
run_jobs_idle room_id (suc ticks) (job ∷ queue) h e = absurd (cc e)

-- A run that ran nothing left every queue as it was.
same_queues :
    (queues : Dict (List ℕ)) (ticks room_id : ℕ) (e : Executed)
    → Fair queues ticks e
    → e.ran ≡ []
    → queue_at room_id e.left ≡ queue_at room_id queues
same_queues queues ticks room_id e f none_ran =
    sym (ap (λ (ran : List (ℕ × ℕ)). ran_of room_id ran ++ queue_at room_id e.left) none_ran)
    ∙ f.in_order room_id

try_idle :
    (room_id ticks : ℕ) (queues : Dict (List ℕ))
    → 0 < (try_execute room_id queues ticks).ticks
    → (try_execute room_id queues ticks).ran ≡ []
    → queue_at room_id queues ≡ []
try_idle room_id zero queues h e =
    absurd (let z : 0 < 0 = unfold try_execute in h in omega (arith, z))
try_idle room_id (suc ticks) queues h e = elim (Option-cases (lookup room_id queues)) [
  | inl nothing ↦ ap or_empty nothing
  | inr (queue, there) ↦
      let eq = try_some room_id ticks queue queues there in
      ap or_empty there
      ∙ run_jobs_idle room_id ticks queue (unfold tried in subst (λ x. 0 < x.ticks) eq h)
          (unfold tried in sym (ap (λ (x : Executed). x.ran) eq) ∙ e)
]

rooms_idle :
    (rooms : List ℕ) (queues : Dict (List ℕ)) (ticks room_id : ℕ)
    → contains room_id rooms ≡ true
    → 0 < (execute_rooms rooms queues ticks).ticks
    → (execute_rooms rooms queues ticks).ran ≡ []
    → queue_at room_id queues ≡ []
unfolding execute_rooms contains
rooms_idle [] queues ticks room_id c h e = absurd (cc c)
rooms_idle (at ∷ rooms) queues ticks room_id c h e =
    let first = try_execute at queues ticks in
    let rest = execute_rooms rooms first.left first.ticks in
    let none_first = left_nil first.ran rest.ran e in
    let passes = (execute_rooms-Fair rooms first.left first.ticks).passes in
    elim (Bool-cases (at == room_id)) [
      | inl same ↦
          subst (λ r. queue_at r queues ≡ []) ((==_iff at room_id).0 same)
            (try_idle at ticks queues (omega (arith, h, passes)) none_first)
      | inr other ↦
          sym (same_queues queues ticks room_id first (try_execute-Fair at queues ticks) none_first)
          ∙ rooms_idle rooms first.left first.ticks room_id (rw other at c) h
              (ap (λ (xs : List (ℕ × ℕ)). xs ++ rest.ran) (sym none_first) ∙ e)
    ]

unassigned-contains :
    (assigned rooms : List ℕ) (room_id : ℕ)
    → contains room_id rooms ≡ true
    → contains room_id assigned ≡ false
    → contains room_id (unassigned assigned rooms) ≡ true
unfolding unassigned contains
unassigned-contains assigned [] room_id h n = h
unassigned-contains assigned (at ∷ rooms) room_id h n = elim (Bool-cases (at == room_id)) [
  | inl same ↦
      let out : contains at assigned ≡ false =
        ap (λ (r : ℕ). contains r assigned) ((==_iff at room_id).0 same) ∙ n in
      rw out (rw same refl)
  | inr other ↦
      let rest = unassigned-contains assigned rooms room_id (rw other at h) n in
      elim (Bool-cases (contains at assigned)) [
        | inl skip ↦ rw skip rest
        | inr keep ↦ rw keep (rw other rest)
      ]
]

idle_on :
    (assigned all_room_ids : List ℕ) (queues : Dict (List ℕ)) (ticks room_id : ℕ)
    (ran : List (ℕ × ℕ))
    → let own = execute_rooms assigned queues ticks in
      let e : Executed = elim ran [
        | _ ∷ _ ↦ own
        | [] ↦ execute_rooms (unassigned assigned all_room_ids) own.left own.ticks
      ] in
      own.ran ≡ ran
      → contains room_id all_room_ids ≡ true
      → 0 < e.ticks
      → e.ran ≡ []
      → queue_at room_id queues ≡ []
idle_on assigned all_room_ids queues ticks room_id (x ∷ ran) same known h none_ran =
    absurd (cc (same, none_ran))
idle_on assigned all_room_ids queues ticks room_id [] same known h none_ran =
    let own = execute_rooms assigned queues ticks in
    let others = unassigned assigned all_room_ids in
    let passes = (execute_rooms-Fair others own.left own.ticks).passes in
    elim (Bool-cases (contains room_id assigned)) [
      | inl mine ↦ rooms_idle assigned queues ticks room_id mine (omega (arith, h, passes)) same
      | inr not_mine ↦
          sym (same_queues queues ticks room_id own (execute_rooms-Fair assigned queues ticks) same)
          ∙ rooms_idle others own.left own.ticks room_id
              (unassigned-contains assigned all_room_ids room_id known not_mine) h none_ran
    ]

-- A worker that runs nothing although it has time left has found the queues of all rooms empty, its own and
-- those of the other workers.
pub worker_idle :
    (assigned all_room_ids : List ℕ) (queues : Dict (List ℕ)) (ticks room_id : ℕ)
    → contains room_id all_room_ids ≡ true
    → 0 < (worker_execute assigned all_room_ids queues ticks).ticks
    → (worker_execute assigned all_room_ids queues ticks).ran ≡ []
    → queue_at room_id queues ≡ []
unfolding worker_execute
worker_idle assigned all_room_ids queues ticks room_id known h none_ran =
    idle_on assigned all_room_ids queues ticks room_id (execute_rooms assigned queues ticks).ran
      refl known h none_ran
