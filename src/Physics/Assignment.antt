-- ===== src/Physics/Assignment.antt =====
-- Adding and removing physics queues, GameServer/PhysicsManager.cpp: every room with a queue is assigned to
-- one worker.
use jam_server_prototype.Common.{
  ℕ, zero, suc, ◌<◌, ◌≡◌, inl, inr, refl, sym, ap, ◌∙◌, Bool, true, false, ◌&&◌, Option, none, some,
  List, [], ◌∷◌, ◌==◌, if◌then◌else◌, Bool-cases, Option-cases, length, get_or, ==_iff, arith,
}
use jam_server_prototype.Common.Dict.{lookup, insert_new, erase, lookup-insert_new, lookup-erase}
use jam_server_prototype.Common.Sets.{
  contains, set_insert, set_erase, contains-set_insert, contains-set_erase,
}
use jam_server_prototype.Physics.{
  Physics, init, init_workers, worker_index, at_worker, assign_room, unassign_room,
  add_physics_queue, remove_physics_queue,
}

abbrev pub has_queue : Option (List ℕ) → Bool
has_queue none = false
has_queue (some queue) = true

length-at_worker :
    (i : ℕ) (f : List ℕ → List ℕ) (workers : List (List ℕ))
    → length (at_worker i f workers) ≡ length workers
unfolding at_worker
length-at_worker i f [] = refl
length-at_worker zero f (w ∷ workers) = refl
length-at_worker (suc i) f (w ∷ workers) = ap suc (length-at_worker i f workers)

get_or-at_worker :
    (i j : ℕ) (f : List ℕ → List ℕ) (workers : List (List ℕ))
    → j < length workers
    → get_or (at_worker i f workers) j []
      ≡ (if i == j then f (get_or workers j []) else get_or workers j [])
unfolding at_worker
get_or-at_worker i j f [] h = absurd (omega (arith, h))
get_or-at_worker zero zero f (w ∷ workers) h = refl
get_or-at_worker zero (suc j) f (w ∷ workers) h = ground arith
get_or-at_worker (suc i) zero f (w ∷ workers) h = ground arith
get_or-at_worker (suc i) (suc j) f (w ∷ workers) h =
    ground (arith, get_or-at_worker i j f workers (omega (arith, h)))

-- A worker has a room exactly if the room has a queue and its number says this worker.
pub record IsValid (p : Physics) : Type 0 where
  pub known : (room_id : ℕ) → contains room_id p.all_room_ids ≡ has_queue (lookup room_id p.queues)
  pub assigned :
      (i room_id : ℕ)
      → i < length p.workers
      → contains room_id (get_or p.workers i [])
        ≡ (has_queue (lookup room_id p.queues) && worker_index room_id (length p.workers) == i)

nothing_assigned : (n i room_id : ℕ) → contains room_id (get_or (init_workers n) i []) ≡ false
unfolding init_workers contains
nothing_assigned zero i room_id = refl
nothing_assigned (suc n) zero room_id = refl
nothing_assigned (suc n) (suc i) room_id = nothing_assigned n i room_id

pub init-IsValid : (n : ℕ) → IsValid (init n)
unfolding contains lookup
init-IsValid n = record {
  known = λ room_id. refl;
  assigned = λ i room_id h. nothing_assigned n i room_id;
}

abbrev pub or_queue : List ℕ → Option (List ℕ) → List ℕ
or_queue queue none = queue
or_queue queue (some there) = there

added : ℕ → List ℕ → Physics → Physics
added room_id queue p = record {
  queues = insert_new room_id queue p.queues;
  all_room_ids = set_insert room_id p.all_room_ids;
  workers = at_worker (worker_index room_id (length p.workers)) (assign_room room_id) p.workers;
}

add_new :
    (room_id : ℕ) (queue : List ℕ) (p : Physics)
    → 0 < length p.workers
    → lookup room_id p.queues ≡ none
    → add_physics_queue room_id queue p ≡ some (added room_id queue p)
unfolding add_physics_queue added
add_new room_id queue p h new = ground arith

add_old :
    (room_id : ℕ) (queue there : List ℕ) (p : Physics)
    → lookup room_id p.queues ≡ some there
    → add_physics_queue room_id queue p ≡ some p
unfolding add_physics_queue
add_old room_id queue there p e = ground arith

-- One worker, before and after.
insert_assigned :
    (room_id other j : ℕ) (queue rooms : List ℕ) (there : Option (List ℕ)) (index : ℕ → ℕ)
    → contains other rooms ≡ (has_queue there && index other == j)
    → contains other (if index room_id == j then set_insert room_id rooms else rooms)
      ≡ (has_queue (if room_id == other then some queue else there) && index other == j)
insert_assigned room_id other j queue rooms there index was = elim (Bool-cases (room_id == other)) [
  | inl e ↦
      let same = ap index ((==_iff room_id other).0 e) in
      rw e (ground (arith, same, contains-set_insert room_id other rooms, was))
  | inr ne ↦ rw ne (ground (arith, contains-set_insert room_id other rooms, was))
]

erase_assigned :
    (room_id other j : ℕ) (rooms : List ℕ) (there : Option (List ℕ)) (index : ℕ → ℕ)
    → contains other rooms ≡ (has_queue there && index other == j)
    → contains other (if index room_id == j then set_erase room_id rooms else rooms)
      ≡ (has_queue (if room_id == other then none else there) && index other == j)
erase_assigned room_id other j rooms there index was = elim (Bool-cases (room_id == other)) [
  | inl e ↦
      let same = ap index ((==_iff room_id other).0 e) in
      rw e (ground (arith, same, contains-set_erase room_id other rooms, was))
  | inr ne ↦ rw ne (ground (arith, contains-set_erase room_id other rooms, was))
]

added-IsValid :
    (room_id : ℕ) (queue : List ℕ) (p : Physics)
    → lookup room_id p.queues ≡ none
    → IsValid p
    → IsValid (added room_id queue p)
unfolding added
added-IsValid room_id queue p new v =
    let n = length p.workers in
    let i = worker_index room_id n in
    let grown = λ (other : ℕ). lookup-insert_new room_id other queue p.queues new in
    record {
      known = λ other.
          let k = v.known other in
          ground (arith, grown other, contains-set_insert room_id other p.all_room_ids, k);
      assigned = λ j other lt.
          let same_length = length-at_worker i (assign_room room_id) p.workers in
          let j_lt : j < n = omega (arith, lt, same_length) in
          let was = v.assigned j other j_lt in
          rw (same_length, get_or-at_worker i j (assign_room room_id) p.workers j_lt, grown other)
            (insert_assigned room_id other j queue (get_or p.workers j []) (lookup other p.queues)
              (λ r. worker_index r n) was);
    }

same_queue :
    (room_id other : ℕ) (queue there : List ℕ) (p : Physics)
    → lookup room_id p.queues ≡ some there
    → lookup other p.queues ≡ (
        if room_id == other
        then some (or_queue queue (lookup room_id p.queues))
        else lookup other p.queues)
same_queue room_id other queue there p e = elim (Bool-cases (room_id == other)) [
  | inl same ↦
      rw (same, e) (ap (λ (r : ℕ). lookup r p.queues) (sym ((==_iff room_id other).0 same)) ∙ e)
  | inr ne ↦ rw ne refl
]

-- With a worker at all, adding a queue succeeds, keeps every room with its one worker, and gives the room
-- the queue if it had none; the other rooms keep theirs.
pub add_physics_queue-IsValid :
    (room_id : ℕ) (queue : List ℕ) (p : Physics)
    → 0 < length p.workers
    → IsValid p
    → (p' : Physics) × (add_physics_queue room_id queue p ≡ some p')
      × IsValid p'
      × ((other : ℕ)
          → lookup other p'.queues ≡ (
              if room_id == other
              then some (or_queue queue (lookup room_id p.queues))
              else lookup other p.queues))
add_physics_queue-IsValid room_id queue p h v = elim (Option-cases (lookup room_id p.queues)) [
  | inr (there, e) ↦
      (p, add_old room_id queue there p e, v, λ other. same_queue room_id other queue there p e)
  | inl new ↦ (
    added room_id queue p,
    add_new room_id queue p h new,
    added-IsValid room_id queue p new v,
    λ other. unfold added in rw new (lookup-insert_new room_id other queue p.queues new),
  )
]

removed : ℕ → Physics → Physics
removed room_id p = record {
  workers = at_worker (worker_index room_id (length p.workers)) (unassign_room room_id) p.workers;
  all_room_ids = set_erase room_id p.all_room_ids;
  queues = erase room_id p.queues;
}

removed-IsValid : (room_id : ℕ) (p : Physics) → IsValid p → IsValid (removed room_id p)
unfolding removed
removed-IsValid room_id p v =
    let n = length p.workers in
    let i = worker_index room_id n in
    let left = λ (other : ℕ). lookup-erase room_id other p.queues in
    record {
      known = λ other.
          let k = v.known other in
          ground (arith, left other, contains-set_erase room_id other p.all_room_ids, k);
      assigned = λ j other lt.
          let same_length = length-at_worker i (unassign_room room_id) p.workers in
          let j_lt : j < n = omega (arith, lt, same_length) in
          let was = v.assigned j other j_lt in
          rw (same_length, get_or-at_worker i j (unassign_room room_id) p.workers j_lt, left other)
            (erase_assigned room_id other j (get_or p.workers j []) (lookup other p.queues)
              (λ r. worker_index r n) was);
    }

-- With a worker at all, removing a queue succeeds, keeps every other room with its one worker and its
-- queue, and leaves the room without a queue and unassigned.
pub remove_physics_queue-IsValid :
    (room_id : ℕ) (p : Physics)
    → 0 < length p.workers
    → IsValid p
    → (p' : Physics) × (remove_physics_queue room_id p ≡ some p')
      × IsValid p'
      × ((other : ℕ)
          → lookup other p'.queues ≡ (if room_id == other then none else lookup other p.queues))
unfolding remove_physics_queue
remove_physics_queue-IsValid room_id p h v = (
  removed room_id p,
  unfold removed in ground arith,
  removed-IsValid room_id p v,
  λ other. unfold removed in lookup-erase room_id other p.queues,
)
