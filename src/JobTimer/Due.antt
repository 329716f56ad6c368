-- ===== src/JobTimer/Due.antt =====
-- Jobs are handed out when they are due, in the order of their times, each once.
use jam_server_prototype.Common.{
  ℕ, ◌+◌, ◌≤◌, ◌≡◌, refl, ap, Bool, true, false, List, [], ◌∷◌, ◌++◌, ltb, Bool-cases, inl, inr,
  arith,
}
use jam_server_prototype.JobTimer.{
  TimerItem, JobTimer, insert_item, reserve, take_due, push_due, distribute,
}

-- All times are at least a bound, and each is at least the one before.
abbrev pub OrderedFrom : ℕ → List TimerItem → Type 0
OrderedFrom bound [] = Unit {0}
OrderedFrom bound (i ∷ items) = (bound ≤ i.execute_time) × OrderedFrom i.execute_time items

abbrev pub AllDue : ℕ → List TimerItem → Type 0
AllDue now [] = Unit {0}
AllDue now (i ∷ items) = (i.execute_time ≤ now) × AllDue now items

OrderedFrom-insert_item :
    (bound : ℕ) (item : TimerItem) (items : List TimerItem)
    → bound ≤ item.execute_time
    → OrderedFrom bound items
    → OrderedFrom bound (insert_item item items)
unfolding insert_item
OrderedFrom-insert_item bound item [] h o = (h, tt)
OrderedFrom-insert_item bound item (i ∷ items) h o =
    elim (Bool-cases (ltb item.execute_time i.execute_time)) [
      | inl e ↦ rw e (h, (ground arith, o.1))
      | inr e ↦ rw e (o.0, OrderedFrom-insert_item i.execute_time item items (ground arith) o.1)
    ]

-- Where an item goes: behind all that are no later, in front of all that are later.
insert_item-splits :
    (bound : ℕ) (item : TimerItem) (items : List TimerItem)
    → OrderedFrom bound items
    → (before : List TimerItem) × (after : List TimerItem) × (items ≡ before ++ after)
      × (insert_item item items ≡ before ++ item ∷ after)
      × AllDue item.execute_time before
      × OrderedFrom item.execute_time after
unfolding insert_item
insert_item-splits bound item [] o = ([], [], refl, refl, tt, tt)
insert_item-splits bound item (i ∷ items) o =
    elim (Bool-cases (ltb item.execute_time i.execute_time)) [
      | inl e ↦ ([], i ∷ items, refl, rw e refl, tt, (ground arith, o.1))
      | inr e ↦
          let (before, after, s, r, d, f) = insert_item-splits i.execute_time item items o.1 in
          (i ∷ before, after, ap (λ xs. i ∷ xs) s, rw e (ap (λ xs. i ∷ xs) r), (ground arith, d), f)
    ]

-- A reserved job keeps the queue in order, and is put behind everything that is to run no later and in
-- front of everything that is to run later; nothing else changes.
pub reserve_lem :
    (server_time after_time owner job : ℕ) (t : JobTimer)
    → OrderedFrom 0 t.items
    → let item : TimerItem = record {
      execute_time = server_time + after_time;
      owner = owner;
      job = job;
    } in
      let t' = reserve server_time after_time owner job t in
      OrderedFrom 0 t'.items
      × ((before : List TimerItem) × (after : List TimerItem) × (t.items ≡ before ++ after)
          × (t'.items ≡ before ++ item ∷ after)
          × AllDue (server_time + after_time) before
          × OrderedFrom (server_time + after_time) after)
unfolding reserve
reserve_lem server_time after_time owner job t o =
    let item : TimerItem = record {
      execute_time = server_time + after_time;
      owner = owner;
      job = job;
    } in
    (OrderedFrom-insert_item 0 item t.items (omega arith) o, insert_item-splits 0 item t.items o)

take_due_lem :
    (bound now : ℕ) (items : List TimerItem)
    → OrderedFrom bound items
    → let r = take_due now items in
      (items ≡ r.0 ++ r.1) × AllDue now r.0 × OrderedFrom bound r.0 × OrderedFrom (now + 1) r.1
unfolding take_due
take_due_lem bound now [] o = (refl, tt, tt, tt)
take_due_lem bound now (i ∷ items) o =
    let (s, d, a, f) = take_due_lem i.execute_time now items o.1 in
    elim (Bool-cases (ltb now i.execute_time)) [
      | inl e ↦ rw e (refl, tt, tt, (ground arith, o.1))
      | inr e ↦ rw e (ap (λ xs. i ∷ xs) s, (ground arith, d), (o.0, a), f)
    ]

-- The pushes that items ask for, in order: the job of an item whose owner is alive, to that owner, and
-- nothing for an item whose owner is gone.
pub data Pushes (alive : ℕ → Bool) : List TimerItem → List (ℕ × ℕ) → Type 0 where
  done : Pushes alive [] []
  pushed :
      {item : TimerItem} {items : List TimerItem} {jobs : List (ℕ × ℕ)}
      → alive item.owner ≡ true
      → Pushes alive items jobs
      → Pushes alive (item ∷ items) ((item.owner, item.job) ∷ jobs)
  dropped :
      {item : TimerItem} {items : List TimerItem} {jobs : List (ℕ × ℕ)}
      → alive item.owner ≡ false
      → Pushes alive items jobs
      → Pushes alive (item ∷ items) jobs

push_due-Pushes :
    (alive : ℕ → Bool) (items : List TimerItem) → Pushes alive items (push_due alive items)
unfolding push_due
push_due-Pushes alive [] = done
push_due-Pushes alive (item ∷ items) = elim (Bool-cases (alive item.owner)) [
  | inl e ↦ rw e (pushed e (push_due-Pushes alive items))
  | inr e ↦ rw e (dropped e (push_due-Pushes alive items))
]

-- A call of `Distribute` that finds nobody else in it pushes the job of each item whose time has come
-- and whose owner is alive, in the order of their times, and keeps exactly the items whose time is
-- still to come. A call that finds somebody in it does nothing.
pub distribute_lem :
    (now : ℕ) (alive : ℕ → Bool) (t : JobTimer)
    → OrderedFrom 0 t.items
    → (t.distributing ≡ true → distribute now alive t ≡ ([], t))
      × (t.distributing ≡ false
          → (due : List TimerItem) × (t.items ≡ due ++ (distribute now alive t).1.items)
            × Pushes alive due (distribute now alive t).0
            × AllDue now due
            × OrderedFrom 0 due
            × OrderedFrom (now + 1) (distribute now alive t).1.items)
unfolding distribute
distribute_lem now alive t o =
    let (s, d, a, f) = take_due_lem 0 now t.items o in
    (
      λ busy. rw busy refl,
      λ free. (
        (take_due now t.items).0,
        rw free s,
        rw free (push_due-Pushes alive (take_due now t.items).0),
        d,
        a,
        rw free f,
      ),
    )
