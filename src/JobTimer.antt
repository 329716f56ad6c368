-- ===== src/JobTimer.antt =====
-- ServerCore/JobTimer.h and JobTimer.cpp: jobs that wait for their time. The priority queue is kept as
-- the list in the order in which its items come out. Times are whole microseconds. An owner is a weak
-- reference: `alive` says whether `lock()` gives it.
pub mod Due
mod Examples
use jam_server_prototype.Common.{ℕ, ◌+◌, Bool, true, false, List, [], ◌∷◌, ltb, if◌then◌else◌}

pub record TimerItem : Type 0 where
  pub execute_time : ℕ
  pub owner : ℕ
  pub job : ℕ

pub record JobTimer : Type 0 where
  pub items : List TimerItem
  pub distributing : Bool

unfoldable pub insert_item : TimerItem → List TimerItem → List TimerItem
insert_item item [] = item ∷ []
insert_item item (i ∷ items) =
    if ltb item.execute_time i.execute_time then item ∷ i ∷ items else i ∷ insert_item item items

unfoldable pub reserve : ℕ → ℕ → ℕ → ℕ → JobTimer → JobTimer
reserve server_time after_time owner job t = record t {
  items =
      insert_item (record { execute_time = server_time + after_time; owner = owner; job = job })
        t.items;
}

-- The loop under the lock: the items that are due, and those left.
unfoldable pub take_due : ℕ → List TimerItem → List TimerItem × List TimerItem
take_due now [] = ([], [])
take_due now (item ∷ items) =
    let (due, left) = take_due now items in
    if ltb now item.execute_time then ([], item ∷ items) else (item ∷ due, left)

-- The second loop: the pushes that it makes, as owner and job.
unfoldable pub push_due : (ℕ → Bool) → List TimerItem → List (ℕ × ℕ)
push_due alive [] = []
push_due alive (item ∷ items) =
    let rest = push_due alive items in
    if alive item.owner then (item.owner, item.job) ∷ rest else rest

-- A whole call of `Distribute`, with nobody else in it.
unfoldable pub distribute : ℕ → (ℕ → Bool) → JobTimer → List (ℕ × ℕ) × JobTimer
distribute now alive t =
    let (due, left) = take_due now t.items in
    if t.distributing then ([], t) else (push_due alive due, record t { items = left })

unfoldable pub clear : JobTimer → JobTimer
clear t = record t { items = [] }
