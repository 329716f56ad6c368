-- ===== src/JobTimer/Examples.antt =====
-- Concrete times.
use jam_server_prototype.Common.{ℕ, ◌≡◌, refl, false, List, [], ◌∷◌, ◌++◌, ◌==◌, arith}
use jam_server_prototype.JobTimer.{TimerItem, JobTimer, distribute}
use jam_server_prototype.JobTimer.Due.{OrderedFrom, AllDue, Pushes, distribute_lem}

abbrev item : ℕ → ℕ → ℕ → TimerItem
item time owner job = record { execute_time = time; owner = owner; job = job }

abbrev timer : JobTimer
timer = record { items = item 10 1 7 ∷ item 20 2 8 ∷ item 30 1 9 ∷ []; distributing = false }

timer-OrderedFrom : OrderedFrom 0 timer.items
timer-OrderedFrom = (omega arith, (omega arith, (omega arith, tt)))

distribute_lem_example :
    (due : List TimerItem) × (timer.items ≡ due ++ (distribute 20 (λ o. o == 1) timer).1.items)
    × Pushes (λ o. o == 1) due (distribute 20 (λ o. o == 1) timer).0
    × AllDue 20 due
    × OrderedFrom 0 due
    × OrderedFrom 21 (distribute 20 (λ o. o == 1) timer).1.items
distribute_lem_example = (distribute_lem 20 (λ o. o == 1) timer timer-OrderedFrom).1 refl
