-- ===== src/JobQueue/Examples.antt =====
-- Two jobs pushed by two threads.
use jam_server_prototype.Common.{◌+◌, ◌≤◌, ◌<◌, ◌≡◌, refl, true, false, [], ◌∷◌, ◌++◌, length}
use jam_server_prototype.JobQueue.{announce, enqueue}
use jam_server_prototype.JobQueue.Threads.{
  System, announced, entered, unused, Reach, here, later, to_run, responsible,
}
use jam_server_prototype.JobQueue.Serial.{serial_fifo}
use jam_server_prototype.JobQueue.Drain.{Drained, can_drain}

-- both jobs are queued, and the first push is about to execute
abbrev two_pushed : System
two_pushed = record {
  queue = record { job_count = 2; jobs = 8 ∷ 7 ∷ [] };
  entering = [];
  starting = 1;
  global = 0;
  at_head = 0;
  batches = [];
  queued = 8 ∷ 7 ∷ [];
  done = [];
}

-- the second push overtakes the first between the count and the list
two_pushed-Reach : Reach unused two_pushed
unfolding announce enqueue
two_pushed-Reach =
    later
      (later (later (later here (announced 7)) (announced 8)) (
        entered (record { job = 8; first = false }) [] (record { job = 7; first = true } ∷ [])
          refl))
      (entered (record { job = 7; first = true }) [] [] refl)

serial_fifo_example :
    (two_pushed.at_head + length two_pushed.batches ≤ 1)
    × (two_pushed.queued ≡ two_pushed.done ++ (to_run two_pushed.batches ++ two_pushed.queue.jobs))
    × (0 < length two_pushed.queue.jobs + length two_pushed.entering → responsible two_pushed ≡ 1)
serial_fifo_example = serial_fifo two_pushed-Reach

can_drain_example : Drained two_pushed
can_drain_example = can_drain two_pushed-Reach refl
