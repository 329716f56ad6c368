-- ===== src/JobQueue/Threads.antt =====
-- The threads at a job queue, in any order: what they are about to do, and what was done.
use jam_server_prototype.Common.{
  ℕ, ◌+◌, ◌-◌, ◌<◌, ◌≡◌, Bool, true, false, List, [], ◌∷◌, ◌++◌, ◌==◌, if◌then◌else◌, length,
}
use jam_server_prototype.JobQueue.{
  JobQueue, announce, enqueue, Dispatch, execute_now, to_global, dispatch, pop_all, settle, After,
  finished, again, yielded, after_batch,
}

-- A `Push` between its two operations: the job, and whether the count was 0.
pub record Entering : Type 0 where
  pub job : ℕ
  pub first : Bool

-- A batch that an `Execute` is running: the jobs still to run, and how many it took.
pub record Batch : Type 0 where
  pub waiting : List ℕ
  pub taken : ℕ

pub record System : Type 0 where
  pub queue : JobQueue
  pub entering : List Entering
  -- pushes that were first and have to see to it that the queue is executed
  pub starting : ℕ
  -- how often the queue stands in the global queue
  pub global : ℕ
  -- threads in `Execute` that are about to take a batch
  pub at_head : ℕ
  pub batches : List Batch
  -- the jobs in the order in which they were put into the queue, and in which they were run
  pub queued : List ℕ
  pub done : List ℕ

abbrev pub b2n : Bool → ℕ
b2n true = 1
b2n false = 0

abbrev pub dispatched : Dispatch → System → System
dispatched execute_now s = record s { starting = s.starting - 1; at_head = s.at_head + 1 }
dispatched to_global s = record s { starting = s.starting - 1; global = s.global + 1 }

abbrev pub gone_on : After → System → System
gone_on finished s = s
gone_on again s = record s { at_head = s.at_head + 1 }
gone_on yielded s = record s { global = s.global + 1 }

pub data Step (s : System) : System → Type 0 where
  announced :
      (job : ℕ)
      → Step s (record s {
        queue = (announce s.queue).0;
        entering = record { job = job; first = (announce s.queue).1 } ∷ s.entering;
      })
  entered :
      (e : Entering) (before after : List Entering)
      → s.entering ≡ before ++ e ∷ after
      → Step s (record s {
        queue = enqueue e.job s.queue;
        entering = before ++ after;
        starting = s.starting + b2n e.first;
        queued = s.queued ++ e.job ∷ [];
      })
  started :
      (inside push_only : Bool) → 0 < s.starting → Step s (dispatched (dispatch inside push_only) s)
  -- a worker takes the queue from the global queue and executes it
  picked : 0 < s.global → Step s (record s { global = s.global - 1; at_head = s.at_head + 1 })
  took :
      0 < s.at_head
      → Step s (record s {
        queue = (pop_all s.queue).1;
        at_head = s.at_head - 1;
        batches =
            record { waiting = (pop_all s.queue).0; taken = length (pop_all s.queue).0 }
            ∷ s.batches;
      })
  ran :
      (job taken : ℕ) (waiting : List ℕ) (before after : List Batch)
      → s.batches ≡ before ++ record { waiting = job ∷ waiting; taken = taken } ∷ after
      → Step s (record s {
        batches = before ++ record { waiting = waiting; taken = taken } ∷ after;
        done = s.done ++ job ∷ [];
      })
  settled :
      (taken now end_time : ℕ) (before after : List Batch)
      → s.batches ≡ before ++ record { waiting = []; taken = taken } ∷ after
      → Step s (
          gone_on
            (after_batch (settle taken s.queue).1 now end_time)
            (record s { queue = (settle taken s.queue).0; batches = before ++ after }))

-- From an empty queue that nobody uses.
abbrev pub unused : System
unused = record {
  queue = record { job_count = 0; jobs = [] };
  entering = [];
  starting = 0;
  global = 0;
  at_head = 0;
  batches = [];
  queued = [];
  done = [];
}

pub data Reach (s : System) : System → Type 0 where
  here : Reach s s
  later : {t u : System} → Reach s t → Step t u → Reach s u

-- The pushes on their way that found the count 0.
abbrev pub firsts : List Entering → ℕ
firsts [] = 0
firsts (e ∷ entering) = b2n e.first + firsts entering

-- The jobs that the batches have taken, and those they have still to run.
abbrev pub taken_total : List Batch → ℕ
taken_total [] = 0
taken_total (b ∷ batches) = b.taken + taken_total batches

abbrev pub to_run : List Batch → List ℕ
to_run [] = []
to_run (b ∷ batches) = b.waiting ++ to_run batches

-- How many are responsible for the queue: first pushes, entries of the global queue, executing threads.
abbrev pub responsible : System → ℕ
responsible s = firsts s.entering + s.starting + s.global + s.at_head + length s.batches

pub record Inv (s : System) : Type 0 where
  -- the count covers the jobs that are on their way, queued, and in a batch
  pub counted : s.queue.job_count ≡ length s.entering + length s.queue.jobs + taken_total s.batches
  -- exactly one is responsible while the count is not 0, and nobody else
  pub single : responsible s ≡ (if s.queue.job_count == 0 then 0 else 1)
  -- the jobs are run in the order of the queue, each once
  pub ordered : s.queued ≡ s.done ++ (to_run s.batches ++ s.queue.jobs)
