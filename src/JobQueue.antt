-- ===== src/JobQueue.antt =====
-- ServerCore/JobQueue.cpp, LockQueue.h and GlobalQueue.cpp: a queue of jobs that any thread may push to
-- and at most one executes. Jobs are named by numbers. Each function is what one thread does in one
-- atomic operation or under the lock of the job list.
pub mod Threads
pub mod Serial
pub mod Drain
mod Examples
use jam_server_prototype.Common.{
  ℕ, ◌+◌, ◌-◌, Bool, true, false, not, ◌&&◌, List, [], ◌∷◌, ◌++◌, leb, ◌==◌, if◌then◌else◌,
}

pub record JobQueue : Type 0 where
  pub job_count : ℕ
  -- `_jobs`, the front first
  pub jobs : List ℕ

-- `_jobCount.fetch_add(1)`, and whether the count was 0
unfoldable pub announce : JobQueue → JobQueue × Bool
announce q = (record q { job_count = q.job_count + 1 }, q.job_count == 0)

-- `_jobs.Push(job)`
unfoldable pub enqueue : ℕ → JobQueue → JobQueue
enqueue job q = record q { jobs = q.jobs ++ job ∷ [] }

pub data Dispatch : Type 0 where
  -- this thread calls `Execute`
  execute_now : Dispatch
  -- the queue goes into the global queue
  to_global : Dispatch

-- What a `Push` that found the count 0 goes on to do: `inside` says that the thread is already
-- executing a queue, `LCurrentJobQueue`.
unfoldable pub dispatch : Bool → Bool → Dispatch
dispatch inside push_only = if not inside && not push_only then execute_now else to_global

-- `_jobs.PopAll(jobs)`
unfoldable pub pop_all : JobQueue → List ℕ × JobQueue
pop_all q = (q.jobs, record q { jobs = [] })

-- `_jobCount.fetch_sub(jobCount)`, and whether that was the whole count
unfoldable pub settle : ℕ → JobQueue → JobQueue × Bool
settle n q = (record q { job_count = q.job_count - n }, q.job_count == n)

pub data After : Type 0 where
  -- `Execute` returns
  finished : After
  -- the loop goes round again
  again : After
  -- time is up: the queue goes into the global queue
  yielded : After

-- What `Execute` goes on to do after a batch.
unfoldable pub after_batch : Bool → ℕ → ℕ → After
after_batch whole now end_time =
    if whole then finished else if leb end_time now then yielded else again
