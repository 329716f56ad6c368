-- ===== src/JobQueue/Serial.antt =====
-- One thread at a time executes the queue, no wakeup is lost, and every job is run once, in order.
use jam_server_prototype.Common.{
  ℕ, ◌+◌, ◌-◌, ◌≤◌, ◌<◌, ◌≡◌, ◌≢◌, refl, ap, ◌∙◌, Bool, true, false, List, [], ◌∷◌, ◌++◌, ◌==◌,
  length, arith, length-append, append_assoc, append-nil,
}
use jam_server_prototype.JobQueue.{
  announce, enqueue, Dispatch, execute_now, to_global, dispatch, pop_all, settle, After, finished,
  again, yielded, after_batch,
}
use jam_server_prototype.JobQueue.Threads.{
  Entering, Batch, System, b2n, dispatched, gone_on, Step, announced, entered, started, picked,
  took, ran, settled, unused, Reach, here, later, firsts, taken_total, to_run, responsible, Inv,
}

firsts-insert :
    (before after : List Entering) (e : Entering)
    → firsts (before ++ e ∷ after) ≡ b2n e.first + firsts (before ++ after)
firsts-insert [] after e = refl
firsts-insert (d ∷ before) after e = omega (arith, firsts-insert before after e)

-- A list of at most one element that has `b` in it.
sole :
    (before after : List Batch) (b : Batch)
    → length (before ++ b ∷ after) ≤ 1
    → (before ≡ []) × (after ≡ [])
sole [] [] b h = (refl, refl)
sole [] (c ∷ after) b h = absurd (omega (arith, h))
sole (c ∷ before) after b h = absurd (omega (arith, h, length-append before (b ∷ after)))

pub responsible-le : (s : System) → Inv s → responsible s ≤ 1
responsible-le s i = ground (arith, i.single)

-- If a batch runs, it is the only one, and nobody else is responsible.
pub sole-Inv :
    (s : System) (before after : List Batch) (b : Batch)
    → Inv s
    → s.batches ≡ before ++ b ∷ after
    → (before ≡ [])
      × (after ≡ [])
      × (s.batches ≡ b ∷ [])
      × (firsts s.entering + s.starting + s.global + s.at_head ≡ 0)
sole-Inv s before after b i e =
    let le = responsible-le s i in
    let (x, y) = sole before after b (omega (arith, le, ap length e)) in
    let same : s.batches ≡ b ∷ [] = e ∙ rw (x, y) refl in
    (x, y, same, omega (arith, le, ap length same))

pub no_batches : (batches : List Batch) → length batches ≡ 0 → batches ≡ []
no_batches [] h = refl
no_batches (b ∷ batches) h = absurd (omega (arith, h))

announced-Inv :
    (s : System) (job : ℕ)
    → Inv s
    → Inv (record s {
      queue = (announce s.queue).0;
      entering = record { job = job; first = (announce s.queue).1 } ∷ s.entering;
    })
unfolding announce
announced-Inv s job i = record {
  counted = omega (arith, i.counted);
  single = ground (arith, i.single);
  ordered = i.ordered;
}

entered-Inv :
    (s : System) (e : Entering) (before after : List Entering)
    → s.entering ≡ before ++ e ∷ after
    → Inv s
    → Inv (record s {
      queue = enqueue e.job s.queue;
      entering = before ++ after;
      starting = s.starting + b2n e.first;
      queued = s.queued ++ e.job ∷ [];
    })
unfolding enqueue
entered-Inv s e before after h i =
    let n = ap length h in
    let f = ap firsts h in
    let g = firsts-insert before after e in
    let l = length-append before (e ∷ after) in
    let m = length-append before after in
    let k = length-append s.queue.jobs (e.job ∷ []) in
    record {
      counted = omega (arith, i.counted, n, l, m, k);
      single = omega (arith, f, g) ∙ i.single;
      ordered = ap (λ xs. xs ++ e.job ∷ []) i.ordered ∙ simp append_assoc;
    }

started-Inv : (s : System) (d : Dispatch) → 0 < s.starting → Inv s → Inv (dispatched d s)
started-Inv s execute_now h i = record {
  counted = i.counted;
  single = omega (arith, h) ∙ i.single;
  ordered = i.ordered;
}
started-Inv s to_global h i = record {
  counted = i.counted;
  single = omega (arith, h) ∙ i.single;
  ordered = i.ordered;
}

took-Inv :
    (s : System)
    → 0 < s.at_head
    → Inv s
    → Inv (record s {
      queue = (pop_all s.queue).1;
      at_head = s.at_head - 1;
      batches =
          record { waiting = (pop_all s.queue).0; taken = length (pop_all s.queue).0 } ∷ s.batches;
    })
unfolding pop_all
took-Inv s h i =
    let none_else = no_batches s.batches (omega (arith, h, responsible-le s i)) in
    record {
      counted = omega (arith, i.counted);
      single = omega (arith, h) ∙ i.single;
      ordered = i.ordered ∙ rw none_else (simp append-nil);
    }

ran-Inv :
    (s : System) (job taken : ℕ) (waiting : List ℕ) (before after : List Batch)
    → s.batches ≡ before ++ record { waiting = job ∷ waiting; taken = taken } ∷ after
    → Inv s
    → Inv (record s {
      batches = before ++ record { waiting = waiting; taken = taken } ∷ after;
      done = s.done ++ job ∷ [];
    })
ran-Inv s job taken waiting before after h i =
    let (x, y, same, alone) = sole-Inv s before after _ i h in
    rw (x, y)
      (record {
        counted = i.counted ∙ rw same refl;
        single = rw same refl ∙ i.single;
        ordered = i.ordered ∙ rw same (simp (append_assoc, append-nil));
      })

-- The state after a batch is settled, before the thread goes on.
abbrev settled_one : ℕ → System → System
settled_one taken s = record s {
  queue = record { job_count = s.queue.job_count - taken; jobs = s.queue.jobs };
  batches = [];
}

module _ (s : System) (taken : ℕ) (i : Inv s)
    (same : s.batches ≡ record { waiting = []; taken = taken } ∷ [])
    (alone : firsts s.entering + s.starting + s.global + s.at_head ≡ 0) where
  total : s.queue.job_count ≡ length s.entering + length s.queue.jobs + taken
  total = omega (arith, i.counted, ap taken_total same)

  in_order : s.queued ≡ s.done ++ s.queue.jobs
  in_order = i.ordered ∙ rw same refl

  after-Inv :
      (a : After)
      → (a ≡ finished → s.queue.job_count ≡ taken)
      → (a ≢ finished → s.queue.job_count ≢ taken)
      → Inv (gone_on a (settled_one taken s))
  after-Inv finished whole more =
      let e = whole refl in
      let zero_left : s.queue.job_count - taken ≡ 0 = omega (arith, e) in
      record {
        counted = omega (arith, total);
        single = ground (arith, alone, zero_left);
        ordered = in_order;
      }
  after-Inv again whole more =
      let e = more (λ c. cc) in
      record {
        counted = omega (arith, total);
        single = ground (arith, alone, total, e);
        ordered = in_order;
      }
  after-Inv yielded whole more =
      let e = more (λ c. cc) in
      record {
        counted = omega (arith, total);
        single = ground (arith, alone, total, e);
        ordered = in_order;
      }

after_batch-finished :
    (whole : Bool) (now end_time : ℕ)
    → (after_batch whole now end_time ≡ finished → whole ≡ true)
      × (after_batch whole now end_time ≢ finished → whole ≡ false)
unfolding after_batch
after_batch-finished true now end_time = (λ e. refl, λ ne. absurd (ne refl))
after_batch-finished false now end_time = (λ e. absurd (ground arith), λ ne. refl)

settled-Inv :
    (s : System) (taken now end_time : ℕ) (before after : List Batch)
    → s.batches ≡ before ++ record { waiting = []; taken = taken } ∷ after
    → Inv s
    → Inv (
        gone_on
          (after_batch (settle taken s.queue).1 now end_time)
          (record s { queue = (settle taken s.queue).0; batches = before ++ after }))
unfolding settle
settled-Inv s taken now end_time before after h i =
    let (x, y, same, alone) = sole-Inv s before after _ i h in
    let (fin, more) = after_batch-finished (s.queue.job_count == taken) now end_time in
    rw (x, y)
      (after-Inv s taken i same alone (after_batch (s.queue.job_count == taken) now end_time)
        (λ e. ground (arith, fin e)) (λ ne e. ground (arith, more ne, e)))

pub Step-Inv : {s t : System} → Step s t → Inv s → Inv t
Step-Inv {s} (announced job) i = announced-Inv s job i
Step-Inv {s} (entered e before after h) i = entered-Inv s e before after h i
Step-Inv {s} (started inside push_only h) i = started-Inv s (dispatch inside push_only) h i
Step-Inv {s} (picked h) i = record {
  counted = i.counted;
  single = omega (arith, h) ∙ i.single;
  ordered = i.ordered;
}
Step-Inv {s} (took h) i = took-Inv s h i
Step-Inv {s} (ran job taken waiting before after h) i = ran-Inv s job taken waiting before after h i
Step-Inv {s} (settled taken now end_time before after h) i =
    settled-Inv s taken now end_time before after h i

pub Reach-sound : {s : System} → Reach unused s → Inv s
Reach-sound here = record { counted = refl; single = refl; ordered = refl }
Reach-sound (later r st) = Step-Inv st (Reach-sound r)

-- However the threads interleave: at most one of them executes the queue; the jobs that were run are
-- the first ones that were queued, in order and each once, followed by those of the running batch and
-- those still queued; and while a job is queued or on its way, exactly one push, entry of the global
-- queue or executing thread is there that will see to it.
pub serial_fifo :
    {s : System}
    → Reach unused s
    → (s.at_head + length s.batches ≤ 1)
      × (s.queued ≡ s.done ++ (to_run s.batches ++ s.queue.jobs))
      × (0 < length s.queue.jobs + length s.entering → responsible s ≡ 1)
serial_fifo {s} r =
    let i = Reach-sound r in
    (omega (arith, responsible-le s i), i.ordered, λ h. ground (arith, i.single, i.counted))
