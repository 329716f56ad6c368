-- ===== src/JobQueue/Drain.antt =====
-- From every state that can be reached the threads can finish all jobs that were queued.
use jam_server_prototype.Common.{
  ℕ, ◌+◌, ◌-◌, ◌<◌, ◌≡◌, ◌≢◌, refl, sym, ap, subst, ◌∙◌, false, List, [], ◌∷◌, ◌==◌, Bool-cases,
  ltb, ne→==_false, inl, inr, length, arith, append-nil,
}
use jam_server_prototype.JobQueue.{
  dispatch, pop_all, settle, After, finished, again, yielded, after_batch,
}
use jam_server_prototype.JobQueue.Threads.{
  Batch, System, gone_on, Step, started, picked, took, ran, settled, unused, Reach, here, later,
  firsts, taken_total, responsible, Inv,
}
use jam_server_prototype.JobQueue.Serial.{
  no_batches, Step-Inv, Reach-sound, sole-Inv, responsible-le,
}

-- A step in front of a run.
before_run : {s t u : System} → Step s t → Reach t u → Reach s u
before_run st here = later here st
before_run st (later r last) = later (before_run st r) last

-- The end of a run: everything queued was run, and the count is 0.
abbrev pub Drained : System → Type 0
Drained s = (t : System) × Reach s t × (t.done ≡ s.queued) × (t.queue.job_count ≡ 0)

both_runs : {s t u : System} → Reach s t → Reach t u → Reach s u
both_runs r here = r
both_runs r (later q last) = later (both_runs r q) last

before-Drained : {s t : System} → Reach s t → t.queued ≡ s.queued → Drained t → Drained s
before-Drained r e (u, q, d, z) = (u, both_runs r q, d ∙ e, z)

gone_on-same :
    (a : After) (s : System)
    → ((gone_on a s).queue ≡ s.queue)
      × ((gone_on a s).done ≡ s.done)
      × ((gone_on a s).queued ≡ s.queued)
      × ((gone_on a s).entering ≡ s.entering)
gone_on-same finished s = (refl, refl, refl, refl)
gone_on-same again s = (refl, refl, refl, refl)
gone_on-same yielded s = (refl, refl, refl, refl)

length-nil : (xs : List ℕ) → length xs ≡ 0 → xs ≡ []
length-nil [] h = refl
length-nil (x ∷ xs) h = absurd (omega (arith, h))

-- A state with one batch that was run to its end.
record Finishing (s : System) (taken : ℕ) : Type 0 where
  inv : Inv s
  no_pushes : s.entering ≡ []
  batch : s.batches ≡ record { waiting = []; taken = taken } ∷ []

-- The run of a batch.
run_batch :
    (waiting : List ℕ) (taken : ℕ) (s : System)
    → Inv s
    → s.entering ≡ []
    → s.batches ≡ record { waiting = waiting; taken = taken } ∷ []
    → (t : System) × Reach s t × Finishing t taken × (t.queued ≡ s.queued) × (t.queue ≡ s.queue)
run_batch [] taken s i e b = (s, here, record { inv = i; no_pushes = e; batch = b }, refl, refl)
run_batch (job ∷ waiting) taken s i e b =
    let st = ran job taken waiting [] [] b in
    let (t, r, f, q, k) = run_batch waiting taken _ (Step-Inv st i) e refl in
    (t, before_run st r, f, q, k)

-- With no further job the count is the batch's, and the thread is done.
settle_last : (s : System) (taken : ℕ) → Finishing s taken → s.queue.jobs ≡ [] → Drained s
unfolding settle
settle_last s taken f none_left =
    let st = settled taken 0 1 [] [] f.batch in
    let (q, d, _, _) =
      gone_on-same (after_batch (settle taken s.queue).1 0 1)
        (record s { queue = (settle taken s.queue).0; batches = [] }) in
    (
      _,
      later here st,
      d ∙ sym (f.inv.ordered ∙ rw (f.batch, none_left) (append-nil s.done)),
      ap (λ x. x.job_count) q
          ∙ omega (
            arith,
            f.inv.counted,
            ap length f.no_pushes,
            ap taken_total f.batch,
            ap length none_left,
          ),
    )

at_head_drains : (s : System) → Inv s → s.entering ≡ [] → 0 < s.at_head → Drained s
unfolding pop_all
at_head_drains s i e h =
    let st = took h in
    let alone : s.batches ≡ [] = no_batches s.batches (omega (arith, h, responsible-le s i)) in
    let batch : Batch = record { waiting = s.queue.jobs; taken = length s.queue.jobs } in
    let (t, r, f, q, k) =
      run_batch s.queue.jobs (length s.queue.jobs) _ (Step-Inv st i) e
        (ap (λ bs. batch ∷ bs) alone) in
    before-Drained (before_run st r) q (settle_last t (length s.queue.jobs) f (ap (λ x. x.jobs) k))

-- With further jobs the thread goes round again.
settle_more : (s : System) (taken : ℕ) → Finishing s taken → s.queue.job_count ≢ taken → Drained s
unfolding settle after_batch
settle_more s taken f more =
    let st = settled taken 0 1 [] [] f.batch in
    let e : (s.queue.job_count == taken) ≡ false = ne→==_false s.queue.job_count taken more in
    let goes_on : gone_on (after_batch (s.queue.job_count == taken) 0 1) (record s {
      queue = record { job_count = s.queue.job_count - taken; jobs = s.queue.jobs };
      batches = [];
    })
        ≡ (record s {
          queue = record { job_count = s.queue.job_count - taken; jobs = s.queue.jobs };
          batches = [];
          at_head = s.at_head + 1;
        }) =
      rw e refl in
    let st' = subst (Step s) goes_on st in
    before-Drained (later here st') refl
      (at_head_drains _ (Step-Inv st' f.inv) f.no_pushes (omega arith))

Finishing-drains : (s : System) (taken : ℕ) → Finishing s taken → Drained s
Finishing-drains s taken f = elim (Bool-cases (s.queue.job_count == taken)) [
  | inl whole ↦ settle_last s taken f (
      length-nil s.queue.jobs (
        let e : s.queue.job_count ≡ taken = ground arith in
        omega (arith, e, f.inv.counted, ap taken_total f.batch)))
  | inr more ↦ settle_more s taken f (ground arith)
]

batches_drain :
    (s : System) (bs : List Batch)
    → Inv s
    → s.entering ≡ []
    → s.batches ≡ bs
    → 0 < length bs
    → Drained s
batches_drain s [] i e b h = absurd (omega (arith, h))
batches_drain s (batch ∷ bs) i e b h =
    let (_, _, same, _) = sole-Inv s [] bs batch i b in
    let (t, r, f, q, k) = run_batch batch.waiting batch.taken s i e same in
    before-Drained r q (Finishing-drains t batch.taken f)

starting_drains : (s : System) → Inv s → s.entering ≡ [] → 0 < s.starting → Drained s
unfolding dispatch
starting_drains s i e h =
    let st = started false false h in
    before-Drained (later here st) refl (at_head_drains _ (Step-Inv st i) e (omega arith))

global_drains : (s : System) → Inv s → s.entering ≡ [] → 0 < s.global → Drained s
global_drains s i e h =
    let st = picked h in
    before-Drained (later here st) refl (at_head_drains _ (Step-Inv st i) e (omega arith))

-- With nobody responsible nothing is left to do.
idle-Drained : (s : System) → Inv s → s.entering ≡ [] → responsible s ≡ 0 → Drained s
idle-Drained s i e z =
    let count : s.queue.job_count ≡ 0 = ground (arith, i.single) in
    let none_running = no_batches s.batches (omega (arith, z)) in
    let none_left = length-nil s.queue.jobs (omega (arith, count, i.counted)) in
    (s, here, sym (i.ordered ∙ rw (none_running, none_left) (append-nil s.done)), count)

-- From every state that the threads can reach in which no push is halfway through, there is a way to
-- go on after which exactly the jobs that had been queued have been run, in order, and the count is 0:
-- whatever the interleaving was, no job is left behind.
pub can_drain : {s : System} → Reach unused s → s.entering ≡ [] → Drained s
can_drain {s} r e =
    let i = Reach-sound r in
    elim (Bool-cases (ltb 0 s.at_head)) [
      | inl a ↦ at_head_drains s i e (ground arith)
      | inr a ↦ elim (Bool-cases (ltb 0 (length s.batches))) [
        | inl b ↦ batches_drain s s.batches i e refl (ground arith)
        | inr b ↦ elim (Bool-cases (ltb 0 s.starting)) [
          | inl c ↦ starting_drains s i e (ground arith)
          | inr c ↦ elim (Bool-cases (ltb 0 s.global)) [
            | inl d ↦ global_drains s i e (ground arith)
            | inr d ↦
                idle-Drained s i e
                  (let f : firsts s.entering ≡ 0 = ap firsts e in ground (arith, f))
          ]
        ]
      ]
    ]
