-- ===== src/DeadlockProfiler/Guarding.antt =====
-- What `PushLock` of ServerCore/DeadLockProfiler.cpp gives, and when it crashes.
use jam_server_prototype.Common.{
  ℕ, ◌<◌, ◌≡◌, ◌≢◌, ◌⊎◌, ◌↔◌, inl, inr, refl, sym, ap, ◌∙◌, subst, Option, none, some, List, [],
  ◌∷◌, ◌==◌, Bool-cases, Option-cases, length, arith,
}
use jam_server_prototype.Common.Dict.{lookup}
use jam_server_prototype.DeadlockProfiler.Cycles.{In, PathTo, edge, further}
use jam_server_prototype.DeadlockProfiler.Edges.{path_mono}
use jam_server_prototype.DeadlockProfiler.Stack.{
  Profiler, set_stack, lock_id_of, record_order, push_lock, pushed,
}
use jam_server_prototype.DeadlockProfiler.Pushing.{
  IsValid, Named, lock_id_of-Named, Recorded, record_order-Recorded,
}

-- The stack of one thread is set.
pub set_stack-IsValid :
    (thread : ℕ) (stack : List ℕ) (p : Profiler)
    → IsValid p
    → ((l : ℕ) → In l stack → l < length p.name_to_id)
    → IsValid (record p { lock_stack = set_stack thread stack p.lock_stack })
set_stack-IsValid thread stack p v small = record {
  ids = v.ids;
  order = v.order;
  stacks = λ other l i. elim (Bool-cases (thread == other)) [
    | inl e ↦ small l (rw e at i)
    | inr ne ↦ v.stacks other l (rw ne at i)
  ];
  acyclic = v.acyclic;
}

abbrev pub Pushed : ℕ → ℕ → List ℕ → Profiler → Profiler → Type 0
Pushed thread lock_id stack p q =
    IsValid q
    × (q.lock_stack ≡ set_stack thread (lock_id ∷ stack) p.lock_stack)
    × (q.name_to_id ≡ p.name_to_id)

-- What `PushLock` gives, from `p` with the lock named and the stack there was.
unfoldable pub Outcome : ℕ → ℕ → List ℕ → Profiler → Option Profiler → Type 0
Outcome thread lock_id [] p none = ⊥
Outcome thread lock_id (top ∷ stack) p none = (lock_id ≢ top) × PathTo p.lock_history lock_id top
Outcome thread lock_id stack p (some q) =
    Pushed thread lock_id stack p q
    × ((top : ℕ) (rest : List ℕ)
        → stack ≡ top ∷ rest
        → (lock_id ≡ top) ⊎ In lock_id (q.lock_history top))
    × ((from to : ℕ) → In to (p.lock_history from) → In to (q.lock_history from))

push-Pushed :
    (thread lock_id : ℕ) (stack : List ℕ) (p q : Profiler)
    → p.lock_stack thread ≡ stack
    → lock_id < length p.name_to_id
    → IsValid q
    → q.lock_stack ≡ p.lock_stack
    → q.name_to_id ≡ p.name_to_id
    → Pushed thread lock_id stack p
        (record q { lock_stack = set_stack thread (lock_id ∷ q.lock_stack thread) q.lock_stack })
push-Pushed thread lock_id stack p q at lt v es en = (
  set_stack-IsValid thread (lock_id ∷ q.lock_stack thread) q v
      (λ l i. elim i [ inl e ↦ omega (arith, e, lt, ap length en) | inr j ↦ v.stacks thread l j ]),
  rw (es, at) refl,
  en,
)

Recorded-Outcome :
    (thread lock_id top : ℕ) (stack : List ℕ) (p : Profiler) (r : Option Profiler)
    → p.lock_stack thread ≡ top ∷ stack
    → lock_id < length p.name_to_id
    → Recorded top lock_id p r
    → Outcome thread lock_id (top ∷ stack) p (pushed thread lock_id r)
unfolding Outcome pushed Recorded
Recorded-Outcome thread lock_id top stack p none at lt c = c
Recorded-Outcome thread lock_id top stack p (some q) at lt (w, i, m, es, en) = (
  push-Pushed thread lock_id (top ∷ stack) p q at lt w es en,
  λ t rest e.
      let same : top ≡ t = cc e in
      subst (λ x. (lock_id ≡ x) ⊎ In lock_id (q.lock_history x)) same i,
  m,
)

pushed-Outcome :
    (thread lock_id : ℕ) (stack : List ℕ) (p : Profiler)
    → p.lock_stack thread ≡ stack
    → lock_id < length p.name_to_id
    → ((l : ℕ) → In l stack → l < length p.name_to_id)
    → IsValid p
    → Outcome thread lock_id stack p (pushed thread lock_id (record_order stack lock_id p))
pushed-Outcome thread lock_id [] p at lt small v =
    unfold Outcome pushed record_order in
    (
      push-Pushed thread lock_id [] p p at lt v refl refl,
      λ top rest e. absurd (cc e),
      λ from to i. i,
    )
pushed-Outcome thread lock_id (top ∷ stack) p at lt small v =
    Recorded-Outcome thread lock_id top stack p (record_order (top ∷ stack) lock_id p) at lt
      (record_order-Recorded top stack lock_id p (small top (inl refl)) lt v)

-- In terms of the profiler after the name has its id.
pub push_lock-Outcome :
    (thread name : ℕ) (p : Profiler)
    → IsValid p
    → let (lock_id, p') = lock_id_of name p in
      Outcome thread lock_id (p'.lock_stack thread) p' (push_lock thread name p)
unfolding push_lock
push_lock-Outcome thread name p v =
    let (lock_id, p') = lock_id_of name p in
    let n = lock_id_of-Named name p v in
    pushed-Outcome thread lock_id (p'.lock_stack thread) p' refl (n.valid.ids name lock_id n.found)
      (n.valid.stacks thread) n.valid

path_source :
    {history : ℕ → List ℕ} {from to : ℕ} → PathTo history from to → (l : ℕ) × In l (history from)
path_source {to = to} (edge i) = (to, i)
path_source (further p i) = path_source p

-- The name has an id, other than that of the lock on top, from which that lock is reached.
abbrev pub WouldClose : ℕ → ℕ → Profiler → Type 0
WouldClose name top p =
    (lock_id : ℕ) × (lookup name p.name_to_id ≡ some lock_id)
    × (lock_id ≢ top)
    × PathTo p.lock_history lock_id top

module _ (thread name top : ℕ) (rest : List ℕ) (p : Profiler) where
  crash-WouldClose :
      (lock_id : ℕ) (q : Profiler)
      → IsValid p
      → Named name p lock_id q
      → lock_id ≢ top
      → PathTo q.lock_history lock_id top
      → WouldClose name top p
  crash-WouldClose lock_id q v n ne path =
      let old : PathTo p.lock_history lock_id top =
        subst (λ h. PathTo h lock_id top) n.same_history path in
      elim (Option-cases (lookup name p.name_to_id)) [
        | inl e ↦
            let s = path_source old in
            let o = v.order lock_id s.0 s.1 in absurd (omega (arith, o.0, n.new e))
        | inr (l, e) ↦ (lock_id, e ∙ ap some (n.kept l e), ne, old)
      ]

  close-crash :
      (lock_id : ℕ) (p' : Profiler) (r : Option Profiler)
      → Named name p lock_id p'
      → Outcome thread lock_id (top ∷ rest) p' r
      → WouldClose name top p
      → r ≡ none
  unfolding Outcome
  close-crash lock_id p' none n o w = refl
  close-crash lock_id p' (some q) n (u, i, m) (l, e, ne, path) =
      let same : l ≡ lock_id = n.kept l e in
      let path' : PathTo p'.lock_history lock_id top =
        subst (λ x. PathTo p'.lock_history x top) same
          (subst (λ h. PathTo h l top) (sym n.same_history) path) in
      elim (i top rest refl) [
        | inl f ↦ absurd (ne (same ∙ f))
        | inr j ↦ absurd (u.0.acyclic (lock_id, further (path_mono m path') j))
      ]

  outcome-WouldClose :
      (lock_id : ℕ) (p' : Profiler)
      → IsValid p
      → Named name p lock_id p'
      → Outcome thread lock_id (top ∷ rest) p' none
      → WouldClose name top p
  unfolding Outcome
  outcome-WouldClose lock_id p' v n o = crash-WouldClose lock_id p' v n o.0 o.1

  -- In a valid profiler, for a thread with the lock `top` on top: `PushLock` crashes exactly if the
  -- name has an id other than `top` from which `top` is reached in the recorded order.
  pub push_crashes_iff :
      IsValid p
      → p.lock_stack thread ≡ top ∷ rest
      → (push_lock thread name p ≡ none) ↔ WouldClose name top p
  push_crashes_iff v at =
      let (lock_id, p') = lock_id_of name p in
      let n = lock_id_of-Named name p v in
      let o : Outcome thread lock_id (top ∷ rest) p' (push_lock thread name p) =
        subst (λ s. Outcome thread lock_id s p' (push_lock thread name p))
          (ap (λ (f : ℕ → List ℕ). f thread) n.same_stack ∙ at)
          (push_lock-Outcome thread name p v) in
      (
        λ e. outcome-WouldClose lock_id p' v n (subst (Outcome thread lock_id (top ∷ rest) p') e o),
        close-crash lock_id p' (push_lock thread name p) n o,
      )

pub outcome-IsValid :
    (thread lock_id : ℕ) (stack : List ℕ) (p q : Profiler)
    → Outcome thread lock_id stack p (some q)
    → IsValid q
unfolding Outcome
outcome-IsValid thread lock_id [] p q o = o.0.0
outcome-IsValid thread lock_id (top ∷ stack) p q o = o.0.0

pub outcome-Pushed :
    (thread lock_id : ℕ) (stack : List ℕ) (p q : Profiler)
    → Outcome thread lock_id stack p (some q)
    → Pushed thread lock_id stack p q
unfolding Outcome
outcome-Pushed thread lock_id [] p q o = o.0
outcome-Pushed thread lock_id (top ∷ stack) p q o = o.0
