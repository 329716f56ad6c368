-- ===== src/DeadlockProfiler/Kept.antt =====
-- What the calls of `PushLock` and `PopLock` of ServerCore/DeadLockProfiler.cpp keep, in any order and of
-- any threads.
use jam_server_prototype.Common.{
  ℕ, ◌<◌, ◌≡◌, inl, inr, refl, sym, ap, ◌∙◌, subst, none, some, List, [], ◌∷◌, ◌==◌, Bool-cases,
  Option-cases, ==_iff, ==_self, length, arith,
}
use mathlib.Core.Path.{fun_ext}
use jam_server_prototype.Common.Dict.{lookup, insert}
use jam_server_prototype.DeadlockProfiler.Stack.{
  Profiler, set_stack, lock_id_of, push_lock, popped, pop_lock, subscript, Call, push, pop, run,
}
use jam_server_prototype.DeadlockProfiler.Pushing.{IsValid, Named, lock_id_of-Named, named-IsValid}
use jam_server_prototype.DeadlockProfiler.Guarding.{
  Pushed, Outcome, push_lock-Outcome, outcome-IsValid, outcome-Pushed, set_stack-IsValid,
}

no_some {ℓ} : {A : Type ℓ} {a : A} → none ≡ some a → ⊥
no_some e = cc e

push_lock-IsValid :
    (thread name : ℕ) (p q : Profiler) → IsValid p → push_lock thread name p ≡ some q → IsValid q
push_lock-IsValid thread name p q v e =
    let (lock_id, p') = lock_id_of name p in
    outcome-IsValid thread lock_id (p'.lock_stack thread) p' q (
      subst (Outcome thread lock_id (p'.lock_stack thread) p') e
        (push_lock-Outcome thread name p v))

subscript_new :
    (name : ℕ) (p : Profiler)
    → lookup name p.name_to_id ≡ none
    → subscript name p ≡ (0, record p { name_to_id = insert name 0 p.name_to_id })
unfolding subscript
subscript_new name p e = ground arith

subscript_old :
    (name l : ℕ) (p : Profiler) → lookup name p.name_to_id ≡ some l → subscript name p ≡ (l, p)
unfolding subscript
subscript_old name l p e = ground arith

subscript-IsValid :
    (name : ℕ) (p : Profiler) → 0 < length p.name_to_id → IsValid p → IsValid (subscript name p).1
unfolding subscript
subscript-IsValid name p lt v = elim (Option-cases (lookup name p.name_to_id)) [
  | inl e ↦
      subst (λ r. IsValid r.1) (sym (subscript_new name p e))
        (named-IsValid name 0 p e (omega arith) v)
  | inr (l, e) ↦ subst (λ r. IsValid r.1) (sym (subscript_old name l p e)) v
]

subscript_stack : (name : ℕ) (p : Profiler) → (subscript name p).1.lock_stack ≡ p.lock_stack
unfolding subscript
subscript_stack name p = elim (Option-cases (lookup name p.name_to_id)) [
  | inl e ↦ ap (λ (r : ℕ × Profiler). r.1.lock_stack) (subscript_new name p e)
  | inr (l, e) ↦ ap (λ (r : ℕ × Profiler). r.1.lock_stack) (subscript_old name l p e)
]

popped-IsValid :
    (thread lock_id top : ℕ) (stack : List ℕ) (p q : Profiler)
    → p.lock_stack thread ≡ top ∷ stack
    → IsValid p
    → popped thread lock_id (top ∷ stack) p ≡ some q
    → IsValid q
popped-IsValid thread lock_id top stack p q at v e = elim (Bool-cases (top == lock_id)) [
  | inl t ↦
      let same : some (record p { lock_stack = set_stack thread stack p.lock_stack }) ≡ some q =
        rw t at e in
      subst IsValid (cc same)
        (set_stack-IsValid thread stack p v (λ l i. v.stacks thread l (rw at (inr i))))
  | inr f ↦ absurd (no_some (rw f at e))
]

pop_lock_top :
    (thread name top : ℕ) (stack : List ℕ) (p : Profiler)
    → p.lock_stack thread ≡ top ∷ stack
    → pop_lock thread name p ≡ popped thread (subscript name p).0 (top ∷ stack) (subscript name p).1
unfolding pop_lock
pop_lock_top thread name top stack p at = rw (at, pop_lock) refl

pop_lock_empty :
    (thread name : ℕ) (p : Profiler) → p.lock_stack thread ≡ [] → pop_lock thread name p ≡ none
unfolding pop_lock
pop_lock_empty thread name p at = rw (at, pop_lock) refl

pop_lock-IsValid :
    (thread name : ℕ) (stack : List ℕ) (p q : Profiler)
    → p.lock_stack thread ≡ stack
    → IsValid p
    → pop_lock thread name p ≡ some q
    → IsValid q
pop_lock-IsValid thread name [] p q at v e =
    absurd (no_some (sym (pop_lock_empty thread name p at) ∙ e))
pop_lock-IsValid thread name (top ∷ stack) p q at v e =
    popped-IsValid thread (subscript name p).0 top stack (subscript name p).1 q
      (ap (λ (f : ℕ → List ℕ). f thread) (subscript_stack name p) ∙ at)
      (subscript-IsValid name p (omega (arith, v.stacks thread top (rw at (inl refl)))) v)
      (sym (pop_lock_top thread name top stack p at) ∙ e)

-- After any calls of any threads that did not crash: every id is below the number of names, and the
-- order has no cycle.
pub run-IsValid :
    (calls : List Call) (p q : Profiler) → IsValid p → run calls p ≡ some q → IsValid q
unfolding run
run-IsValid [] p q v e = subst IsValid (cc e) v
run-IsValid (push thread name ∷ calls) p q v e = elim (Option-cases (push_lock thread name p)) [
  | inl f ↦ absurd (no_some (rw (f, run) at e))
  | inr (p', f) ↦ run-IsValid calls p' q (push_lock-IsValid thread name p p' v f) (rw (f, run) at e)
]
run-IsValid (pop thread name ∷ calls) p q v e = elim (Option-cases (pop_lock thread name p)) [
  | inl f ↦ absurd (no_some (rw (f, run) at e))
  | inr (p', f) ↦
      run-IsValid calls p' q (pop_lock-IsValid thread name (p.lock_stack thread) p p' refl v f)
        (rw (f, run) at e)
]

popped_self :
    (thread lock_id : ℕ) (stack : List ℕ) (q : Profiler)
    → popped thread lock_id (lock_id ∷ stack) q
      ≡ some (record q { lock_stack = set_stack thread stack q.lock_stack })
popped_self thread lock_id stack q = rw (==_self lock_id) refl

set_stack_twice :
    (thread : ℕ) (stack : List ℕ) (stacks : ℕ → List ℕ)
    → set_stack thread (stacks thread) (set_stack thread stack stacks) ≡ stacks
set_stack_twice thread stack stacks = fun_ext λ other. elim (Bool-cases (thread == other)) [
  | inl e ↦ rw e (ap stacks ((==_iff thread other).0 e))
  | inr ne ↦ rw ne refl
]

pop-Pushed :
    (thread name lock_id : ℕ) (p p' q : Profiler)
    → Named name p lock_id p'
    → Pushed thread lock_id (p'.lock_stack thread) p' q
    → (r : Profiler) × (pop_lock thread name q ≡ some r)
      × (r.lock_stack ≡ p.lock_stack)
      × (r.lock_history ≡ q.lock_history)
pop-Pushed thread name lock_id p p' q n (w, es, en) = (
  record q { lock_stack = set_stack thread (p'.lock_stack thread) q.lock_stack },
  pop_lock_top thread name lock_id (p'.lock_stack thread) q
        (ap (λ (f : ℕ → List ℕ). f thread) es ∙ rw (==_self thread) refl)
      ∙ ap (λ (s : ℕ × Profiler). popped thread s.0 (lock_id ∷ p'.lock_stack thread) s.1)
          (subscript_old name lock_id q (ap (lookup name) en ∙ n.found))
      ∙ popped_self thread lock_id (p'.lock_stack thread) q,
  ap (set_stack thread (p'.lock_stack thread)) es
      ∙ set_stack_twice thread (lock_id ∷ p'.lock_stack thread) p'.lock_stack
      ∙ n.same_stack,
  refl,
)

-- In a valid profiler, what a thread pushes without a crash it can pop; all stacks of locks are then as
-- they were, and the order is the one that the push left.
pub pop-push :
    (thread name : ℕ) (p q : Profiler)
    → IsValid p
    → push_lock thread name p ≡ some q
    → (r : Profiler) × (pop_lock thread name q ≡ some r)
      × (r.lock_stack ≡ p.lock_stack)
      × (r.lock_history ≡ q.lock_history)
pop-push thread name p q v e =
    let (lock_id, p') = lock_id_of name p in
    pop-Pushed thread name lock_id p p' q (lock_id_of-Named name p v) (
      outcome-Pushed thread lock_id (p'.lock_stack thread) p' q (
        subst (Outcome thread lock_id (p'.lock_stack thread) p') e
          (push_lock-Outcome thread name p v)))
