-- ===== src/DeadlockProfiler/Examples.antt =====
-- Three locks in a ring, and two threads that take two locks in opposite orders.
use jam_server_prototype.Common.{ℕ, zero, suc, ◌<◌, ◌≡◌, refl, inl, inr, List, [], ◌∷◌, arith}
use jam_server_prototype.DeadlockProfiler.{deadlock, visit, finish, dfs, dfs_from, check_cycle}
use jam_server_prototype.DeadlockProfiler.Cycles.{In}
use jam_server_prototype.Common.{none, some, ◌↔◌}
use jam_server_prototype.Common.Dict.{lookup, insert}
use jam_server_prototype.DeadlockProfiler.Stack.{
  Profiler, Call, push, run, push_lock, lock_id_of, record_order, has_lock, add_lock, with_edge,
  set_stack, fresh,
}
use jam_server_prototype.DeadlockProfiler.Pushing.{IsValid, fresh-IsValid}
use jam_server_prototype.DeadlockProfiler.Guarding.{WouldClose, push_crashes_iff}
use jam_server_prototype.DeadlockProfiler.Kept.{run-IsValid}
use jam_server_prototype.DeadlockProfiler.Detection.{Verdict, check_cycle-Verdict}

abbrev ring : ℕ → List ℕ
ring zero = 1 ∷ []
ring (suc zero) = 2 ∷ []
ring (suc (suc zero)) = 0 ∷ []
ring (suc (suc (suc n))) = []

ring_small : (from lock : ℕ) → In lock (ring from) → lock < 3
ring_small zero lock (inl e) = omega (arith, e)
ring_small zero lock (inr e) = absurd e
ring_small (suc zero) lock (inl e) = omega (arith, e)
ring_small (suc zero) lock (inr e) = absurd e
ring_small (suc (suc zero)) lock (inl e) = omega (arith, e)
ring_small (suc (suc zero)) lock (inr e) = absurd e
ring_small (suc (suc (suc n))) lock e = absurd e

ring_detected : check_cycle ring 3 ≡ deadlock 2 0
unfolding check_cycle dfs_from dfs visit finish
ring_detected = refl

check_cycle-Verdict_example : Verdict ring 3 (check_cycle ring 3)
check_cycle-Verdict_example = check_cycle-Verdict ring 3 ring_small

-- Thread 0 takes lock 10 and then lock 11; thread 1 takes lock 11.
abbrev crossing : List Call
crossing = push 0 10 ∷ push 0 11 ∷ push 1 11 ∷ []

abbrev crossed : Profiler
crossed = record {
  name_to_id = (10, 0) ∷ (11, 1) ∷ [];
  lock_history = with_edge 0 1 (λ _. []);
  lock_stack = set_stack 1 (1 ∷ []) (set_stack 0 (1 ∷ 0 ∷ []) (set_stack 0 (0 ∷ []) (λ _. [])));
}

run-crossing : run crossing fresh ≡ some crossed
unfolding run push_lock lock_id_of record_order has_lock add_lock check_cycle dfs_from dfs visit
    finish lookup insert
run-crossing = refl

run-IsValid_example : IsValid crossed
run-IsValid_example = run-IsValid crossing fresh crossed fresh-IsValid run-crossing

-- Thread 1 may not take lock 10.
push_crashes_iff_example : (push_lock 1 10 crossed ≡ none) ↔ WouldClose 10 1 crossed
push_crashes_iff_example =
    push_crashes_iff 1 10 1 [] crossed
      (run-IsValid crossing fresh crossed fresh-IsValid run-crossing) refl

taken_first :
    push_lock 2 10 fresh
    ≡ some (record {
      name_to_id = (10, 0) ∷ [];
      lock_history = λ _. [];
      lock_stack = set_stack 2 (0 ∷ []) (λ _. []);
    })
unfolding push_lock lock_id_of record_order lookup insert
taken_first = refl
