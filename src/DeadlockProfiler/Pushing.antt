-- ===== src/DeadlockProfiler/Pushing.antt =====
-- `PushLock` and `PopLock` of ServerCore/DeadLockProfiler.cpp: what they keep, and when they crash.
use jam_server_prototype.Common.{
  ℕ, ◌≤◌, ◌<◌, ◌≡◌, ◌≢◌, ◌⊎◌, inl, inr, refl, sym, subst, Option, none, some, List, [], ◌∷◌, ◌==◌,
  Bool-cases, Option-cases, ==_iff, ==_self, length, arith,
}
use jam_server_prototype.Common.Dict.{lookup, insert, lookup-insert, length-insert_fresh}
use jam_server_prototype.DeadlockProfiler.{Search, searched, deadlock, no_fuel, check_cycle}
use jam_server_prototype.DeadlockProfiler.Cycles.{In, PathTo, edge, Cyclic}
use jam_server_prototype.DeadlockProfiler.Detection.{Verdict, check_cycle-Verdict}
use jam_server_prototype.DeadlockProfiler.Edges.{
  has_lock-In, edge_new, edge_old, edge_inv, closes_cycle,
}
use jam_server_prototype.DeadlockProfiler.Stack.{
  Profiler, has_lock, with_edge, lock_id_of, passed, record_order, fresh,
}

-- All ids that occur are below the number of names, and the order has no cycle.
pub record IsValid (p : Profiler) : Type 0 where
  pub ids : (name l : ℕ) → lookup name p.name_to_id ≡ some l → l < length p.name_to_id
  pub order :
      (from l : ℕ)
      → In l (p.lock_history from)
      → (from < length p.name_to_id) × (l < length p.name_to_id)
  pub stacks : (thread l : ℕ) → In l (p.lock_stack thread) → l < length p.name_to_id
  pub acyclic : Cyclic p.lock_history → ⊥

no_paths : {from to : ℕ} → PathTo (λ _. []) from to → ⊥
no_paths (edge i) = i
no_paths (PathTo.further p i) = i

pub fresh-IsValid : IsValid fresh
unfolding lookup
fresh-IsValid = record {
  ids = λ name l e. absurd (cc e);
  order = λ from l i. absurd i;
  stacks = λ thread l i. absurd i;
  acyclic = λ c. no_paths c.1;
}

-- A name is put into the table.
pub named-IsValid :
    (name l : ℕ) (p : Profiler)
    → lookup name p.name_to_id ≡ none
    → l ≤ length p.name_to_id
    → IsValid p
    → IsValid (record p { name_to_id = insert name l p.name_to_id })
named-IsValid name l p new le v =
    let grown = length-insert_fresh name l p.name_to_id new in
    record {
      ids = λ other k e. elim (Bool-cases (name == other)) [
        | inl same ↦
            let here : some l ≡ some k = rw (lookup-insert name other l p.name_to_id, same) at e in
            let eq : l ≡ k = cc here in omega (arith, grown, eq, le)
        | inr ne ↦
            let there : lookup other p.name_to_id ≡ some k =
              rw (lookup-insert name other l p.name_to_id, ne) at e in
            omega (arith, grown, v.ids other k there)
      ];
      order = λ from k i. let o = v.order from k i in omega (arith, grown, o);
      stacks = λ thread k i. omega (arith, grown, v.stacks thread k i);
      acyclic = v.acyclic;
    }

-- What finding or making an id gives.
pub record Named (name : ℕ) (p : Profiler) (lock_id : ℕ) (q : Profiler) : Type 0 where
  pub valid : IsValid q
  pub found : lookup name q.name_to_id ≡ some lock_id
  pub kept : (l : ℕ) → lookup name p.name_to_id ≡ some l → l ≡ lock_id
  pub new : lookup name p.name_to_id ≡ none → lock_id ≡ length p.name_to_id
  pub same_history : q.lock_history ≡ p.lock_history
  pub same_stack : q.lock_stack ≡ p.lock_stack

new_id : (name : ℕ) (p : Profiler) → lookup name p.name_to_id ≡ none → Profiler
new_id name p e = record p { name_to_id = insert name (length p.name_to_id) p.name_to_id }

lock_id_of_new :
    (name : ℕ) (p : Profiler) (e : lookup name p.name_to_id ≡ none)
    → lock_id_of name p ≡ (length p.name_to_id, new_id name p e)
unfolding lock_id_of new_id
lock_id_of_new name p e = ground arith

lock_id_of_old :
    (name l : ℕ) (p : Profiler) → lookup name p.name_to_id ≡ some l → lock_id_of name p ≡ (l, p)
unfolding lock_id_of
lock_id_of_old name l p e = ground arith

pub lock_id_of-Named :
    (name : ℕ) (p : Profiler) → IsValid p → Named name p (lock_id_of name p).0 (lock_id_of name p).1
unfolding new_id
lock_id_of-Named name p v = elim (Option-cases (lookup name p.name_to_id)) [
  | inl e ↦
      subst (λ r. Named name p r.0 r.1) (sym (lock_id_of_new name p e))
        (record {
          valid = named-IsValid name (length p.name_to_id) p e (omega arith) v;
          found = rw (lookup-insert name name (length p.name_to_id) p.name_to_id, ==_self name);
          kept = λ l f. absurd (cc (e, f));
          new = λ f. refl;
          same_history = refl;
          same_stack = refl;
        })
  | inr (l, e) ↦
      subst (λ r. Named name p r.0 r.1) (sym (lock_id_of_old name l p e))
        (record {
          valid = v;
          found = e;
          kept = λ k f. cc (e, f);
          new = λ f. absurd (cc (e, f));
          same_history = refl;
          same_stack = refl;
        })
]

-- What recording the order gives, for a thread with `prev_id` on top.
unfoldable pub Recorded : ℕ → ℕ → Profiler → Option Profiler → Type 0
Recorded prev_id lock_id p none = (lock_id ≢ prev_id) × PathTo p.lock_history lock_id prev_id
Recorded prev_id lock_id p (some q) =
    IsValid q
    × ((lock_id ≡ prev_id) ⊎ In lock_id (q.lock_history prev_id))
    × ((from to : ℕ) → In to (p.lock_history from) → In to (q.lock_history from))
    × (q.lock_stack ≡ p.lock_stack)
    × (q.name_to_id ≡ p.name_to_id)

with_edge-IsValid :
    (held lock_id : ℕ) (p : Profiler)
    → held < length p.name_to_id
    → lock_id < length p.name_to_id
    → IsValid p
    → (Cyclic (with_edge held lock_id p.lock_history) → ⊥)
    → IsValid (record p { lock_history = with_edge held lock_id p.lock_history })
with_edge-IsValid held lock_id p ht lt v a = record {
  ids = v.ids;
  order = λ from l i. elim (edge_inv held lock_id p.lock_history from l i) [
    | inl e ↦ (omega (arith, e.0, ht), omega (arith, e.1, lt))
    | inr j ↦ v.order from l j
  ];
  stacks = v.stacks;
  acyclic = a;
}

passed-Recorded :
    (prev_id lock_id : ℕ) (p : Profiler) (r : Search)
    → lock_id ≢ prev_id
    → prev_id < length p.name_to_id
    → lock_id < length p.name_to_id
    → IsValid p
    → Verdict (with_edge prev_id lock_id p.lock_history) (length p.name_to_id) r
    → Recorded prev_id lock_id p
        (passed r (record p { lock_history = with_edge prev_id lock_id p.lock_history }))
unfolding Recorded
passed-Recorded prev_id lock_id p (searched t) ne ht lt v a = (
  with_edge-IsValid prev_id lock_id p ht lt v a,
  inr (edge_new prev_id lock_id p.lock_history),
  edge_old prev_id lock_id p.lock_history,
  refl,
  refl,
)
passed-Recorded prev_id lock_id p (deadlock a b) ne ht lt v c =
    (ne, closes_cycle prev_id lock_id p.lock_history ne v.acyclic c)
passed-Recorded prev_id lock_id p no_fuel ne ht lt v c = absurd c

edge_small :
    (prev_id lock_id : ℕ) (p : Profiler)
    → prev_id < length p.name_to_id
    → lock_id < length p.name_to_id
    → IsValid p
    → (from l : ℕ) → In l (with_edge prev_id lock_id p.lock_history from)
    → l < length p.name_to_id
edge_small prev_id lock_id p ht lt v from l i =
    elim (edge_inv prev_id lock_id p.lock_history from l i) [
      | inl e ↦ omega (arith, e.1, lt)
      | inr j ↦ (v.order from l j).1
    ]

pub record_order-Recorded :
    (prev_id : ℕ) (stack : List ℕ) (lock_id : ℕ) (p : Profiler)
    → prev_id < length p.name_to_id
    → lock_id < length p.name_to_id
    → IsValid p
    → Recorded prev_id lock_id p (record_order (prev_id ∷ stack) lock_id p)
unfolding record_order
record_order-Recorded prev_id stack lock_id p ht lt v = elim (Bool-cases (lock_id == prev_id)) [
  | inl e ↦
      rw e (unfold Recorded in (v, inl ((==_iff lock_id prev_id).0 e), λ from to i. i, refl, refl))
  | inr ne ↦ elim (Bool-cases (has_lock lock_id (p.lock_history prev_id))) [
    | inl h ↦
        rw (ne, h)
          (unfold Recorded in
            (v, inr (has_lock-In lock_id (p.lock_history prev_id) h), λ from to i. i, refl, refl))
    | inr n ↦
        rw (ne, n)
          (passed-Recorded prev_id lock_id p
            (check_cycle (with_edge prev_id lock_id p.lock_history) (length p.name_to_id))
            (ground arith) ht lt v
            (check_cycle-Verdict (with_edge prev_id lock_id p.lock_history) (length p.name_to_id)
              (edge_small prev_id lock_id p ht lt v)))
  ]
]
