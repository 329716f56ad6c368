-- ===== src/DeadlockProfiler/Edges.antt =====
-- What a new edge does to the lock order, as `PushLock` of ServerCore/DeadLockProfiler.cpp adds it.
use jam_server_prototype.Common.{
  ℕ, ◌≡◌, ◌≢◌, ◌⊎◌, inl, inr, refl, sym, subst, true, List, [], ◌∷◌, ◌==◌, ltb, Bool-cases, ==_self,
  arith,
}
use jam_server_prototype.DeadlockProfiler.Cycles.{In, PathTo, edge, further, Cyclic}
use jam_server_prototype.DeadlockProfiler.Stack.{has_lock, add_lock, with_edge}

pub has_lock-In : (lock : ℕ) (locks : List ℕ) → has_lock lock locks ≡ true → In lock locks
unfolding has_lock
has_lock-In lock [] h = cc
has_lock-In lock (l ∷ locks) h = elim (Bool-cases (l == lock)) [
  | inl e ↦ inl (ground arith)
  | inr ne ↦ inr (has_lock-In lock locks (ground arith))
]

pub In-add_lock : (lock : ℕ) (locks : List ℕ) → In lock (add_lock lock locks)
unfolding add_lock
In-add_lock lock [] = inl refl
In-add_lock lock (l ∷ locks) = elim (Bool-cases (l == lock)) [
  | inl e ↦ rw e (inl (ground arith))
  | inr ne ↦ elim (Bool-cases (ltb lock l)) [
    | inl lt ↦ rw (ne, lt) (inl refl)
    | inr ge ↦ rw (ne, ge) (inr (In-add_lock lock locks))
  ]
]

pub In-add_lock_old : (lock x : ℕ) (locks : List ℕ) → In x locks → In x (add_lock lock locks)
unfolding add_lock
In-add_lock_old lock x [] i = absurd i
In-add_lock_old lock x (l ∷ locks) i = elim (Bool-cases (l == lock)) [
  | inl e ↦ rw e i
  | inr ne ↦ elim (Bool-cases (ltb lock l)) [
    | inl lt ↦ rw (ne, lt) (inr i)
    | inr ge ↦ rw (ne, ge) (elim i [ inl e ↦ inl e | inr j ↦ inr (In-add_lock_old lock x locks j) ])
  ]
]

pub In-add_lock_inv :
    (lock x : ℕ) (locks : List ℕ) → In x (add_lock lock locks) → (x ≡ lock) ⊎ In x locks
unfolding add_lock
In-add_lock_inv lock x [] i = i
In-add_lock_inv lock x (l ∷ locks) i = elim (Bool-cases (l == lock)) [
  | inl e ↦ inr (rw e at i)
  | inr ne ↦ elim (Bool-cases (ltb lock l)) [
    | inl lt ↦ rw (ne, lt) at i
    | inr ge ↦ elim (let j : (x ≡ l) ⊎ In x (add_lock lock locks) = rw (ne, ge) at i in j) [
      | inl e ↦ inr (inl e)
      | inr j ↦ elim (In-add_lock_inv lock x locks j) [ inl e ↦ inl e | inr k ↦ inr (inr k) ]
    ]
  ]
]

module _ (held lock : ℕ) (history : ℕ → List ℕ) where
  pub edge_new : In lock (with_edge held lock history held)
  edge_new = rw (==_self held) (In-add_lock lock (history held))

  pub edge_old : (from to : ℕ) → In to (history from) → In to (with_edge held lock history from)
  edge_old from to i = elim (Bool-cases (held == from)) [
    | inl e ↦ rw e (In-add_lock_old lock to (history from) i)
    | inr ne ↦ rw ne i
  ]

  -- An edge of the new order is the new one or an old one.
  pub edge_inv :
      (from to : ℕ)
      → In to (with_edge held lock history from)
      → ((from ≡ held) × (to ≡ lock)) ⊎ In to (history from)
  edge_inv from to i = elim (Bool-cases (held == from)) [
    | inl e ↦ elim (In-add_lock_inv lock to (history from) (rw e at i)) [
      | inl f ↦ inl (ground arith, f)
      | inr j ↦ inr j
    ]
    | inr ne ↦ inr (rw ne at i)
  ]

module _ (history : ℕ → List ℕ) where
  -- No edge, or some.
  abbrev pub Reaches : ℕ → ℕ → Type 0
  Reaches from to = (from ≡ to) ⊎ PathTo history from to

  pub path_append :
      {from mid to : ℕ} → PathTo history from mid → PathTo history mid to → PathTo history from to
  path_append p (edge i) = further p i
  path_append p (further q i) = further (path_append p q) i

  pub reach_edge :
      {from mid to : ℕ} → Reaches from mid → In to (history mid) → PathTo history from to
  reach_edge {from} {mid} {to} (inl e) i = edge (subst (λ m. In to (history m)) (sym e) i)
  reach_edge (inr p) i = further p i

  pub reach_append : {from mid to : ℕ} → Reaches from mid → Reaches mid to → Reaches from to
  reach_append {from} {mid} {to} (inl e) r = subst (λ m. Reaches m to) (sym e) r
  reach_append {from} {mid} {to} (inr p) (inl e) = inr (subst (λ m. PathTo history from m) e p)
  reach_append (inr p) (inr q) = inr (path_append p q)

pub path_mono :
    {history larger : ℕ → List ℕ} {from to : ℕ}
    → ((x y : ℕ) → In y (history x) → In y (larger x))
    → PathTo history from to
    → PathTo larger from to
path_mono more (edge i) = edge (more _ _ i)
path_mono more (further p i) = further (path_mono more p) (more _ _ i)

-- A path in the new order is an old one, or goes over the new edge.
path_inv :
    (held lock : ℕ) (history : ℕ → List ℕ) {from to : ℕ}
    → PathTo (with_edge held lock history) from to
    → PathTo history from to ⊎ (Reaches history from held × Reaches history lock to)
path_inv held lock history {from} {to} (edge i) = elim (edge_inv held lock history from to i) [
  | inl e ↦ inr (inl e.0, inl (sym e.1))
  | inr j ↦ inl (edge j)
]
path_inv held lock history {from} {to} (further {mid} p i) =
    elim (edge_inv held lock history mid to i) [
      | inl e ↦ elim (path_inv held lock history p) [
        | inl q ↦ inr (inr (subst (λ m. PathTo history from m) e.0 q), inl (sym e.1))
        | inr r ↦ inr (r.0, inl (sym e.1))
      ]
      | inr j ↦ elim (path_inv held lock history p) [
        | inl q ↦ inl (further q j)
        | inr r ↦ inr (r.0, inr (reach_edge history r.1 j))
      ]
    ]

-- If the order had no cycle, the edge closes one exactly if there is a path back.
pub closes_cycle :
    (held lock : ℕ) (history : ℕ → List ℕ)
    → lock ≢ held
    → (Cyclic history → ⊥)
    → Cyclic (with_edge held lock history)
    → PathTo history lock held
closes_cycle held lock history ne acyclic (x, p) = elim (path_inv held lock history p) [
  | inl q ↦ absurd (acyclic (x, q))
  | inr r ↦ elim (reach_append history r.1 r.0) [ inl e ↦ absurd (ne e) | inr q ↦ q ]
]

pub path_closes :
    (held lock : ℕ) (history : ℕ → List ℕ)
    → PathTo history lock held
    → Cyclic (with_edge held lock history)
path_closes held lock history p =
    (lock, further (path_mono (edge_old held lock history) p) (edge_new held lock history))
