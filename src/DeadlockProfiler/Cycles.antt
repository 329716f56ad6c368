-- ===== src/DeadlockProfiler/Cycles.antt =====
-- Paths in the lock order, and the states of the search.
use jam_server_prototype.Common.{
  ℕ, zero, suc, ◌+◌, ◌≤◌, ◌<◌, ◌≡◌, ◌≢◌, ◌⊎◌, inl, inr, sym, ap, ◌∙◌, false, List, [], ◌∷◌, ◌==◌,
  if◌then◌else◌, Bool-cases, arith,
}
use jam_server_prototype.DeadlockProfiler.{State, order_set}

-- Membership, as a disjunction.
abbrev pub In : ℕ → List ℕ → Type 0
In x [] = ⊥
In x (y ∷ ys) = (x ≡ y) ⊎ In x ys

module _ (history : ℕ → List ℕ) where
  -- One or more edges.
  pub data PathTo (from : ℕ) : ℕ → Type 0 where
    edge : {to : ℕ} → In to (history from) → PathTo from to
    further : {mid to : ℕ} → PathTo from mid → In to (history mid) → PathTo from to

  -- Some lock is taken while it is held, over other locks or directly.
  abbrev pub Cyclic : Type 0
  Cyclic = (lock : ℕ) × PathTo lock lock

-- Discovered and not finished.
abbrev pub IsOpen : State → ℕ → Type 0
IsOpen s lock = (s.order lock ≢ 0) × (s.finished lock ≡ false)

-- How many locks below a number are not discovered.
abbrev pub one_if_zero : ℕ → ℕ
one_if_zero n = if n == 0 then 1 else 0

abbrev pub undiscovered : ℕ → (ℕ → ℕ) → ℕ
undiscovered zero order = 0
undiscovered (suc n) order = one_if_zero (order n) + undiscovered n order

pub undiscovered-le :
    (n : ℕ) (f g : ℕ → ℕ)
    → ((lock : ℕ) → f lock ≢ 0 → g lock ≢ 0)
    → undiscovered n g ≤ undiscovered n f
undiscovered-le zero f g h = omega arith
undiscovered-le (suc n) f g h =
    let rest = undiscovered-le n f g h in let here = h n in ground (arith, rest, here)

pub undiscovered-order_set :
    (n here k : ℕ) (f : ℕ → ℕ)
    → here < n
    → f here ≡ 0
    → 0 < k
    → undiscovered n (order_set here k f) < undiscovered n f
undiscovered-order_set zero here k f h e p = absurd (omega (arith, h))
undiscovered-order_set (suc n) here k f h e p = elim (Bool-cases (here == n)) [
  | inl last ↦
      let here_is_n : here ≡ n = ground arith in
      let rest = undiscovered-le n f (order_set here k f) (λ lock ne. ground (arith, ne)) in
      let same : f n ≡ 0 = ap f (sym here_is_n) ∙ e in ground (arith, rest, same)
  | inr below ↦
      let rest = undiscovered-order_set n here k f (ground arith) e p in ground (arith, rest)
]

pub undiscovered_all : (n : ℕ) (f : ℕ → ℕ) → undiscovered n f ≤ n
undiscovered_all zero f = omega arith
undiscovered_all (suc n) f = let rest = undiscovered_all n f in ground (arith, rest)
