-- ===== src/DeadlockProfiler/Detection.antt =====
-- The search finds a cycle exactly if there is one.
use jam_server_prototype.Common.{
  ℕ, zero, suc, ◌+◌, ◌≤◌, ◌<◌, ◌≡◌, ◌≢◌, ◌⊎◌, inl, inr, refl, sym, ap, subst, ◌∙◌, true, List, [],
  ◌∷◌, ltb, ◌==◌, Bool-cases, arith,
}
use jam_server_prototype.DeadlockProfiler.{
  State, Search, searched, deadlock, no_fuel, mark, visit, dfs, dfs_from, start, check_cycle,
}
use jam_server_prototype.DeadlockProfiler.Cycles.{
  In, PathTo, edge, further, Cyclic, IsOpen, undiscovered, undiscovered-le, undiscovered-order_set,
  undiscovered_all,
}
use jam_server_prototype.DeadlockProfiler.Invariant.{
  Sound, Grown, Grown-refl, Grown-trans, After, AfterVisit, Visiting, Visiting-Grown, Visiting-mark,
  finish_lem,
}

module _ (history : ℕ → List ℕ) (n : ℕ) where
  -- What the recursive call is taken to do.
  abbrev Works : ℕ → (ℕ → State → Search) → Type 0
  Works fuel go =
      (there : ℕ) (t : State)
      → Sound history t
      → ((lock : ℕ) → IsOpen t lock → PathTo history lock there)
      → there < n
      → undiscovered n t.order < fuel
      → After history there t (go there t)

  AfterVisit-cons :
      (there : ℕ) (rest : List ℕ) (s t : State) (r : Search)
      → Grown history s t
      → t.finished there ≡ true
      → AfterVisit history rest t r
      → AfterVisit history (there ∷ rest) s r
  AfterVisit-cons there rest s t (searched u) g f (i, h, a) =
      (i, Grown-trans history g h, (h.done there f, a))
  AfterVisit-cons there rest s t (deadlock a b) g f c = c
  AfterVisit-cons there rest s t no_fuel g f c = c

  Grown-undiscovered :
      (s t : State) → Grown history s t → undiscovered n t.order ≤ undiscovered n s.order
  Grown-undiscovered s t g =
      undiscovered-le n s.order t.order (λ lock ne e. ne (sym (g.kept lock ne) ∙ e))

  path_there :
      (here there lock : ℕ)
      → In there (history here)
      → (lock ≡ here) ⊎ PathTo history lock here
      → PathTo history lock there
  path_there here there lock e (inl same) = subst (λ l. PathTo history l there) (sym same) (edge e)
  path_there here there lock e (inr p) = further p e

  abbrev continue_with : (State → Search) → Search → Search
  continue_with k (searched s') = k s'
  continue_with k (deadlock a b) = deadlock a b
  continue_with k no_fuel = no_fuel

  continue_lem :
      (there : ℕ) (rest : List ℕ) (s : State) (k : State → Search) (r : Search)
      → s.order there ≡ 0
      → After history there s r
      → ((t : State) → Sound history t → Grown history s t → AfterVisit history rest t (k t))
      → AfterVisit history (there ∷ rest) s (continue_with k r)
  continue_lem there rest s k (searched t) new (i, g, f) next =
      AfterVisit-cons there rest s t (k t) g (f new) (next t i g)
  continue_lem there rest s k (deadlock a b) new c next = c
  continue_lem there rest s k no_fuel new c next = c

  visit_lem :
      (go : ℕ → State → Search) (fuel here : ℕ) (locks : List ℕ) (s : State)
      → Works fuel go
      → ((lock : ℕ) → In lock locks → (lock < n) × In lock (history here))
      → Visiting history here s
      → undiscovered n s.order < fuel
      → AfterVisit history locks s (visit go here locks s)
  unfolding visit
  visit_lem go fuel here [] s w b v m = (v.sound, Grown-refl history s, tt)
  visit_lem go fuel here (there ∷ rest) s w b v m =
      let (below, next) = b there (inl refl) in
      let ih = λ (t : State) (i : Sound history t) (g : Grown history s t).
        visit_lem go fuel here rest t w (λ l e. b l (inr e)) (Visiting-Grown history here s t i g v)
          (omega (arith, m, Grown-undiscovered s t g)) in
      let again = ih s v.sound (Grown-refl history s) in
      elim (Bool-cases (s.order there == 0)) [
        | inl new ↦ rw new (
            continue_lem there rest s (visit go here rest) (go there s) (ground arith)
              (w there s v.sound (λ l o. path_there here there l next (v.leads l o)) below m) ih)
        | inr old ↦ rw old (elim (Bool-cases (s.finished there)) [
          | inl f ↦ elim (Bool-cases (ltb (s.order here) (s.order there))) [
            | inl c ↦ rw c (AfterVisit-cons there rest s s _ (Grown-refl history s) f again)
            | inr c ↦ rw (c, f) (AfterVisit-cons there rest s s _ (Grown-refl history s) f again)
          ]
          | inr u ↦
              let is_open : IsOpen s there = ((λ e. ground (arith, e)), u) in
              elim (Bool-cases (ltb (s.order here) (s.order there))) [
                | inl c ↦ absurd (ground (arith, v.earlier there is_open))
                | inr c ↦
                    rw (c, u) (there, path_there here there there next (v.leads there is_open))
              ]
        ])
      ]

  dfs-Works :
      (fuel : ℕ)
      → ((from lock : ℕ) → In lock (history from) → lock < n)
      → Works fuel (dfs history fuel)
  unfolding dfs
  dfs-Works zero small there t i leads below m = absurd (omega (arith, m))
  dfs-Works (suc fuel) small there t i leads below m = elim (Bool-cases (t.order there == 0)) [
    | inl new ↦
        let undone : t.order there ≡ 0 = ground arith in
        let v = Visiting-mark history there t i undone leads in
        let fewer =
          undiscovered-order_set n there (t.count + 1) t.order below undone (omega arith) in
        rw new (
          finish_lem history there t _ undone v (
            visit_lem (dfs history fuel) fuel there (history there) (mark there t)
              (dfs-Works fuel small) (λ l e. (small there l e, e)) v (omega (arith, m, fewer))))
    | inr old ↦ rw old (i, Grown-refl history t, λ e. absurd (ground (arith, e)))
  ]

  -- What the loop over all locks comes to.
  abbrev AfterAll : ℕ → ℕ → State → Search → Type 0
  AfterAll left lock_id s (searched t) =
      Sound history t
      × Grown history s t
      × ((lock : ℕ) → lock_id ≤ lock → lock < lock_id + left → t.finished lock ≡ true)
  AfterAll left lock_id s (deadlock a b) = Cyclic history
  AfterAll left lock_id s no_fuel = ⊥

  AfterAll-cons :
      (left lock_id : ℕ) (s t : State) (r : Search)
      → Grown history s t
      → t.finished lock_id ≡ true
      → AfterAll left (suc lock_id) t r
      → AfterAll (suc left) lock_id s r
  AfterAll-cons left lock_id s t (searched u) g f (i, h, a) = (
    i,
    Grown-trans history g h,
    λ l le lt. elim (Bool-cases (lock_id == l)) [
      | inl same ↦ ap u.finished (sym (ground arith)) ∙ h.done lock_id f
      | inr other ↦ a l (ground arith) (omega (arith, lt))
    ],
  )
  AfterAll-cons left lock_id s t (deadlock a b) g f c = c
  AfterAll-cons left lock_id s t no_fuel g f c = c

  -- With no open lock, one that was discovered is finished.
  discovered-finished :
      (s : State) (lock : ℕ)
      → ((l : ℕ) → IsOpen s l → ⊥)
      → s.order lock ≢ 0
      → s.finished lock ≡ true
  discovered-finished s lock closed ne = elim (Bool-cases (s.finished lock)) [
    | inl f ↦ f
    | inr u ↦ absurd (closed lock (ne, u))
  ]

  now_finished :
      (lock : ℕ) (s t : State)
      → ((l : ℕ) → IsOpen s l → ⊥)
      → Grown history s t
      → (s.order lock ≡ 0 → t.finished lock ≡ true)
      → t.finished lock ≡ true
  now_finished lock s t closed g f = elim (Bool-cases (s.order lock == 0)) [
    | inl new ↦ f (ground arith)
    | inr old ↦ g.done lock (discovered-finished s lock closed (λ e. ground (arith, e)))
  ]

  dfs_from_on :
      (left lock_id : ℕ) (s : State) (k : State → Search) (r : Search)
      → ((l : ℕ) → IsOpen s l → ⊥)
      → After history lock_id s r
      → ((t : State) → Sound history t → Grown history s t → AfterAll left (suc lock_id) t (k t))
      → AfterAll (suc left) lock_id s (continue_with k r)
  dfs_from_on left lock_id s k (searched t) closed (i, g, f) next =
      AfterAll-cons left lock_id s t (k t) g (now_finished lock_id s t closed g f) (next t i g)
  dfs_from_on left lock_id s k (deadlock a b) closed c next = c
  dfs_from_on left lock_id s k no_fuel closed c next = c

  dfs_from_lem :
      (fuel left lock_id : ℕ) (s : State)
      → ((from lock : ℕ) → In lock (history from) → lock < n)
      → Sound history s
      → ((l : ℕ) → IsOpen s l → ⊥)
      → lock_id + left ≤ n
      → n < fuel
      → AfterAll left lock_id s (dfs_from history fuel left lock_id s)
  unfolding dfs_from
  dfs_from_lem fuel zero lock_id s small i closed h m =
      (i, Grown-refl history s, λ l le lt. absurd (omega (arith, le, lt)))
  dfs_from_lem fuel (suc left) lock_id s small i closed h m =
      dfs_from_on left lock_id s (dfs_from history fuel left (suc lock_id))
        (dfs history fuel lock_id s) closed
        (dfs-Works fuel small lock_id s i (λ l o. absurd (closed l o)) (omega (arith, h))
          (omega (arith, m, undiscovered_all n s.order)))
        (λ t j g.
          dfs_from_lem fuel left (suc lock_id) t small j (λ l o. closed l (g.no_more l o))
            (omega (arith, h)) m)

  -- What the answer of the check says.
  abbrev pub Verdict : Search → Type 0
  Verdict (searched t) = Cyclic history → ⊥
  Verdict (deadlock a b) = Cyclic history
  Verdict no_fuel = ⊥

  path_below :
      {from to : ℕ}
      → ((from lock : ℕ) → In lock (history from) → lock < n)
      → PathTo history from to
      → to < n
  path_below {from} {to} small (edge e) = small from to e
  path_below {from} {to} small (further {mid} p e) = small mid to e

  AfterAll-Verdict :
      (r : Search)
      → ((from lock : ℕ) → In lock (history from) → lock < n)
      → AfterAll n 0 start r
      → Verdict r
  AfterAll-Verdict (searched t) small (i, g, a) =
      λ c. i.acyclic c.0 (a c.0 (omega arith) (omega (arith, path_below small c.1))) c.1
  AfterAll-Verdict (deadlock a b) small c = c
  AfterAll-Verdict no_fuel small c = c

start-Sound : (history : ℕ → List ℕ) → Sound history start
start-Sound history = record {
  bounded = λ l. omega arith;
  found = λ l f. absurd (ground arith);
  closed = λ from to f e. absurd (ground arith);
  acyclic = λ l f p. ground arith;
}

-- If all locks that occur in the order are below the lock count: the check ends, it reports a deadlock
-- only if some lock is taken while it is held, directly or over other locks, and it passes only if no
-- lock is.
pub check_cycle-Verdict :
    (history : ℕ → List ℕ) (lock_count : ℕ)
    → ((from lock : ℕ) → In lock (history from) → lock < lock_count)
    → Verdict history lock_count (check_cycle history lock_count)
unfolding check_cycle
check_cycle-Verdict history lock_count small =
    AfterAll-Verdict history lock_count (dfs_from history (suc lock_count) lock_count 0 start) small
      (dfs_from_lem history lock_count (suc lock_count) lock_count 0 start small
        (start-Sound history) (λ l o. o.0 refl) (omega arith) (omega arith))
