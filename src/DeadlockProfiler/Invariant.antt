-- ===== src/DeadlockProfiler/Invariant.antt =====
-- What the search keeps: the finished locks are closed under successors and lie on no cycle, and every
-- open lock leads to the one being searched.
use jam_server_prototype.Common.{
  ℕ, ◌≤◌, ◌≡◌, ◌≢◌, ◌⊎◌, inl, inr, refl, sym, ap, subst, ◌∙◌, Bool, true, false, List, [], ◌∷◌,
  ◌==◌, Bool-cases, arith,
}
use jam_server_prototype.DeadlockProfiler.{
  State, Search, searched, deadlock, no_fuel, finished_set, mark, finish,
}
use jam_server_prototype.DeadlockProfiler.Cycles.{In, PathTo, edge, further, Cyclic, IsOpen}

module _ (history : ℕ → List ℕ) where
  pub record Sound (s : State) : Type 0 where
    pub bounded : (lock : ℕ) → s.order lock ≤ s.count
    pub found : (lock : ℕ) → s.finished lock ≡ true → s.order lock ≢ 0
    pub closed :
        (from to : ℕ) → s.finished from ≡ true → In to (history from) → s.finished to ≡ true
    pub acyclic : (lock : ℕ) → s.finished lock ≡ true → PathTo history lock lock → ⊥

  -- A path from a finished lock stays among finished ones.
  pub path-finished :
      {s : State} {from to : ℕ}
      → Sound s
      → s.finished from ≡ true
      → PathTo history from to
      → s.finished to ≡ true
  path-finished i f (edge e) = i.closed _ _ f e
  path-finished i f (further p e) = i.closed _ _ (path-finished i f p) e

  -- How a state goes on: what is discovered keeps its place, what is finished stays so, and no lock
  -- is left open that was not open before.
  pub record Grown (s t : State) : Type 0 where
    pub kept : (lock : ℕ) → s.order lock ≢ 0 → t.order lock ≡ s.order lock
    pub done : (lock : ℕ) → s.finished lock ≡ true → t.finished lock ≡ true
    pub no_more : (lock : ℕ) → IsOpen t lock → IsOpen s lock
    pub stay : (lock : ℕ) → IsOpen s lock → t.finished lock ≡ false

  pub Grown-refl : (s : State) → Grown s s
  Grown-refl s = record {
    kept = λ l n. refl;
    done = λ l f. f;
    no_more = λ l o. o;
    stay = λ l o. o.1;
  }

  pub Grown-trans : {s t u : State} → Grown s t → Grown t u → Grown s u
  Grown-trans a b = record {
    kept = λ l n. b.kept l (λ e. n (sym (a.kept l n) ∙ e)) ∙ a.kept l n;
    done = λ l f. b.done l (a.done l f);
    no_more = λ l o. a.no_more l (b.no_more l o);
    stay = λ l o. b.stay l ((λ e. o.0 (sym (a.kept l o.0) ∙ e)), a.stay l o);
  }

  -- What a search of a lock comes to.
  abbrev pub After : ℕ → State → Search → Type 0
  After here s (searched t) = Sound t × Grown s t × (s.order here ≡ 0 → t.finished here ≡ true)
  After here s (deadlock a b) = Cyclic history
  After here s no_fuel = ⊥

  -- And the loop over its successors.
  abbrev pub AllFinished : List ℕ → State → Type 0
  AllFinished [] s = Unit {0}
  AllFinished (lock ∷ locks) s = (s.finished lock ≡ true) × AllFinished locks s

  abbrev pub AfterVisit : List ℕ → State → Search → Type 0
  AfterVisit locks s (searched t) = Sound t × Grown s t × AllFinished locks t
  AfterVisit locks s (deadlock a b) = Cyclic history
  AfterVisit locks s no_fuel = ⊥

  -- The state in the loop of `here`: the open locks lead to it or are it, and are discovered no later.
  pub record Visiting (here : ℕ) (s : State) : Type 0 where
    pub sound : Sound s
    pub open_here : IsOpen s here
    pub leads : (lock : ℕ) → IsOpen s lock → (lock ≡ here) ⊎ PathTo history lock here
    pub earlier : (lock : ℕ) → IsOpen s lock → s.order lock ≤ s.order here

  pub Visiting-Grown :
      (here : ℕ) (s t : State) → Sound t → Grown s t → Visiting here s → Visiting here t
  Visiting-Grown here s t i g v = record {
    sound = i;
    open_here = (λ e. v.open_here.0 (sym (g.kept here v.open_here.0) ∙ e), g.stay here v.open_here);
    leads = λ l o. v.leads l (g.no_more l o);
    earlier = λ l o.
        let was = g.no_more l o in
        omega (arith, v.earlier l was, g.kept l was.0, g.kept here v.open_here.0);
  }

  -- A lock that is discovered for the first time starts its loop.
  pub Visiting-mark :
      (here : ℕ) (s : State)
      → Sound s
      → s.order here ≡ 0
      → ((lock : ℕ) → IsOpen s lock → PathTo history lock here)
      → Visiting here (mark here s)
  Visiting-mark here s i new leads = record {
    sound = record {
      bounded = λ l. let b = i.bounded l in ground (arith, b);
      found = λ l f e. let g = i.found l f in ground (arith, g, e);
      closed = i.closed;
      acyclic = i.acyclic;
    };
    open_here = ((λ e. ground (arith, e)), unfinished);
    leads = λ l o. elim (Bool-cases (here == l)) [
      | inl same ↦ inl (ground arith)
      | inr other ↦ inr (leads l ((λ e. o.0 (ground (arith, e))), o.1))
    ];
    earlier = λ l o. let b = i.bounded l in ground (arith, b);
  }
    where
      unfinished : s.finished here ≡ false
      unfinished = elim (Bool-cases (s.finished here)) [
        | inl f ↦ absurd (i.found here f new)
        | inr f ↦ f
      ]

  finished-In :
      (locks : List ℕ) (s : State) (lock : ℕ)
      → AllFinished locks s
      → In lock locks
      → s.finished lock ≡ true
  finished-In [] s lock a e = absurd e
  finished-In (l ∷ locks) s lock a (inl e) = ap s.finished e ∙ a.0
  finished-In (l ∷ locks) s lock a (inr e) = finished-In locks s lock a.1 e

  -- If all successors of a lock are finished, so is all that it leads to.
  successors-finished :
      {s : State} {from to : ℕ}
      → Sound s
      → AllFinished (history from) s
      → PathTo history from to
      → s.finished to ≡ true
  successors-finished {s} {from} {to} i a (edge e) = finished-In (history from) s to a e
  successors-finished i a (further p e) = i.closed _ _ (successors-finished i a p) e

  true_not_false : (b : Bool) → b ≡ true → b ≡ false → ⊥
  true_not_false b t f = cc

  finished_set-old :
      (here lock : ℕ) (f : ℕ → Bool) → f lock ≡ true → finished_set here f lock ≡ true
  finished_set-old here lock f e = ground (arith, e)

  finished_set_other :
      (here lock : ℕ) (f : ℕ → Bool) → here ≢ lock → f lock ≡ finished_set here f lock
  finished_set_other here lock f ne = ground (arith, ne)

  finished_set_here :
      (here lock : ℕ) (f : ℕ → Bool) → here ≡ lock → finished_set here f lock ≡ false → ⊥
  finished_set_here here lock f e h = ground (arith, e, h)

  mark_other : (here lock : ℕ) (s : State) → here ≢ lock → (mark here s).order lock ≡ s.order lock
  mark_other here lock s ne = ground (arith, ne)

  -- A lock whose successors are all finished can be finished.
  Sound-finish :
      (here : ℕ) (s : State)
      → Sound s
      → IsOpen s here
      → AllFinished (history here) s
      → Sound (record s { finished = finished_set here s.finished })
  Sound-finish here s i o a = record {
    bounded = i.bounded;
    found = λ l f. elim (Bool-cases (here == l)) [
      | inl same ↦ (λ e. o.0 (ap s.order (ground arith) ∙ e))
      | inr other ↦ i.found l (ground (arith, f))
    ];
    closed = λ from to f e. finished_set-old here to s.finished (elim (Bool-cases (here == from)) [
      | inl same ↦
          let is_here : from ≡ here = ground arith in
          finished-In (history here) s to a (subst (λ x. In to (history x)) is_here e)
      | inr other ↦ i.closed from to (ground (arith, f)) e
    ]);
    acyclic = λ l f p. elim (Bool-cases (here == l)) [
      | inl same ↦
          let is_here : l ≡ here = ground arith in
          true_not_false (s.finished here)
            (successors-finished i a (subst (λ x. PathTo history x x) is_here p)) o.1
      | inr other ↦ i.acyclic l (ground (arith, f)) p
    ];
  }

  pub finish_lem :
      (here : ℕ) (s : State) (r : Search)
      → s.order here ≡ 0
      → Visiting here (mark here s)
      → AfterVisit (history here) (mark here s) r
      → After here s (finish here r)
  unfolding finish
  finish_lem here s (deadlock a b) new v c = c
  finish_lem here s no_fuel new v c = c
  finish_lem here s (searched u) new v (i, g, a) =
      let open_here : IsOpen u here =
        ((λ e. v.open_here.0 (sym (g.kept here v.open_here.0) ∙ e)), g.stay here v.open_here) in
      (
        Sound-finish here u i open_here a,
        record {
          kept = λ l ne.
              let other : here ≢ l = λ e. ne (ap s.order (sym e) ∙ new) in
              let same = mark_other here l s other in g.kept l (λ e. ne (sym same ∙ e)) ∙ same;
          done = λ l f. finished_set-old here l u.finished (g.done l f);
          no_more = λ l o.
              let other : here ≢ l = λ e. finished_set_here here l u.finished e o.1 in
              let was = g.no_more l (o.0, finished_set_other here l u.finished other ∙ o.1) in
              ((λ e. was.0 (mark_other here l s other ∙ e)), was.1);
          stay = λ l o.
              let other : here ≢ l = λ e. o.0 (ap s.order (sym e) ∙ new) in
              let marked : IsOpen (mark here s) l =
                ((λ e. o.0 (sym (mark_other here l s other) ∙ e)), o.1) in
              sym (finished_set_other here l u.finished other) ∙ g.stay l marked;
        },
        λ e. ground arith,
      )
