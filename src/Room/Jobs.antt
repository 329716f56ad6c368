-- ===== src/Room/Jobs.antt =====
-- The physics jobs of a room, GameServer/Room.cpp: what is made when the queue has been run.
use jam_server_prototype.Common.{
  ℕ, ◌≡◌, ◌&&◌, ==_self, Bool, false, inl, inr, refl, ap, ◌∙◌, subst, true, some, List, [], ◌∷◌,
  ◌++◌, Option-cases,
}
use jam_server_prototype.Common.Sets.{contains, set_insert, set_erase}
use jam_server_prototype.Room.Actors.{
  Look, Job, create_manager, simulate, fetch_results, update_bots, update_players,
  create_controller, create_body, add_to_scene, remove_from_scene, Px,
}
use jam_server_prototype.Room.Execution.{present, all_in, run_job, run_all, move_all}
use jam_server_prototype.Room.Holding.{
  Fewer, Within, Among-set_insert, Among-inserted, all_in-Among, Within-refl, only_some, if_some,
  Within-trans, grown, creates, is_players, is_bots, ran_only,
}

and_true : (a b : Bool) → (a && b) ≡ true → (a ≡ true) × (b ≡ true)
and_true true b h = (refl, h)
and_true false b h = absurd (cc h)

module _ (move : ℕ → Look → Look) where
  -- The queue can be run, and then this holds.
  abbrev pub Runs : (Px → Type 0) → List ℕ → List ℕ → List Job → Px → Type 0
  Runs P bots players jobs px = (px' : Px) × (run_all move bots players jobs px ≡ some px') × P px'

  pub run_all-push :
      (bots players : List ℕ) (jobs : List Job) (job : Job) (px px' : Px)
      → run_all move bots players jobs px ≡ some px'
      → run_all move bots players (jobs ++ job ∷ []) px ≡ run_job move bots players job px'
  unfolding run_all
  run_all-push bots players [] job px px' e =
      ran_only (run_job move bots players job px) ∙ ap (run_job move bots players job) (cc e)
  run_all-push bots players (j ∷ jobs) job px px' e =
      elim (Option-cases (run_job move bots players j px)) [
        | inl f ↦ absurd (cc (rw (f, run_all) at e))
        | inr (q, f) ↦
            rw (f, run_all) (run_all-push bots players jobs job q px' (rw (f, run_all) at e))
      ]

  pub push-Runs :
      (P Q : Px → Type 0) (bots players : List ℕ) (jobs : List Job) (job : Job) (px : Px)
      → Runs P bots players jobs px
      → ((p : Px) → P p → (q : Px) × (run_job move bots players job p ≡ some q) × Q q)
      → Runs Q bots players (jobs ++ job ∷ []) px
  push-Runs P Q bots players jobs job px (px', e, p) step =
      let (q, f, r) = step px' p in (q, run_all-push bots players jobs job px px' e ∙ f, r)

  -- A job takes nothing away.
  pub run_job-Grows :
      (bots players : List ℕ) (job : Job) (px px' : Px)
      → run_job move bots players job px ≡ some px'
      → Within px px'
  unfolding run_job
  run_job-Grows bots players create_manager px px' e =
      subst (Within px) (only_some (record px { has_manager = true }) px' e)
        (record { manager = λ _. refl; controllers = λ id h. h; bodies = λ id h. h })
  run_job-Grows bots players simulate px px' e =
      subst (Within px) (only_some px px' e) (Within-refl px)
  run_job-Grows bots players fetch_results px px' e =
      subst (Within px) (only_some px px' e) (Within-refl px)
  run_job-Grows bots players update_bots px px' e =
      grown px px' (all_in bots px.controllers) (record px { looks = move_all move bots px.looks })
        e (record { manager = λ h. h; controllers = λ id h. h; bodies = λ id h. h })
  run_job-Grows bots players update_players px px' e =
      grown px px' (all_in players px.controllers)
        (record px { looks = move_all move players px.looks }) e
        (record { manager = λ h. h; controllers = λ id h. h; bodies = λ id h. h })
  run_job-Grows bots players (create_controller id) px px' e =
      grown px px' (px.has_manager && present id bots players)
        (record px { controllers = set_insert id px.controllers }) e
        (record {
          manager = λ h. h;
          controllers = Among-inserted id px.controllers;
          bodies = λ id h. h;
        })
  run_job-Grows bots players (create_body id) px px' e =
      subst (Within px) (only_some (record px { bodies = set_insert id px.bodies }) px' e)
        (record { manager = λ h. h; controllers = λ id h. h; bodies = Among-inserted id px.bodies })
  run_job-Grows bots players (add_to_scene id) px px' e =
      grown px px' (contains id px.bodies) (record px { scene = set_insert id px.scene }) e
        (record { manager = λ h. h; controllers = λ id h. h; bodies = λ id h. h })
  run_job-Grows bots players (remove_from_scene id) px px' e =
      grown px px' (contains id px.bodies) (record px { scene = set_erase id px.scene }) e
        (record { manager = λ h. h; controllers = λ id h. h; bodies = λ id h. h })

  pub run_all-Grows :
      (bots players : List ℕ) (jobs : List Job) (px px' : Px)
      → run_all move bots players jobs px ≡ some px'
      → Within px px'
  unfolding run_all
  run_all-Grows bots players [] px px' e = subst (Within px) (only_some px px' e) (Within-refl px)
  run_all-Grows bots players (job ∷ jobs) px px' e =
      elim (Option-cases (run_job move bots players job px)) [
        | inl f ↦ absurd (cc (rw (f, run_all) at e))
        | inr (q, f) ↦
            Within-trans px q px' (run_job-Grows bots players job px q f)
              (run_all-Grows bots players jobs q px' (rw (f, run_all) at e))
      ]

  -- A job on another state of the same things, with bots and players that are there if the others are.
  pub run_job-Within :
      (bots players bots' players' : List ℕ) (job : Job) (px px' py : Px)
      → (is_bots job ≡ true → Fewer bots bots')
      → (is_players job ≡ true → Fewer players players')
      → ((id : ℕ)
          → creates id job ≡ true
          → present id bots players ≡ true
          → present id bots' players' ≡ true)
      → Within px py
      → run_job move bots players job px ≡ some px'
      → (py' : Px) × (run_job move bots' players' job py ≡ some py') × Within px' py'
  unfolding run_job
  run_job-Within bots players bots' players' create_manager px px' py fb fp fh s e = (
    record py { has_manager = true },
    refl,
    subst (λ x. Within x (record py { has_manager = true }))
        (only_some (record px { has_manager = true }) px' e)
        (record { manager = λ _. refl; controllers = s.controllers; bodies = s.bodies }),
  )
  run_job-Within bots players bots' players' simulate px px' py fb fp fh s e =
      (py, refl, subst (λ x. Within x py) (only_some px px' e) s)
  run_job-Within bots players bots' players' fetch_results px px' py fb fp fh s e =
      (py, refl, subst (λ x. Within x py) (only_some px px' e) s)
  run_job-Within bots players bots' players' update_bots px px' py fb fp fh s e =
      let (h, f) =
        if_some (all_in bots px.controllers) (record px { looks = move_all move bots px.looks }) px'
          e in
      let py' : Px = record py { looks = move_all move bots' py.looks } in
      (
        py',
        rw
            (all_in-Among bots' px.controllers py.controllers s.controllers
              (fb refl px.controllers h))
            refl,
        subst (λ x. Within x py') f
            (record { manager = s.manager; controllers = s.controllers; bodies = s.bodies }),
      )
  run_job-Within bots players bots' players' update_players px px' py fb fp fh s e =
      let (h, f) =
        if_some (all_in players px.controllers)
          (record px { looks = move_all move players px.looks }) px' e in
      let py' : Px = record py { looks = move_all move players' py.looks } in
      (
        py',
        rw
            (all_in-Among players' px.controllers py.controllers s.controllers
              (fp refl px.controllers h))
            refl,
        subst (λ x. Within x py') f
            (record { manager = s.manager; controllers = s.controllers; bodies = s.bodies }),
      )
  run_job-Within bots players bots' players' (create_controller id) px px' py fb fp fh s e =
      let (h, f) =
        if_some (px.has_manager && present id bots players)
          (record px { controllers = set_insert id px.controllers }) px' e in
      let py' : Px = record py { controllers = set_insert id py.controllers } in
      (
        py',
        rw
            (
              s.manager (and_true px.has_manager (present id bots players) h).0,
              fh id (==_self id) (and_true px.has_manager (present id bots players) h).1,
            )
            refl,
        subst (λ x. Within x py') f
            (record {
              manager = s.manager;
              controllers = Among-set_insert id px.controllers py.controllers s.controllers;
              bodies = s.bodies;
            }),
      )
  run_job-Within bots players bots' players' (create_body id) px px' py fb fp fh s e =
      let py' : Px = record py { bodies = set_insert id py.bodies } in
      (
        py',
        refl,
        subst (λ x. Within x py') (only_some (record px { bodies = set_insert id px.bodies }) px' e)
            (record {
              manager = s.manager;
              controllers = s.controllers;
              bodies = Among-set_insert id px.bodies py.bodies s.bodies;
            }),
      )
  run_job-Within bots players bots' players' (add_to_scene id) px px' py fb fp fh s e =
      let (h, f) =
        if_some (contains id px.bodies) (record px { scene = set_insert id px.scene }) px' e in
      let py' : Px = record py { scene = set_insert id py.scene } in
      (
        py',
        rw (s.bodies id h) refl,
        subst (λ x. Within x py') f
            (record { manager = s.manager; controllers = s.controllers; bodies = s.bodies }),
      )
  run_job-Within bots players bots' players' (remove_from_scene id) px px' py fb fp fh s e =
      let (h, f) =
        if_some (contains id px.bodies) (record px { scene = set_erase id px.scene }) px' e in
      let py' : Px = record py { scene = set_erase id py.scene } in
      (
        py',
        rw (s.bodies id h) refl,
        subst (λ x. Within x py') f
            (record { manager = s.manager; controllers = s.controllers; bodies = s.bodies }),
      )
