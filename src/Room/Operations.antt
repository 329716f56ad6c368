-- ===== src/Room/Operations.antt =====
-- What the operations of a room leave of its jobs, GameServer/Room.cpp.
use jam_server_prototype.Common.{
  ℕ, ◌≡◌, inl, inr, refl, ◌&&◌, Bool, true, false, Option, none, some, List, [], ◌∷◌, ◌++◌,
  Bool-cases, Option-cases,
}
use jam_server_prototype.Common.Dict.{Dict}
use jam_server_prototype.Common.Sets.{contains, set_insert, set_erase}
use jam_server_prototype.SessionManager.{protocol_udp, get_session_by_user_id}
use jam_server_prototype.Room.Actors.{
  remove_bot_or_monster, Look, Job, create_manager, create_body, add_to_scene, remove_from_scene,
  Px, Player, player_ids, Message, Info, Kind, floor, other, RoomState, push, init_actor, add_actor,
  remove_actor, init, fresh, capture_snapshot, send_spawn, multicast_sync_actor, update,
  s_spawn_actor, s_sync_actor, sync_infos, colored_infos, player_infos,
}
use jam_server_prototype.Room.Execution.{all_in, run_job, run_all, execute_next}
use jam_server_prototype.Room.Holding.{
  pending, creates, Among-inserted, all_in-contains, Fewer-set_erase, all_in-set_insert,
  contains-inserted, Settled, Settled-Within,
}
use jam_server_prototype.Room.Jobs.{Runs, push-Runs, run_job-Grows, run_all-Grows}
use jam_server_prototype.Room.Sound.{
  Fewer-refl, guarded, run_all-Within, IsSound, push-IsSound, multicast_reliable-IsSound,
  tick_jobs-IsSound,
}
use jam_server_prototype.Room.Ticks.{add_bot-IsSound, without_bot-IsSound}

module _ (move : ℕ → Look → Look) (fits : Message → Bool) where
  abbrev pub SoundAfter : Option RoomState → Type 0
  SoundAfter none = Unit {0}
  SoundAfter (some r) = IsSound move r

  pub step_on :
      (ref : Option ℕ) (next : ℕ → Option RoomState)
      → ((x : ℕ) → SoundAfter (next x))
      → SoundAfter (elim ref [ none ↦ none | some x ↦ next x ])
  step_on none next a = tt
  step_on (some x) next a = a x

  pub send_spawn-SoundAfter :
      (infos : List Info) (now : ℕ) (players : Dict Player) (r : RoomState)
      → IsSound move r
      → SoundAfter (send_spawn fits infos now players r)
  unfolding send_spawn
  send_spawn-SoundAfter infos now [] r s = s
  send_spawn-SoundAfter infos now ((user_id, player) ∷ players) r s =
      let message = s_spawn_actor infos player.actor_id in
      let (ref, sessions') = get_session_by_user_id protocol_udp player.user_id r.sessions in
      elim (Bool-cases (fits message)) [
        | inr large ↦ rw large tt
        | inl small ↦ rw small (
            step_on ref
              (λ x.
                send_spawn fits infos now players
                  (record r { sessions = sessions'; sent = r.sent ++ (x, message, now) ∷ [] }))
              (λ x.
                send_spawn-SoundAfter infos now players
                  (record r { sessions = sessions'; sent = r.sent ++ (x, message, now) ∷ [] }) s))
      ]

  pub remove_bot-SoundAfter :
      (id : ℕ) (r : RoomState)
      → pending (creates id) r.physics_queue ≡ false
      → IsSound move r
      → SoundAfter (remove_bot_or_monster id r)
  unfolding remove_bot_or_monster
  remove_bot-SoundAfter id r unwaited s =
      elim (Bool-cases (contains id r.bots_and_monsters && contains id r.px.controllers)) [
        | inl twice ↦ rw twice tt
        | inr once ↦ rw once (without_bot-IsSound move id r unwaited s)
      ]

  pub sync-SoundAfter :
      (now : ℕ) (r : RoomState) → IsSound move r → SoundAfter (multicast_sync_actor fits now r)
  unfolding multicast_sync_actor
  sync-SoundAfter now r s =
      let message = s_sync_actor now (
        sync_infos r.px.looks r.actors
        ++ colored_infos r.px.looks r.bots_and_monsters
        ++ player_infos r.px.looks r.players) in
      elim (Bool-cases (fits message)) [
        | inr large ↦ rw large tt
        | inl small ↦ rw small (multicast_reliable-IsSound move message now r.players r s)
      ]

  pub update-SoundAfter :
      (now : ℕ) (r : RoomState) → IsSound move r → SoundAfter (update fits now r)
  unfolding update capture_snapshot
  update-SoundAfter now r s = elim (Bool-cases r.is_ready) [
    | inr idle ↦ rw idle s
    | inl ready ↦
        rw ready (sync-SoundAfter now _ (tick_jobs-IsSound move (capture_snapshot now r) s))
  ]

  pub execute-SoundAfter : (r : RoomState) → IsSound move r → SoundAfter (execute_next move r)
  unfolding execute_next run_all
  execute-SoundAfter r s = next_on r.physics_queue s
    where
      next_on :
          (jobs : List Job)
          → Runs move
              (Settled r.bots_and_monsters (player_ids r.players) r.actors)
              r.bots_and_monsters
              (player_ids r.players)
              jobs
              r.px
          → SoundAfter (elim jobs [
            | [] ↦ some r
            | job ∷ jobs ↦ elim (run_job move r.bots_and_monsters (player_ids r.players) job r.px) [
              | none ↦ none
              | some px ↦ some (record r { physics_queue = jobs; px = px })
            ]
          ])
      next_on [] q = s
      next_on (job ∷ jobs) (px', e, t) =
          elim (Option-cases (run_job move r.bots_and_monsters (player_ids r.players) job r.px)) [
            | inl f ↦ rw f tt
            | inr (px, f) ↦ rw f (px', rw (f, run_all) at e, t)
          ]

  pub remove_actor-IsSound :
      (id : ℕ) (r : RoomState)
      → contains id r.actors ≡ true
      → IsSound move r
      → IsSound move (remove_actor id r)
  unfolding remove_actor run_job
  remove_actor-IsSound id r there s =
      let (px', e, t) = push-IsSound move (remove_from_scene id) r s (λ p t.
        guarded (contains id p.bodies) (record p { scene = set_erase id p.scene })
          (all_in-contains r.actors p.bodies id t.actors_in there)) in
      (
        px',
        e,
        record {
          managed = t.managed;
          bots_in = t.bots_in;
          players_in = t.players_in;
          actors_in = Fewer-set_erase id r.actors px'.bodies t.actors_in;
        },
      )

  -- From a queue after which the actor has a body.
  pub scene-IsSound :
      (id : ℕ) (r : RoomState)
      → Runs move
          (λ p.
            Settled r.bots_and_monsters (player_ids r.players) r.actors p
            × (contains id p.bodies ≡ true))
          r.bots_and_monsters
          (player_ids r.players)
          r.physics_queue
          r.px
      → IsSound move (record (push (add_to_scene id) r) { actors = set_insert id r.actors })
  unfolding run_job
  scene-IsSound id r s =
      push-Runs move
        (λ p.
          Settled r.bots_and_monsters (player_ids r.players) r.actors p
          × (contains id p.bodies ≡ true))
        (Settled r.bots_and_monsters (player_ids r.players) (set_insert id r.actors))
        r.bots_and_monsters (player_ids r.players) r.physics_queue (add_to_scene id) r.px s
        (λ p (t, c). (
          record p { scene = set_insert id p.scene },
          rw c refl,
          record {
            managed = t.managed;
            bots_in = t.bots_in;
            players_in = t.players_in;
            actors_in = all_in-set_insert id r.actors p.bodies t.actors_in c;
          },
        ))

  pub add_actor-IsSound :
      (kind : Kind) (id : ℕ) (r : RoomState) → IsSound move r → IsSound move (add_actor kind id r)
  unfolding add_actor init_actor run_job
  add_actor-IsSound floor id r (px', e, s) =
      let py : Px = record r.px { bodies = set_insert id r.px.bodies } in
      let (py', f, t) =
        run_all-Within move r.bots_and_monsters (player_ids r.players) r.bots_and_monsters
          (player_ids r.players) r.physics_queue r.px px' py (λ _. Fewer-refl r.bots_and_monsters)
          (λ _. Fewer-refl (player_ids r.players)) (λ id _ h. h)
          (record {
            manager = λ h. h;
            controllers = λ x h. h;
            bodies = Among-inserted id r.px.bodies;
          })
          e in
      scene-IsSound id (record r { px = py })
        (
          py',
          f,
          (
            Settled-Within r.bots_and_monsters (player_ids r.players) r.actors px' py' s t,
            (run_all-Grows move r.bots_and_monsters (player_ids r.players) r.physics_queue py py'
                  f).bodies
                id (contains-inserted id r.px.bodies),
          ),
        )
  add_actor-IsSound other id r s = scene-IsSound id (push (create_body id) r) (
      push-Runs move (Settled r.bots_and_monsters (player_ids r.players) r.actors)
        (λ p.
          Settled r.bots_and_monsters (player_ids r.players) r.actors p
          × (contains id p.bodies ≡ true))
        r.bots_and_monsters (player_ids r.players) r.physics_queue (create_body id) r.px s
        (λ p t.
          let q : Px = record p { bodies = set_insert id p.bodies } in
          (
            q,
            refl,
            (
              Settled-Within r.bots_and_monsters (player_ids r.players) r.actors p q t (
                  run_job-Grows move r.bots_and_monsters (player_ids r.players) (create_body id) p q
                    refl),
              contains-inserted id p.bodies,
            ),
          )))

  pub init-IsSound :
      (looks : ℕ → Look) (floor_id bot_id : ℕ) → IsSound move (init floor_id bot_id (fresh looks))
  unfolding init run_all run_job player_ids all_in
  init-IsSound looks floor_id bot_id =
      let made = push create_manager (fresh looks) in
      add_bot-IsSound move bot_id (add_actor floor floor_id made) refl (
        add_actor-IsSound floor floor_id made (
          record made.px { has_manager = true },
          refl,
          record { managed = refl; bots_in = refl; players_in = refl; actors_in = refl },
        ))
