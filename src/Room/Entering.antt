-- ===== src/Room/Entering.antt =====
-- A player who enters a room between a tick and its physics jobs, GameServer/Room.cpp.
use jam_server_prototype.Common.{
  ◌&&◌, ℕ, ◌<◌, ◌≡◌, inl, inr, refl, sym, ap, ◌∙◌, subst, Bool, true, false, not, Option, none,
  some, List, [], ◌∷◌, ◌++◌, if◌then◌else◌, Option-cases, length, arith,
}
use jam_server_prototype.Common.Dict.{Dict, insert}
use jam_server_prototype.Common.Sets.{contains, set_insert, set_erase, contains-set_insert}
use jam_server_prototype.SessionManager.{protocol_udp, get_session_by_user_id, SessionMap}
use jam_server_prototype.Room.{max_players_per_room}
use jam_server_prototype.Room.Actors.{
  Look, Job, create_manager, simulate, fetch_results, update_bots, update_players,
  create_controller, create_body, add_to_scene, remove_from_scene, Px, Player, player_ids, Message,
  RoomState, push, enter, capture_snapshot, multicast_reliable, multicast_sync_actor, update,
  s_sync_actor, sync_infos, colored_infos, player_infos,
}
use jam_server_prototype.Room.Holding.{creates}
use jam_server_prototype.Room.Execution.{present, all_in, run_job, run_all, move_all}
use jam_server_prototype.Room.Holding.{pending, only_some, if_some}
use jam_server_prototype.Room.Jobs.{run_all-push}
use jam_server_prototype.Room.Sound.{pending-push}

all_in-lacks :
    (k : ℕ) (p : Player) (players : Dict Player) (ids : List ℕ)
    → contains p.actor_id ids ≡ false
    → all_in (player_ids (insert k p players)) ids ≡ false
unfolding all_in player_ids insert
all_in-lacks k p [] ids h = rw h refl
all_in-lacks k p ((j, q) ∷ players) ids h = ground (arith, h, all_in-lacks k p players ids)

-- What an update leaves as it is.
multicast_reliable_lem :
    (message : Message) (now : ℕ) (players : Dict Player) (r : RoomState)
    → (sessions' : SessionMap) × (sent' : List (ℕ × Message × ℕ)) × (multicast_reliable message now
          players r
        ≡ record r { sessions = sessions'; sent = sent' })
unfolding multicast_reliable
multicast_reliable_lem message now [] r = (r.sessions, r.sent, refl)
multicast_reliable_lem message now ((user_id, player) ∷ players) r =
    on_session (get_session_by_user_id protocol_udp player.user_id r.sessions).0
      (get_session_by_user_id protocol_udp player.user_id r.sessions).1
      (multicast_reliable_lem message now players)
  where
    on_session :
        (ref : Option ℕ) (sessions' : SessionMap)
        → ((q : RoomState)
            → (sessions' : SessionMap) × (sent' : List (ℕ × Message × ℕ)) × (multicast_reliable
                  message now players q
                ≡ record q { sessions = sessions'; sent = sent' }))
        → (sessions'' : SessionMap) × (sent' : List (ℕ × Message × ℕ)) × (multicast_reliable message
              now players
              (elim ref [
                | none ↦ record r { sessions = sessions' }
                | some x ↦ record r {
                  sessions = sessions';
                  sent = r.sent ++ (x, message, now) ∷ [];
                }
              ])
            ≡ record r { sessions = sessions''; sent = sent' })
    on_session none sessions' rest = rest (record r { sessions = sessions' })
    on_session (some x) sessions' rest =
        rest (record r { sessions = sessions'; sent = r.sent ++ (x, message, now) ∷ [] })

-- The queue after a tick.
abbrev pub ticked : List Job → List Job
ticked jobs =
    (((jobs ++ simulate ∷ []) ++ fetch_results ∷ []) ++ update_bots ∷ []) ++ update_players ∷ []

unguarded : {A : Type 0} (c : Bool) (x y z : A) → c ≡ true → (if not c then x else y) ≡ z → y ≡ z
unguarded true x y z h e = e
unguarded false x y z h e = absurd (cc h)

-- A tick of a ready room.
pub update_ready :
    (fits : Message → Bool) (now : ℕ) (r t : RoomState)
    → r.is_ready ≡ true
    → update fits now r ≡ some t
    → (sessions' : SessionMap) × (sent' : List (ℕ × Message × ℕ)) × (t ≡ record r {
      physics_queue = ticked r.physics_queue;
      snapshot_buffer = (capture_snapshot now r).snapshot_buffer;
      sessions = sessions';
      sent = sent';
    })
unfolding update multicast_sync_actor capture_snapshot
update_ready fits now r t ready e =
    let q =
      push update_players
        (push update_bots (push fetch_results (push simulate (capture_snapshot now r)))) in
    let message = s_sync_actor now (
      sync_infos q.px.looks q.actors
      ++ colored_infos q.px.looks q.bots_and_monsters
      ++ player_infos q.px.looks q.players) in
    let (sessions', sent', m) = multicast_reliable_lem message now q.players q in
    let (_, f) =
      if_some (fits message) (multicast_reliable message now q.players q) t
        (unguarded r.is_ready (some r) (multicast_sync_actor fits now q) (some t) ready e) in
    (sessions', sent', sym f ∙ m)

module _ (move : ℕ → Look → Look) (bots players : List ℕ) where
  run_job-lacks :
      (id : ℕ) (job : Job) (px px' : Px)
      → run_job move bots players job px ≡ some px'
      → creates id job ≡ false
      → contains id px.controllers ≡ false
      → contains id px'.controllers ≡ false
  unfolding run_job
  run_job-lacks id create_manager px px' e not_made h =
      subst (λ (p : Px). contains id p.controllers ≡ false)
        (only_some (record px { has_manager = true }) px' e) h
  run_job-lacks id simulate px px' e not_made h =
      subst (λ (p : Px). contains id p.controllers ≡ false) (only_some px px' e) h
  run_job-lacks id fetch_results px px' e not_made h =
      subst (λ (p : Px). contains id p.controllers ≡ false) (only_some px px' e) h
  run_job-lacks id update_bots px px' e not_made h =
      subst (λ (p : Px). contains id p.controllers ≡ false)
        (if_some (all_in bots px.controllers) (record px { looks = move_all move bots px.looks })
          px' e).1
        h
  run_job-lacks id update_players px px' e not_made h =
      subst (λ (p : Px). contains id p.controllers ≡ false)
        (if_some (all_in players px.controllers)
          (record px { looks = move_all move players px.looks }) px' e).1
        h
  run_job-lacks id (create_controller made) px px' e not_made h =
      subst (λ (p : Px). contains id p.controllers ≡ false)
        (if_some (px.has_manager && present made bots players)
          (record px { controllers = set_insert made px.controllers }) px' e).1
        (ground (arith, not_made, h, contains-set_insert made id px.controllers))
  run_job-lacks id (create_body made) px px' e not_made h =
      subst (λ (p : Px). contains id p.controllers ≡ false)
        (only_some (record px { bodies = set_insert made px.bodies }) px' e) h
  run_job-lacks id (add_to_scene made) px px' e not_made h =
      subst (λ (p : Px). contains id p.controllers ≡ false)
        (if_some (contains made px.bodies) (record px { scene = set_insert made px.scene }) px' e).1
        h
  run_job-lacks id (remove_from_scene made) px px' e not_made h =
      subst (λ (p : Px). contains id p.controllers ≡ false)
        (if_some (contains made px.bodies) (record px { scene = set_erase made px.scene }) px' e).1
        h

  run_all-lacks :
      (id : ℕ) (jobs : List Job) (px px' : Px)
      → run_all move bots players jobs px ≡ some px'
      → pending (creates id) jobs ≡ false
      → contains id px.controllers ≡ false
      → contains id px'.controllers ≡ false
  unfolding run_all
  run_all-lacks id [] px px' e not_made h =
      subst (λ (p : Px). contains id p.controllers ≡ false) (only_some px px' e) h
  run_all-lacks id (job ∷ jobs) px px' e not_made h =
      elim (Option-cases (run_job move bots players job px)) [
        | inl f ↦ absurd (cc (rw (f, run_all) at e))
        | inr (q, f) ↦
            run_all-lacks id jobs q px' (rw (f, run_all) at e) (ground (arith, not_made))
              (run_job-lacks id job px q f (ground (arith, not_made)) h)
      ]

  pub run_all-fault :
      (jobs more : List Job) (px : Px)
      → run_all move bots players jobs px ≡ none
      → run_all move bots players (jobs ++ more) px ≡ none
  unfolding run_all
  run_all-fault [] more px e = absurd (cc e)
  run_all-fault (job ∷ jobs) more px e = elim (Option-cases (run_job move bots players job px)) [
    | inl f ↦ rw (f, run_all) refl
    | inr (q, f) ↦ rw (f, run_all) (run_all-fault jobs more q (rw (f, run_all) at e))
  ]

  -- Players who are not all there when the queue comes to their update.
  update_players-fault :
      (id : ℕ) (jobs : List Job) (px : Px)
      → pending (creates id) jobs ≡ false
      → contains id px.controllers ≡ false
      → ((ids : List ℕ) → contains id ids ≡ false → all_in players ids ≡ false)
      → run_all move bots players (jobs ++ update_players ∷ []) px ≡ none
  unfolding run_job
  update_players-fault id jobs px not_made h missing =
      elim (Option-cases (run_all move bots players jobs px)) [
        | inl f ↦ run_all-fault jobs (update_players ∷ []) px f
        | inr (q, f) ↦
            run_all-push move bots players jobs update_players px q f
            ∙ rw (missing q.controllers (run_all-lacks id jobs px q f not_made h)) refl
      ]

-- If a player enters a ready room after a tick and before the jobs of that tick, with an actor that has no
-- controller and for which none is being made: the player is let in, and the physics thread, when it runs
-- the queue, comes to a fault.
pub enter_in_tick_faults :
    (move : ℕ → Look → Look) (fits : Message → Bool) (now : ℕ) (player : Player) (r t : RoomState)
    → r.is_ready ≡ true
    → length r.players < max_players_per_room
    → contains player.actor_id r.px.controllers ≡ false
    → pending (creates player.actor_id) r.physics_queue ≡ false
    → update fits now r ≡ some t
    → (u : RoomState) × (enter player t ≡ some (true, u))
      × (run_all move u.bots_and_monsters (player_ids u.players) u.physics_queue u.px ≡ none)
unfolding enter
enter_in_tick_faults move fits now player r t ready seat new not_made e =
    let id = player.actor_id in
    let (sessions', sent', f) = update_ready fits now r t ready e in
    let ticked_room = record r {
      physics_queue = ticked r.physics_queue;
      snapshot_buffer = (capture_snapshot now r).snapshot_buffer;
      sessions = sessions';
      sent = sent';
    } in
    let joined = insert player.user_id player r.players in
    let pend : pending (creates id)
          (((r.physics_queue ++ simulate ∷ []) ++ fetch_results ∷ []) ++ update_bots ∷ [])
        ≡ false =
      pending-push (creates id) update_bots
        ((r.physics_queue ++ simulate ∷ []) ++ fetch_results ∷ []) refl
      ∙ pending-push (creates id) fetch_results (r.physics_queue ++ simulate ∷ []) refl
      ∙ pending-push (creates id) simulate r.physics_queue refl
      ∙ not_made in
    (
      record (push (create_controller id) ticked_room) { players = joined },
      ap (enter player) f ∙ ground (arith, seat),
      run_all-fault move r.bots_and_monsters (player_ids joined) (ticked r.physics_queue)
          (create_controller id ∷ []) r.px
          (update_players-fault move r.bots_and_monsters (player_ids joined) id
            (((r.physics_queue ++ simulate ∷ []) ++ fetch_results ∷ []) ++ update_bots ∷ []) r.px
            pend new (λ ids h. all_in-lacks player.user_id player r.players ids h)),
    )
