-- ===== src/Room/Leaving.antt =====
-- A player who leaves a room, or gives way to another player of the same user, before the physics thread has
-- made its controller: GameServer/Room.cpp and GameServer/Player.cpp.
use jam_server_prototype.Common.{
  ℕ, ◌+◌, ◌++◌, List, subst, ◌<◌, ◌≡◌, inl, inr, refl, ◌∙◌, true, false, none, some, [], ◌∷◌, ◌==◌,
  Bool-cases, Option-cases, length, arith,
}
use jam_server_prototype.Common.Dict.{Dict, insert, erase, length-insert-le}
use jam_server_prototype.Common.Sets.{contains}
use jam_server_prototype.Room.{max_players_per_room}
use jam_server_prototype.Room.Actors.{
  Look, Job, Px, create_controller, Player, player_ids, RoomState, push, enter, leave,
}
use jam_server_prototype.Room.Execution.{run_job, run_all}
use jam_server_prototype.Room.Jobs.{run_all-push}
use jam_server_prototype.Room.Entering.{run_all-fault}

player_ids-erase :
    (id user_id : ℕ) (players : Dict Player)
    → contains id (player_ids players) ≡ false
    → contains id (player_ids (erase user_id players)) ≡ false
unfolding contains player_ids erase
player_ids-erase id user_id [] h = refl
player_ids-erase id user_id ((j, q) ∷ players) h =
    ground (arith, h, player_ids-erase id user_id players)

-- Without the user's entry the room has the players that it had before.
player_ids-erase-insert :
    (id user_id : ℕ) (p : Player) (players : Dict Player)
    → contains id (player_ids players) ≡ false
    → contains id (player_ids (erase user_id (insert user_id p players))) ≡ false
unfolding contains player_ids insert erase
player_ids-erase-insert id user_id p [] h = ground arith
player_ids-erase-insert id user_id p ((j, q) ∷ players) h = elim (Bool-cases (j == user_id)) [
  | inl e ↦ rw (e, e) (player_ids-erase id user_id players (ground (arith, h)))
  | inr ne ↦ rw (ne, ne) (ground (arith, h, player_ids-erase-insert id user_id p players))
]

-- The user's second entry takes the place of the first.
player_ids-insert-insert :
    (id user_id : ℕ) (p q : Player) (players : Dict Player)
    → contains id (player_ids players) ≡ false
    → (q.actor_id == id) ≡ false
    → contains id (player_ids (insert user_id q (insert user_id p players))) ≡ false
unfolding contains player_ids insert
player_ids-insert-insert id user_id p q [] h other = ground (arith, other)
player_ids-insert-insert id user_id p q ((j, x) ∷ players) h other =
    elim (Bool-cases (j == user_id)) [
      | inl e ↦ rw (e, e) (ground (arith, h, other))
      | inr ne ↦
          rw (ne, ne)
            (ground
              (arith, h, player_ids-insert-insert id user_id p q players (ground (arith, h)) other))
    ]

-- The job for a controller faults if its actor is not in the room by then, or the jobs before it have.
destroyed_actor-faults :
    (move : ℕ → Look → Look) (bots players : List ℕ) (id : ℕ) (jobs : List Job) (px : Px)
    → contains id bots ≡ false
    → contains id players ≡ false
    → run_all move bots players (jobs ++ create_controller id ∷ []) px ≡ none
unfolding run_job
destroyed_actor-faults move bots players id jobs px no_bot no_player =
    elim (Option-cases (run_all move bots players jobs px)) [
      | inl f ↦ run_all-fault move bots players jobs (create_controller id ∷ []) px f
      | inr (q, f) ↦
          run_all-push move bots players jobs (create_controller id) px q f
          ∙ elim (Bool-cases q.has_manager) [
            | inl has ↦ rw (has, no_bot, no_player) refl
            | inr lacks ↦ rw lacks refl
          ]
    ]

-- If a player enters, with an actor that none of the room's bots and players has, and leaves before the job
-- of its Init has run: the player is let in, and the physics thread, when it runs the queue, comes to a
-- fault.
leave_before_job_faults :
    (move : ℕ → Look → Look) (player : Player) (r : RoomState)
    → length r.players < max_players_per_room
    → contains player.actor_id r.bots_and_monsters ≡ false
    → contains player.actor_id (player_ids r.players) ≡ false
    → (t : RoomState) × (enter player r ≡ some (true, t))
      × (run_all move
            (leave player t).bots_and_monsters
            (player_ids (leave player t).players)
            (leave player t).physics_queue
            (leave player t).px
          ≡ none)
unfolding enter leave
leave_before_job_faults move player r seat no_bot no_player = (
  record (push (create_controller player.actor_id) r) {
    players = insert player.user_id player r.players;
  },
  ground (arith, seat),
  destroyed_actor-faults move r.bots_and_monsters
      (player_ids (erase player.user_id (insert player.user_id player r.players))) player.actor_id
      r.physics_queue r.px no_bot
      (player_ids-erase-insert player.actor_id player.user_id player r.players no_player),
)

-- A user who enters a room twice, in a room with two free seats, before the job of the first player's Init
-- has run, where no bot or player of the room has the first player's actor and the second player has
-- another: both are let in, and the physics thread, when it runs the queue, comes to a fault.
pub enter_twice_faults :
    (move : ℕ → Look → Look) (first second : Player) (r : RoomState)
    → first.user_id ≡ second.user_id
    → (second.actor_id == first.actor_id) ≡ false
    → length r.players + 1 < max_players_per_room
    → contains first.actor_id r.bots_and_monsters ≡ false
    → contains first.actor_id (player_ids r.players) ≡ false
    → (t u : RoomState) × (enter first r ≡ some (true, t))
      × (enter second t ≡ some (true, u))
      × (run_all move u.bots_and_monsters (player_ids u.players) u.physics_queue u.px ≡ none)
unfolding enter
enter_twice_faults move first second r same other seats no_bot no_player =
    let joined = insert first.user_id first r.players in
    let replaced = insert second.user_id second joined in
    let t : RoomState = record (push (create_controller first.actor_id) r) { players = joined } in
    let u : RoomState = record (push (create_controller second.actor_id) t) {
      players = replaced;
    } in
    let at_most = length-insert-le first.user_id first r.players in
    let gone : contains first.actor_id (player_ids replaced) ≡ false =
      subst (λ k. contains first.actor_id (player_ids (insert k second joined)) ≡ false) same
        (player_ids-insert-insert first.actor_id first.user_id first second r.players no_player
          other) in
    (
      t,
      u,
      ground (arith, seats),
      ground (arith, seats, at_most),
      run_all-fault move r.bots_and_monsters (player_ids replaced)
          (r.physics_queue ++ create_controller first.actor_id ∷ [])
          (create_controller second.actor_id ∷ []) r.px
          (destroyed_actor-faults move r.bots_and_monsters (player_ids replaced) first.actor_id
            r.physics_queue r.px no_bot gone),
    )
