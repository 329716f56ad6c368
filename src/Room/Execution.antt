-- ===== src/Room/Execution.antt =====
-- What the physics thread does with the jobs of a room: the jobs of GameServer/Room.cpp, and the Update
-- functions of the actors that they run, taken from the queue by GameServer/PhysicsManager.cpp. How PhysX
-- moves an actor is a parameter, `move`. The jobs of Init that make a controller hold no reference to their
-- bot or player, only a raw pointer; if it is in none of the room's maps when the job runs, it has been
-- destroyed. The job for a body is followed by one for the scene, which holds a reference to the actor.
use jam_server_prototype.Common.{
  ℕ, Bool, true, false, ◌&&◌, ◌||◌, Option, none, some, List, [], ◌∷◌, if◌then◌else◌,
}
use jam_server_prototype.Common.Sets.{contains, set_insert, set_erase}
use jam_server_prototype.Room.Actors.{
  Look, Job, create_manager, simulate, fetch_results, update_bots, update_players,
  create_controller, create_body, add_to_scene, remove_from_scene, Px, RoomState, player_ids,
}

-- Whether all of these actors are among those.
unfoldable pub all_in : List ℕ → List ℕ → Bool
all_in [] ids = true
all_in (x ∷ xs) ids = if contains x ids then all_in xs ids else false

-- Whether the actor is one of the room's bots or players.
abbrev pub present : ℕ → List ℕ → List ℕ → Bool
present id bots players = contains id bots || contains id players

module _ (move : ℕ → Look → Look) where
  unfoldable pub move_all : List ℕ → (ℕ → Look) → ℕ → Look
  move_all ids looks id = if contains id ids then move id (looks id) else looks id

  -- What a job does, with the bots and the players that the room has when it runs.
  unfoldable pub run_job : List ℕ → List ℕ → Job → Px → Option Px
  unfolding move_all
  run_job bots players create_manager px = some (record px { has_manager = true })
  run_job bots players simulate px = some px
  run_job bots players fetch_results px = some px
  run_job bots players update_bots px =
      if all_in bots px.controllers
      then some (record px { looks = move_all bots px.looks })
      else none
  run_job bots players update_players px =
      if all_in players px.controllers
      then some (record px { looks = move_all players px.looks })
      else none
  run_job bots players (create_controller id) px =
      if px.has_manager && present id bots players
      then some (record px { controllers = set_insert id px.controllers })
      else none
  run_job bots players (create_body id) px = some (record px { bodies = set_insert id px.bodies })
  run_job bots players (add_to_scene id) px =
      if contains id px.bodies then some (record px { scene = set_insert id px.scene }) else none
  run_job bots players (remove_from_scene id) px =
      if contains id px.bodies then some (record px { scene = set_erase id px.scene }) else none

  unfoldable pub run_all : List ℕ → List ℕ → List Job → Px → Option Px
  run_all bots players [] px = some px
  run_all bots players (job ∷ jobs) px = elim (run_job bots players job px) [
    | none ↦ none
    | some px' ↦ run_all bots players jobs px'
  ]

  -- The physics thread takes the next job, if there is one, and runs it.
  unfoldable pub execute_next : RoomState → Option RoomState
  execute_next r = elim r.physics_queue [
    | [] ↦ some r
    | job ∷ jobs ↦ elim (run_job r.bots_and_monsters (player_ids r.players) job r.px) [
      | none ↦ none
      | some px ↦ some (record r { physics_queue = jobs; px = px })
    ]
  ]
