-- ===== src/Player.antt =====
-- GameServer/Player.h and Player.cpp: what a player's input does. Speeds are of a type of their own, with the
-- operations that the code uses; a direction stays a direction, with the yaw by which it is turned. What the
-- two rays of a shot hit in the rewind scene is PhysX's to say: a function from the actors of the scene.
-- An actor is its id; the raw pointers that the snapshots and the scenes hold may outlive it, so that which
-- actors still exist is part of the state.
pub mod Shots
mod Examples
use jam_server_prototype.Common.{
  ℕ, ◌+◌, Bool, true, false, not, ◌&&◌, Option, none, some, List, [], ◌∷◌, ◌++◌, ltb, ◌==◌,
  if◌then◌else◌, test_bit,
}
use jam_server_prototype.Common.Dict.{Dict}
use jam_server_prototype.Common.Sets.{contains}
use jam_server_prototype.Ids.{get_actor_type, prefix_code, bot}
use jam_server_prototype.Room.{max_players_per_room}
use jam_server_prototype.SessionManager.{protocol_udp, SessionMap, get_session_by_user_id}
use jam_server_prototype.Snapshots.{Found, find_snapshot}
use jam_server_prototype.Snapshots

-- The bits of `EInputKey`.
abbrev pub move_forward : ℕ
move_forward = 0

abbrev pub move_backward : ℕ
move_backward = 1

abbrev pub move_left : ℕ
move_left = 2

abbrev pub move_right : ℕ
move_right = 3

abbrev pub jump : ℕ
jump = 4

abbrev pub fire : ℕ
fire = 5

-- A component of the direction: 0, 1 or -1.
pub data Axis : Type 0 where
  none_of neg_of pos_of : Axis

pub data Velocity : Type 0 where
  still : Velocity
  -- the direction by x and z, and the yaw by which it is turned
  towards : Axis → Axis → ℕ → Velocity

-- Speed is the type of `_verticalVelocity`.
pub record Player (Speed : Type 0) : Type 0 where
  pub user_id : ℕ
  pub actor_id : ℕ
  pub player_index : ℕ
  pub last_process_sequence : ℕ
  pub yaw : ℕ
  pub pitch : ℕ
  pub horizontal_velocity : Velocity
  pub vertical_velocity : Speed
  pub is_grounded : Bool
  pub is_fire_in_progress : Bool

-- A speed is a float: its bits.
abbrev pub Shooter : Type 0
Shooter = Player ℕ

-- What a shot reads and writes of the room and of the session manager. A snapshot is the ids of its actors.
pub record Range : Type 0 where
  pub snapshots : List (ℕ × List ℕ)
  -- `_pxRewindScenes`: a null scene, or the actors in it
  pub rewind_scenes : ℕ → Option (List ℕ)
  -- whether the actor has not been destroyed
  pub alive : ℕ → Bool
  pub sessions : SessionMap

pub data Shot : Type 0 where
  -- S_HIT_RESULT, sent reliably on the shooter's session
  hit_sent : ℕ → Shot
  -- `ToggleColor` of a bot
  toggled : ℕ → Shot

-- The keys are tried in turn, and a later one overrides.
unfoldable pub axis_of : ℕ → ℕ → ℕ → Axis
axis_of keys up down =
    if test_bit keys down then neg_of else if test_bit keys up then pos_of else none_of

abbrev pub velocity_of : Axis → Axis → ℕ → Velocity
velocity_of none_of none_of yaw = still
velocity_of none_of neg_of yaw = towards none_of neg_of yaw
velocity_of none_of pos_of yaw = towards none_of pos_of yaw
velocity_of neg_of z yaw = towards neg_of z yaw
velocity_of pos_of z yaw = towards pos_of z yaw

module _ {Speed : Type 0} where
  unfoldable pub process_movement : ℕ → Player Speed → Player Speed
  unfolding axis_of
  process_movement keys p = record p {
    horizontal_velocity =
        velocity_of (axis_of keys move_left move_right) (axis_of keys move_forward move_backward)
          p.yaw;
  }

  unfoldable pub process_jump : Speed → ℕ → Player Speed → Player Speed
  process_jump jump_speed keys p =
      if test_bit keys jump && p.is_grounded then record p { vertical_velocity = jump_speed } else p

  -- The end of `ProcessFire` on every path.
  abbrev pub released : Player Speed → Player Speed
  released p = record p { is_fire_in_progress = false }

abbrev pub set_scene : ℕ → Option (List ℕ) → (ℕ → Option (List ℕ)) → ℕ → Option (List ℕ)
set_scene index scene scenes other = if index == other then scene else scenes other

-- `BuildRewindScene`: the snapshot's actors are added to what the scene has.
unfoldable pub build_rewind_scene : ℕ → List ℕ → Range → Option (List ℕ × Range)
build_rewind_scene index snapshot r = elim (r.rewind_scenes index) [
  | none ↦ none
  | some actors ↦ some (
    actors ++ snapshot,
    record r { rewind_scenes = set_scene index (some (actors ++ snapshot)) r.rewind_scenes },
  )
]

-- `ClearRewindScene`
unfoldable pub clear_rewind_scene : ℕ → Range → Range
clear_rewind_scene index r = record r { rewind_scenes = set_scene index (some []) r.rewind_scenes }

-- The second ray hit this actor, or nothing. `none` is a call through a null session, or through a pointer to
-- an actor that has been destroyed.
unfoldable pub report_hit : ℕ → Option ℕ → Range → Option (Range × List Shot)
report_hit user_id none r = some (r, [])
report_hit user_id (some actor_id) r =
    let (ref, sessions') = get_session_by_user_id protocol_udp user_id r.sessions in
    elim ref [
      | none ↦ none
      | some s ↦
          if not (r.alive actor_id)
          then none
          else some (
            record r { sessions = sessions' },
            hit_sent s
                ∷ (if get_actor_type actor_id == prefix_code bot
                    then toggled actor_id ∷ []
                    else []),
          )
    ]

module _ (camera_ray muzzle_ray : List ℕ → Option ℕ) where
  -- From the rewind scene on.
  unfoldable pub shoot : ℕ → ℕ → List ℕ × Range → Option (Range × List Shot)
  unfolding clear_rewind_scene report_hit
  shoot user_id index (actors, r) = elim (camera_ray actors) [
    -- no target: an early return, without ClearRewindScene
    | none ↦ some (r, [])
    | some target ↦ report_hit user_id (muzzle_ray actors) (clear_rewind_scene index r)
  ]

  -- From the snapshot on. `none` is a fault.
  unfoldable pub fire_at : ℕ → ℕ → ℕ → List ℕ → Range → Option (Range × List Shot)
  unfolding shoot build_rewind_scene
  fire_at user_id actor_id index snapshot r =
      if not (contains actor_id snapshot)
      then some (r, [])
      else if not (ltb index max_players_per_room)
      then none
      else elim (build_rewind_scene index snapshot r) [
        | none ↦ some (r, [])
        | some scene ↦ shoot user_id index scene
      ]

  unfoldable pub fire_found : ℕ → ℕ → ℕ → Found (List ℕ) → Range → Option (Range × List Shot)
  unfolding fire_at
  fire_found user_id actor_id index Snapshots.fault r = none
  fire_found user_id actor_id index Snapshots.missing r = some (r, [])
  fire_found user_id actor_id index (Snapshots.found time snapshot) r =
      fire_at user_id actor_id index snapshot r

  module _ {Speed : Type 0} where
    abbrev pub with_player :
        Player Speed → Option (Range × List Shot) → Option (Player Speed × Range × List Shot)
    with_player p none = none
    with_player p (some (r, shots)) = some (p, r, shots)

    unfoldable pub process_fire :
        ℕ → ℕ → Player Speed → Range → Option (Player Speed × Range × List Shot)
    unfolding fire_found
    process_fire keys timestamp p r =
        if test_bit keys fire
        then if p.is_fire_in_progress
          then some (p, r, [])
          else with_player (released (record p { is_fire_in_progress = true })) (
              fire_found p.user_id p.actor_id p.player_index (find_snapshot timestamp r.snapshots)
                r)
        else some (p, r, [])

    unfoldable pub process_input :
        Speed → ℕ → ℕ → ℕ → ℕ → ℕ → Player Speed → Range → Option (Player Speed × Range × List Shot)
    process_input jump_speed keys yaw pitch sequence timestamp p r =
        let p' = record p { last_process_sequence = sequence; yaw = yaw; pitch = pitch } in
        process_fire keys timestamp (process_jump jump_speed keys (process_movement keys p')) r

-- `Update`: what gravity does to a speed, the speed 0, and whether the controller touched ground.
unfoldable pub update :
    {Speed : Type 0} → (Speed → Speed) → Speed → Bool → Player Speed → Player Speed
update fall zero_speed touched p =
    let p' =
      if p.is_grounded then p else record p { vertical_velocity = fall p.vertical_velocity } in
    if touched
    then record p' { vertical_velocity = zero_speed; is_grounded = true }
    else record p' { is_grounded = false }
