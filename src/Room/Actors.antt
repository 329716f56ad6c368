-- ===== src/Room/Actors.antt =====
-- GameServer/Room.cpp: the actors of a room and the jobs for its physics thread, with the Init and Update
-- functions of the actors that those jobs run. Actors are their ids. `none` is a fault: a call through a
-- null pointer, a second release of a controller, a colour read out of bounds, or a crash of MakeSendBufferImpl. PhysX makes what it is
-- asked for; which messages fit a send buffer is a parameter.
use jam_server_prototype.Common.{
  ℕ, Bool, true, false, not, ◌&&◌, Option, none, some, List, [], ◌∷◌, ◌++◌, ltb, ◌==◌,
  if◌then◌else◌, length,
}
use jam_server_prototype.Common.Dict.{Dict, insert, erase}
use jam_server_prototype.Common.Sets.{contains, set_insert, set_erase}
use jam_server_prototype.Ids.{get_actor_type, prefix_code}
use jam_server_prototype.Ids
use jam_server_prototype.Room.{max_players_per_room}
use jam_server_prototype.SessionManager.{protocol_udp, SessionMap, get_session_by_user_id}
use jam_server_prototype.Snapshots.{add_snapshot}

-- What the getters of an actor give; the position and the rotation are one number.
pub record Look : Type 0 where
  pub transform : ℕ
  pub pose : ℕ
  pub collider : ℕ
  pub color : ℕ

pub record Player : Type 0 where
  pub user_id : ℕ
  pub actor_id : ℕ
  pub last_sequence : ℕ

pub data Job : Type 0 where
  create_manager simulate fetch_results update_bots update_players : Job
  -- the jobs of `Init` of an actor
  create_controller create_body : ℕ → Job
  add_to_scene remove_from_scene : ℕ → Job

-- `Init` is virtual: a floor makes its body at once, other actors push a job for it.
pub data Kind : Type 0 where
  floor other : Kind

pub record SnapshotEntity : Type 0 where
  pub actor_id : ℕ
  pub pose : ℕ
  pub collider : ℕ

-- An `ActorInfo` with the fields that are set in all messages, and then the colour or the sequence number.
pub data Info : Type 0 where
  plain : ℕ → ℕ → Info
  colored sequenced : ℕ → ℕ → ℕ → Info

pub data Message : Type 0 where
  -- with the id of the receiver's own actor
  s_spawn_actor : List Info → ℕ → Message
  s_sync_actor : ℕ → List Info → Message

-- What the physics thread has made.
pub record Px : Type 0 where
  pub has_manager : Bool
  -- the actors with a `_controller`, those with a `_pxActor`, and those in the scene
  pub controllers : List ℕ
  pub bodies : List ℕ
  pub scene : List ℕ
  pub looks : ℕ → Look

pub record RoomState : Type 0 where
  pub is_ready : Bool
  -- by user id
  pub players : Dict Player
  pub bots_and_monsters : List ℕ
  pub actors : List ℕ
  pub physics_queue : List Job
  pub px : Px
  pub snapshot_buffer : List (ℕ × List SnapshotEntity)
  pub sessions : SessionMap
  -- what was sent reliably: the session, the message and the time
  pub sent : List (ℕ × Message × ℕ)

unfoldable pub player_ids : Dict Player → List ℕ
player_ids [] = []
player_ids ((user_id, player) ∷ players) = player.actor_id ∷ player_ids players

abbrev pub push : Job → RoomState → RoomState
push job r = record r { physics_queue = r.physics_queue ++ job ∷ [] }

unfoldable pub init_actor : Kind → ℕ → RoomState → RoomState
init_actor floor id r = record r { px = record r.px { bodies = set_insert id r.px.bodies } }
init_actor other id r = push (create_body id) r

unfoldable pub add_actor : Kind → ℕ → RoomState → RoomState
unfolding init_actor
add_actor kind id r =
    let r' = push (add_to_scene id) (init_actor kind id r) in
    record r' { actors = set_insert id r'.actors }

unfoldable pub remove_actor : ℕ → RoomState → RoomState
remove_actor id r =
    let r' = push (remove_from_scene id) r in record r' { actors = set_erase id r'.actors }

unfoldable pub add_bot_or_monster : ℕ → RoomState → RoomState
add_bot_or_monster id r =
    let r' = push (create_controller id) r in
    record r' { bots_and_monsters = set_insert id r'.bots_and_monsters }

abbrev pub without_bot : ℕ → RoomState → RoomState
without_bot id r = record r { bots_and_monsters = set_erase id r.bots_and_monsters }

-- The bot is destroyed, which only the room holds. Its destructor releases its controller, and that of
-- CharacterActor releases the same controller again.
unfoldable pub remove_bot_or_monster : ℕ → RoomState → Option RoomState
remove_bot_or_monster id r =
    if contains id r.bots_and_monsters && contains id r.px.controllers
    then none
    else some (without_bot id r)

-- A room that was just made.
abbrev pub fresh : (ℕ → Look) → RoomState
fresh looks = record {
  is_ready = false;
  players = [];
  bots_and_monsters = [];
  actors = [];
  physics_queue = [];
  px = record { has_manager = false; controllers = []; bodies = []; scene = []; looks = looks };
  snapshot_buffer = [];
  sessions = [];
  sent = [];
}

-- `Init` on a room that was just made, with the ids of its floor and its bot.
unfoldable pub init : ℕ → ℕ → RoomState → RoomState
unfolding add_actor add_bot_or_monster
init floor_id bot_id r =
    add_bot_or_monster bot_id (add_actor floor floor_id (push create_manager r))

-- `Enter`, with its answer.
unfoldable pub enter : Player → RoomState → Option (Bool × RoomState)
enter player r =
    if ltb max_players_per_room (length r.players)
    then some (false, r)
    else if ltb (length r.players) max_players_per_room
    then (let r' = push (create_controller player.actor_id) r in
        some (true, record r' { players = insert player.user_id player r'.players }))
    else none

unfoldable pub leave : Player → RoomState → RoomState
leave player r = record r { players = erase player.user_id r.players }

unfoldable pub entities : (ℕ → Look) → List ℕ → List SnapshotEntity
entities looks [] = []
entities looks (id ∷ ids) =
    record { actor_id = id; pose = (looks id).pose; collider = (looks id).collider }
    ∷ entities looks ids

unfoldable pub capture_snapshot : ℕ → RoomState → RoomState
capture_snapshot now r =
    let snapshot =
      entities r.px.looks r.actors
      ++ entities r.px.looks r.bots_and_monsters
      ++ entities r.px.looks (player_ids r.players) in
    record r { snapshot_buffer = add_snapshot now snapshot r.snapshot_buffer }

unfoldable pub colored_infos : (ℕ → Look) → List ℕ → List Info
colored_infos looks [] = []
colored_infos looks (id ∷ ids) =
    colored id (looks id).transform (looks id).color ∷ colored_infos looks ids

-- The actors of a room, without its floors.
unfoldable pub sync_infos : (ℕ → Look) → List ℕ → List Info
sync_infos looks [] = []
sync_infos looks (id ∷ ids) =
    let rest = sync_infos looks ids in
    if get_actor_type id == prefix_code Ids.floor
    then rest
    else plain id (looks id).transform ∷ rest

unfoldable pub player_infos : (ℕ → Look) → Dict Player → List Info
player_infos looks [] = []
player_infos looks ((user_id, player) ∷ players) =
    sequenced player.actor_id (looks player.actor_id).transform player.last_sequence
    ∷ player_infos looks players

-- `Multicast` over UDP, reliable: a player without a session is skipped.
unfoldable pub multicast_reliable : Message → ℕ → Dict Player → RoomState → RoomState
multicast_reliable message now [] r = r
multicast_reliable message now ((user_id, player) ∷ players) r =
    let (ref, sessions') = get_session_by_user_id protocol_udp player.user_id r.sessions in
    multicast_reliable message now players (elim ref [
      | none ↦ record r { sessions = sessions' }
      | some s ↦ record r { sessions = sessions'; sent = r.sent ++ (s, message, now) ∷ [] }
    ])

module _ (fits : Message → Bool) where
  -- The last loop of `MulticastSpawnActor`: the session of a player is not checked.
  unfoldable pub send_spawn : List Info → ℕ → Dict Player → RoomState → Option RoomState
  send_spawn infos now [] r = some r
  send_spawn infos now ((user_id, player) ∷ players) r =
      let message = s_spawn_actor infos player.actor_id in
      let (ref, sessions') = get_session_by_user_id protocol_udp player.user_id r.sessions in
      if not (fits message) then none else elim ref [
        | none ↦ none
        | some s ↦
            send_spawn infos now players
              (record r { sessions = sessions'; sent = r.sent ++ (s, message, now) ∷ [] })
      ]

  unfoldable pub multicast_spawn_actor : ℕ → RoomState → Option RoomState
  unfolding send_spawn
  multicast_spawn_actor now r =
      let infos =
        colored_infos r.px.looks r.actors
        ++ colored_infos r.px.looks r.bots_and_monsters
        ++ colored_infos r.px.looks (player_ids r.players) in
      send_spawn infos now r.players r

  unfoldable pub multicast_sync_actor : ℕ → RoomState → Option RoomState
  multicast_sync_actor now r =
      let message = s_sync_actor now (
        sync_infos r.px.looks r.actors
        ++ colored_infos r.px.looks r.bots_and_monsters
        ++ player_infos r.px.looks r.players) in
      if fits message then some (multicast_reliable message now r.players r) else none

  unfoldable pub update : ℕ → RoomState → Option RoomState
  unfolding multicast_sync_actor capture_snapshot
  update now r =
      if not r.is_ready
      then some r
      else multicast_sync_actor now (
          push update_players
            (push update_bots (push fetch_results (push simulate (capture_snapshot now r)))))
