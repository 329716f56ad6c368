-- ===== src/Handlers.antt =====
-- GameServer/ClientPacketHandler.cpp: the handlers of the client's messages, on the state that they share:
-- the user ids, the sessions, the session manager, the room manager and the rooms. `none` is a fault: a
-- call through a null reference or to a destroyed actor, or a crash of MakeSendBufferImpl. What a handler
-- sends or queues is recorded, in order. What is not the handlers' to decide is a parameter, `Outside`: the
-- sizes of the serialised messages, how many jobs a push to a room's queue runs at once, the state of the
-- players and the scenes that the physics threads share, and what PhysX's rays hit.
pub mod Messages
pub mod Directory
pub mod Views
pub mod Ends
pub mod Steps
pub mod Entering
pub mod Spawning
pub mod Shooting
pub mod Quiet
pub mod Refinement
pub mod Yielding
pub mod Replying
pub mod Total
pub mod Faults
mod Examples
use jam_server_prototype.Common.{
  ℕ, ◌+◌, Bool, true, false, not, ◌&&◌, ◌||◌, Option, none, some, List, [], ◌∷◌, ◌++◌, ltb, ◌==◌,
  if◌then◌else◌, u16, u32,
}
use jam_server_prototype.Common.Dict.{Dict, insert}
use jam_server_prototype.Framing.{tcp_header_size, udp_header_size}
use jam_server_prototype.SendBuffer.{send_buffer_chunk_size}
use jam_server_prototype.Ids
use jam_server_prototype.Ids.{IdManager, generate}
use jam_server_prototype.SessionManager.{
  ProtocolType, protocol_tcp, protocol_udp, Session, SessionMap, add, multicast,
  get_session_by_user_id,
}
use jam_server_prototype.Room
use jam_server_prototype.Room.{Player, Players, enter, get_player_by_user_id}
use jam_server_prototype.RoomManager.{
  Room, RoomRef, Rooms, add_room, get_room_by_room_id, get_room_by_user_id, get_room_list,
}
use jam_server_prototype.Player.{Shooter, Range, Shot}
use jam_server_prototype.UdpSession
use jam_server_prototype.UdpSession.{UdpSession}

-- The fields that a handler reads of its message.
pub data Request : Type 0 where
  c_login c_create_room c_sync_roomlist c_enter_game c_chat c_sync_time c_spawn_actor c_sync_actor
        c_hit_result :
      Request
  c_enter_room c_handshake : ℕ → Request
  -- the latest sequence number and the bitfield
  c_ack : ℕ → ℕ → Request
  -- the keys, the packed angles, the sequence number and the time
  c_player_input : ℕ → ℕ → ℕ → ℕ → Request

pub data Reply : Type 0 where
  s_login s_create_room s_enter_room s_sync_time : ℕ → Reply
  s_sync_roomlist : List (ℕ × List ℕ) → Reply
  -- the address of the UDP receiver
  s_enter_game : ℕ × ℕ → Reply
  s_handshake : Reply
  -- of the room with this id, to this user: the actors of the room, and the user's own
  s_spawn_actor : ℕ → ℕ → Reply

pub data Event : Type 0 where
  -- `Send` of a session
  sent : ℕ → Reply → Event
  -- `SendReliable` of a session, with the time
  sent_reliable : ℕ → Reply → ℕ → Event
  -- `DoAsync(&Room::MulticastSpawnActor)` of a room
  spawn_queued : ℕ → Event
  -- `ProcessInput` of a user's player in a room: the player and the rewind scenes as they are then, and what
  -- it sent and changed, in order
  input_processed : ℕ → ℕ → Shooter → (ℕ → Option (List ℕ)) → List Shot → Event

pub record World : Type 0 where
  -- the static counter of `UserManager::Login`
  pub next_user : ℕ
  pub id_manager : IdManager
  -- `IsTcp()` and `_id` of each session
  pub protocol_of : ℕ → ProtocolType
  pub id_of : ℕ → ℕ
  pub sessions : SessionMap
  pub rooms : Rooms
  -- `_isReady` of each room
  pub is_ready : ℕ → Bool
  pub udp_of : ℕ → UdpSession
  -- `_config.udpAddress` of the service
  pub udp_address : Option (ℕ × ℕ)
  pub events : List Event

-- What the handlers find, in a state of the server, that other threads, protobuf and PhysX decide.
pub record Outside : Type 0 where
  pub byte_size : Reply → ℕ
  -- how many jobs the queue of the room hands to the thread that has just pushed one: none, if another
  -- thread has the queue or is to take it from the global queue. All that is pushed there is
  -- `MulticastSpawnActor`.
  pub jobs_run : World → ℕ → ℕ
  pub jump_speed : ℕ
  -- the player of a user in a room
  pub shooter_at : World → ℕ → ℕ → Shooter
  -- the snapshots, rewind scenes and actors of a room; its sessions are not read
  pub range_at : World → ℕ → Range
  -- the rays of a shot of this user with these packed angles, at this time
  pub camera_ray : World → ℕ → ℕ → ℕ → List ℕ → Option ℕ
  pub muzzle_ray : World → ℕ → ℕ → ℕ → List ℕ → Option ℕ

-- The room as `ProcessInput` finds it.
abbrev pub found_range : Outside → ℕ → World → Range
found_range outside room_id w = record (outside.range_at w room_id) { sessions = w.sessions }

abbrev pub M : Type 0 → Type 0
M A = World → Option (A × World)

infixl 5 ◌>>=◌ ◌>>◌
abbrev pub ◌>>=◌ : {A B : Type 0} → M A → (A → M B) → M B
◌>>=◌ m f w = elim (m w) [ none ↦ none | some (a, w') ↦ f a w' ]

abbrev pub ◌>>◌ : {A B : Type 0} → M A → M B → M B
m >> k = m >>= λ _. k

abbrev pub pure : {A : Type 0} → A → M A
pure a w = some (a, w)

abbrev pub fault : {A : Type 0} → M A
fault w = none

abbrev pub emit : Event → M (Unit {0})
emit e w = some (tt, record w { events = w.events ++ e ∷ [] })

abbrev pub update_at {ℓ} : {A : Type ℓ} → ℕ → A → (ℕ → A) → ℕ → A
update_at at a f other = if at == other then a else f other

abbrev pub is_null_room : RoomRef → Bool
is_null_room none = true
is_null_room (some room) = false

-- `Login` hands out the counter, a uint32, and steps it.
unfoldable pub login : M ℕ
login w = some (w.next_user, record w { next_user = u32 (w.next_user + 1) })

-- `session->SetId(id)` and `SessionManager::Add(session)`
unfoldable pub set_id : ℕ → ℕ → M (Unit {0})
set_id ref id w = some (tt, record w { id_of = update_at ref id w.id_of })

unfoldable pub add_session : ℕ → M (Unit {0})
add_session ref w = some (
  tt,
  record w {
    sessions =
        add (record { ref = ref; id = w.id_of ref; protocol = w.protocol_of ref }) w.sessions;
  },
)

abbrev pub get_id : ℕ → M ℕ
get_id ref w = some (w.id_of ref, w)

-- A `static_pointer_cast` to a UDP session, with what is done through it.
abbrev pub as_udp : {A : Type 0} → ℕ → M A → M A
as_udp ref m w = elim (w.protocol_of ref) [ protocol_udp ↦ m w | protocol_tcp ↦ none ]

unfoldable pub session_manager_get : ProtocolType → ℕ → M (Option ℕ)
session_manager_get protocol user_id w =
    let (ref, sessions') = get_session_by_user_id protocol user_id w.sessions in
    some (ref, record w { sessions = sessions' })

unfoldable pub send_each : List ℕ → Reply → M (Unit {0})
send_each [] reply w = some (tt, w)
send_each (ref ∷ refs) reply w =
    send_each refs reply (record w { events = w.events ++ sent ref reply ∷ [] })

-- `SessionManager::Multicast` over TCP.
unfoldable pub multicast_tcp : Reply → M (Unit {0})
unfolding send_each
multicast_tcp reply w = elim (multicast protocol_tcp w.sessions) [
  | none ↦ none
  | some refs ↦ send_each refs reply w
]

-- `Room::Multicast` over TCP: a player without a session is skipped.
unfoldable pub room_multicast_tcp : Players → Reply → M (Unit {0})
unfolding session_manager_get
room_multicast_tcp [] reply w = some (tt, w)
room_multicast_tcp ((user_id, player) ∷ players) reply w =
    let (ref, sessions') = get_session_by_user_id protocol_tcp player.user_id w.sessions in
    room_multicast_tcp players reply (elim ref [
      | none ↦ record w { sessions = sessions' }
      | some r ↦ record w { sessions = sessions'; events = w.events ++ sent r reply ∷ [] }
    ])

-- `Enter`, whose answer the handlers ignore: the room as it is after.
unfoldable pub enter_room : ℕ → Room → Option Room
enter_room user_id room = elim (enter user_id room.players) [
  | Room.entered player players' ↦ some (record room { players = players' })
  | Room.refused players' ↦ some (record room { players = players' })
  | Room.fault ↦ none
]

-- `CreateRoom` and `AddRoom`, and `Enter` on the new room. The map holds the room by reference.
unfoldable pub create_and_enter : ℕ → M ℕ
unfolding enter_room
create_and_enter user_id w =
    let (room_id, ids') = generate Ids.room none w.id_manager in
    elim (enter_room user_id (record { room_id = room_id; players = [] })) [
      | none ↦ none
      | some room ↦ some (room_id, record w { id_manager = ids'; rooms = add_room room w.rooms })
    ]

unfoldable pub find_room : ℕ → M RoomRef
find_room room_id w =
    let (ref, rooms') = get_room_by_room_id room_id w.rooms in
    some (ref, record w { rooms = rooms' })

unfoldable pub find_room_of_user : ℕ → M RoomRef
find_room_of_user user_id w = elim (get_room_by_user_id user_id w.rooms) [
  | none ↦ none
  | some ref ↦ some (ref, w)
]

-- `Enter` on the room that the map holds at the id.
unfoldable pub enter_at : ℕ → ℕ → Room → M (Unit {0})
unfolding enter_room
enter_at room_id user_id room w = elim (enter_room user_id room) [
  | none ↦ none
  | some room' ↦ some (tt, record w { rooms = insert room_id (some room') w.rooms })
]

unfoldable pub room_list : M (List (ℕ × List ℕ))
room_list w = elim (get_room_list w.rooms) [ none ↦ none | some infos ↦ some (infos, w) ]

unfoldable pub set_ready : ℕ → M (Unit {0})
set_ready room_id w = some (tt, record w { is_ready = update_at room_id true w.is_ready })

unfoldable pub handle_ack : ℕ → ℕ → ℕ → M (Unit {0})
handle_ack ref latest bitfield w = some (
  tt,
  record w {
    udp_of = update_at ref (UdpSession.handle_ack latest bitfield (w.udp_of ref)) w.udp_of;
  },
)

abbrev pub value_or : Option (ℕ × ℕ) → ℕ × ℕ
value_or none = (0, 0)
value_or (some address) = address
