-- ===== src/Handlers/Messages.antt =====
-- GameServer/ClientPacketHandler.cpp: one function for each handler, and the choice among them that the
-- tables make. The time of a handler is an argument.
use jam_server_prototype.Common.{
  ℕ, zero, suc, ◌++◌, List, [], ◌∷◌, ◌+◌, Bool, true, false, ◌||◌, Option, none, some, ltb, ◌==◌,
  if◌then◌else◌, u16,
}
use jam_server_prototype.Framing.{tcp_header_size, udp_header_size}
use jam_server_prototype.SendBuffer.{send_buffer_chunk_size}
use jam_server_prototype.Compressor.{unpack_rotation}
use jam_server_prototype.SessionManager.{protocol_udp}
use jam_server_prototype.Player.{Shooter, Range, Shot, process_input}
use jam_server_prototype.Room.{Player, Players, get_player_by_user_id}
use jam_server_prototype.RoomManager.{RoomRef}
use jam_server_prototype.Handlers.{
  Outside, Request, c_login, c_create_room, c_sync_roomlist, c_enter_game, c_chat, c_sync_time,
  c_spawn_actor, c_sync_actor, c_hit_result, c_enter_room, c_handshake, c_ack, c_player_input,
  Reply, s_login, s_create_room, s_enter_room, s_sync_time, s_sync_roomlist, s_enter_game,
  s_handshake, sent, sent_reliable, spawn_queued, input_processed, M, ◌>>=◌, ◌>>◌, pure, fault,
  emit, login, set_id, s_spawn_actor, World, found_range, session_manager_get, add_session, get_id,
  as_udp, multicast_tcp, room_multicast_tcp, create_and_enter, find_room, find_room_of_user,
  enter_at, room_list, set_ready, handle_ack, value_or,
}

module _ (outside : Outside) where
  -- `MakeSendBufferImpl` crashes if the chunk refuses the size, and if the message does not go into its
  -- uint16 size; if the size of the packet wraps, it writes beyond the buffer.
  unfoldable pub make_send_buffer : ℕ → Reply → M Reply
  make_send_buffer header_size reply w =
      if ltb send_buffer_chunk_size (u16 (u16 (outside.byte_size reply) + header_size))
        || ltb (u16 (u16 (outside.byte_size reply) + header_size))
            (u16 (outside.byte_size reply) + header_size)
        || ltb (u16 (outside.byte_size reply)) (outside.byte_size reply)
      then none
      else some (reply, w)

  abbrev pub make_tcp : Reply → M Reply
  make_tcp = make_send_buffer tcp_header_size

  unfoldable pub reply_to : ℕ → Reply → M (Unit {0})
  reply_to ref reply = do buffer ← make_tcp reply; emit (sent ref buffer)

  -- S_SYNC_ROOMLIST to all sessions.
  unfoldable pub multicast_rooms : M Bool
  multicast_rooms = do
    infos ← room_list
    buffer ← make_tcp (s_sync_roomlist infos)
    multicast_tcp buffer
    pure true

  -- After a login that succeeded.
  unfoldable pub register_user : ℕ → ℕ → M (Unit {0})
  register_user ref user_id =
      if user_id == 0 then pure tt else (do set_id ref user_id; add_session ref)

  unfoldable pub handle_c_login : ℕ → M Bool
  unfolding register_user reply_to
  handle_c_login ref = do
    user_id ← login
    register_user ref user_id
    reply_to ref (s_login user_id)
    pure true

  unfoldable pub handle_c_create_room : ℕ → M Bool
  unfolding reply_to multicast_rooms
  handle_c_create_room ref = do
    user_id ← get_id ref
    room_id ← create_and_enter user_id
    reply_to ref (s_create_room room_id)
    multicast_rooms

  abbrev pub enter_found : ℕ → ℕ → RoomRef → M Bool
  enter_found ref room_id none = pure false
  enter_found ref room_id (some room) = do
    user_id ← get_id ref
    enter_at room_id user_id room
    reply_to ref (s_enter_room room_id)
    multicast_rooms

  unfoldable pub handle_c_enter_room : ℕ → ℕ → M Bool
  unfolding reply_to multicast_rooms
  handle_c_enter_room ref room_id = do room ← find_room room_id; enter_found ref room_id room

  abbrev pub send_to_room : Reply → RoomRef → M Bool
  send_to_room buffer none = pure false
  send_to_room buffer (some room) = do room_multicast_tcp room.players buffer; pure true

  unfoldable pub handle_c_enter_game : ℕ → M Bool
  handle_c_enter_game ref = do
    buffer ← (λ w. make_tcp (s_enter_game (value_or w.udp_address)) w)
    user_id ← get_id ref
    room ← find_room_of_user user_id
    send_to_room buffer room

  unfoldable pub handle_c_ack : ℕ → ℕ → ℕ → M Bool
  handle_c_ack ref latest bitfield = as_udp ref (do handle_ack ref latest bitfield; pure true)

  -- The user id is what the client says.
  unfoldable pub handle_c_handshake : ℕ → ℕ → ℕ → M Bool
  handle_c_handshake ref user_id now = do
    set_id ref user_id
    add_session ref
    as_udp ref (do
      buffer ← make_send_buffer udp_header_size s_handshake
      emit (sent_reliable ref buffer now)
      pure true)

  unfoldable pub handle_c_sync_time : ℕ → ℕ → M Bool
  unfolding reply_to
  handle_c_sync_time ref now = do reply_to ref (s_sync_time now); pure true

  -- The session of a player is not checked either.
  abbrev pub send_spawn : Option ℕ → Reply → ℕ → M (Unit {0})
  send_spawn none buffer now = fault
  send_spawn (some ref) buffer now = emit (sent_reliable ref buffer now)

  -- `Room::MulticastSpawnActor`
  unfoldable pub multicast_spawn : ℕ → ℕ → Players → M (Unit {0})
  multicast_spawn room_id now [] = pure tt
  multicast_spawn room_id now ((user_id, player) ∷ players) = do
    buffer ← make_send_buffer udp_header_size (s_spawn_actor room_id player.user_id)
    ref ← session_manager_get protocol_udp player.user_id
    send_spawn ref buffer now
    multicast_spawn room_id now players

  -- That many jobs of the room's queue, one after the other.
  unfoldable pub run_spawns : ℕ → ℕ → ℕ → Players → M (Unit {0})
  unfolding multicast_spawn
  run_spawns zero room_id now players = pure tt
  run_spawns (suc more) room_id now players = do
    multicast_spawn room_id now players
    run_spawns more room_id now players

  -- A job is queued through the room reference, which is not checked, and the push may run it at once.
  abbrev pub spawn_in : ℕ → RoomRef → M Bool
  spawn_in now none = fault
  spawn_in now (some room) = do
    emit (spawn_queued room.room_id)
    (λ w. run_spawns (outside.jobs_run w room.room_id) room.room_id now room.players w)
    set_ready room.room_id
    pure true

  unfoldable pub handle_c_spawn_actor : ℕ → ℕ → M Bool
  handle_c_spawn_actor ref now = do
    user_id ← get_id ref
    room ← find_room_of_user user_id
    spawn_in now room

  abbrev pub after_input :
      ℕ → ℕ → Option (Shooter × Range × List Shot) → World → Option (Bool × World)
  after_input room_id user_id none w = none
  after_input room_id user_id (some (p, r, shots)) w = some (
    true,
    record w {
      sessions = r.sessions;
      events = w.events ++ input_processed room_id user_id p r.rewind_scenes shots ∷ [];
    },
  )

  -- `ProcessInput`, with the fields of the message.
  unfoldable pub input_to : ℕ → ℕ → ℕ → ℕ → ℕ → ℕ → M Bool
  input_to room_id user_id keys angles sequence timestamp w =
      let (yaw, pitch) = unpack_rotation angles in
      after_input room_id user_id
        (process_input (outside.camera_ray w user_id angles timestamp)
          (outside.muzzle_ray w user_id angles timestamp) outside.jump_speed keys yaw pitch sequence
          timestamp (outside.shooter_at w room_id user_id) (found_range outside room_id w))
        w

  abbrev pub input_for : ℕ → ℕ → ℕ → ℕ → ℕ → ℕ → Option Player → M Bool
  input_for room_id user_id keys angles sequence timestamp none = pure false
  input_for room_id user_id keys angles sequence timestamp (some player) =
      input_to room_id user_id keys angles sequence timestamp

  abbrev pub input_in : ℕ → ℕ → ℕ → ℕ → ℕ → RoomRef → M Bool
  input_in user_id keys angles sequence timestamp none = pure false
  input_in user_id keys angles sequence timestamp (some room) =
      input_for room.room_id user_id keys angles sequence timestamp
        (get_player_by_user_id user_id room.players)

  unfoldable pub handle_c_player_input : ℕ → ℕ → ℕ → ℕ → ℕ → M Bool
  handle_c_player_input ref keys angles sequence timestamp = do
    user_id ← get_id ref
    room ← find_room_of_user user_id
    input_in user_id keys angles sequence timestamp room

  -- The session, the message and the server's time.
  unfoldable pub handle : ℕ → Request → ℕ → M Bool
  handle ref c_login now = handle_c_login ref
  handle ref c_create_room now = handle_c_create_room ref
  handle ref (c_enter_room room_id) now = handle_c_enter_room ref room_id
  handle ref c_sync_roomlist now = pure true
  handle ref c_enter_game now = handle_c_enter_game ref
  handle ref (c_ack latest bitfield) now = handle_c_ack ref latest bitfield
  handle ref (c_handshake user_id) now = handle_c_handshake ref user_id now
  handle ref c_chat now = pure true
  handle ref c_sync_time now = handle_c_sync_time ref now
  handle ref c_spawn_actor now = handle_c_spawn_actor ref now
  handle ref c_sync_actor now = pure true
  handle ref (c_player_input keys angles sequence timestamp) now =
      handle_c_player_input ref keys angles sequence timestamp
  handle ref c_hit_result now = pure true
