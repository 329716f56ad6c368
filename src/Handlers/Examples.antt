-- ===== src/Handlers/Examples.antt =====
-- A client that logs in and makes a room.
use jam_server_prototype.Common.{
  ℕ, ◌≡◌, refl, Bool, true, false, test_bit, Option, none, some, List, [], ◌∷◌, ◌==◌, if◌then◌else◌,
}
use jam_server_prototype.Common.Dict.{lookup, insert, insert_new, keys}
use jam_server_prototype.Ids
use jam_server_prototype.Ids.{generate}
use jam_server_prototype.SessionManager.{
  ProtocolType, protocol_tcp, protocol_udp, add, multicast, get_session_by_user_id,
}
use jam_server_prototype.Room.{enter, get_player_list, get_player_by_user_id}
use jam_server_prototype.RoomManager.{Room, add_room, get_room_list, get_room_by_user_id}
use jam_server_prototype.UdpSession
use jam_server_prototype.Compressor.{unpack_rotation}
use jam_server_prototype.Snapshots.{find_snapshot}
use jam_server_prototype.Player.{
  still, process_input, process_movement, process_jump, process_fire, fire_found,
}
use jam_server_prototype.Handlers.{
  Outside, c_spawn_actor, c_player_input, s_spawn_actor, spawn_queued, sent_reliable,
  session_manager_get, set_ready, find_room_of_user, Request, c_login, c_create_room, c_enter_room,
  s_login, s_create_room, s_sync_roomlist, Event, sent, World, send_each, multicast_tcp, login,
  set_id, add_session, create_and_enter, enter_room, room_list,
}
use jam_server_prototype.Handlers.Messages.{
  handle_c_spawn_actor, run_spawns, multicast_spawn, handle_c_player_input, input_to,
  make_send_buffer, reply_to, multicast_rooms, register_user, handle_c_login, handle_c_create_room,
  handle,
}
use jam_server_prototype.Handlers.Directory.{directory}
use jam_server_prototype.Handlers.Views.{IsBounded}
use jam_server_prototype.Handlers.Refinement.{run, replay, EndsWith, run_refines}
use jam_server_prototype.Handlers.Faults.{enter_missing_faults}

-- Session 0 is over TCP, all others are over UDP.
abbrev protocol : ℕ → ProtocolType
protocol n = if n == 0 then protocol_tcp else protocol_udp

abbrev start : World
start = record {
  next_user = 1;
  id_manager = Ids.init;
  protocol_of = protocol;
  id_of = λ _. 0;
  sessions = [];
  rooms = [];
  is_ready = λ _. false;
  udp_of = λ _. UdpSession.fresh;
  udp_address = some (1, 8888);
  events = [];
}

-- Every message takes ten bytes, a push runs its job at once, and nobody is in sight.
abbrev ten : Outside
ten = record {
  byte_size = λ _. 10;
  jobs_run = λ _ _. 1;
  jump_speed = 0;
  shooter_at = λ _ _ user_id. record {
    user_id = user_id;
    actor_id = 268435457;
    player_index = 0;
    last_process_sequence = 0;
    yaw = 0;
    pitch = 0;
    horizontal_velocity = still;
    vertical_velocity = 0;
    is_grounded = true;
    is_fire_in_progress = false;
  };
  range_at =
      λ _ _. record { snapshots = []; rewind_scenes = λ _. none; alive = λ _. true; sessions = [] };
  camera_ray = λ _ _ _ _ _. none;
  muzzle_ray = λ _ _ _ _ _. none;
}

abbrev script : List (ℕ × Request × ℕ)
script = (0, c_login, 5) ∷ (0, c_create_room, 6) ∷ []

abbrev events_of : Option World → List Event
events_of none = []
events_of (some w) = w.events

abbrev events_of_answer : Option (Bool × World) → List Event
events_of_answer none = []
events_of_answer (some (answer, w)) = w.events

script_events :
    events_of (run ten script start)
    ≡ sent 0 (s_login 1)
      ∷ sent 0 (s_create_room 1)
      ∷ sent 0 (s_sync_roomlist ((1, 1 ∷ []) ∷ []))
      ∷ []
unfolding run handle handle_c_login login register_user set_id add_session add insert lookup
    reply_to make_send_buffer handle_c_create_room create_and_enter enter_room enter generate
    add_room insert_new multicast_rooms room_list get_room_list get_player_list multicast_tcp
    multicast send_each keys
script_events = refl

no_rooms-IsBounded : IsBounded []
unfolding IsBounded lookup
no_rooms-IsBounded room_id room e = absurd (cc e)

run_refines_example : EndsWith (replay script (directory start)) (run ten script start)
run_refines_example = run_refines ten script start no_rooms-IsBounded

-- User 1, who is in room 1, over TCP as session 0 and over UDP as session 2.
abbrev alone : Room
alone = record {
  room_id = 1;
  players = (1, record { user_id = 1; player_index = 0; color = 0 }) ∷ [];
}

abbrev playing : World
playing = record start {
  id_of = λ _. 1;
  sessions = (1, record { tcp_session = some 0; udp_session = some 2 }) ∷ [];
  rooms = (1, some alone) ∷ [];
}

spawned :
    events_of_answer (handle ten 2 c_spawn_actor 5 playing)
    ≡ spawn_queued 1 ∷ sent_reliable 2 (s_spawn_actor 1 1) 5 ∷ []
unfolding handle handle_c_spawn_actor run_spawns multicast_spawn make_send_buffer
    session_manager_get get_session_by_user_id lookup insert set_ready find_room_of_user
    get_room_by_user_id get_player_by_user_id
spawned = refl

-- Without the UDP session the job faults, inside the handler.
spawn_faults :
    handle ten 2 c_spawn_actor 5
      (record playing { sessions = (1, record { tcp_session = some 0; udp_session = none }) ∷ [] })
    ≡ none
unfolding handle handle_c_spawn_actor run_spawns multicast_spawn make_send_buffer
    session_manager_get get_session_by_user_id lookup insert set_ready find_room_of_user
    get_room_by_user_id get_player_by_user_id
spawn_faults = refl

-- A shot in a room without a snapshot.
shot_faults : handle ten 2 (c_player_input 32 0 1 7) 5 playing ≡ none
unfolding handle handle_c_player_input input_to process_input process_movement process_jump
    process_fire find_snapshot fire_found find_room_of_user get_room_by_user_id
    get_player_by_user_id lookup test_bit unpack_rotation
shot_faults = refl

no_room_nine : lookup 9 start.rooms ≡ none
unfolding lookup
no_room_nine = refl

enter_missing_faults_example :
    (w' : World) × (handle ten 0 (c_enter_room 9) 5 start ≡ some (false, w'))
    × ((other later : ℕ) → handle ten other c_create_room later w' ≡ none)
enter_missing_faults_example = enter_missing_faults ten 9 0 5 start no_room_nine
