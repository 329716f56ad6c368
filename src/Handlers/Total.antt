-- ===== src/Handlers/Total.antt =====
-- When the handlers of GameServer/ClientPacketHandler.cpp come to an end without a fault.
use jam_server_prototype.Common.{ℕ, test_bit, ◌<◌, ◌≡◌, ◌⊎◌, true, none, some, length}
use jam_server_prototype.Common.Dict.{lookup}
use jam_server_prototype.SessionManager.{protocol_udp}
use jam_server_prototype.Room.{Player, max_players_per_room}
use jam_server_prototype.RoomManager.{Room, get_room_by_user_id}
use jam_server_prototype.RoomManager.Lookup.{any_has}
use jam_server_prototype.Handlers.{
  found_range, Outside, Request, c_login, c_create_room, c_sync_roomlist, c_enter_game, c_chat,
  c_sync_time, c_spawn_actor, c_sync_actor, c_hit_result, c_enter_room, c_handshake, c_ack,
  c_player_input, World,
}
use jam_server_prototype.Handlers.Directory.{bundle_view}
use jam_server_prototype.Handlers.Spawning.{AllUdp}
use jam_server_prototype.Handlers.Shooting.{CanFire}
use jam_server_prototype.Player.{fire}

-- Each player of the user's room has a UDP session.
abbrev pub SeesPlayers : ℕ → World → Type 0
SeesPlayers user_id w =
    (room : Room)
    → get_room_by_user_id user_id w.rooms ≡ some (some room)
    → AllUdp (bundle_view w.sessions) room.players

-- The user's player in this room can fire.
abbrev pub FiresIn : Outside → ℕ → ℕ → ℕ → World → Room → Type 0
FiresIn outside user_id angles timestamp w room =
    CanFire (outside.muzzle_ray w user_id angles timestamp) timestamp
      (outside.shooter_at w room.room_id user_id) (found_range outside room.room_id w)

-- If the user is in a room, the user's player can fire.
abbrev pub Fires : Outside → ℕ → ℕ → ℕ → World → Type 0
Fires outside user_id angles timestamp w =
    (room : Room)
    → get_room_by_user_id user_id w.rooms ≡ some (some room)
    → FiresIn outside user_id angles timestamp w room

-- What a message needs in order not to fault: a room that is named is missing or not full; acknowledgement
-- and handshake come over UDP; who spawns an actor is in a room, each of whose players has a UDP session; and
-- the player of a user who fires can fire.
abbrev pub IsSafe : Outside → ℕ → Request → World → Type 0
IsSafe outside ref (c_enter_room room_id) w =
    (lookup room_id w.rooms ≡ none)
    ⊎ ((room : Room) × (lookup room_id w.rooms ≡ some (some room))
        × (length room.players < max_players_per_room))
IsSafe outside ref (c_handshake user_id) w = w.protocol_of ref ≡ protocol_udp
IsSafe outside ref (c_ack latest bitfield) w = w.protocol_of ref ≡ protocol_udp
IsSafe outside ref c_spawn_actor w =
    (any_has (w.id_of ref) w.rooms ≡ true) × SeesPlayers (w.id_of ref) w
IsSafe outside ref c_login w = Unit {0}
IsSafe outside ref c_create_room w = Unit {0}
IsSafe outside ref c_sync_roomlist w = Unit {0}
IsSafe outside ref c_enter_game w = Unit {0}
IsSafe outside ref c_chat w = Unit {0}
IsSafe outside ref c_sync_time w = Unit {0}
IsSafe outside ref c_sync_actor w = Unit {0}
IsSafe outside ref (c_player_input keys angles sequence timestamp) w =
    test_bit keys fire ≡ true → Fires outside (w.id_of ref) angles timestamp w
IsSafe outside ref c_hit_result w = Unit {0}
