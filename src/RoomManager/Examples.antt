-- ===== src/RoomManager/Examples.antt =====
-- The room map on concrete rooms.
use jam_server_prototype.Common.{◌≡◌, refl, none, some, [], ◌∷◌}
use jam_server_prototype.Common.Dict.{lookup}
use jam_server_prototype.RoomManager.{Room, Rooms}

abbrev lobby : Room
lobby = record {
  room_id = 1;
  players = (5, record { user_id = 5; player_index = 0; color = 0 }) ∷ [];
}

abbrev arena : Room
arena = record { room_id = 2; players = [] }

abbrev rooms : Rooms
rooms = (1, some lobby) ∷ []

two-missing : lookup 2 rooms ≡ none
unfolding lookup
two-missing = refl
