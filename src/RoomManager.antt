-- ===== src/RoomManager.antt =====
-- GameServer/RoomManager.h and RoomManager.cpp: the rooms, by room id. A room reference may be null;
-- a call through a null reference is a fault, written `none`. A room is its players.
pub mod Lookup
mod Examples
use jam_server_prototype.Common.{
  ℕ, Bool, true, false, Option, none, some, List, [], ◌∷◌, if◌then◌else◌,
}
use jam_server_prototype.Common.Dict.{Dict, lookup, insert, insert_new, erase, keys}
use jam_server_prototype.Room.{Players, Player, get_player_by_user_id, get_player_list}

pub record Room : Type 0 where
  pub room_id : ℕ
  pub players : Players

abbrev pub RoomRef : Type 0
RoomRef = Option Room

abbrev pub Rooms : Type 0
Rooms = Dict RoomRef

unfoldable pub add_room : Room → Rooms → Rooms
add_room room rooms = insert_new room.room_id (some room) rooms

unfoldable pub remove_room : Room → Rooms → Rooms
remove_room room rooms = erase room.room_id rooms

abbrev pub or_null : Option RoomRef → RoomRef
or_null none = none
or_null (some ref) = ref

-- `_rooms[roomId]`, which puts a null reference where there is no room
unfoldable pub get_room_by_room_id : ℕ → Rooms → RoomRef × Rooms
get_room_by_room_id room_id rooms =
    let ref = or_null (lookup room_id rooms) in (ref, insert room_id ref rooms)

abbrev pub has_player : Option Player → Bool
has_player none = false
has_player (some p) = true

-- The first room that has the user; the outer `none` is a fault.
unfoldable pub get_room_by_user_id : ℕ → Rooms → Option RoomRef
get_room_by_user_id user_id [] = some none
get_room_by_user_id user_id ((room_id, none) ∷ rooms) = none
get_room_by_user_id user_id ((room_id, some room) ∷ rooms) =
    let rest = get_room_by_user_id user_id rooms in
    if has_player (get_player_by_user_id user_id room.players) then some (some room) else rest

-- `Update` calls `Room::Update` on each room: the ids of the rooms it called, in order.
unfoldable pub update : Rooms → Option (List ℕ)
update [] = some []
update ((room_id, none) ∷ rooms) = none
update ((room_id, some room) ∷ rooms) = elim (update rooms) [
  | none ↦ none
  | some ids ↦ some (room.room_id ∷ ids)
]

-- The pairs of room id and user ids that `GetRoomList` sends.
unfoldable pub get_room_list : Rooms → Option (List (ℕ × List ℕ))
get_room_list [] = some []
get_room_list ((room_id, none) ∷ rooms) = none
get_room_list ((room_id, some room) ∷ rooms) = elim (get_room_list rooms) [
  | none ↦ none
  | some infos ↦ some ((room_id, get_player_list room.players) ∷ infos)
]
