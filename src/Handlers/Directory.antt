-- ===== src/Handlers/Directory.antt =====
-- What the handlers of GameServer/ClientPacketHandler.cpp are for, as a directory: which user each session
-- is, the sessions of each user, and who is in which room. It forgets the order of the maps, the players'
-- other fields and all output.
use jam_server_prototype.Common.{
  ℕ, ◌+◌, Bool, true, false, Option, none, some, ◌==◌, if◌then◌else◌, u32,
}
use jam_server_prototype.Common.Dict.{lookup}
use jam_server_prototype.SessionManager.{
  ProtocolType, SessionBundle, SessionMap, or_empty, with_session,
}
use jam_server_prototype.RoomManager.{Room, RoomRef, Rooms, has_player}
use jam_server_prototype.Room.{get_player_by_user_id}
use jam_server_prototype.Handlers.{
  Request, c_login, c_create_room, c_sync_roomlist, c_enter_game, c_chat, c_sync_time,
  c_spawn_actor, c_sync_actor, c_hit_result, c_enter_room, c_handshake, c_ack, c_player_input,
  World, update_at,
}

-- A room as the set of its users.
abbrev pub Members : Type 0
Members = ℕ → Bool

pub record Directory : Type 0 where
  pub next_user : ℕ
  pub next_room : ℕ
  pub protocol_of : ℕ → ProtocolType
  pub user_at : ℕ → ℕ
  pub bundle_of : ℕ → SessionBundle
  -- nothing, a null reference, or a room
  pub room_at : ℕ → Option (Option Members)

abbrev pub members : Room → Members
members room user_id = has_player (get_player_by_user_id user_id room.players)

abbrev pub room_view : Option RoomRef → Option (Option Members)
room_view none = none
room_view (some none) = some none
room_view (some (some room)) = some (some (members room))

abbrev pub bundle_view : SessionMap → ℕ → SessionBundle
bundle_view m user_id = or_empty (lookup user_id m)

abbrev pub rooms_view : Rooms → ℕ → Option (Option Members)
rooms_view rooms room_id = room_view (lookup room_id rooms)

abbrev pub directory : World → Directory
directory w = record {
  next_user = w.next_user;
  next_room = w.id_manager.room_ids;
  protocol_of = w.protocol_of;
  user_at = w.id_of;
  bundle_of = bundle_view w.sessions;
  room_at = rooms_view w.rooms;
}

-- The session becomes this user's, for its protocol.
abbrev pub signed_in : ProtocolType → ℕ → ℕ → Directory → Directory
signed_in protocol ref user_id d = record d {
  user_at = update_at ref user_id d.user_at;
  bundle_of =
      update_at user_id (with_session protocol (some ref) (d.bundle_of user_id)) d.bundle_of;
}

-- A room is put where there is nothing; what is there stays.
abbrev pub or_there : Option (Option Members) → Members → Option (Option Members)
or_there none m = some (some m)
or_there (some there) m = some there

-- A look at a room leaves a null reference where there was nothing.
abbrev pub looked_at : Option (Option Members) → ℕ → Option (Option Members)
looked_at none user_id = some none
looked_at (some none) user_id = some none
looked_at (some (some m)) user_id = some (some (update_at user_id true m))

unfoldable pub change : ℕ → Request → Directory → Directory
change ref c_login d =
    let d' = record d { next_user = u32 (d.next_user + 1) } in
    if d.next_user == 0 then d' else signed_in (d.protocol_of ref) ref d.next_user d'
change ref c_create_room d = record d {
  next_room = u32 (d.next_room + 1);
  room_at =
      update_at d.next_room
        (or_there (d.room_at d.next_room) (update_at (d.user_at ref) true (λ _. false))) d.room_at;
}
change ref (c_enter_room room_id) d = record d {
  room_at = update_at room_id (looked_at (d.room_at room_id) (d.user_at ref)) d.room_at;
}
change ref (c_handshake user_id) d = signed_in (d.protocol_of ref) ref user_id d
change ref c_sync_roomlist d = d
change ref c_enter_game d = d
change ref (c_ack latest bitfield) d = d
change ref c_chat d = d
change ref c_sync_time d = d
change ref c_spawn_actor d = d
change ref c_sync_actor d = d
change ref (c_player_input keys angles sequence timestamp) d = d
change ref c_hit_result d = d
