-- ===== src/Handlers/Quiet.antt =====
-- The handlers of GameServer/ClientPacketHandler.cpp that leave the directory alone.
use jam_server_prototype.Common.{ℕ, refl, true, Option, none, some}
use jam_server_prototype.Framing.{tcp_header_size}
use jam_server_prototype.SessionManager.{protocol_tcp, protocol_udp}
use jam_server_prototype.Room.{Player, get_player_by_user_id}
use jam_server_prototype.RoomManager.{RoomRef}
use jam_server_prototype.Handlers.{
  Outside, Reply, s_sync_time, s_enter_game, World, ◌>>=◌, ◌>>◌, pure, find_room_of_user,
  room_multicast_tcp, handle_ack, value_or, get_id,
}
use jam_server_prototype.Handlers.Messages.{
  make_tcp, reply_to, send_to_room, spawn_in, input_for, input_in, handle_c_enter_game,
  handle_c_ack, handle_c_sync_time, handle_c_spawn_actor, handle_c_player_input,
}
use jam_server_prototype.Handlers.Spawning.{spawn_in-Keeps}
use jam_server_prototype.Handlers.Shooting.{input_to-Keeps}
use jam_server_prototype.Handlers.Ends.{
  EndsKeeping, Keeps-bind, room_multicast_tcp-Keeps, find_room_of_user-Keeps,
  make_send_buffer-Keeps, reply_to-Keeps,
}

module _ (outside : Outside) where
  in_game :
      (buffer : Reply) (room : RoomRef) (w : World)
      → EndsKeeping w (send_to_room outside buffer room w)
  in_game buffer none w = (refl, refl)
  in_game buffer (some room) w =
      Keeps-bind (room_multicast_tcp room.players buffer) (λ _. pure true) w
        (room_multicast_tcp-Keeps room.players buffer w) (λ _ v. (refl, refl))

  pub enter_game-Keeps : (ref : ℕ) (w : World) → EndsKeeping w (handle_c_enter_game outside ref w)
  unfolding handle_c_enter_game
  enter_game-Keeps ref w =
      Keeps-bind (λ u. make_tcp outside (s_enter_game (value_or u.udp_address)) u)
        (λ buffer.
          get_id ref >>= λ user_id. find_room_of_user user_id >>= send_to_room outside buffer)
        w (make_send_buffer-Keeps outside tcp_header_size (s_enter_game (value_or w.udp_address)) w)
        (λ buffer u.
          Keeps-bind (find_room_of_user (u.id_of ref)) (send_to_room outside buffer) u
            (find_room_of_user-Keeps (u.id_of ref) u) (in_game buffer))

  pub ack-Keeps :
      (ref latest bitfield : ℕ) (w : World)
      → EndsKeeping w (handle_c_ack outside ref latest bitfield w)
  unfolding handle_c_ack handle_ack
  ack-Keeps ref latest bitfield w =
      elim (w.protocol_of ref)
        as (λ p. EndsKeeping w (elim p [
          | protocol_udp ↦ (handle_ack ref latest bitfield >> pure true) w
          | protocol_tcp ↦ none
        ])) [ protocol_tcp ↦ tt | protocol_udp ↦ (refl, refl) ]

  pub spawn-Keeps :
      (ref now : ℕ) (w : World) → EndsKeeping w (handle_c_spawn_actor outside ref now w)
  unfolding handle_c_spawn_actor
  spawn-Keeps ref now w =
      Keeps-bind (find_room_of_user (w.id_of ref)) (spawn_in outside now) w
        (find_room_of_user-Keeps (w.id_of ref) w) (spawn_in-Keeps outside now)

  input_for-Keeps :
      (room_id user_id keys angles sequence timestamp : ℕ) (player : Option Player) (w : World)
      → EndsKeeping w (input_for outside room_id user_id keys angles sequence timestamp player w)
  input_for-Keeps room_id user_id keys angles sequence timestamp none w = (refl, refl)
  input_for-Keeps room_id user_id keys angles sequence timestamp (some player) w =
      input_to-Keeps outside room_id user_id w keys angles sequence timestamp

  input_in-Keeps :
      (user_id keys angles sequence timestamp : ℕ) (room : RoomRef) (w : World)
      → EndsKeeping w (input_in outside user_id keys angles sequence timestamp room w)
  input_in-Keeps user_id keys angles sequence timestamp none w = (refl, refl)
  input_in-Keeps user_id keys angles sequence timestamp (some room) w =
      input_for-Keeps room.room_id user_id keys angles sequence timestamp
        (get_player_by_user_id user_id room.players) w

  pub input-Keeps :
      (ref keys angles sequence timestamp : ℕ) (w : World)
      → EndsKeeping w (handle_c_player_input outside ref keys angles sequence timestamp w)
  unfolding handle_c_player_input
  input-Keeps ref keys angles sequence timestamp w =
      Keeps-bind (find_room_of_user (w.id_of ref))
        (input_in outside (w.id_of ref) keys angles sequence timestamp) w
        (find_room_of_user-Keeps (w.id_of ref) w)
        (input_in-Keeps (w.id_of ref) keys angles sequence timestamp)

  pub time-Keeps : (ref now : ℕ) (w : World) → EndsKeeping w (handle_c_sync_time outside ref now w)
  unfolding handle_c_sync_time
  time-Keeps ref now w =
      Keeps-bind (reply_to outside ref (s_sync_time now)) (λ _. pure true) w
        (reply_to-Keeps outside ref (s_sync_time now) w) (λ _ v. (refl, refl))
