-- ===== src/Handlers/Replying.antt =====
-- When sending replies, logging in and entering rooms end without a fault, GameServer/ClientPacketHandler.cpp.
use jam_server_prototype.Common.{
  ℕ, ◌+◌, ◌≤◌, ◌<◌, ◌≡◌, ◌⊎◌, inl, inr, sym, subst, true, false, ◌||◌, Option, none, some, ◌==◌,
  ltb, Bool-cases, length, u16, u32, arith,
}
use jam_server_prototype.Common.Dict.{lookup, insert}
use jam_server_prototype.SendBuffer.{send_buffer_chunk_size}
use jam_server_prototype.Framing.{tcp_header_size, udp_header_size}
use jam_server_prototype.Ids.{generate}
use jam_server_prototype.Room.{enter, max_players_per_room}
use jam_server_prototype.RoomManager.{Room, RoomRef, or_null}
use jam_server_prototype.RoomManager.Lookup.{AllRooms}
use jam_server_prototype.Handlers.{
  Outside, Reply, s_login, s_create_room, s_enter_room, s_sync_roomlist, sent, World, ◌>>=◌, ◌>>◌,
  pure, emit, login, set_id, add_session, create_and_enter, enter_room, enter_at, multicast_tcp,
  room_list,
}
use jam_server_prototype.Handlers.Messages.{
  make_send_buffer, make_tcp, reply_to, multicast_rooms, register_user, enter_found, handle_c_login,
  handle_c_create_room,
}
use jam_server_prototype.Handlers.Yielding.{
  Yields, Returns, Yields-bind, Fits, Ready, multicast_tcp-Returns, room_list-Yields,
  AllRooms-insert, AllRooms-add_room, enter_room_total,
}

module _ (outside : Outside) (fits : Fits outside) where
  pub make_send_buffer-Yields :
      (header_size : ℕ) (P : World → Type 0) (reply : Reply) (w : World)
      → header_size ≤ udp_header_size
      → P w
      → Yields (λ _. P) (make_send_buffer outside header_size reply w)
  unfolding make_send_buffer
  make_send_buffer-Yields header_size P reply w h p =
      let f = fits reply in
      let small : (ltb send_buffer_chunk_size (u16 (u16 (outside.byte_size reply) + header_size))
            || ltb (u16 (u16 (outside.byte_size reply) + header_size))
                (u16 (outside.byte_size reply) + header_size)
            || ltb (u16 (outside.byte_size reply)) (outside.byte_size reply))
          ≡ false =
        ground (arith, f) in
      rw small p

  pub reply_to-Yields :
      (ref : ℕ) (reply : Reply) (w : World)
      → Ready w
      → Yields (λ _. Ready) (reply_to outside ref reply w)
  unfolding reply_to
  reply_to-Yields ref reply w r =
      Yields-bind (make_tcp outside reply) (λ buffer. emit (sent ref buffer)) w (λ _. Ready)
        (λ _. Ready) (make_send_buffer-Yields tcp_header_size Ready reply w (omega arith) r)
        (λ a u q. q)

  pub multicast_rooms-Returns : (w : World) → Ready w → Returns (multicast_rooms outside w)
  unfolding multicast_rooms
  multicast_rooms-Returns w r =
      Yields-bind room_list
        (λ infos.
          make_tcp outside (s_sync_roomlist infos) >>= λ buffer. multicast_tcp buffer >> pure true)
        w (λ _. Ready) (λ _ _. Unit {0}) (room_list-Yields w r)
        (λ infos u q.
          Yields-bind (make_tcp outside (s_sync_roomlist infos))
            (λ buffer. multicast_tcp buffer >> pure true) u (λ _. Ready) (λ _ _. Unit {0})
            (make_send_buffer-Yields tcp_header_size Ready (s_sync_roomlist infos) u (omega arith)
              q)
            (λ buffer v p.
              Yields-bind (multicast_tcp buffer) (λ _. pure true) v (λ _ _. Unit {0})
                (λ _ _. Unit {0}) (multicast_tcp-Returns buffer v p.1) (λ _ _ _. tt)))

  -- The reply to one session, and then the list to all.
  pub reply_and_list :
      (ref : ℕ) (reply : Reply) (w : World)
      → Ready w
      → Returns ((reply_to outside ref reply >> multicast_rooms outside) w)
  reply_and_list ref reply w r =
      Yields-bind (reply_to outside ref reply) (λ _. multicast_rooms outside) w (λ _. Ready)
        (λ _ _. Unit {0}) (reply_to-Yields ref reply w r) (λ _ u q. multicast_rooms-Returns u q)

  pub register_user-Yields :
      (ref user_id : ℕ) (w : World)
      → AllRooms w.rooms
      → Yields (λ _ u. AllRooms u.rooms) (register_user outside ref user_id w)
  unfolding register_user set_id add_session
  register_user-Yields ref user_id w a = elim (Bool-cases (user_id == 0)) [
    | inl e ↦ rw e a
    | inr ne ↦ rw ne a
  ]

  pub reply_to-Returns :
      (ref : ℕ) (reply : Reply) (w : World) → Returns ((reply_to outside ref reply >> pure true) w)
  unfolding reply_to
  reply_to-Returns ref reply w =
      Yields-bind (reply_to outside ref reply) (λ _. pure true) w (λ _ _. Unit {0})
        (λ _ _. Unit {0})
        (Yields-bind (make_tcp outside reply) (λ buffer. emit (sent ref buffer)) w (λ _ _. Unit {0})
          (λ _ _. Unit {0})
          (make_send_buffer-Yields tcp_header_size (λ _. Unit {0}) reply w (omega arith) tt)
          (λ _ _ _. tt))
        (λ _ _ _. tt)

  pub login-Returns :
      (ref : ℕ) (w : World) → AllRooms w.rooms → Returns (handle_c_login outside ref w)
  unfolding handle_c_login login
  login-Returns ref w a =
      Yields-bind (register_user outside ref w.next_user)
        (λ _. reply_to outside ref (s_login w.next_user) >> pure true)
        (record w { next_user = u32 (w.next_user + 1) }) (λ _ u. AllRooms u.rooms) (λ _ _. Unit {0})
        (register_user-Yields ref w.next_user (record w { next_user = u32 (w.next_user + 1) }) a)
        (λ _ u _. reply_to-Returns ref (s_login w.next_user) u)

  pub create-Returns :
      (ref : ℕ) (w : World) → Ready w → Returns (handle_c_create_room outside ref w)
  unfolding handle_c_create_room create_and_enter enter_room enter generate
  create-Returns ref w r =
      reply_and_list ref (s_create_room w.id_manager.room_ids) _
        (AllRooms-add_room _ w.rooms r.0, r.1)

  -- The user enters the room that is there.
  pub entered-Returns :
      (ref room_id : ℕ) (room : Room) (w : World)
      → Ready w
      → length room.players < max_players_per_room
      → Returns (enter_found outside ref room_id (some room) w)
  unfolding enter_at
  entered-Returns ref room_id room w r lt =
      let (room', e) = enter_room_total (w.id_of ref) room lt in
      Yields-bind (enter_at room_id (w.id_of ref) room)
        (λ _. reply_to outside ref (s_enter_room room_id) >> multicast_rooms outside) w (λ _. Ready)
        (λ _ _. Unit {0})
        (subst
          (λ x.
            Yields (λ _. Ready)
              (elim x [
                | none ↦ none
                | some room' ↦ some (tt, record w { rooms = insert room_id (some room') w.rooms })
              ]))
          (sym e) (AllRooms-insert room_id room' w.rooms r.0, r.1))
        (λ _ u q. reply_and_list ref (s_enter_room room_id) u q)

  pub enter-Returns :
      (ref room_id : ℕ) (w : World) (o : Option RoomRef)
      → Ready w
      → lookup room_id w.rooms ≡ o
      → ((o ≡ none)
          ⊎ ((room : Room) × (o ≡ some (some room)) × (length room.players < max_players_per_room)))
      → Returns (
          enter_found outside ref room_id
            (or_null o)
            (record w { rooms = insert room_id (or_null o) w.rooms }))
  enter-Returns ref room_id w none r e s = tt
  enter-Returns ref room_id w (some none) r e s = tt
  enter-Returns ref room_id w (some (some room)) r e (inl f) = absurd (cc f)
  enter-Returns ref room_id w (some (some room)) r e (inr (found, f, lt)) =
      let same : found ≡ room = cc f in
      entered-Returns ref room_id room (record w { rooms = insert room_id (some room) w.rooms })
        (AllRooms-insert room_id room w.rooms r.0, r.1)
        (subst (λ (x : Room). length x.players < max_players_per_room) same lt)
