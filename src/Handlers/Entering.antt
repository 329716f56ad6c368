-- ===== src/Handlers/Entering.antt =====
-- How entering a room, GameServer/ClientPacketHandler.cpp, changes the directory.
use jam_server_prototype.Common.{ℕ, ◌≤◌, ◌≡◌, refl, sym, ap, ◌∙◌, subst, Option, none, some, length}
use jam_server_prototype.Common.Dict.{lookup, insert}
use jam_server_prototype.Room.{max_players_per_room}
use jam_server_prototype.RoomManager.{Room, RoomRef, get_room_by_room_id, or_null}
use jam_server_prototype.Handlers.{
  Outside, c_enter_room, s_enter_room, World, ◌>>◌, update_at, enter_room, find_room, enter_at,
}
use jam_server_prototype.Handlers.Messages.{
  reply_to, multicast_rooms, enter_found, handle_c_enter_room,
}
use jam_server_prototype.Handlers.Directory.{
  Members, Directory, directory, change, rooms_view, looked_at, members, room_view,
}
use jam_server_prototype.Handlers.Views.{
  rooms_view-insert, rooms_view-insert_same, IsBounded, IsBounded-insert, Joined, enter_room-Joined,
}
use jam_server_prototype.Handlers.Ends.{Keeps-bind, reply_to-Keeps, multicast_rooms-Keeps}
use jam_server_prototype.Handlers.Steps.{Becomes, EndsIn, then_keeps}

module _ (outside : Outside) where
  with_entry : ℕ → RoomRef → World → World
  with_entry room_id room w = record w { rooms = insert room_id room w.rooms }

  entry-Becomes :
      (room_id user_id : ℕ) (entry : RoomRef) (w : World)
      → ((room : Room) → entry ≡ some room → length room.players ≤ max_players_per_room)
      → IsBounded w.rooms
      → looked_at (rooms_view w.rooms room_id) user_id ≡ room_view (some entry)
      → Becomes
          (record (directory w) {
            room_at =
                update_at room_id
                  (looked_at (rooms_view w.rooms room_id) user_id)
                  (rooms_view w.rooms);
          })
          (with_entry room_id entry w)
  unfolding with_entry
  entry-Becomes room_id user_id entry w small b e = (
    IsBounded-insert room_id entry w.rooms small b,
    ap (λ (f : ℕ → Option (Option Members)). record (directory w) { room_at = f })
        (rooms_view-insert room_id entry w.rooms
          ∙ ap (λ (v : Option (Option Members)). update_at room_id v (rooms_view w.rooms)) (sym e)),
  )

  b_at :
      (room_id : ℕ) (room : Room) (w : World)
      → IsBounded w.rooms
      → lookup room_id w.rooms ≡ some (some room)
      → length room.players ≤ max_players_per_room
  unfolding IsBounded
  b_at room_id room w b there = b room_id room there

  put_back :
      (room_id : ℕ) (room : Room) (w : World)
      → lookup room_id w.rooms ≡ some (some room)
      → directory (with_entry room_id (some room) w) ≡ directory w
  unfolding with_entry
  put_back room_id room w there =
      ap (λ (f : ℕ → Option (Option Members)). record (directory w) { room_at = f })
        (rooms_view-insert_same room_id (some room) w.rooms there)

  put_back-IsBounded :
      (room_id : ℕ) (room : Room) (w : World)
      → IsBounded w.rooms
      → lookup room_id w.rooms ≡ some (some room)
      → IsBounded (with_entry room_id (some room) w).rooms
  unfolding with_entry
  put_back-IsBounded room_id room w b there =
      IsBounded-insert room_id (some room) w.rooms
        (λ r e.
          let same : room ≡ r = cc e in
          subst (λ (x : Room). length x.players ≤ max_players_per_room) same
            (b_at room_id room w b there))
        b

  change-Becomes :
      (ref room_id : ℕ) (room room' : Room) (w : World)
      → IsBounded w.rooms
      → rooms_view w.rooms room_id ≡ some (some (members room))
      → Joined (w.id_of ref) room room'
      → Becomes
          (change ref (c_enter_room room_id) (directory w))
          (with_entry room_id (some room') w)
  unfolding change
  change-Becomes ref room_id room room' w b view j =
      entry-Becomes room_id (w.id_of ref) (some room') w
        (λ r e.
          let same : room' ≡ r = cc e in
          subst (λ (x : Room). length x.players ≤ max_players_per_room) same j.bounded)
        b (rw view (ap (λ (m : Members). some (some m)) (sym j.joined)))

  -- `Enter` on the room that is there.
  entered_at :
      (ref room_id : ℕ) (room : Room) (w : World) (r : Option Room)
      → IsBounded w.rooms
      → lookup room_id w.rooms ≡ some (some room)
      → enter_room (w.id_of ref) room ≡ r
      → EndsIn (change ref (c_enter_room room_id) (directory w)) (elim r [
        | none ↦ none
        | some room' ↦ some (tt, with_entry room_id (some room') (with_entry room_id (some room) w))
      ])
  unfolding with_entry
  entered_at ref room_id room w none b there e = tt
  entered_at ref room_id room w (some room') b there e =
      let j = enter_room-Joined (w.id_of ref) room room' (b_at room_id room w b there) e in
      let back = with_entry room_id (some room) w in
      let same = put_back room_id room w there in
      subst
        (λ d. Becomes (change ref (c_enter_room room_id) d) (with_entry room_id (some room') back))
        same
        (change-Becomes ref room_id room room' back (put_back-IsBounded room_id room w b there)
          (ap (λ (d : Directory). d.room_at room_id) same ∙ ap room_view there) j)

  entered :
      (ref room_id : ℕ) (w : World) (o : Option RoomRef)
      → IsBounded w.rooms
      → lookup room_id w.rooms ≡ o
      → EndsIn
          (change ref (c_enter_room room_id) (directory w))
          (enter_found outside ref room_id (or_null o) (with_entry room_id (or_null o) w))
  unfolding change with_entry enter_at
  entered ref room_id w none b e =
      entry-Becomes room_id (w.id_of ref) none w (λ r f. absurd (cc f)) b (rw e refl)
  entered ref room_id w (some none) b e =
      entry-Becomes room_id (w.id_of ref) none w (λ r f. absurd (cc f)) b (rw e refl)
  entered ref room_id w (some (some room)) b e =
      then_keeps (enter_at room_id (w.id_of ref) room)
        (λ _. reply_to outside ref (s_enter_room room_id) >> multicast_rooms outside)
        (with_entry room_id (some room) w) (change ref (c_enter_room room_id) (directory w))
        (entered_at ref room_id room w (enter_room (w.id_of ref) room) b e refl)
        (λ _ u.
          Keeps-bind (reply_to outside ref (s_enter_room room_id)) (λ _. multicast_rooms outside) u
            (reply_to-Keeps outside ref (s_enter_room room_id) u)
            (λ _ v. multicast_rooms-Keeps outside v))

  pub enter-EndsIn :
      (ref room_id : ℕ) (w : World)
      → IsBounded w.rooms
      → EndsIn
          (change ref (c_enter_room room_id) (directory w))
          (handle_c_enter_room outside ref room_id w)
  unfolding handle_c_enter_room find_room get_room_by_room_id with_entry
  enter-EndsIn ref room_id w b = entered ref room_id w (lookup room_id w.rooms) b refl
