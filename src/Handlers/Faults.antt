-- ===== src/Handlers/Faults.antt =====
-- What a message to enter a room that does not exist does to the handlers of
-- GameServer/ClientPacketHandler.cpp.
use jam_server_prototype.Common.{
  ℕ, ◌≡◌, inl, inr, refl, sym, ap, ◌∙◌, subst, true, false, Option, none, some, List, ◌==◌,
  Bool-cases, Option-cases, ==_self, arith,
}
use jam_server_prototype.Common.Dict.{lookup, insert, lookup-insert, lookup-insert_new}
use jam_server_prototype.Ids.{generate}
use jam_server_prototype.Room.{enter}
use jam_server_prototype.RoomManager.{Room, Rooms, add_room, get_room_by_room_id}
use jam_server_prototype.RoomManager.Lookup.{null-faults}
use jam_server_prototype.Handlers.{
  Outside, c_create_room, c_enter_room, Reply, s_create_room, s_sync_roomlist, World, ◌>>=◌, ◌>>◌,
  pure, create_and_enter, enter_room, find_room, room_list, multicast_tcp,
}
use jam_server_prototype.Handlers.Messages.{
  make_tcp, reply_to, multicast_rooms, handle_c_create_room, handle_c_enter_room, handle,
}
use jam_server_prototype.Handlers.Views.{lookup-insert_new_old}
use jam_server_prototype.Handlers.Ends.{Ends, Ends-bind, Ends-weaken, Keeps, reply_to-Keeps}

-- The map holds a null reference at the id.
abbrev pub HasNull : ℕ → World → Type 0
HasNull room_id w = lookup room_id w.rooms ≡ some none

abbrev Never : {A : Type 0} → Option (A × World) → Type 0
Never r = Ends (λ _ _. ⊥) r

Never-none : {A : Type 0} (r : Option (A × World)) → Never r → r ≡ none
Never-none none n = refl
Never-none (some (a, w)) n = absurd n

add_room-null :
    (room_id : ℕ) (room : Room) (rooms : Rooms)
    → lookup room_id rooms ≡ some none
    → lookup room_id (add_room room rooms) ≡ some none
unfolding add_room
add_room-null room_id room rooms h = elim (Option-cases (lookup room.room_id rooms)) [
  | inl new ↦ elim (Bool-cases (room.room_id == room_id)) [
    | inl e ↦ absurd (ground arith)
    | inr ne ↦ rw (lookup-insert_new room.room_id room_id (some room) rooms new, ne) h
  ]
  | inr (old, there) ↦ lookup-insert_new_old room.room_id room_id (some room) old rooms there ∙ h
]

module _ (outside : Outside) (room_id : ℕ) where
  infos-Never : (w : World) → HasNull room_id w → Never (room_list w)
  unfolding room_list
  infos-Never w h =
      subst
        (λ r. Never {A = List (ℕ × List ℕ)} (elim r [ none ↦ none | some infos ↦ some (infos, w) ]))
        (sym (null-faults room_id w.rooms h).1) tt

  list-Never : (w : World) → HasNull room_id w → Never (multicast_rooms outside w)
  unfolding multicast_rooms
  list-Never w h =
      Ends-bind room_list
        (λ infos.
          make_tcp outside (s_sync_roomlist infos) >>= λ buffer. multicast_tcp buffer >> pure true)
        w (λ _ _. ⊥) (λ _ _. ⊥) (infos-Never w h) (λ infos u q. absurd q)

  reply-HasNull :
      (ref : ℕ) (reply : Reply) (w : World)
      → HasNull room_id w
      → Ends (λ _. HasNull room_id) (reply_to outside ref reply w)
  reply-HasNull ref reply w h =
      Ends-weaken (Keeps w) (HasNull room_id) (reply_to outside ref reply w)
        (reply_to-Keeps outside ref reply w) (λ u k. ap (lookup room_id) k.0 ∙ h)

  create-HasNull :
      (user_id : ℕ) (w : World)
      → HasNull room_id w
      → Ends (λ _. HasNull room_id) (create_and_enter user_id w)
  unfolding create_and_enter enter_room enter generate
  create-HasNull user_id w h = add_room-null room_id _ w.rooms h

  create-Never :
      (ref : ℕ) (w : World) → HasNull room_id w → Never (handle_c_create_room outside ref w)
  unfolding handle_c_create_room
  create-Never ref w h =
      Ends-bind (create_and_enter (w.id_of ref))
        (λ new_id. reply_to outside ref (s_create_room new_id) >> multicast_rooms outside) w
        (λ _. HasNull room_id) (λ _ _. ⊥) (create-HasNull (w.id_of ref) w h)
        (λ new_id u q.
          Ends-bind (reply_to outside ref (s_create_room new_id)) (λ _. multicast_rooms outside) u
            (λ _. HasNull room_id) (λ _ _. ⊥) (reply-HasNull ref (s_create_room new_id) u q)
            (λ _ v p. list-Never v p))

  -- A message to enter a room that does not exist is answered with false, and leaves a state in which every
  -- message to create a room, of any session and at any time, is a fault.
  pub enter_missing_faults :
      (ref now : ℕ) (w : World)
      → lookup room_id w.rooms ≡ none
      → (w' : World) × (handle outside ref (c_enter_room room_id) now w ≡ some (false, w'))
        × ((other later : ℕ) → handle outside other c_create_room later w' ≡ none)
  unfolding handle handle_c_enter_room find_room get_room_by_room_id
  enter_missing_faults ref now w h = (
    record w { rooms = insert room_id none w.rooms },
    rw h refl,
    λ other later.
        Never-none
          (handle_c_create_room outside other (record w { rooms = insert room_id none w.rooms }))
          (create-Never other (record w { rooms = insert room_id none w.rooms })
            (rw (lookup-insert room_id room_id none w.rooms, ==_self room_id) refl)),
  )
