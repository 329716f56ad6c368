-- ===== src/Handlers/Yielding.antt =====
-- When steps of the handlers in GameServer/ClientPacketHandler.cpp end without a fault, and in which states.
use jam_server_prototype.Common.{
  ℕ, ◌+◌, ◌≤◌, ◌<◌, ◌≡◌, inl, inr, refl, sym, subst, Option, none, some, List, [], ◌∷◌, ◌++◌, ◌==◌,
  Bool-cases, length, arith,
}
use jam_server_prototype.Common.Dict.{insert, insert_new}
use jam_server_prototype.SendBuffer.{send_buffer_chunk_size}
use jam_server_prototype.Framing.{udp_header_size}
use jam_server_prototype.SessionManager.{protocol_tcp}
use jam_server_prototype.SessionManager.Pairing.{AllHave, multicast_total}
use jam_server_prototype.Room.{Players, enter, get_player_list, max_players_per_room}
use jam_server_prototype.RoomManager.{
  Room, RoomRef, Rooms, add_room, get_room_by_user_id, get_room_list,
}
use jam_server_prototype.RoomManager.Lookup.{AllRooms, Answers, get_room_by_user_id-Answers}
use jam_server_prototype.Handlers.{
  Outside, Reply, sent, World, M, ◌>>=◌, enter_room, find_room_of_user, room_multicast_tcp,
  multicast_tcp, send_each, room_list,
}

-- The step ends, in a state with the property.
abbrev pub Yields : {A : Type 0} → (A → World → Type 0) → Option (A × World) → Type 0
Yields P none = ⊥
Yields P (some (a, w)) = P a w

abbrev pub Returns : {A : Type 0} → Option (A × World) → Type 0
Returns r = Yields (λ _ _. Unit {0}) r

pub Yields-on :
    {A B : Type 0} (Q : A → World → Type 0) (P : B → World → Type 0) (f : A → M B)
    (r : Option (A × World))
    → Yields Q r
    → ((a : A) (w : World) → Q a w → Yields P (f a w))
    → Yields P (elim r [ none ↦ none | some (a, w) ↦ f a w ])
Yields-on Q P f none q k = absurd q
Yields-on Q P f (some (a, w)) q k = k a w q

pub Yields-bind :
    {A B : Type 0} (m : M A) (f : A → M B) (w : World) (Q : A → World → Type 0)
    (P : B → World → Type 0)
    → Yields Q (m w)
    → ((a : A) (w' : World) → Q a w' → Yields P (f a w'))
    → Yields P ((m >>= f) w)
Yields-bind m f w Q P q k = Yields-on Q P f (m w) q k

-- No message is too large for a send buffer.
abbrev pub Fits : Outside → Type 0
Fits outside = (reply : Reply) → outside.byte_size reply + udp_header_size ≤ send_buffer_chunk_size

-- No room reference is null, and every user has a TCP session.
abbrev pub Ready : World → Type 0
Ready w = AllRooms w.rooms × AllHave protocol_tcp w.sessions

pub send_each-Returns :
    (refs : List ℕ) (reply : Reply) (w : World) → Returns (send_each refs reply w)
unfolding send_each
send_each-Returns [] reply w = tt
send_each-Returns (ref ∷ refs) reply w =
    send_each-Returns refs reply (record w { events = w.events ++ sent ref reply ∷ [] })

pub multicast_tcp-Returns :
    (reply : Reply) (w : World) → AllHave protocol_tcp w.sessions → Returns (multicast_tcp reply w)
unfolding multicast_tcp
multicast_tcp-Returns reply w a =
    let (refs, e) = multicast_total protocol_tcp w.sessions a in
    subst (λ r. Returns (elim r [ none ↦ none | some refs ↦ send_each refs reply w ])) (sym e)
      (send_each-Returns refs reply w)

pub get_room_list_total :
    (rooms : Rooms)
    → AllRooms rooms
    → (infos : List (ℕ × List ℕ)) × (get_room_list rooms ≡ some infos)
unfolding get_room_list
get_room_list_total [] a = ([], refl)
get_room_list_total ((id, none) ∷ rooms) a = absurd a
get_room_list_total ((id, some room) ∷ rooms) a =
    let (infos, e) = get_room_list_total rooms a in
    ((id, get_player_list room.players) ∷ infos, rw (e, get_room_list))

pub room_list-Yields : (w : World) → Ready w → Yields (λ _. Ready) (room_list w)
unfolding room_list
room_list-Yields w r =
    let (infos, e) = get_room_list_total w.rooms r.0 in
    subst (λ x. Yields (λ _. Ready) (elim x [ none ↦ none | some i ↦ some (i, w) ])) (sym e) r

-- The room that `GetRoomByUserId` finds, and the state, which is the same.
pub find_room_of_user-Found :
    (user_id : ℕ) (w : World)
    → AllRooms w.rooms
    → Yields
        (λ ref u.
          (u ≡ w)
          × (get_room_by_user_id user_id w.rooms ≡ some ref)
          × Answers user_id w.rooms (some ref))
        (find_room_of_user user_id w)
unfolding find_room_of_user
find_room_of_user-Found user_id w a =
    found_on user_id w (get_room_by_user_id user_id w.rooms) refl
      (get_room_by_user_id-Answers user_id w.rooms a)
  where
    found_on :
        (user_id : ℕ) (w : World) (r : Option RoomRef)
        → get_room_by_user_id user_id w.rooms ≡ r
        → Answers user_id w.rooms r
        → Yields
            (λ ref u.
              (u ≡ w)
              × (get_room_by_user_id user_id w.rooms ≡ some ref)
              × Answers user_id w.rooms (some ref))
            (elim r [ none ↦ none | some ref ↦ some (ref, w) ])
    found_on user_id w none e a = a
    found_on user_id w (some none) e a = (refl, e, a)
    found_on user_id w (some (some room)) e a = (refl, e, a)

pub find_room_of_user-Yields :
    (user_id : ℕ) (w : World)
    → AllRooms w.rooms
    → Yields (λ ref _. Answers user_id w.rooms (some ref)) (find_room_of_user user_id w)
unfolding find_room_of_user
find_room_of_user-Yields user_id w a =
    answers_on user_id w (get_room_by_user_id user_id w.rooms)
      (get_room_by_user_id-Answers user_id w.rooms a)
  where
    answers_on :
        (user_id : ℕ) (w : World) (r : Option RoomRef)
        → Answers user_id w.rooms r
        → Yields
            (λ ref _. Answers user_id w.rooms (some ref))
            (elim r [ none ↦ none | some ref ↦ some (ref, w) ])
    answers_on user_id w none a = a
    answers_on user_id w (some none) a = a
    answers_on user_id w (some (some room)) a = a

pub room_multicast_tcp-Returns :
    (players : Players) (reply : Reply) (w : World) → Returns (room_multicast_tcp players reply w)
unfolding room_multicast_tcp
room_multicast_tcp-Returns [] reply w = tt
room_multicast_tcp-Returns ((user_id, player) ∷ players) reply w =
    room_multicast_tcp-Returns players reply _

pub AllRooms-insert :
    (id : ℕ) (room : Room) (rooms : Rooms) → AllRooms rooms → AllRooms (insert id (some room) rooms)
unfolding insert
AllRooms-insert id room [] a = tt
AllRooms-insert id room ((j, none) ∷ rooms) a = absurd a
AllRooms-insert id room ((j, some r) ∷ rooms) a = elim (Bool-cases (j == id)) [
  | inl e ↦ rw e a
  | inr ne ↦ rw ne (AllRooms-insert id room rooms a)
]

pub AllRooms-add_room :
    (room : Room) (rooms : Rooms) → AllRooms rooms → AllRooms (add_room room rooms)
unfolding add_room insert_new
AllRooms-add_room room [] a = tt
AllRooms-add_room room ((j, none) ∷ rooms) a = absurd a
AllRooms-add_room room ((j, some r) ∷ rooms) a = elim (Bool-cases (j == room.room_id)) [
  | inl e ↦ rw e a
  | inr ne ↦ rw ne (AllRooms-add_room room rooms a)
]

pub enter_room_total :
    (user_id : ℕ) (room : Room)
    → length room.players < max_players_per_room
    → (room' : Room) × (enter_room user_id room ≡ some room')
unfolding enter_room enter
enter_room_total user_id room lt = (
  record room {
    players =
        insert user_id
          (record {
            user_id = user_id;
            player_index = length room.players;
            color = length room.players;
          })
          room.players;
  },
  ground arith,
)
