-- ===== src/RoomManager/Lookup.antt =====
-- Looking up rooms, and what a lookup of a room that does not exist leaves behind.
use jam_server_prototype.Common.{
  ℕ, ◌≡◌, refl, ◌∙◌, Bool, true, false, Option, none, some, List, [], ◌∷◌, ◌==◌, if◌then◌else◌,
  Bool-cases, inl, inr, arith,
}
use jam_server_prototype.Common.Dict.{
  lookup, insert, insert_new, lookup-insert, lookup-erase, lookup-insert_new,
}
use jam_server_prototype.Room.{get_player_by_user_id}
use jam_server_prototype.RoomManager.{
  Room, RoomRef, Rooms, add_room, remove_room, get_room_by_room_id, has_player, get_room_by_user_id,
  update, get_room_list,
}

-- A room that was added is found under its id, every other id gives what it gave before, and after
-- it is removed its id gives no room.
pub add_remove_lem :
    (room : Room) (id : ℕ) (rooms : Rooms)
    → lookup room.room_id rooms ≡ none
    → ((get_room_by_room_id id (add_room room rooms)).0
        ≡ (if room.room_id == id then some room else (get_room_by_room_id id rooms).0))
      × ((get_room_by_room_id room.room_id (remove_room room (add_room room rooms))).0 ≡ none)
unfolding get_room_by_room_id add_room remove_room
add_remove_lem room id rooms h = (
  ground (arith, lookup-insert_new room.room_id id (some room) rooms h),
  ground
      (arith, lookup-erase room.room_id room.room_id (insert_new room.room_id (some room) rooms)),
)

-- No room reference is null.
abbrev pub AllRooms : Rooms → Type 0
AllRooms [] = Unit {0}
AllRooms ((id, none) ∷ rooms) = ⊥
AllRooms ((id, some room) ∷ rooms) = AllRooms rooms

-- With no null reference the update goes through.
pub update_total : (rooms : Rooms) → AllRooms rooms → (ids : List ℕ) × (update rooms ≡ some ids)
unfolding update
update_total [] a = ([], refl)
update_total ((id, none) ∷ rooms) a = absurd a
update_total ((id, some room) ∷ rooms) a =
    let (ids, e) = update_total rooms a in (room.room_id ∷ ids, rw (e, update))

-- Whether some room has the user.
abbrev pub any_has : ℕ → Rooms → Bool
any_has user_id [] = false
any_has user_id ((id, none) ∷ rooms) = any_has user_id rooms
any_has user_id ((id, some room) ∷ rooms) =
    if has_player (get_player_by_user_id user_id room.players) then true else any_has user_id rooms

-- What a search answers: a room that has the user, or none when no room has.
abbrev pub Answers : ℕ → Rooms → Option RoomRef → Type 0
Answers user_id rooms none = ⊥
Answers user_id rooms (some none) = any_has user_id rooms ≡ false
Answers user_id rooms (some (some room)) =
    has_player (get_player_by_user_id user_id room.players) ≡ true

Answers-skip :
    (user_id id : ℕ) (room : Room) (rooms : Rooms) (r : Option RoomRef)
    → has_player (get_player_by_user_id user_id room.players) ≡ false
    → Answers user_id rooms r
    → Answers user_id ((id, some room) ∷ rooms) r
Answers-skip user_id id room rooms none other a = a
Answers-skip user_id id room rooms (some none) other a = rw other a
Answers-skip user_id id room rooms (some (some found)) other a = a

-- With no null reference, the search by user ends, with a room that has the user, or with null when
-- no room has.
pub get_room_by_user_id-Answers :
    (user_id : ℕ) (rooms : Rooms)
    → AllRooms rooms
    → Answers user_id rooms (get_room_by_user_id user_id rooms)
unfolding get_room_by_user_id
get_room_by_user_id-Answers user_id [] a = refl
get_room_by_user_id-Answers user_id ((id, none) ∷ rooms) a = absurd a
get_room_by_user_id-Answers user_id ((id, some room) ∷ rooms) a =
    elim (Bool-cases (has_player (get_player_by_user_id user_id room.players))) [
      | inl found ↦ rw (found, get_room_by_user_id, Answers) found
      | inr other ↦ rw other (
          Answers-skip user_id id room rooms (get_room_by_user_id user_id rooms) other
            (get_room_by_user_id-Answers user_id rooms a))
    ]

pub null-faults :
    (id : ℕ) (rooms : Rooms)
    → lookup id rooms ≡ some none
    → (update rooms ≡ none) × (get_room_list rooms ≡ none)
unfolding update get_room_list lookup
null-faults id [] h = cc
null-faults id ((j, none) ∷ rooms) h = (refl, refl)
null-faults id ((j, some room) ∷ rooms) h = ground (arith, null-faults id rooms)

null-search :
    (id user_id : ℕ) (rooms : Rooms)
    → lookup id rooms ≡ some none
    → any_has user_id rooms ≡ false
    → get_room_by_user_id user_id rooms ≡ none
unfolding get_room_by_user_id lookup
null-search id user_id [] h n = cc
null-search id user_id ((j, none) ∷ rooms) h n = refl
null-search id user_id ((j, some room) ∷ rooms) h n = ground (arith, null-search id user_id rooms)

any_has-insert_null :
    (id user_id : ℕ) (rooms : Rooms)
    → lookup id rooms ≡ none
    → any_has user_id (insert id none rooms) ≡ any_has user_id rooms
unfolding insert lookup
any_has-insert_null id user_id [] h = refl
any_has-insert_null id user_id ((j, none) ∷ rooms) h =
    ground (arith, any_has-insert_null id user_id rooms)
any_has-insert_null id user_id ((j, some room) ∷ rooms) h =
    ground (arith, any_has-insert_null id user_id rooms)

-- Asking for a room id that does not exist leaves a null reference in the map: from then on the
-- update of all rooms, the room list, and the search for any user who is in no room are faults.
pub get_missing_faults :
    (id user_id : ℕ) (rooms : Rooms)
    → lookup id rooms ≡ none
    → let r = get_room_by_room_id id rooms in
      (r.0 ≡ none)
      × (update r.1 ≡ none)
      × (get_room_list r.1 ≡ none)
      × (any_has user_id rooms ≡ false → get_room_by_user_id user_id r.1 ≡ none)
unfolding get_room_by_room_id
get_missing_faults id user_id rooms h =
    let null : lookup id (insert id none rooms) ≡ some none =
      ground (arith, lookup-insert id id none rooms) in
    rw h (
      refl,
      (null-faults id (insert id none rooms) null).0,
      (null-faults id (insert id none rooms) null).1,
      λ n.
          null-search id user_id (insert id none rooms) null
            (any_has-insert_null id user_id rooms h ∙ n),
    )
