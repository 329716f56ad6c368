-- ===== src/Handlers/Views.antt =====
-- How the maps behind the handlers of GameServer/ClientPacketHandler.cpp read as functions.
use jam_server_prototype.Common.{
  ℕ, ◌≤◌, ◌≡◌, inl, inr, refl, sym, ap, ◌∙◌, subst, true, false, none, some, [], ◌∷◌, ◌==◌, ltb,
  Bool-cases, Option-cases, ==_iff, length, arith,
}
use mathlib.Core.Path.{fun_ext}
use jam_server_prototype.Common.Dict.{
  lookup, insert, insert_new, lookup-insert, lookup-insert_new, length-insert-le,
}
use jam_server_prototype.SessionManager.{
  ProtocolType, Session, SessionMap, or_empty, with_session, add, get_session_by_user_id, subscript,
}
use jam_server_prototype.Room.{Player, enter, max_players_per_room, get_player_by_user_id}
use jam_server_prototype.RoomManager.{Room, RoomRef, Rooms, add_room}
use jam_server_prototype.Handlers.{update_at, enter_room}
use jam_server_prototype.Handlers.Directory.{
  Members, members, room_view, bundle_view, rooms_view, or_there,
}

module _ (user_id : ℕ) (m : SessionMap) where
  bundle_view-subscript : bundle_view (subscript user_id m).1 ≡ bundle_view m
  unfolding subscript
  bundle_view-subscript = fun_ext λ other. elim (Bool-cases (user_id == other)) [
    | inl e ↦
        rw (lookup-insert user_id other (or_empty (lookup user_id m)) m, e)
          (ap (bundle_view m) ((==_iff user_id other).0 e))
    | inr ne ↦ rw (lookup-insert user_id other (or_empty (lookup user_id m)) m, ne) refl
  ]

  pub bundle_view-get :
      (protocol : ProtocolType)
      → bundle_view (get_session_by_user_id protocol user_id m).1 ≡ bundle_view m
  unfolding get_session_by_user_id
  bundle_view-get protocol = bundle_view-subscript

pub bundle_view-add :
    (s : Session) (m : SessionMap)
    → bundle_view (add s m)
      ≡ update_at s.id (with_session s.protocol (some s.ref) (bundle_view m s.id)) (bundle_view m)
unfolding add
bundle_view-add s m = fun_ext λ other.
    let b = or_empty (lookup s.id m) in
    let outer =
      lookup-insert s.id other (with_session s.protocol (some s.ref) b) (insert s.id b m) in
    let inner = lookup-insert s.id other b m in
    elim (Bool-cases (s.id == other)) [
      | inl e ↦ rw (outer, e) refl
      | inr ne ↦ rw (outer, ne, inner, ne) refl
    ]

pub rooms_view-insert :
    (room_id : ℕ) (ref : RoomRef) (rooms : Rooms)
    → rooms_view (insert room_id ref rooms)
      ≡ update_at room_id (room_view (some ref)) (rooms_view rooms)
rooms_view-insert room_id ref rooms = fun_ext λ other. elim (Bool-cases (room_id == other)) [
  | inl e ↦ rw (lookup-insert room_id other ref rooms, e) refl
  | inr ne ↦ rw (lookup-insert room_id other ref rooms, ne) refl
]

-- An entry that is put back changes nothing.
pub rooms_view-insert_same :
    (room_id : ℕ) (ref : RoomRef) (rooms : Rooms)
    → lookup room_id rooms ≡ some ref
    → rooms_view (insert room_id ref rooms) ≡ rooms_view rooms
rooms_view-insert_same room_id ref rooms there = fun_ext λ other.
    elim (Bool-cases (room_id == other)) [
      | inl e ↦
          rw (lookup-insert room_id other ref rooms, e)
            (sym (ap room_view there) ∙ ap (rooms_view rooms) ((==_iff room_id other).0 e))
      | inr ne ↦ rw (lookup-insert room_id other ref rooms, ne) refl
    ]

pub lookup-insert_new_old :
    (k j : ℕ) (ref old : RoomRef) (rooms : Rooms)
    → lookup k rooms ≡ some old
    → lookup j (insert_new k ref rooms) ≡ lookup j rooms
unfolding lookup insert_new
lookup-insert_new_old k j ref old [] h = absurd (cc h)
lookup-insert_new_old k j ref old ((i, w) ∷ m) h =
    ground (arith, lookup-insert_new_old k j ref old m)

kept_view :
    (k other : ℕ) (m : Members) (old : RoomRef) (rooms : Rooms)
    → lookup k rooms ≡ some old
    → rooms_view rooms other
      ≡ update_at k (or_there (rooms_view rooms k) m) (rooms_view rooms) other
kept_view k other m none rooms there = elim (Bool-cases (k == other)) [
  | inl e ↦ rw (e, there) (ap (rooms_view rooms) (sym ((==_iff k other).0 e)) ∙ ap room_view there)
  | inr ne ↦ rw ne refl
]
kept_view k other m (some room) rooms there = elim (Bool-cases (k == other)) [
  | inl e ↦ rw (e, there) (ap (rooms_view rooms) (sym ((==_iff k other).0 e)) ∙ ap room_view there)
  | inr ne ↦ rw ne refl
]

pub rooms_view-add_room :
    (room : Room) (rooms : Rooms)
    → rooms_view (add_room room rooms)
      ≡ update_at room.room_id
          (or_there (rooms_view rooms room.room_id) (members room))
          (rooms_view rooms)
unfolding add_room
rooms_view-add_room room rooms = fun_ext λ other. elim (Option-cases (lookup room.room_id rooms)) [
  | inl new ↦ elim (Bool-cases (room.room_id == other)) [
    | inl e ↦ rw (lookup-insert_new room.room_id other (some room) rooms new, e, new) refl
    | inr ne ↦ rw (lookup-insert_new room.room_id other (some room) rooms new, ne) refl
  ]
  | inr (old, there) ↦
      rw (lookup-insert_new_old room.room_id other (some room) old rooms there)
        (kept_view room.room_id other (members room) old rooms there)
]

-- Rooms have at most the players that the code means them to have.
unfoldable pub IsBounded : Rooms → Type 0
IsBounded rooms =
    (room_id : ℕ) (room : Room)
    → lookup room_id rooms ≡ some (some room)
    → length room.players ≤ max_players_per_room

members-insert :
    (user_id : ℕ) (player : Player) (room : Room)
    → members (record room { players = insert user_id player room.players })
      ≡ update_at user_id true (members room)
unfolding get_player_by_user_id
members-insert user_id player room = fun_ext λ other. elim (Bool-cases (user_id == other)) [
  | inl e ↦ rw (lookup-insert user_id other player room.players, e) refl
  | inr ne ↦ rw (lookup-insert user_id other player room.players, ne) refl
]

-- What `Enter` gives, when it does not fault on a room that is not too full.
pub record Joined (user_id : ℕ) (room room' : Room) : Type 0 where
  pub same_id : room'.room_id ≡ room.room_id
  pub joined : members room' ≡ update_at user_id true (members room)
  pub bounded : length room'.players ≤ max_players_per_room

pub enter_room-Joined :
    (user_id : ℕ) (room room' : Room)
    → length room.players ≤ max_players_per_room
    → enter_room user_id room ≡ some room'
    → Joined user_id room room'
unfolding enter_room enter
enter_room-Joined user_id room room' h e =
    let player : Player = record {
      user_id = user_id;
      player_index = length room.players;
      color = length room.players;
    } in
    let grown = length-insert-le user_id player room.players in
    elim (Bool-cases (ltb (length room.players) max_players_per_room)) [
      | inl lt ↦
          let eq : record room { players = insert user_id player room.players } ≡ room' =
            ground arith in
          subst (Joined user_id room) eq (record {
            same_id = refl;
            joined = members-insert user_id player room;
            bounded = ground arith;
          })
      | inr ge ↦ absurd (ground arith)
    ]

pub fresh_members :
    (room_id : ℕ) → members (record { room_id = room_id; players = [] }) ≡ (λ _. false)
unfolding get_player_by_user_id lookup
fresh_members room_id = refl

pub IsBounded-insert :
    (room_id : ℕ) (ref : RoomRef) (rooms : Rooms)
    → ((room : Room) → ref ≡ some room → length room.players ≤ max_players_per_room)
    → IsBounded rooms
    → IsBounded (insert room_id ref rooms)
unfolding IsBounded
IsBounded-insert room_id ref rooms h b other room e = elim (Bool-cases (room_id == other)) [
  | inl same ↦ h room (cc (rw (lookup-insert room_id other ref rooms, same) at e))
  | inr ne ↦ b other room (rw (lookup-insert room_id other ref rooms, ne) at e)
]

pub IsBounded-add_room :
    (new : Room) (rooms : Rooms)
    → length new.players ≤ max_players_per_room
    → IsBounded rooms
    → IsBounded (add_room new rooms)
unfolding IsBounded add_room
IsBounded-add_room new rooms h b other room e = elim (Option-cases (lookup new.room_id rooms)) [
  | inl none_there ↦ elim (Bool-cases (new.room_id == other)) [
    | inl same ↦
        let eq : new ≡ room =
          cc (rw (lookup-insert_new new.room_id other (some new) rooms none_there, same) at e) in
        omega (arith, h, ap (λ (r : Room). length r.players) eq)
    | inr ne ↦
        b other room (rw (lookup-insert_new new.room_id other (some new) rooms none_there, ne) at e)
  ]
  | inr (old, there) ↦
      b other room (rw (lookup-insert_new_old new.room_id other (some new) old rooms there) at e)
]
