-- ===== src/Handlers/Steps.antt =====
-- How login, handshake and the making of a room, GameServer/ClientPacketHandler.cpp, change the directory.
use jam_server_prototype.Common.{
  ℕ, ◌+◌, ◌≡◌, inl, inr, refl, sym, ap, ap₂, ◌∙◌, subst, true, Option, none, some, [], ◌==◌,
  Bool-cases, ==_self, arith, u32,
}
use jam_server_prototype.Framing.{udp_header_size}
use jam_server_prototype.Ids.{IdManager, generate}
use jam_server_prototype.SessionManager.{
  protocol_tcp, protocol_udp, SessionBundle, add, with_session,
}
use jam_server_prototype.RoomManager.{Room, add_room}
use jam_server_prototype.Handlers.{
  Outside, c_login, c_create_room, s_login, s_create_room, s_handshake, sent_reliable, World, M,
  ◌>>=◌, ◌>>◌, pure, emit, update_at, login, set_id, add_session, create_and_enter, enter_room,
}
use jam_server_prototype.Handlers.Messages.{
  make_send_buffer, reply_to, multicast_rooms, register_user, handle_c_login, handle_c_create_room,
  handle_c_handshake,
}
use jam_server_prototype.Handlers.Directory.{
  Members, Directory, directory, signed_in, change, bundle_view, rooms_view, or_there,
}
use jam_server_prototype.Handlers.Views.{
  bundle_view-add, rooms_view-add_room, IsBounded, IsBounded-add_room, enter_room-Joined,
  fresh_members,
}
use jam_server_prototype.Handlers.Ends.{
  Ends, Ends-bind, Ends-weaken, Keeps, EndsKeeping, Keeps-bind, make_send_buffer-Keeps,
  reply_to-Keeps, multicast_rooms-Keeps,
}

-- The rooms stay within bounds, and the directory is as given.
abbrev pub Becomes : Directory → World → Type 0
Becomes d w = IsBounded w.rooms × (directory w ≡ d)

abbrev pub EndsIn : {A : Type 0} → Directory → Option (A × World) → Type 0
EndsIn d r = Ends (λ _. Becomes d) r

-- After a change, steps that keep the directory.
pub then_keeps :
    {A B : Type 0} (m : M A) (f : A → M B) (w : World) (d : Directory)
    → EndsIn d (m w)
    → ((a : A) (w' : World) → EndsKeeping w' (f a w'))
    → EndsIn d ((m >>= f) w)
then_keeps m f w d k g =
    Ends-bind m f w (λ _. Becomes d) (λ _. Becomes d) k
      (λ a w' q.
        Ends-weaken (Keeps w') (Becomes d) (f a w') (g a w')
          (λ u p. (subst IsBounded (sym p.0) q.0, p.1 ∙ q.1)))

pub kept :
    {A : Type 0} (w : World) (r : Option (A × World))
    → IsBounded w.rooms
    → EndsKeeping w r
    → EndsIn (directory w) r
kept w r b k =
    Ends-weaken (Keeps w) (Becomes (directory w)) r k (λ u p. (subst IsBounded (sym p.0) b, p.1))

signed : ℕ → ℕ → World → World
signed ref user_id w = record w {
  id_of = update_at ref user_id w.id_of;
  sessions =
      add
        (record { ref = ref; id = update_at ref user_id w.id_of ref; protocol = w.protocol_of ref })
        w.sessions;
}

signed-directory :
    (ref user_id : ℕ) (w : World)
    → directory (signed ref user_id w) ≡ signed_in (w.protocol_of ref) ref user_id (directory w)
unfolding signed
signed-directory ref user_id w =
    let protocol = w.protocol_of ref in
    let new = λ (id : ℕ).
      update_at id (with_session protocol (some ref) (bundle_view w.sessions id))
        (bundle_view w.sessions) in
    let set : update_at ref user_id w.id_of ref ≡ user_id = rw (==_self ref) refl in
    ap
      (λ (b : ℕ → SessionBundle). record (directory w) {
        user_at = update_at ref user_id w.id_of;
        bundle_of = b;
      })
      (bundle_view-add
          (record { ref = ref; id = update_at ref user_id w.id_of ref; protocol = protocol })
          w.sessions
        ∙ ap new set)

module _ (outside : Outside) where
  register_user-EndsIn :
      (ref : ℕ) (w : World)
      → IsBounded w.rooms
      → let w' = record w { next_user = u32 (w.next_user + 1) } in
        EndsIn (change ref c_login (directory w)) (register_user outside ref w.next_user w')
  unfolding register_user set_id add_session change signed
  register_user-EndsIn ref w b = elim (Bool-cases (w.next_user == 0)) [
    | inl e ↦ rw e (b, refl)
    | inr ne ↦
        rw ne (b, signed-directory ref w.next_user (record w { next_user = u32 (w.next_user + 1) }))
  ]

  pub login-EndsIn :
      (ref : ℕ) (w : World)
      → IsBounded w.rooms
      → EndsIn (change ref c_login (directory w)) (handle_c_login outside ref w)
  unfolding handle_c_login login
  login-EndsIn ref w b =
      then_keeps (register_user outside ref w.next_user)
        (λ _. reply_to outside ref (s_login w.next_user) >> pure true)
        (record w { next_user = u32 (w.next_user + 1) }) (change ref c_login (directory w))
        (register_user-EndsIn ref w b)
        (λ a u.
          Keeps-bind (reply_to outside ref (s_login w.next_user)) (λ _. pure true) u
            (reply_to-Keeps outside ref (s_login w.next_user) u) (λ _ v. (refl, refl)))

  pub handshake-EndsIn :
      (ref user_id now : ℕ) (w : World)
      → IsBounded w.rooms
      → EndsIn
          (signed_in (w.protocol_of ref) ref user_id (directory w))
          (handle_c_handshake outside ref user_id now w)
  unfolding handle_c_handshake set_id add_session signed
  handshake-EndsIn ref user_id now w b =
      elim (w.protocol_of ref)
        as (λ p. EndsIn (signed_in (w.protocol_of ref) ref user_id (directory w)) (elim p [
          | protocol_udp ↦
              (make_send_buffer outside udp_header_size s_handshake >>= λ buffer.
              emit (sent_reliable ref buffer now) >> pure true)
                (signed ref user_id w)
          | protocol_tcp ↦ none
        ])) [
          | protocol_tcp ↦ tt
          | protocol_udp ↦
              then_keeps (make_send_buffer outside udp_header_size s_handshake)
                (λ buffer. emit (sent_reliable ref buffer now) >> pure true) (signed ref user_id w)
                (signed_in (w.protocol_of ref) ref user_id (directory w))
                (Ends-weaken (Keeps (signed ref user_id w))
                  (Becomes (signed_in (w.protocol_of ref) ref user_id (directory w)))
                  (make_send_buffer outside udp_header_size s_handshake (signed ref user_id w))
                  (make_send_buffer-Keeps outside udp_header_size s_handshake
                    (signed ref user_id w))
                  (λ u p. (subst IsBounded (sym p.0) b, p.1 ∙ signed-directory ref user_id w)))
                (λ buffer v. (refl, refl))
        ]

  with_room : IdManager → Room → World → World
  with_room ids' room w = record w { id_manager = ids'; rooms = add_room room w.rooms }

  -- The new room, whose only member is the user.
  created :
      (ref : ℕ) (w : World) (r : Option Room)
      → IsBounded w.rooms
      → enter_room (w.id_of ref) (record { room_id = w.id_manager.room_ids; players = [] }) ≡ r
      → EndsIn (change ref c_create_room (directory w)) (elim r [
        | none ↦ none
        | some room ↦ some (
          w.id_manager.room_ids,
          with_room (record w.id_manager { room_ids = u32 (w.id_manager.room_ids + 1) }) room w,
        )
      ])
  unfolding change with_room
  created ref w none b e = tt
  created ref w (some room) b e =
      let new : Room = record { room_id = w.id_manager.room_ids; players = [] } in
      let j = enter_room-Joined (w.id_of ref) new room (omega arith) e in
      let place = λ (id : ℕ) (m : Members).
        update_at id (or_there (rooms_view w.rooms id) m) (rooms_view w.rooms) in
      (
        IsBounded-add_room room w.rooms j.bounded b,
        ap
            (λ (f : ℕ → Option (Option Members)). record (directory w) {
              next_room = u32 (w.id_manager.room_ids + 1);
              room_at = f;
            })
            (rooms_view-add_room room w.rooms
              ∙ ap₂ place j.same_id (
                  j.joined
                  ∙ ap (update_at (w.id_of ref) true) (fresh_members w.id_manager.room_ids))),
      )

  pub create-EndsIn :
      (ref : ℕ) (w : World)
      → IsBounded w.rooms
      → EndsIn (change ref c_create_room (directory w)) (handle_c_create_room outside ref w)
  unfolding handle_c_create_room create_and_enter generate with_room
  create-EndsIn ref w b =
      then_keeps (create_and_enter (w.id_of ref))
        (λ room_id. reply_to outside ref (s_create_room room_id) >> multicast_rooms outside) w
        (change ref c_create_room (directory w))
        (created ref w
          (enter_room (w.id_of ref) (record { room_id = w.id_manager.room_ids; players = [] })) b
          refl)
        (λ room_id u.
          Keeps-bind (reply_to outside ref (s_create_room room_id)) (λ _. multicast_rooms outside) u
            (reply_to-Keeps outside ref (s_create_room room_id) u)
            (λ _ v. multicast_rooms-Keeps outside v))
