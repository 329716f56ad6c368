-- ===== src/Handlers/Ends.antt =====
-- Postconditions of the steps of handlers, GameServer/ClientPacketHandler.cpp: what holds if a step does not
-- fault; and the steps that leave the directory alone.
use jam_server_prototype.Common.{
  ℕ, ◌+◌, ◌≡◌, inl, inr, refl, ap, ◌∙◌, true, ◌||◌, Option, none, some, List, [], ◌∷◌, ◌++◌, ltb,
  Bool-cases, u16,
}
use jam_server_prototype.SendBuffer.{send_buffer_chunk_size}
use jam_server_prototype.SessionManager.{
  protocol_tcp, multicast, get_session_by_user_id, SessionMap, SessionBundle,
}
use jam_server_prototype.Room.{Players}
use jam_server_prototype.RoomManager.{get_room_by_user_id, get_room_list}
use jam_server_prototype.Handlers.{
  Outside, Reply, sent, s_sync_roomlist, World, M, ◌>>=◌, ◌>>◌, pure, emit, send_each,
  multicast_tcp, room_multicast_tcp, room_list, find_room_of_user, Event,
}
use jam_server_prototype.Handlers.Messages.{make_send_buffer, reply_to, multicast_rooms, make_tcp}
use jam_server_prototype.Handlers.Directory.{directory}
use jam_server_prototype.Handlers.Views.{bundle_view-get}
use jam_server_prototype.Framing.{tcp_header_size}

abbrev pub Ends : {A : Type 0} → (A → World → Type 0) → Option (A × World) → Type 0
Ends P none = Unit {0}
Ends P (some (a, w)) = P a w

Ends-on :
    {A B : Type 0} (Q : A → World → Type 0) (P : B → World → Type 0) (f : A → M B)
    (r : Option (A × World))
    → Ends Q r
    → ((a : A) (w : World) → Q a w → Ends P (f a w))
    → Ends P (elim r [ none ↦ none | some (a, w) ↦ f a w ])
Ends-on Q P f none q k = tt
Ends-on Q P f (some (a, w)) q k = k a w q

pub Ends-bind :
    {A B : Type 0} (m : M A) (f : A → M B) (w : World) (Q : A → World → Type 0)
    (P : B → World → Type 0)
    → Ends Q (m w)
    → ((a : A) (w' : World) → Q a w' → Ends P (f a w'))
    → Ends P ((m >>= f) w)
Ends-bind m f w Q P q k = Ends-on Q P f (m w) q k

-- The rooms are the same, and the directory.
abbrev pub Keeps : World → World → Type 0
Keeps w w' = (w'.rooms ≡ w.rooms) × (directory w' ≡ directory w)

abbrev pub EndsKeeping : {A : Type 0} → World → Option (A × World) → Type 0
EndsKeeping w r = Ends (λ _. Keeps w) r

pub Ends-weaken :
    {A : Type 0} (P Q : World → Type 0) (r : Option (A × World))
    → Ends (λ _. P) r
    → ((w : World) → P w → Q w)
    → Ends (λ _. Q) r
Ends-weaken P Q none p f = tt
Ends-weaken P Q (some (a, w)) p f = f w p

pub Keeps-bind :
    {A B : Type 0} (m : M A) (f : A → M B) (w : World)
    → EndsKeeping w (m w)
    → ((a : A) (w' : World) → EndsKeeping w' (f a w'))
    → EndsKeeping w ((m >>= f) w)
Keeps-bind m f w k g =
    Ends-bind m f w (λ _. Keeps w) (λ _. Keeps w) k
      (λ a w' q.
        Ends-weaken (Keeps w') (Keeps w) (f a w') (g a w') (λ w'' p. (p.0 ∙ q.0, p.1 ∙ q.1)))

pub send_each-Keeps :
    (refs : List ℕ) (reply : Reply) (w : World) → EndsKeeping w (send_each refs reply w)
unfolding send_each
send_each-Keeps [] reply w = (refl, refl)
send_each-Keeps (ref ∷ refs) reply w =
    send_each-Keeps refs reply (record w { events = w.events ++ sent ref reply ∷ [] })

pub multicast_tcp-Keeps : (reply : Reply) (w : World) → EndsKeeping w (multicast_tcp reply w)
unfolding multicast_tcp
multicast_tcp-Keeps reply w =
    elim (multicast protocol_tcp w.sessions)
      as (λ r. EndsKeeping w (elim r [ none ↦ none | some refs ↦ send_each refs reply w ])) [
        | none ↦ tt
        | some refs ↦ send_each-Keeps refs reply w
      ]

pub room_list-Keeps : (w : World) → EndsKeeping w (room_list w)
unfolding room_list
room_list-Keeps w =
    elim (get_room_list w.rooms)
      as (λ r. EndsKeeping w (elim r [ none ↦ none | some infos ↦ some (infos, w) ])) [
        | none ↦ tt
        | some infos ↦ (refl, refl)
      ]

pub find_room_of_user-Keeps :
    (user_id : ℕ) (w : World) → EndsKeeping w (find_room_of_user user_id w)
unfolding find_room_of_user
find_room_of_user-Keeps user_id w =
    elim (get_room_by_user_id user_id w.rooms)
      as (λ r. EndsKeeping w (elim r [ none ↦ none | some ref ↦ some (ref, w) ])) [
        | none ↦ tt
        | some ref ↦ (refl, refl)
      ]

with_sessions : SessionMap → List Event → World → World
with_sessions m events w = record w { sessions = m; events = events }

looked_up-directory :
    (user_id : ℕ) (events : List Event) (w : World)
    → directory (with_sessions (get_session_by_user_id protocol_tcp user_id w.sessions).1 events w)
      ≡ directory w
unfolding with_sessions
looked_up-directory user_id events w =
    ap (λ (b : ℕ → SessionBundle). record (directory w) { bundle_of = b })
      (bundle_view-get user_id w.sessions protocol_tcp)

pub room_multicast_tcp-Keeps :
    (players : Players) (reply : Reply) (w : World)
    → EndsKeeping w (room_multicast_tcp players reply w)
unfolding room_multicast_tcp with_sessions
room_multicast_tcp-Keeps [] reply w = (refl, refl)
room_multicast_tcp-Keeps ((user_id, player) ∷ players) reply w =
    let (ref, sessions') = get_session_by_user_id protocol_tcp player.user_id w.sessions in
    elim ref
      as (λ r. EndsKeeping w (
        room_multicast_tcp players reply (elim r [
          | none ↦ record w { sessions = sessions' }
          | some s ↦ record w { sessions = sessions'; events = w.events ++ sent s reply ∷ [] }
        ]))) [
          | none ↦
              Ends-weaken (Keeps (with_sessions sessions' w.events w)) (Keeps w)
                (room_multicast_tcp players reply (with_sessions sessions' w.events w))
                (room_multicast_tcp-Keeps players reply (with_sessions sessions' w.events w))
                (λ u p. (p.0, p.1 ∙ looked_up-directory player.user_id w.events w))
          | some s ↦
              Ends-weaken (Keeps (with_sessions sessions' (w.events ++ sent s reply ∷ []) w))
                (Keeps w)
                (room_multicast_tcp players reply
                  (with_sessions sessions' (w.events ++ sent s reply ∷ []) w))
                (room_multicast_tcp-Keeps players reply
                  (with_sessions sessions' (w.events ++ sent s reply ∷ []) w))
                (λ u p.
                  (p.0, p.1 ∙ looked_up-directory player.user_id (w.events ++ sent s reply ∷ []) w))
        ]

module _ (outside : Outside) where
  pub make_send_buffer-Keeps :
      (header_size : ℕ) (reply : Reply) (w : World)
      → EndsKeeping w (make_send_buffer outside header_size reply w)
  unfolding make_send_buffer
  make_send_buffer-Keeps header_size reply w =
      elim (Bool-cases (
        ltb send_buffer_chunk_size (u16 (u16 (outside.byte_size reply) + header_size))
        || ltb (u16 (u16 (outside.byte_size reply) + header_size))
            (u16 (outside.byte_size reply) + header_size)
        || ltb (u16 (outside.byte_size reply)) (outside.byte_size reply))) [
          | inl e ↦ rw e tt
          | inr ne ↦ rw ne (refl, refl)
        ]

  pub reply_to-Keeps :
      (ref : ℕ) (reply : Reply) (w : World) → EndsKeeping w (reply_to outside ref reply w)
  unfolding reply_to
  reply_to-Keeps ref reply w =
      Keeps-bind (make_tcp outside reply) (λ buffer. emit (sent ref buffer)) w
        (make_send_buffer-Keeps tcp_header_size reply w) (λ a w'. (refl, refl))

  pub multicast_rooms-Keeps : (w : World) → EndsKeeping w (multicast_rooms outside w)
  unfolding multicast_rooms
  multicast_rooms-Keeps w =
      Keeps-bind room_list
        (λ infos.
          make_tcp outside (s_sync_roomlist infos) >>= λ buffer. multicast_tcp buffer >> pure true)
        w (room_list-Keeps w)
        (λ infos u.
          Keeps-bind (make_tcp outside (s_sync_roomlist infos))
            (λ buffer. multicast_tcp buffer >> pure true) u
            (make_send_buffer-Keeps tcp_header_size (s_sync_roomlist infos) u)
            (λ buffer v.
              Keeps-bind (multicast_tcp buffer) (λ _. pure true) v (multicast_tcp-Keeps buffer v)
                (λ a x. (refl, refl))))
