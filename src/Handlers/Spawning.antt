-- ===== src/Handlers/Spawning.antt =====
-- `Room::MulticastSpawnActor`, GameServer/Room.cpp, as the handler of C_SPAWN_ACTOR in
-- GameServer/ClientPacketHandler.cpp may run it: what it leaves alone, and when it ends without a fault.
use jam_server_prototype.Common.{
  ℕ, zero, suc, ◌≡◌, refl, ap, ◌∙◌, true, Option, none, some, [], ◌∷◌, arith,
}
use jam_server_prototype.Framing.{udp_header_size}
use jam_server_prototype.SessionManager.{
  protocol_udp, ProtocolType, SessionMap, SessionBundle, session_of, get_session_by_user_id,
  subscript,
}
use jam_server_prototype.Room.{Players}
use jam_server_prototype.RoomManager.{Room, RoomRef}
use jam_server_prototype.Handlers.{
  Outside, Reply, s_spawn_actor, spawn_queued, World, ◌>>=◌, ◌>>◌, pure, emit, session_manager_get,
  set_ready,
}
use jam_server_prototype.Handlers.Messages.{
  make_send_buffer, send_spawn, multicast_spawn, run_spawns, spawn_in,
}
use jam_server_prototype.Handlers.Directory.{directory, bundle_view}
use jam_server_prototype.Handlers.Views.{bundle_view-get}
use jam_server_prototype.Handlers.Ends.{EndsKeeping, Keeps-bind, make_send_buffer-Keeps}
use jam_server_prototype.Handlers.Yielding.{Yields, Returns, Yields-bind, Fits}
use jam_server_prototype.Handlers.Replying.{make_send_buffer-Yields}

session_manager_get-Keeps :
    (protocol : ProtocolType) (user_id : ℕ) (w : World)
    → EndsKeeping w (session_manager_get protocol user_id w)
unfolding session_manager_get
session_manager_get-Keeps protocol user_id w = (
  refl,
  ap (λ (b : ℕ → SessionBundle). record (directory w) { bundle_of = b })
      (bundle_view-get user_id w.sessions protocol),
)

-- Each of the players has a UDP session.
abbrev pub AllUdp : (ℕ → SessionBundle) → Players → Type 0
AllUdp bundle_of [] = Unit {0}
AllUdp bundle_of ((user_id, player) ∷ players) =
    ((ref : ℕ) × (session_of protocol_udp (bundle_of player.user_id) ≡ some ref))
    × AllUdp bundle_of players

pub get_session-bundle :
    (protocol : ProtocolType) (user_id : ℕ) (m : SessionMap)
    → (get_session_by_user_id protocol user_id m).0 ≡ session_of protocol (bundle_view m user_id)
unfolding get_session_by_user_id subscript
get_session-bundle protocol user_id m = refl

module _ (outside : Outside) where
  send_spawn-Keeps :
      (ref : Option ℕ) (buffer : Reply) (now : ℕ) (w : World)
      → EndsKeeping w (send_spawn outside ref buffer now w)
  send_spawn-Keeps none buffer now w = tt
  send_spawn-Keeps (some ref) buffer now w = (refl, refl)

  multicast_spawn-Keeps :
      (room_id now : ℕ) (players : Players) (w : World)
      → EndsKeeping w (multicast_spawn outside room_id now players w)
  unfolding multicast_spawn
  multicast_spawn-Keeps room_id now [] w = (refl, refl)
  multicast_spawn-Keeps room_id now ((user_id, player) ∷ players) w =
      Keeps-bind (make_send_buffer outside udp_header_size (s_spawn_actor room_id player.user_id))
        (λ buffer. session_manager_get protocol_udp player.user_id >>= λ ref.
          send_spawn outside ref buffer now >> multicast_spawn outside room_id now players)
        w (make_send_buffer-Keeps outside udp_header_size (s_spawn_actor room_id player.user_id) w)
        (λ buffer u.
          Keeps-bind (session_manager_get protocol_udp player.user_id)
            (λ ref.
              send_spawn outside ref buffer now >> multicast_spawn outside room_id now players)
            u (session_manager_get-Keeps protocol_udp player.user_id u)
            (λ ref v.
              Keeps-bind (send_spawn outside ref buffer now)
                (λ _. multicast_spawn outside room_id now players) v
                (send_spawn-Keeps ref buffer now v)
                (λ _ x. multicast_spawn-Keeps room_id now players x)))

  run_spawns-Keeps :
      (jobs room_id now : ℕ) (players : Players) (w : World)
      → EndsKeeping w (run_spawns outside jobs room_id now players w)
  unfolding run_spawns
  run_spawns-Keeps zero room_id now players w = (refl, refl)
  run_spawns-Keeps (suc more) room_id now players w =
      Keeps-bind (multicast_spawn outside room_id now players)
        (λ _. run_spawns outside more room_id now players) w
        (multicast_spawn-Keeps room_id now players w)
        (λ _ u. run_spawns-Keeps more room_id now players u)

  pub spawn_in-Keeps :
      (now : ℕ) (room : RoomRef) (w : World) → EndsKeeping w (spawn_in outside now room w)
  unfolding set_ready
  spawn_in-Keeps now none w = tt
  spawn_in-Keeps now (some room) w =
      Keeps-bind (emit (spawn_queued room.room_id))
        (λ _.
          (λ u.
            run_spawns outside (outside.jobs_run u room.room_id) room.room_id now room.players u)
          >>= λ _. set_ready room.room_id >> pure true)
        w (refl, refl)
        (λ _ v.
          Keeps-bind
            (λ u.
              run_spawns outside (outside.jobs_run u room.room_id) room.room_id now room.players u)
            (λ _. set_ready room.room_id >> pure true) v
            (run_spawns-Keeps (outside.jobs_run v room.room_id) room.room_id now room.players v)
            (λ _ x. (refl, refl)))

  module _ (fits : Fits outside) (bundle_of : ℕ → SessionBundle) where
    get-Yields :
        (user_id ref : ℕ) (w : World)
        → bundle_view w.sessions ≡ bundle_of
        → session_of protocol_udp (bundle_of user_id) ≡ some ref
        → Yields
            (λ found u. (found ≡ some ref) × (bundle_view u.sessions ≡ bundle_of))
            (session_manager_get protocol_udp user_id w)
    unfolding session_manager_get
    get-Yields user_id ref w same e = (
      get_session-bundle protocol_udp user_id w.sessions
          ∙ ap (λ (b : ℕ → SessionBundle). session_of protocol_udp (b user_id)) same
          ∙ e,
      bundle_view-get user_id w.sessions protocol_udp ∙ same,
    )

    send-Yields :
        (found : Option ℕ) (ref : ℕ) (buffer : Reply) (now : ℕ) (w : World)
        → found ≡ some ref
        → bundle_view w.sessions ≡ bundle_of
        → Yields (λ _ u. bundle_view u.sessions ≡ bundle_of) (send_spawn outside found buffer now w)
    send-Yields none ref buffer now w e same = absurd (cc e)
    send-Yields (some x) ref buffer now w e same = same

    multicast_spawn-Yields :
        (room_id now : ℕ) (players : Players) (w : World)
        → AllUdp bundle_of players
        → bundle_view w.sessions ≡ bundle_of
        → Yields
            (λ _ u. bundle_view u.sessions ≡ bundle_of)
            (multicast_spawn outside room_id now players w)
    unfolding multicast_spawn
    multicast_spawn-Yields room_id now [] w a same = same
    multicast_spawn-Yields room_id now ((user_id, player) ∷ players) w ((ref, e), a) same =
        Yields-bind
          (make_send_buffer outside udp_header_size (s_spawn_actor room_id player.user_id))
          (λ buffer. session_manager_get protocol_udp player.user_id >>= λ found.
            send_spawn outside found buffer now >> multicast_spawn outside room_id now players)
          w (λ _ u. bundle_view u.sessions ≡ bundle_of) (λ _ u. bundle_view u.sessions ≡ bundle_of)
          (make_send_buffer-Yields outside fits udp_header_size
            (λ u. bundle_view u.sessions ≡ bundle_of) (s_spawn_actor room_id player.user_id) w
            (omega arith) same)
          (λ buffer u b.
            Yields-bind (session_manager_get protocol_udp player.user_id)
              (λ found.
                send_spawn outside found buffer now >> multicast_spawn outside room_id now players)
              u (λ found v. (found ≡ some ref) × (bundle_view v.sessions ≡ bundle_of))
              (λ _ v. bundle_view v.sessions ≡ bundle_of) (get-Yields player.user_id ref u b e)
              (λ found v (f, c).
                Yields-bind (send_spawn outside found buffer now)
                  (λ _. multicast_spawn outside room_id now players) v
                  (λ _ x. bundle_view x.sessions ≡ bundle_of)
                  (λ _ x. bundle_view x.sessions ≡ bundle_of)
                  (send-Yields found ref buffer now v f c)
                  (λ _ x d. multicast_spawn-Yields room_id now players x a d)))

    run_spawns-Yields :
        (jobs room_id now : ℕ) (players : Players) (w : World)
        → AllUdp bundle_of players
        → bundle_view w.sessions ≡ bundle_of
        → Yields
            (λ _ u. bundle_view u.sessions ≡ bundle_of)
            (run_spawns outside jobs room_id now players w)
    unfolding run_spawns
    run_spawns-Yields zero room_id now players w a same = same
    run_spawns-Yields (suc more) room_id now players w a same =
        Yields-bind (multicast_spawn outside room_id now players)
          (λ _. run_spawns outside more room_id now players) w
          (λ _ u. bundle_view u.sessions ≡ bundle_of) (λ _ u. bundle_view u.sessions ≡ bundle_of)
          (multicast_spawn-Yields room_id now players w a same)
          (λ _ u b. run_spawns-Yields more room_id now players u a b)

    pub spawn_in-Returns :
        (now : ℕ) (room : Room) (w : World)
        → AllUdp bundle_of room.players
        → bundle_view w.sessions ≡ bundle_of
        → Returns (spawn_in outside now (some room) w)
    unfolding set_ready
    spawn_in-Returns now room w a same =
        Yields-bind (emit (spawn_queued room.room_id))
          (λ _.
            (λ u.
              run_spawns outside (outside.jobs_run u room.room_id) room.room_id now room.players u)
            >>= λ _. set_ready room.room_id >> pure true)
          w (λ _ u. bundle_view u.sessions ≡ bundle_of) (λ _ _. Unit {0}) same
          (λ _ v b.
            Yields-bind
              (λ u.
                run_spawns outside (outside.jobs_run u room.room_id) room.room_id now room.players
                  u)
              (λ _. set_ready room.room_id >> pure true) v
              (λ _ u. bundle_view u.sessions ≡ bundle_of) (λ _ _. Unit {0})
              (run_spawns-Yields (outside.jobs_run v room.room_id) room.room_id now room.players v a
                b)
              (λ _ _ _. tt))
