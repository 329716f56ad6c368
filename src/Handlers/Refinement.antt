-- ===== src/Handlers/Refinement.antt =====
-- The handlers of GameServer/ClientPacketHandler.cpp change the directory as it says.
use jam_server_prototype.Common.{ℕ, refl, subst, Bool, Option, none, some, List, [], ◌∷◌}
use jam_server_prototype.Handlers.{
  Outside, Request, c_login, c_create_room, c_sync_roomlist, c_enter_game, c_chat, c_sync_time,
  c_spawn_actor, c_sync_actor, c_hit_result, c_enter_room, c_handshake, c_ack, c_player_input,
  World,
}
use jam_server_prototype.Handlers.Messages.{
  handle_c_enter_game, handle_c_ack, handle_c_sync_time, handle_c_spawn_actor,
  handle_c_player_input, handle,
}
use jam_server_prototype.Handlers.Directory.{Directory, directory, change}
use jam_server_prototype.Handlers.Views.{IsBounded}
use jam_server_prototype.Handlers.Steps.{Becomes, EndsIn, kept}
use jam_server_prototype.Handlers.Steps.{login-EndsIn, handshake-EndsIn, create-EndsIn}
use jam_server_prototype.Handlers.Entering.{enter-EndsIn}
use jam_server_prototype.Handlers.Quiet.{
  enter_game-Keeps, ack-Keeps, spawn-Keeps, input-Keeps, time-Keeps,
}

module _ (outside : Outside) where
  -- If no room has more than four players, then after a message that is handled without a fault none has,
  -- and the directory has changed as the abstract description of the message says.
  pub handle-EndsIn :
      (ref : ℕ) (request : Request) (now : ℕ) (w : World)
      → IsBounded w.rooms
      → EndsIn (change ref request (directory w)) (handle outside ref request now w)
  unfolding handle change
  handle-EndsIn ref c_login now w b = login-EndsIn outside ref w b
  handle-EndsIn ref c_create_room now w b = create-EndsIn outside ref w b
  handle-EndsIn ref (c_enter_room room_id) now w b = enter-EndsIn outside ref room_id w b
  handle-EndsIn ref c_sync_roomlist now w b = (b, refl)
  handle-EndsIn ref c_enter_game now w b =
      kept w (handle_c_enter_game outside ref w) b (enter_game-Keeps outside ref w)
  handle-EndsIn ref (c_ack latest bitfield) now w b =
      kept w (handle_c_ack outside ref latest bitfield w) b
        (ack-Keeps outside ref latest bitfield w)
  handle-EndsIn ref (c_handshake user_id) now w b = handshake-EndsIn outside ref user_id now w b
  handle-EndsIn ref c_chat now w b = (b, refl)
  handle-EndsIn ref c_sync_time now w b =
      kept w (handle_c_sync_time outside ref now w) b (time-Keeps outside ref now w)
  handle-EndsIn ref c_spawn_actor now w b =
      kept w (handle_c_spawn_actor outside ref now w) b (spawn-Keeps outside ref now w)
  handle-EndsIn ref c_sync_actor now w b = (b, refl)
  handle-EndsIn ref (c_player_input keys angles sequence timestamp) now w b =
      kept w (handle_c_player_input outside ref keys angles sequence timestamp w) b
        (input-Keeps outside ref keys angles sequence timestamp w)
  handle-EndsIn ref c_hit_result now w b = (b, refl)

-- The messages of clients one after the other: the session, the message and the time.
unfoldable pub run : Outside → List (ℕ × Request × ℕ) → World → Option World
run outside [] w = some w
run outside ((ref, request, now) ∷ messages) w = elim (handle outside ref request now w) [
  | none ↦ none
  | some (answer, w') ↦ run outside messages w'
]

-- The same messages, on a directory.
unfoldable pub replay : List (ℕ × Request × ℕ) → Directory → Directory
replay [] d = d
replay ((ref, request, now) ∷ messages) d = replay messages (change ref request d)

abbrev pub EndsWith : Directory → Option World → Type 0
EndsWith d none = Unit {0}
EndsWith d (some w) = Becomes d w

-- The handlers implement the directory: if no room has more than four players, then after any messages
-- that were handled without a fault none has, and the state of the server reads as the messages replayed
-- on the directory.
pub run_refines :
    (outside : Outside) (messages : List (ℕ × Request × ℕ)) (w : World)
    → IsBounded w.rooms
    → EndsWith (replay messages (directory w)) (run outside messages w)
unfolding run replay
run_refines outside [] w b = (b, refl)
run_refines outside ((ref, request, now) ∷ messages) w b =
    run_on (run_refines outside messages) (handle outside ref request now w)
      (handle-EndsIn outside ref request now w b)
  where
    run_on :
        ((u : World)
          → IsBounded u.rooms
          → EndsWith (replay messages (directory u)) (run outside messages u))
        → (r : Option (Bool × World)) → EndsIn (change ref request (directory w)) r
        → EndsWith
            (replay messages (change ref request (directory w)))
            (elim r [ none ↦ none | some (answer, w') ↦ run outside messages w' ])
    run_on rest none e = tt
    run_on rest (some (answer, w')) e =
        subst (λ d. EndsWith (replay messages d) (run outside messages w')) e.1 (rest w' e.0)
