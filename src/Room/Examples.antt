-- ===== src/Room/Examples.antt =====
-- A room with concrete players.
use jam_server_prototype.Common.{
  ℕ, ◌+◌, ◌<◌, ◌++◌, false, ◌≡◌, refl, Bool, true, none, some, [], ◌∷◌, length, arith,
}
use jam_server_prototype.Common.Dict.{lookup, insert, erase}
use jam_server_prototype.Common.Sets.{contains, set_insert}
use jam_server_prototype.Snapshots.{find_snapshot}
use jam_server_prototype.Snapshots
use jam_server_prototype.Room.{Player, Players, leave, max_players_per_room, get_player_by_user_id}
use jam_server_prototype.Room.Actors
use jam_server_prototype.Room.Actors.{
  Look, Message, Px, RoomState, create_controller, push, init, add_actor, init_actor,
  add_bot_or_monster, fresh, enter, update, player_ids, simulate, fetch_results, update_bots,
  update_players, multicast_sync_actor, capture_snapshot, multicast_reliable, entities,
}
use jam_server_prototype.Room.Execution.{run_all}
use jam_server_prototype.Room.Holding.{creates, Settled, pending}
use jam_server_prototype.Room.Safety.{Reach, here, next, readied, entered, jobs_never_fault}
use jam_server_prototype.Room.Entering.{enter_in_tick_faults}
use jam_server_prototype.Room.Leaving.{enter_twice_faults}
use jam_server_prototype.Room.Capturing.{AllBefore, tick_is_found}

abbrev seat : ℕ → ℕ → Player
seat user_id index = record { user_id = user_id; player_index = index; color = index }

abbrev pair : Players
pair = (5, seat 5 0) ∷ (6, seat 6 1) ∷ []

one_left : length (leave 5 pair) + 1 ≡ 2
unfolding leave erase
one_left = refl

six_inside : get_player_by_user_id 6 (leave 5 pair) ≡ some (seat 6 1)
unfolding leave erase get_player_by_user_id lookup
six_inside = refl

-- A room with its floor, 805306368, and its bot, 536870912, as their ids are made; nothing moves, and every
-- message fits.
abbrev looks : ℕ → Look
looks id = record { transform = id; pose = id + 1; collider = 0; color = 7 }

abbrev stay : ℕ → Look → Look
stay id look = look

abbrev all_fit : Message → Bool
all_fit message = true

abbrev guest : Actors.Player
guest = record { user_id = 5; actor_id = 268435456; last_sequence = 0 }

abbrev started : RoomState
started = init 805306368 536870912 (fresh looks)

abbrev ready : RoomState
ready = record started { is_ready = true }

abbrev seated : RoomState
seated = record (push (create_controller 268435456) ready) {
  players = insert 5 guest ready.players;
}

entered_first : Reach stay all_fit (init 805306368 536870912 (fresh looks)) seated
unfolding init add_actor init_actor add_bot_or_monster set_insert enter insert
entered_first = next (next here readied) (entered guest true refl tt refl)

jobs_never_fault_example :
    (px : Px) × (run_all stay seated.bots_and_monsters
        (player_ids seated.players)
        seated.physics_queue
        seated.px
      ≡ some px)
    × Settled seated.bots_and_monsters (player_ids seated.players) seated.actors px
jobs_never_fault_example =
    jobs_never_fault stay all_fit looks 805306368 536870912 seated entered_first

abbrev after_tick : RoomState
after_tick =
    push update_players
      (push update_bots (push fetch_results (push simulate (capture_snapshot 9 ready))))

first_tick : update all_fit 9 ready ≡ some after_tick
unfolding update multicast_sync_actor multicast_reliable capture_snapshot init add_actor init_actor
    add_bot_or_monster
first_tick = refl

no_snapshot : AllBefore 9 ready.snapshot_buffer
unfolding init add_actor init_actor add_bot_or_monster
no_snapshot = tt

empty_seat : length ready.players < max_players_per_room
unfolding init add_actor init_actor add_bot_or_monster
empty_seat = omega arith

no_controller : contains 268435456 ready.px.controllers ≡ false
unfolding init add_actor init_actor add_bot_or_monster contains
no_controller = refl

none_in_making : pending (creates 268435456) ready.physics_queue ≡ false
unfolding init add_actor init_actor add_bot_or_monster
none_in_making = refl

enter_in_tick_faults_example :
    (u : RoomState) × (enter guest after_tick ≡ some (true, u))
    × (run_all stay u.bots_and_monsters (player_ids u.players) u.physics_queue u.px ≡ none)
enter_in_tick_faults_example =
    enter_in_tick_faults stay all_fit 9 guest ready after_tick refl empty_seat no_controller
      none_in_making first_tick

tick_is_found_example :
    find_snapshot 9 after_tick.snapshot_buffer
    ≡ Snapshots.found 9 (
        entities ready.px.looks
          (ready.actors ++ ready.bots_and_monsters ++ player_ids ready.players))
tick_is_found_example = tick_is_found all_fit 9 ready after_tick refl no_snapshot first_tick

no_bot_has_it : contains 268435456 ready.bots_and_monsters ≡ false
unfolding init add_actor init_actor add_bot_or_monster contains set_insert
no_bot_has_it = refl

no_player_has_it : contains 268435456 (player_ids ready.players) ≡ false
unfolding init add_actor init_actor add_bot_or_monster contains player_ids
no_player_has_it = refl

two_empty_seats : length ready.players + 1 < max_players_per_room
unfolding init add_actor init_actor add_bot_or_monster
two_empty_seats = omega arith

-- The user's next player.
abbrev again : Actors.Player
again = record { user_id = 5; actor_id = 268435457; last_sequence = 0 }

enter_twice_faults_example :
    (t u : RoomState) × (enter guest ready ≡ some (true, t))
    × (enter again t ≡ some (true, u))
    × (run_all stay u.bots_and_monsters (player_ids u.players) u.physics_queue u.px ≡ none)
enter_twice_faults_example =
    enter_twice_faults stay guest again ready refl refl two_empty_seats no_bot_has_it
      no_player_has_it
