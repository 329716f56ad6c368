-- ===== src/Room.antt =====
-- GameServer/Room.h and Room.cpp: the players of a room. A player is what `Enter` and `Leave` read
-- and write of it. The colours are an array with one entry for each of `MAX_PLAYERS_PER_ROOM`
-- players; a read beyond it is a fault.
pub mod Seats
pub mod Actors
pub mod Execution
pub mod Holding
pub mod Jobs
pub mod Sound
pub mod Ticks
pub mod Operations
pub mod Safety
pub mod Entering
pub mod Leaving
pub mod Capturing
mod Examples
use jam_server_prototype.Common.{
  ℕ, ◌<◌, Option, none, some, List, [], ◌∷◌, ltb, if◌then◌else◌, length,
}
use jam_server_prototype.Common.Dict.{Dict, lookup, insert, erase, keys}

abbrev pub max_players_per_room : ℕ
max_players_per_room = 4

pub record Player : Type 0 where
  pub user_id : ℕ
  pub player_index : ℕ
  -- which of the room's colours
  pub color : ℕ

-- `_players`, by user id.
abbrev pub Players : Type 0
Players = Dict Player

pub data Entered : Type 0 where
  -- `Enter` returns true, with the player as it now is
  entered : Player → Players → Entered
  -- `Enter` returns false
  refused : Players → Entered
  -- `_playerColors` is read out of bounds
  fault : Entered

unfoldable pub enter : ℕ → Players → Entered
enter user_id players =
    let index = length players in
    let player : Player = record { user_id = user_id; player_index = index; color = index } in
    if ltb max_players_per_room index
    then refused players
    else if ltb index max_players_per_room
    then entered player (insert user_id player players)
    else fault

unfoldable pub leave : ℕ → Players → Players
leave user_id players = erase user_id players

unfoldable pub get_player_by_user_id : ℕ → Players → Option Player
get_player_by_user_id user_id players = lookup user_id players

unfoldable pub get_player_list : Players → List ℕ
get_player_list players = keys players
