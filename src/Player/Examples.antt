-- ===== src/Player/Examples.antt =====
-- A player that shoots at a bot.
use jam_server_prototype.Common.{
  ℕ, ◌≡◌, refl, ◌==◌, if◌then◌else◌, true, false, Option, none, some, List, [], ◌∷◌, test_bit,
}
use jam_server_prototype.Common.Dict.{lookup, insert}
use jam_server_prototype.Common.Sets.{contains}
use jam_server_prototype.Ids.{get_actor_type}
use jam_server_prototype.SessionManager.{get_session_by_user_id}
use jam_server_prototype.Snapshots.{find_snapshot, first_from}
use jam_server_prototype.Player.{
  Player, still, Range, Shot, hit_sent, toggled, process_fire, fire_found, fire_at, shoot,
  build_rewind_scene, clear_rewind_scene, report_hit,
}

-- The ids of player 7 and bot 1: the type stands in the top four bits.
abbrev shooter : ℕ
shooter = 268435463

abbrev target : ℕ
target = 536870913

abbrev player : Player ℕ
player = record {
  user_id = 3;
  actor_id = shooter;
  player_index = 0;
  last_process_sequence = 0;
  yaw = 0;
  pitch = 0;
  horizontal_velocity = still;
  vertical_velocity = 0;
  is_grounded = true;
  is_fire_in_progress = false;
}

abbrev range : Range
range = record {
  snapshots = (100, shooter ∷ target ∷ []) ∷ [];
  rewind_scenes = λ _. some [];
  alive = λ id. contains id (shooter ∷ target ∷ []);
  sessions = (3, record { tcp_session = some 1; udp_session = some 2 }) ∷ [];
}

abbrev hits : List ℕ → Option ℕ
hits actors = some target

-- A ray that hits the bot wherever the bot is in the scene.
abbrev aimed : List ℕ → Option ℕ
aimed actors = if contains target actors then some target else none

abbrev shots_of : Option (Player ℕ × Range × List Shot) → List Shot
shots_of none = []
shots_of (some (p, r, shots)) = shots

-- Bit 5 is the fire key.
hit : shots_of (process_fire hits hits 32 90 player range) ≡ hit_sent 2 ∷ toggled target ∷ []
unfolding process_fire fire_found fire_at shoot build_rewind_scene clear_rewind_scene report_hit
    find_snapshot first_from contains test_bit get_actor_type get_session_by_user_id lookup insert
hit = refl

-- The bot has been destroyed.
bot_gone : process_fire hits hits 32 90 player (record range { alive = λ id. id == shooter }) ≡ none
unfolding process_fire fire_found fire_at shoot build_rewind_scene clear_rewind_scene report_hit
    find_snapshot first_from contains test_bit get_session_by_user_id lookup insert
bot_gone = refl
