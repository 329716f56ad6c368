-- ===== src/Room/Safety.antt =====
-- A room from its Init on, GameServer/Room.cpp, with its physics thread: what the threads do, as steps in any
-- order, and whether its jobs can be run.
use jam_server_prototype.Common.{ℕ, ◌≡◌, ap, subst, Bool, true, false, Option, none, some}
use jam_server_prototype.Common.Sets.{contains}
use jam_server_prototype.Room.Actors.{
  Look, Px, Player, player_ids, Message, Kind, RoomState, add_actor, remove_actor,
  add_bot_or_monster, remove_bot_or_monster, init, enter, leave, fresh, multicast_spawn_actor,
  update,
}
use jam_server_prototype.Room.Execution.{run_all, execute_next}
use jam_server_prototype.Room.Holding.{
  Settled, creates, Unwaited, is_players, is_bots, pending, only_some,
}
use jam_server_prototype.Room.Sound.{IsSound}
use jam_server_prototype.Room.Ticks.{enter-Keeps, add_bot-IsSound, leave-IsSound, Keeps}
use jam_server_prototype.Room.Operations.{
  SoundAfter, send_spawn-SoundAfter, remove_bot-SoundAfter, update-SoundAfter, execute-SoundAfter,
  remove_actor-IsSound, add_actor-IsSound, init-IsSound,
}

-- What the threads do with a room once it has been made: the main thread and the network threads, and the
-- physics thread with its next job, until the room is destroyed. No player enters and no bot is added while
-- a job that updates players or bots is pending; and no bot or player goes, or gives way to another player
-- of the same user, while the job for its controller is pending.
pub data Step (move : ℕ → Look → Look) (fits : Message → Bool)
    : RoomState → RoomState → Type 0 where
  updated : {r r' : RoomState} (now : ℕ) → update fits now r ≡ some r' → Step move fits r r'
  readied : {r : RoomState} → Step move fits r (record r { is_ready = true })
  spawned :
      {r r' : RoomState} (now : ℕ)
      → multicast_spawn_actor fits now r ≡ some r'
      → Step move fits r r'
  entered :
      {r r' : RoomState} (player : Player) (answer : Bool)
      → pending is_players r.physics_queue ≡ false
      → Unwaited player.user_id r.physics_queue r.players
      → enter player r ≡ some (answer, r')
      → Step move fits r r'
  left :
      {r : RoomState} (player : Player)
      → Unwaited player.user_id r.physics_queue r.players
      → Step move fits r (leave player r)
  bot_added :
      {r : RoomState} (id : ℕ)
      → pending is_bots r.physics_queue ≡ false
      → Step move fits r (add_bot_or_monster id r)
  bot_removed :
      {r r' : RoomState} (id : ℕ)
      → pending (creates id) r.physics_queue ≡ false
      → remove_bot_or_monster id r ≡ some r'
      → Step move fits r r'
  actor_added : {r : RoomState} (kind : Kind) (id : ℕ) → Step move fits r (add_actor kind id r)
  actor_removed :
      {r : RoomState} (id : ℕ) → contains id r.actors ≡ true → Step move fits r (remove_actor id r)
  executed : {r r' : RoomState} → execute_next move r ≡ some r' → Step move fits r r'

pub data Reach (move : ℕ → Look → Look) (fits : Message → Bool) (from : RoomState)
    : RoomState → Type 0 where
  here : Reach move fits from from
  next : {r s : RoomState} → Reach move fits from r → Step move fits r s → Reach move fits from s

module _ (move : ℕ → Look → Look) (fits : Message → Bool) where
  at_some :
      (o : Option RoomState) (r' : RoomState)
      → o ≡ some r'
      → SoundAfter move fits o
      → IsSound move r'
  at_some none r' e a = absurd (cc e)
  at_some (some r) r' e a = subst (IsSound move) (only_some r r' e) a

  at_answer :
      (o : Option (Bool × RoomState)) (answer : Bool) (r' : RoomState)
      → o ≡ some (answer, r')
      → Keeps move o
      → IsSound move r'
  at_answer none answer r' e a = absurd (cc e)
  at_answer (some (b, r)) answer r' e a =
      subst (IsSound move) (ap (λ (x : Bool × RoomState). x.1) (only_some (b, r) (answer, r') e)) a

  Step-IsSound : {r s : RoomState} → Step move fits r s → IsSound move r → IsSound move s
  unfolding multicast_spawn_actor
  Step-IsSound {r} {s} (updated now e) a =
      at_some (update fits now r) s e (update-SoundAfter move fits now r a)
  Step-IsSound {r} readied a = a
  Step-IsSound {r} {s} (spawned now e) a =
      at_some (multicast_spawn_actor fits now r) s e
        (send_spawn-SoundAfter move fits _ now r.players r a)
  Step-IsSound {r} {s} (entered player answer idle unwaited e) a =
      at_answer (enter player r) answer s e (enter-Keeps move player r idle unwaited a)
  Step-IsSound {r} (left player unwaited) a = leave-IsSound move player r unwaited a
  Step-IsSound {r} (bot_added id idle) a = add_bot-IsSound move id r idle a
  Step-IsSound {r} {s} (bot_removed id unwaited e) a =
      at_some (remove_bot_or_monster id r) s e (remove_bot-SoundAfter move fits id r unwaited a)
  Step-IsSound {r} (actor_added kind id) a = add_actor-IsSound move fits kind id r a
  Step-IsSound {r} (actor_removed id there) a = remove_actor-IsSound move fits id r there a
  Step-IsSound {r} {s} (executed e) a =
      at_some (execute_next move r) s e (execute-SoundAfter move fits r a)

  Reach-IsSound : {r s : RoomState} → Reach move fits r s → IsSound move r → IsSound move s
  Reach-IsSound here a = a
  Reach-IsSound (next reach step) a = Step-IsSound step (Reach-IsSound reach a)

-- From its Init on, after any steps of the threads in any order that were made without a fault, where no
-- player enters and no bot is added while an update of players or bots is pending, no bot or player goes
-- or is replaced while the job for its controller is pending, and only actors of the room are removed: all
-- the jobs in the queue of its physics can be run without a fault, and then every bot and every player has
-- a controller and every actor a body.
pub jobs_never_fault :
    (move : ℕ → Look → Look) (fits : Message → Bool) (looks : ℕ → Look) (floor_id bot_id : ℕ)
    (r : RoomState)
    → Reach move fits (init floor_id bot_id (fresh looks)) r
    → (px : Px) × (run_all move r.bots_and_monsters (player_ids r.players) r.physics_queue r.px
        ≡ some px)
      × Settled r.bots_and_monsters (player_ids r.players) r.actors px
jobs_never_fault move fits looks floor_id bot_id r reach =
    Reach-IsSound move fits reach (init-IsSound move fits looks floor_id bot_id)
