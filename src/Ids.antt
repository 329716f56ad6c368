-- ===== src/Ids.antt =====
-- GameServer/IdManager.h and IdManager.cpp: session and room ids from one counter each, actor ids with
-- the actor's type in the top four bits. Counters are uint32 and wrap; `fetch_add` takes the value
-- and advances it in one step.
pub mod Distinct
mod Examples
use jam_server_prototype.Common.{
  ℕ, ◌+◌, ◌*◌, ◌/◌, ◌%◌, ◌^◌, Option, none, some, List, [], ◌∷◌, ◌==◌, if◌then◌else◌, u32,
}

pub data IdType : Type 0 where
  session room actor : IdType

pub data ActorTypePrefix : Type 0 where
  no_actor player bot floor projectile : ActorTypePrefix

abbrev pub prefix_code : ActorTypePrefix → ℕ
prefix_code no_actor = 0
prefix_code player = 1
prefix_code bot = 2
prefix_code floor = 3
prefix_code projectile = 4

pub record IdManager : Type 0 where
  pub session_ids : ℕ
  pub room_ids : ℕ
  -- by the code of the prefix
  pub actor_ids : ℕ → ℕ

abbrev advance : ℕ → (ℕ → ℕ) → ℕ → ℕ
advance code pools other = if code == other then u32 (pools code + 1) else pools other

-- `(code << 28) | (counter & 0x0FFFFFFF)`, where the two parts have no bit in common
abbrev pub actor_id : ℕ → ℕ → ℕ
actor_id code counter = u32 (code * 2 ^ 28) + counter % 2 ^ 28

unfoldable pub generate : IdType → Option ActorTypePrefix → IdManager → ℕ × IdManager
generate session type m = (m.session_ids, record m { session_ids = u32 (m.session_ids + 1) })
generate room type m = (m.room_ids, record m { room_ids = u32 (m.room_ids + 1) })
generate actor none m = (0, m)
generate actor (some prefix) m = (
  actor_id (prefix_code prefix) (m.actor_ids (prefix_code prefix)),
  record m { actor_ids = advance (prefix_code prefix) m.actor_ids },
)

-- `Init` sets the counters of `_idPools`; those of the actors start at 0.
abbrev pub init : IdManager
init = record { session_ids = 1; room_ids = 1; actor_ids = λ _. 0 }

unfoldable pub get_actor_type : ℕ → ℕ
get_actor_type id = id / 2 ^ 28 % 256

unfoldable pub get_actor_instance_id : ℕ → ℕ
get_actor_instance_id id = id % 2 ^ 28
