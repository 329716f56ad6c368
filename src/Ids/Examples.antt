-- ===== src/Ids/Examples.antt =====
-- Concrete ids.
use jam_server_prototype.Common.{◌≡◌, ◌≢◌, refl, none, some, [], ◌∷◌, arith}
use jam_server_prototype.Ids.{session, actor, bot, player, init, generate}
use jam_server_prototype.Ids.Distinct.{generate_all, actor_ids_distinct}

first_bot : (generate actor (some bot) init).0 ≡ 536870912
unfolding generate
first_bot = refl

actor_ids_distinct_example :
    let first = generate actor (some bot) init in
    (generate actor (some player) (generate_all ((session, none) ∷ []) first.1)).0 ≢ first.0
actor_ids_distinct_example =
    actor_ids_distinct bot player ((session, none) ∷ []) init (omega arith) (omega arith)
