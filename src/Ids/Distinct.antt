-- ===== src/Ids/Distinct.antt =====
-- Ids say what they are of, and do not repeat before a counter has gone round.
use jam_server_prototype.Common.{
  ℕ, ◌+◌, ◌%◌, ◌^◌, ◌≤◌, ◌<◌, ◌≡◌, ◌≢◌, sym, ap, ◌∙◌, Option, none, some, List, [], ◌∷◌, ◌==◌,
  if◌then◌else◌, length, u32, arith,
}
use jam_server_prototype.Ids.{
  IdType, session, room, actor, ActorTypePrefix, no_actor, player, bot, floor, projectile,
  prefix_code, IdManager, generate, get_actor_type, get_actor_instance_id,
}

prefix_code-lt : (p : ActorTypePrefix) → prefix_code p < 16
prefix_code-lt no_actor = omega arith
prefix_code-lt player = omega arith
prefix_code-lt bot = omega arith
prefix_code-lt floor = omega arith
prefix_code-lt projectile = omega arith

-- An actor id fits 32 bits, gives back the actor's type, and under it the counter modulo 2 to the 28.
pub generate_actor_lem :
    (prefix : ActorTypePrefix) (m : IdManager)
    → let id = (generate actor (some prefix) m).0 in
      (id < 2 ^ 32)
      × (get_actor_type id ≡ prefix_code prefix)
      × (get_actor_instance_id id ≡ m.actor_ids (prefix_code prefix) % 2 ^ 28)
unfolding generate get_actor_type get_actor_instance_id
generate_actor_lem prefix m = omega (arith, prefix_code-lt prefix)

-- Further ids that are made, of any kind.
pub generate_all : List (IdType × Option ActorTypePrefix) → IdManager → IdManager
generate_all [] m = m
generate_all ((type, prefix) ∷ requests) m = generate_all requests (generate type prefix m).1

abbrev requested : IdType → Option ActorTypePrefix → ℕ → ℕ
requested actor (some prefix) code = if prefix_code prefix == code then 1 else 0
requested _ _ code = 0

requested-le :
    (type : IdType) (prefix : Option ActorTypePrefix) (code : ℕ) → requested type prefix code ≤ 1
requested-le actor (some prefix) code = ground arith
requested-le actor none code = omega arith
requested-le session prefix code = omega arith
requested-le room prefix code = omega arith

generate-counter :
    (type : IdType) (prefix : Option ActorTypePrefix) (code : ℕ) (m : IdManager)
    → m.actor_ids code < 2 ^ 32
    → (generate type prefix m).1.actor_ids code
      ≡ u32 (m.actor_ids code + requested type prefix code)
unfolding generate
generate-counter actor (some prefix) code m h = ground arith
generate-counter actor none code m h = ground arith
generate-counter session prefix code m h = ground arith
generate-counter room prefix code m h = ground arith

-- A counter moves on by at most one for each request.
generate_all-counter :
    (requests : List (IdType × Option ActorTypePrefix)) (code : ℕ) (m : IdManager)
    → m.actor_ids code < 2 ^ 32
    → (k : ℕ) × (k ≤ length requests)
      × ((generate_all requests m).actor_ids code ≡ u32 (m.actor_ids code + k))
unfolding generate_all
generate_all-counter [] code m h = (0, omega arith, omega arith)
generate_all-counter ((type, prefix) ∷ requests) code m h =
    let one = generate-counter type prefix code m h in
    let (k, le, e) =
      generate_all-counter requests code (generate type prefix m).1 (omega (arith, one)) in
    (
      requested type prefix code + k,
      omega (arith, requested-le type prefix code),
      omega (arith, e, one),
    )

-- After an actor's id was made, the next id made after up to 2 to the 28 less two further requests of
-- any kind, for an actor of any type, is another one.
pub actor_ids_distinct :
    (p q : ActorTypePrefix) (requests : List (IdType × Option ActorTypePrefix)) (m : IdManager)
    → m.actor_ids (prefix_code p) < 2 ^ 32
    → length requests + 1 < 2 ^ 28
    → let first = generate actor (some p) m in
      (generate actor (some q) (generate_all requests first.1)).0 ≢ first.0
actor_ids_distinct p q requests m h few e =
    let first = generate actor (some p) m in
    let later = generate_all requests first.1 in
    let a = generate_actor_lem p m in
    let b = generate_actor_lem q later in
    let one = generate-counter actor (some p) (prefix_code p) m h in
    let (k, le, c) = generate_all-counter requests (prefix_code p) first.1 (omega (arith, one)) in
    let types : prefix_code p ≡ prefix_code q = sym a.1 ∙ (ap get_actor_type (sym e) ∙ b.1) in
    let instances : later.actor_ids (prefix_code q) % 2 ^ 28
        ≡ m.actor_ids (prefix_code p) % 2 ^ 28 =
      sym b.2 ∙ (ap get_actor_instance_id e ∙ a.2) in
    let same : later.actor_ids (prefix_code q) ≡ later.actor_ids (prefix_code p) =
      ap later.actor_ids (sym types) in
    let step : requested actor (some p) (prefix_code p) ≡ 1 = ground arith in
    absurd (omega (arith, one, c, le, same, instances, step))
