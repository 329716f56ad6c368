-- ===== src/Room/Holding.antt =====
-- What the physics thread of a room has made, GameServer/Room.cpp, and what of it the jobs use.
use jam_server_prototype.Common.{
  ℕ, ◌≡◌, inl, inr, refl, ◌∙◌, subst, Bool, true, false, Option, none, some, List, [], ◌∷◌, ◌==◌,
  if◌then◌else◌, Bool-cases, ==_iff, ==_self, arith,
}
use jam_server_prototype.Common.Dict.{Dict, insert, erase}
use jam_server_prototype.Common.Sets.{contains, set_insert, set_erase, contains-set_insert}
use jam_server_prototype.Room.Actors.{
  Job, create_manager, simulate, fetch_results, update_bots, update_players, create_controller,
  create_body, add_to_scene, remove_from_scene, Px, Player, player_ids,
}
use jam_server_prototype.Room.Execution.{all_in}

-- Where these are all there, those are too.
abbrev pub Fewer : List ℕ → List ℕ → Type 0
Fewer xs ys = (ids : List ℕ) → all_in xs ids ≡ true → all_in ys ids ≡ true

pub Fewer-set_erase : (x : ℕ) (xs : List ℕ) → Fewer xs (set_erase x xs)
unfolding all_in set_erase
Fewer-set_erase x [] ids h = refl
Fewer-set_erase x (y ∷ xs) ids h = ground (arith, h, Fewer-set_erase x xs ids)

pub all_in-set_insert :
    (x : ℕ) (xs ids : List ℕ)
    → all_in xs ids ≡ true
    → contains x ids ≡ true
    → all_in (set_insert x xs) ids ≡ true
unfolding all_in set_insert
all_in-set_insert x [] ids h c = rw c refl
all_in-set_insert x (y ∷ xs) ids h c = ground (arith, h, c, all_in-set_insert x xs ids)

pub Fewer-erase :
    (k : ℕ) (players : Dict Player) → Fewer (player_ids players) (player_ids (erase k players))
unfolding all_in player_ids erase
Fewer-erase k [] ids h = refl
Fewer-erase k ((j, p) ∷ players) ids h = ground (arith, h, Fewer-erase k players ids)

pub all_in-insert :
    (k : ℕ) (p : Player) (players : Dict Player) (ids : List ℕ)
    → all_in (player_ids players) ids ≡ true
    → contains p.actor_id ids ≡ true
    → all_in (player_ids (insert k p players)) ids ≡ true
unfolding all_in player_ids insert
all_in-insert k p [] ids h c = rw c refl
all_in-insert k p ((j, q) ∷ players) ids h c = ground (arith, h, c, all_in-insert k p players ids)

pub contains-inserted : (x : ℕ) (ids : List ℕ) → contains x (set_insert x ids) ≡ true
contains-inserted x ids = contains-set_insert x x ids ∙ rw (==_self x) refl

pub all_in-contains :
    (xs ids : List ℕ) (x : ℕ) → all_in xs ids ≡ true → contains x xs ≡ true → contains x ids ≡ true
unfolding all_in contains
all_in-contains [] ids x h c = absurd (cc c)
all_in-contains (y ∷ xs) ids x h c = elim (Bool-cases (y == x)) [
  | inl same ↦ subst (λ z. contains z ids ≡ true) ((==_iff y x).0 same) (ground (arith, h))
  | inr ne ↦ all_in-contains xs ids x (ground (arith, h)) (rw (ne, contains) at c)
]

-- The bots, the players and the actors have what the jobs use of them.
pub record Settled (bots players actors : List ℕ) (px : Px) : Type 0 where
  pub managed : px.has_manager ≡ true
  pub bots_in : all_in bots px.controllers ≡ true
  pub players_in : all_in players px.controllers ≡ true
  pub actors_in : all_in actors px.bodies ≡ true

abbrev pub Among : List ℕ → List ℕ → Type 0
Among xs ys = (id : ℕ) → contains id xs ≡ true → contains id ys ≡ true

-- What the first state has made, the second has too.
pub record Within (p q : Px) : Type 0 where
  pub manager : p.has_manager ≡ true → q.has_manager ≡ true
  pub controllers : Among p.controllers q.controllers
  pub bodies : Among p.bodies q.bodies

pub Among-set_insert :
    (x : ℕ) (xs ys : List ℕ) → Among xs ys → Among (set_insert x xs) (set_insert x ys)
Among-set_insert x xs ys s id h =
    ground (arith, s id, h, contains-set_insert x id xs, contains-set_insert x id ys)

pub Among-inserted : (x : ℕ) (xs : List ℕ) → Among xs (set_insert x xs)
Among-inserted x xs id h = ground (arith, h, contains-set_insert x id xs)

pub all_in-Among : (ids xs ys : List ℕ) → Among xs ys → all_in ids xs ≡ true → all_in ids ys ≡ true
unfolding all_in
all_in-Among [] xs ys s h = refl
all_in-Among (id ∷ ids) xs ys s h = ground (arith, s id, h, all_in-Among ids xs ys s)

pub Within-refl : (p : Px) → Within p p
Within-refl p = record { manager = λ h. h; controllers = λ id h. h; bodies = λ id h. h }

pub only_some : {A : Type 0} (x y : A) → some x ≡ some y → x ≡ y
only_some x y e = cc e

pub if_some :
    {A : Type 0} (c : Bool) (x y : A) → (if c then some x else none) ≡ some y → (c ≡ true) × (x ≡ y)
if_some true x y e = (refl, cc e)
if_some false x y e = absurd (cc e)

pub Within-trans : (p q r : Px) → Within p q → Within q r → Within p r
Within-trans p q r a b = record {
  manager = λ h. b.manager (a.manager h);
  controllers = λ id h. b.controllers id (a.controllers id h);
  bodies = λ id h. b.bodies id (a.bodies id h);
}

pub grown :
    (p q : Px) (c : Bool) (x : Px) → (if c then some x else none) ≡ some q → Within p x → Within p q
grown p q c x e s = subst (Within p) (if_some c x q e).1 s

pub Settled-Within :
    (bots players actors : List ℕ) (p q : Px)
    → Settled bots players actors p
    → Within p q
    → Settled bots players actors q
Settled-Within bots players actors p q s e = record {
  managed = e.manager s.managed;
  bots_in = all_in-Among bots p.controllers q.controllers e.controllers s.bots_in;
  players_in = all_in-Among players p.controllers q.controllers e.controllers s.players_in;
  actors_in = all_in-Among actors p.bodies q.bodies e.bodies s.actors_in;
}

abbrev pub is_players : Job → Bool
is_players update_players = true
is_players create_manager = false
is_players simulate = false
is_players fetch_results = false
is_players update_bots = false
is_players (create_controller id) = false
is_players (create_body id) = false
is_players (add_to_scene id) = false
is_players (remove_from_scene id) = false

abbrev pub is_bots : Job → Bool
is_bots update_bots = true
is_bots create_manager = false
is_bots simulate = false
is_bots fetch_results = false
is_bots update_players = false
is_bots (create_controller id) = false
is_bots (create_body id) = false
is_bots (add_to_scene id) = false
is_bots (remove_from_scene id) = false

-- Whether the job makes the controller of this actor.
abbrev pub creates : ℕ → Job → Bool
creates id (create_controller made) = made == id
creates id create_manager = false
creates id simulate = false
creates id fetch_results = false
creates id update_bots = false
creates id update_players = false
creates id (create_body made) = false
creates id (add_to_scene made) = false
creates id (remove_from_scene made) = false

-- Whether such a job is in the queue.
abbrev pub pending : (Job → Bool) → List Job → Bool
pending test [] = false
pending test (job ∷ jobs) = if test job then true else pending test jobs

pub ran_only : (r : Option Px) → elim r as (λ x. Option Px) [ none ↦ none | some p ↦ some p ] ≡ r
ran_only none = refl
ran_only (some p) = refl

-- No controller is being made for a player of this user.
abbrev pub Unwaited : ℕ → List Job → Dict Player → Type 0
Unwaited user_id jobs [] = Unit {0}
Unwaited user_id jobs ((k, player) ∷ players) =
    (k == user_id ≡ true → pending (creates player.actor_id) jobs ≡ false)
    × Unwaited user_id jobs players

module _ (user_id id : ℕ) (jobs : List Job) where
  waited-ne :
      (k : ℕ) (p : Player)
      → (k == user_id ≡ true → pending (creates p.actor_id) jobs ≡ false)
      → pending (creates id) jobs ≡ true
      → k == user_id ≡ true
      → p.actor_id == id ≡ false
  waited-ne k p u h same = elim (Bool-cases (p.actor_id == id)) [
    | inr ne ↦ ne
    | inl e ↦
        let path : p.actor_id ≡ id = (==_iff p.actor_id id).0 e in
        absurd (cc (h, subst (λ x. pending (creates x) jobs ≡ false) path (u same)))
  ]

  pub contains-erase :
      (players : Dict Player)
      → Unwaited user_id jobs players
      → pending (creates id) jobs ≡ true
      → contains id (player_ids players) ≡ true
      → contains id (player_ids (erase user_id players)) ≡ true
  unfolding contains player_ids erase
  contains-erase [] u h c = c
  contains-erase ((k, p) ∷ players) (f, u) h c = elim (Bool-cases (k == user_id)) [
    | inl same ↦ rw same (contains-erase players u h (rw (waited-ne k p f h same, contains) at c))
    | inr ne ↦ rw ne (ground (arith, c, contains-erase players u h))
  ]

  pub contains-insert :
      (new : Player) (players : Dict Player)
      → Unwaited user_id jobs players
      → pending (creates id) jobs ≡ true
      → contains id (player_ids players) ≡ true
      → contains id (player_ids (insert user_id new players)) ≡ true
  unfolding contains player_ids insert
  contains-insert new [] u h c = absurd (cc c)
  contains-insert new ((k, p) ∷ players) (f, u) h c = elim (Bool-cases (k == user_id)) [
    | inl same ↦ rw same (ground (arith, rw (waited-ne k p f h same, contains) at c))
    | inr ne ↦ rw ne (ground (arith, c, contains-insert new players u h))
  ]

pub contains-new :
    (user_id : ℕ) (new : Player) (players : Dict Player)
    → contains new.actor_id (player_ids (insert user_id new players)) ≡ true
unfolding contains player_ids insert
contains-new user_id new [] = rw (==_self new.actor_id) refl
contains-new user_id new ((k, p) ∷ players) =
    ground (arith, ==_self new.actor_id, contains-new user_id new players)
