-- ===== src/Room/Seats.antt =====
-- Who gets in, and under which index.
use jam_server_prototype.Common.{
  ℕ, ◌+◌, ◌≤◌, ◌<◌, ◌≡◌, ◌≢◌, refl, some, List, [], ◌∷◌, ltb, ◌==◌, if◌then◌else◌, Bool-cases, inl,
  inr, length, arith,
}
use jam_server_prototype.Common.Dict.{insert, lookup-insert, length-insert-le, length-erase-le}
use jam_server_prototype.Room.{
  max_players_per_room, Player, Players, entered, refused, fault, enter, leave,
  get_player_by_user_id,
}

-- The player as `Enter` leaves it.
abbrev seated : ℕ → Players → Player
seated user_id players = record {
  user_id = user_id;
  player_index = length players;
  color = length players;
}

enter_room :
    (user_id : ℕ) (players : Players)
    → length players < max_players_per_room
    → enter user_id players
      ≡ entered (seated user_id players) (insert user_id (seated user_id players) players)
unfolding enter
enter_room user_id players h = ground arith

-- What `Enter` does, by the number of players inside: below four the player gets that number as its
-- index and is found under its user id, with nobody else changed; at four the colour of the fifth
-- index is read, which is out of bounds; above four the player is refused.
pub enter_lem :
    (user_id other : ℕ) (players : Players)
    → (length players < max_players_per_room
        → (p : Player) × (players' : Players) × (enter user_id players ≡ entered p players')
          × (p.player_index ≡ length players)
          × (get_player_by_user_id other players'
              ≡ (if user_id == other then some p else get_player_by_user_id other players))
          × (length players' ≤ length players + 1))
      × (length players ≡ max_players_per_room → enter user_id players ≡ fault)
      × (max_players_per_room < length players → enter user_id players ≡ refused players)
unfolding enter get_player_by_user_id
enter_lem user_id other players = (
  λ h. (
    seated user_id players,
    insert user_id (seated user_id players) players,
    enter_room user_id players h,
    refl,
    lookup-insert user_id other _ players,
    length-insert-le user_id _ players,
  ),
  λ h. ground arith,
  λ h. ground arith,
)

-- What happens to a room: players enter and leave.
pub data Visit : Type 0 where
  come : ℕ → Visit
  go : ℕ → Visit

pub data Visited : Type 0 where
  -- the room, and how many were refused
  still : Players → ℕ → Visited
  crashed : Visited

pub visit_all : List Visit → Players → ℕ → Visited
visit_all [] players refusals = still players refusals
visit_all (come user_id ∷ visits) players refusals = elim (enter user_id players) [
  | entered p players' ↦ visit_all visits players' refusals
  | refused players' ↦ visit_all visits players' (refusals + 1)
  | fault ↦ crashed
]
visit_all (go user_id ∷ visits) players refusals = visit_all visits (leave user_id players) refusals

abbrev pub Bounded : Visited → ℕ → Type 0
Bounded (still players refusals) n = (length players ≤ max_players_per_room) × (refusals ≡ n)
Bounded crashed n = Unit {0}

length-leave-le :
    (user_id : ℕ) (players : Players) (n : ℕ)
    → length players ≤ max_players_per_room
    → length (leave user_id players) ≤ max_players_per_room
unfolding leave
length-leave-le user_id players n h = omega (arith, length-erase-le user_id players)

-- A room that starts with at most four players never refuses anybody: however players come and go,
-- either the fifth one inside is a fault, or there are never more than four and nobody is refused.
pub never_refused :
    (visits : List Visit) (players : Players) (n : ℕ)
    → length players ≤ max_players_per_room
    → Bounded (visit_all visits players n) n
unfolding visit_all
never_refused [] players n h = (h, refl)
never_refused (come user_id ∷ visits) players n h =
    elim (Bool-cases (ltb (length players) max_players_per_room)) [
      | inl room ↦
          let p = seated user_id players in
          rw (enter_room user_id players (ground arith), Bounded)
            (never_refused visits (insert user_id p players) n
              (ground (arith, length-insert-le user_id p players)))
      | inr full ↦
          let e : enter user_id players ≡ fault = (enter_lem user_id 0 players).1 (ground arith) in
          rw (e, Bounded) tt
    ]
never_refused (go user_id ∷ visits) players n h =
    never_refused visits (leave user_id players) n (length-leave-le user_id players n h)

-- Indices are given out by the number of players: if somebody leaves while the player with the
-- highest index stays, the next one to enter gets that index too, and two players inside share it.
pub index_shared :
    (left comes : ℕ) (last : Player) (players : Players)
    → length (leave left players) + 1 ≡ length players
    → length players ≤ max_players_per_room
    → get_player_by_user_id last.user_id (leave left players) ≡ some last
    → last.player_index + 1 ≡ length players
    → comes ≢ last.user_id
    → (p : Player) × (players' : Players) × (enter comes (leave left players) ≡ entered p players')
      × (get_player_by_user_id comes players' ≡ some p)
      × (get_player_by_user_id last.user_id players' ≡ some last)
      × (p.player_index ≡ last.player_index)
unfolding get_player_by_user_id
index_shared left comes last players one h inside top other =
    let rest = leave left players in
    let p = seated comes rest in
    (
      p,
      insert comes p rest,
      enter_room comes rest (omega arith),
      ground (arith, lookup-insert comes comes p rest),
      ground (arith, lookup-insert comes last.user_id p rest),
      omega arith,
    )
