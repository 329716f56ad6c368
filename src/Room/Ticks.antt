-- ===== src/Room/Ticks.antt =====
-- The operations of a room and its physics thread, GameServer/Room.cpp, in any order: no job finds a
-- pointer null.
use jam_server_prototype.Common.{
  ℕ, ◌≡◌, inl, inr, refl, true, false, Option, none, some, [], ◌∷◌, ◌++◌, ltb, Bool-cases, length,
  List, ◌∙◌, ◌==◌, ==_iff, subst, arith,
}
use jam_server_prototype.Common.Dict.{insert, erase}
use jam_server_prototype.Common.Sets.{
  contains, set_insert, set_erase, contains-set_insert, contains-set_erase,
}
use jam_server_prototype.Room.{max_players_per_room}
use jam_server_prototype.Room.Actors.{
  Look, create_controller, Px, Player, player_ids, RoomState, push, add_bot_or_monster, without_bot,
  enter, leave,
}
use jam_server_prototype.Room.Execution.{present, run_job}
use jam_server_prototype.Room.Holding.{
  Fewer, creates, Unwaited, contains-erase, contains-insert, contains-new, Fewer-set_erase,
  Fewer-erase, all_in-set_insert, all_in-insert, contains-inserted, Settled, Within-refl,
  Settled-Within, is_players, is_bots, pending,
}
use jam_server_prototype.Room.Jobs.{Runs, run_all-push, run_job-Grows}
use jam_server_prototype.Room.Sound.{Fewer-refl, run_all-Within, IsSound, swap-Runs}

either_there :
    (xs ys bots : List ℕ) (id : ℕ)
    → (contains id xs ≡ true → contains id ys ≡ true)
    → present id bots xs ≡ true
    → present id bots ys ≡ true
either_there xs ys bots id f there = ground (arith, f, there)

right_there :
    (bots players : List ℕ) (id : ℕ) → contains id players ≡ true → present id bots players ≡ true
right_there bots players id h = ground (arith, h)

module _ (move : ℕ → Look → Look) where
  -- The queue can be run, and the actor has a controller then.
  abbrev pub Controlled : ℕ → RoomState → Px → Type 0
  Controlled id r p =
      Settled r.bots_and_monsters (player_ids r.players) r.actors p
      × (contains id p.controllers ≡ true)

  -- The job for a controller is pushed, and its actor is among the bots and players that are there now.
  create_controller-Runs :
      (id : ℕ) (r : RoomState) (bots' players' : List ℕ)
      → IsSound move r
      → (pending is_bots r.physics_queue ≡ true → Fewer r.bots_and_monsters bots')
      → (pending is_players r.physics_queue ≡ true → Fewer (player_ids r.players) players')
      → ((other : ℕ)
          → pending (creates other) r.physics_queue ≡ true
          → present other r.bots_and_monsters (player_ids r.players) ≡ true
          → present other bots' players' ≡ true)
      → present id bots' players' ≡ true
      → Runs move
          (Controlled id r)
          bots'
          players'
          (r.physics_queue ++ create_controller id ∷ [])
          r.px
  unfolding run_job
  create_controller-Runs id r bots' players' (px', e, s) fb fp fh there =
      let (py', f, t) =
        run_all-Within move r.bots_and_monsters (player_ids r.players) bots' players'
          r.physics_queue r.px px' r.px fb fp fh (Within-refl r.px) e in
      let k = Settled-Within r.bots_and_monsters (player_ids r.players) r.actors px' py' s t in
      let q : Px = record py' { controllers = set_insert id py'.controllers } in
      let g : run_job move bots' players' (create_controller id) py' ≡ some q =
        rw (k.managed, there) refl in
      (
        q,
        run_all-push move bots' players' r.physics_queue (create_controller id) r.px py' f ∙ g,
        (
          Settled-Within r.bots_and_monsters (player_ids r.players) r.actors py' q k
              (run_job-Grows move bots' players' (create_controller id) py' q g),
          contains-inserted id py'.controllers,
        ),
      )

  seated-IsSound :
      (player : Player) (r : RoomState)
      → pending is_players r.physics_queue ≡ false
      → Unwaited player.user_id r.physics_queue r.players
      → IsSound move r
      → IsSound move (record (push (create_controller player.actor_id) r) {
        players = insert player.user_id player r.players;
      })
  seated-IsSound player r idle unwaited s =
      let id = player.actor_id in
      let players' = insert player.user_id player r.players in
      let (q, e, (k, d)) =
        create_controller-Runs id r r.bots_and_monsters (player_ids players') s
          (λ _. Fewer-refl r.bots_and_monsters) (λ h. absurd (cc (h, idle)))
          (λ other waits.
            either_there (player_ids r.players) (player_ids players') r.bots_and_monsters other (
              contains-insert player.user_id other r.physics_queue player r.players unwaited waits))
          (right_there r.bots_and_monsters (player_ids players') id
            (contains-new player.user_id player r.players)) in
      (
        q,
        e,
        record {
          managed = k.managed;
          bots_in = k.bots_in;
          players_in = all_in-insert player.user_id player r.players q.controllers k.players_in d;
          actors_in = k.actors_in;
        },
      )

  -- Where the operation ends, the room is sound.
  abbrev pub Keeps : {A : Type 0} → Option (A × RoomState) → Type 0
  Keeps none = Unit {0}
  Keeps (some (answer, r)) = IsSound move r

  pub enter-Keeps :
      (player : Player) (r : RoomState)
      → pending is_players r.physics_queue ≡ false
      → Unwaited player.user_id r.physics_queue r.players
      → IsSound move r
      → Keeps (enter player r)
  unfolding enter
  enter-Keeps player r idle unwaited s =
      elim (Bool-cases (ltb max_players_per_room (length r.players))) [
        | inl over ↦ rw over s
        | inr within ↦ elim (Bool-cases (ltb (length r.players) max_players_per_room)) [
          | inl seat ↦ rw (within, seat) (seated-IsSound player r idle unwaited s)
          | inr full ↦ rw (within, full) tt
        ]
      ]

  pub add_bot-IsSound :
      (id : ℕ) (r : RoomState)
      → pending is_bots r.physics_queue ≡ false
      → IsSound move r
      → IsSound move (add_bot_or_monster id r)
  unfolding add_bot_or_monster
  add_bot-IsSound id r idle s =
      let bots' = set_insert id r.bots_and_monsters in
      let (q, e, (k, d)) =
        create_controller-Runs id r bots' (player_ids r.players) s (λ h. absurd (cc (h, idle)))
          (λ _. Fewer-refl (player_ids r.players))
          (λ other _ there. ground (arith, there, contains-set_insert id other r.bots_and_monsters))
          (ground (arith, contains-inserted id r.bots_and_monsters)) in
      (
        q,
        e,
        record {
          managed = k.managed;
          bots_in = all_in-set_insert id r.bots_and_monsters q.controllers k.bots_in d;
          players_in = k.players_in;
          actors_in = k.actors_in;
        },
      )

  pub leave-IsSound :
      (player : Player) (r : RoomState)
      → Unwaited player.user_id r.physics_queue r.players
      → IsSound move r
      → IsSound move (leave player r)
  unfolding leave
  leave-IsSound player r unwaited s =
      swap-Runs move r.bots_and_monsters (player_ids r.players) r.actors r.bots_and_monsters
        (player_ids (erase player.user_id r.players)) r.actors r.physics_queue r.px s
        (λ _. Fewer-refl r.bots_and_monsters) (λ _. Fewer-erase player.user_id r.players)
        (λ other waits.
          either_there (player_ids r.players) (player_ids (erase player.user_id r.players))
            r.bots_and_monsters other
            (contains-erase player.user_id other r.physics_queue r.players unwaited waits))
        (λ p t. record {
          managed = t.managed;
          bots_in = t.bots_in;
          players_in = Fewer-erase player.user_id r.players p.controllers t.players_in;
          actors_in = t.actors_in;
        })

  pub without_bot-IsSound :
      (id : ℕ) (r : RoomState)
      → pending (creates id) r.physics_queue ≡ false
      → IsSound move r
      → IsSound move (without_bot id r)
  without_bot-IsSound id r unwaited s =
      swap-Runs move r.bots_and_monsters (player_ids r.players) r.actors
        (set_erase id r.bots_and_monsters) (player_ids r.players) r.actors r.physics_queue r.px s
        (λ _. Fewer-set_erase id r.bots_and_monsters) (λ _. Fewer-refl (player_ids r.players))
        (λ other waits there. elim (Bool-cases (id == other)) [
          | inl same ↦ absurd (
              cc (
                waits,
                subst (λ x. pending (creates x) r.physics_queue ≡ false) ((==_iff id other).0 same)
                    unwaited,
              ))
          | inr ne ↦ ground (arith, there, ne, contains-set_erase id other r.bots_and_monsters)
        ])
        (λ p t. record {
          managed = t.managed;
          bots_in = Fewer-set_erase id r.bots_and_monsters p.controllers t.bots_in;
          players_in = t.players_in;
          actors_in = t.actors_in;
        })
