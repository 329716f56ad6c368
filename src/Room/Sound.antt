-- ===== src/Room/Sound.antt =====
-- When the queue of a room can be run, GameServer/Room.cpp, and the jobs of a tick.
use jam_server_prototype.Common.{
  ℕ, ◌≡◌, inl, inr, refl, subst, Bool, true, false, Option, none, some, List, [], ◌∷◌, ◌++◌,
  if◌then◌else◌, Option-cases, arith,
}
use jam_server_prototype.Common.Dict.{Dict}
use jam_server_prototype.SessionManager.{protocol_udp, get_session_by_user_id}
use jam_server_prototype.Room.Actors.{
  Look, Job, simulate, fetch_results, update_bots, update_players, Px, Player, player_ids, Message,
  RoomState, push, multicast_reliable,
}
use jam_server_prototype.Room.Execution.{present, all_in, run_job, run_all, move_all}
use jam_server_prototype.Room.Holding.{
  Fewer, Settled, Within, Within-refl, Settled-Within, is_players, is_bots, creates, pending,
}
use jam_server_prototype.Room.Jobs.{Runs, push-Runs, run_job-Grows, run_job-Within}

pub Fewer-refl : (xs : List ℕ) → Fewer xs xs
Fewer-refl xs ids h = h

pub guarded :
    {A : Type 0} (c : Bool) (x : A) → c ≡ true → (q : A) × ((if c then some x else none) ≡ some q)
guarded c x h = (x, rw h refl)

pub pending-push :
    (test : Job → Bool) (job : Job) (jobs : List Job)
    → test job ≡ false
    → pending test (jobs ++ job ∷ []) ≡ pending test jobs
pending-push test job [] h = rw h refl
pending-push test job (j ∷ jobs) h = ground (arith, pending-push test job jobs h)

module _ (move : ℕ → Look → Look) where
  pub run_all-Within :
      (bots players bots' players' : List ℕ) (jobs : List Job) (px px' py : Px)
      → (pending is_bots jobs ≡ true → Fewer bots bots')
      → (pending is_players jobs ≡ true → Fewer players players')
      → ((id : ℕ)
          → pending (creates id) jobs ≡ true
          → present id bots players ≡ true
          → present id bots' players' ≡ true)
      → Within px py
      → run_all move bots players jobs px ≡ some px'
      → (py' : Px) × (run_all move bots' players' jobs py ≡ some py') × Within px' py'
  unfolding run_all
  run_all-Within bots players bots' players' [] px px' py fb fp fh s e =
      (py, refl, subst (λ x. Within x py) (cc e) s)
  run_all-Within bots players bots' players' (job ∷ jobs) px px' py fb fp fh s e =
      elim (Option-cases (run_job move bots players job px)) [
        | inl f ↦ absurd (cc (rw (f, run_all) at e))
        | inr (q, f) ↦
            let (qy, g, t) =
              run_job-Within move bots players bots' players' job px q py (λ h. fb (rw h refl))
                (λ h. fp (rw h refl)) (λ id h. fh id (rw h refl)) s f in
            rw (g, run_all)
              (run_all-Within bots players bots' players' jobs q px' qy
                (λ h. fb (ground (arith, h))) (λ h. fp (ground (arith, h)))
                (λ id h. fh id (ground (arith, h))) t (rw (f, run_all) at e))
      ]

  -- The queue of a room can be run from here, and the room's actors have then what they need.
  abbrev pub IsSound : RoomState → Type 0
  IsSound r =
      Runs move (Settled r.bots_and_monsters (player_ids r.players) r.actors) r.bots_and_monsters
        (player_ids r.players) r.physics_queue r.px

  -- Other bots and players come in only where no job of theirs is pending, or are some of those there.
  pub swap-Runs :
      (bots players actors bots' players' actors' : List ℕ) (jobs : List Job) (px : Px)
      → Runs move (Settled bots players actors) bots players jobs px
      → (pending is_bots jobs ≡ true → Fewer bots bots')
      → (pending is_players jobs ≡ true → Fewer players players')
      → ((id : ℕ)
          → pending (creates id) jobs ≡ true
          → present id bots players ≡ true
          → present id bots' players' ≡ true)
      → ((p : Px) → Settled bots players actors p → Settled bots' players' actors' p)
      → Runs move (Settled bots' players' actors') bots' players' jobs px
  swap-Runs bots players actors bots' players' actors' jobs px (px', e, s) fb fp fh k =
      let (py', f, t) =
        run_all-Within bots players bots' players' jobs px px' px fb fp fh (Within-refl px) e in
      (py', f, k py' (Settled-Within bots players actors px' py' s t))

  pub push-IsSound :
      (job : Job) (r : RoomState)
      → IsSound r
      → ((p : Px)
          → Settled r.bots_and_monsters (player_ids r.players) r.actors p
          → (q : Px) × (run_job move r.bots_and_monsters (player_ids r.players) job p ≡ some q))
      → IsSound (record r { physics_queue = r.physics_queue ++ job ∷ [] })
  push-IsSound job r s step =
      push-Runs move (Settled r.bots_and_monsters (player_ids r.players) r.actors)
        (Settled r.bots_and_monsters (player_ids r.players) r.actors) r.bots_and_monsters
        (player_ids r.players) r.physics_queue job r.px s
        (λ p t.
          let (q, e) = step p t in
          (
            q,
            e,
            Settled-Within r.bots_and_monsters (player_ids r.players) r.actors p q t
                (run_job-Grows move r.bots_and_monsters (player_ids r.players) job p q e),
          ))

  pub multicast_reliable-IsSound :
      (message : Message) (now : ℕ) (players : Dict Player) (r : RoomState)
      → IsSound r
      → IsSound (multicast_reliable message now players r)
  unfolding multicast_reliable
  multicast_reliable-IsSound message now [] r s = s
  multicast_reliable-IsSound message now ((user_id, player) ∷ players) r s =
      multicast_reliable-IsSound message now players _ (
        on_session (get_session_by_user_id protocol_udp player.user_id r.sessions).0
          (get_session_by_user_id protocol_udp player.user_id r.sessions).1)
    where
      on_session :
          (ref : Option ℕ) (sessions' : _)
          → IsSound (elim ref [
            | none ↦ record r { sessions = sessions' }
            | some x ↦ record r { sessions = sessions'; sent = r.sent ++ (x, message, now) ∷ [] }
          ])
      on_session none sessions' = s
      on_session (some x) sessions' = s

  pub tick_jobs-IsSound :
      (r : RoomState)
      → IsSound r
      → IsSound (push update_players (push update_bots (push fetch_results (push simulate r))))
  unfolding run_job
  tick_jobs-IsSound r s =
      let simulated = push simulate r in
      let fetched = push fetch_results simulated in
      let updated = push update_bots fetched in
      push-IsSound update_players updated
        (push-IsSound update_bots fetched
          (push-IsSound fetch_results simulated (push-IsSound simulate r s (λ p t. (p, refl)))
            (λ p t. (p, refl)))
          (λ p t.
            guarded (all_in r.bots_and_monsters p.controllers)
              (record p { looks = move_all move r.bots_and_monsters p.looks }) t.bots_in))
        (λ p t.
          guarded (all_in (player_ids r.players) p.controllers)
            (record p { looks = move_all move (player_ids r.players) p.looks }) t.players_in)
