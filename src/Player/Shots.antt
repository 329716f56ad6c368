-- ===== src/Player/Shots.antt =====
-- What a shot of GameServer/Player.cpp, `ProcessFire`, leaves behind.
use jam_server_prototype.Common.{
  ℕ, ◌<◌, ◌≡◌, ◌≢◌, ◌⊎◌, inl, inr, refl, sym, ap, ◌∙◌, Bool, true, false, Option, none, some, List,
  [], ◌∷◌, ◌++◌, ◌==◌, if◌then◌else◌, Bool-cases, Option-cases, ne→==_false, lt→ltb, test_bit,
}
use jam_server_prototype.Common.Sets.{contains}
use jam_server_prototype.Room.{max_players_per_room}
use jam_server_prototype.SessionManager.{protocol_udp, get_session_by_user_id}
use jam_server_prototype.Snapshots.{Found, find_snapshot, first_from, to_found}
use jam_server_prototype.Snapshots
use jam_server_prototype.Player.{
  Player, Range, Shot, set_scene, build_rewind_scene, clear_rewind_scene, report_hit, shoot,
  fire_at, fire_found, with_player, process_fire, released, fire,
}

-- A step of a shot that ends, and leaves the snapshots and the scenes of other players alone.
abbrev pub Ends : ℕ → Range → Option (Range × List Shot) → Type 0
Ends index r none = ⊥
Ends index r (some (r', shots)) =
    (r'.snapshots ≡ r.snapshots)
    × ((other : ℕ) → index ≢ other → r'.rewind_scenes other ≡ r.rewind_scenes other)

-- The user has a UDP session.
abbrev pub HasSession : ℕ → Range → Type 0
HasSession user_id r =
    (ref : ℕ) × ((get_session_by_user_id protocol_udp user_id r.sessions).0 ≡ some ref)

-- All of these actors still exist.
abbrev pub AllAlive : Range → List ℕ → Type 0
AllAlive r ids = (id : ℕ) → contains id ids ≡ true → r.alive id ≡ true

-- A ray hits only actors that are in the scene.
abbrev pub HitsInside : (List ℕ → Option ℕ) → Type 0
HitsInside ray = (actors : List ℕ) (id : ℕ) → ray actors ≡ some id → contains id actors ≡ true

-- The actors of the snapshot that a shot of this time looks up, and those of the player's rewind scene, still
-- exist.
abbrev pub NoneDangles : ℕ → ℕ → Range → Type 0
NoneDangles index timestamp r =
    ((time : ℕ) (snapshot : List ℕ)
      → find_snapshot timestamp r.snapshots ≡ Snapshots.found time snapshot
      → AllAlive r snapshot)
    × ((actors : List ℕ) → r.rewind_scenes index ≡ some actors → AllAlive r actors)

either_side :
    (id : ℕ) (xs ys : List ℕ)
    → contains id (xs ++ ys) ≡ true
    → (contains id xs ≡ true) ⊎ (contains id ys ≡ true)
unfolding contains
either_side id [] ys h = inr h
either_side id (x ∷ xs) ys h = elim (Bool-cases (x == id)) [
  | inl e ↦ inl (rw e refl)
  | inr ne ↦ rw ne (either_side id xs ys (rw ne at h))
]

AllAlive-append :
    (r : Range) (xs ys : List ℕ) → AllAlive r xs → AllAlive r ys → AllAlive r (xs ++ ys)
AllAlive-append r xs ys a b id h = elim (either_side id xs ys h) [
  | inl left ↦ a id left
  | inr right ↦ b id right
]

Ends-from :
    {index : ℕ} (r₁ r : Range) (x : Option (Range × List Shot))
    → r₁.snapshots ≡ r.snapshots
    → ((other : ℕ) → index ≢ other → r₁.rewind_scenes other ≡ r.rewind_scenes other)
    → Ends index r₁ x
    → Ends index r x
Ends-from r₁ r none s o e = e
Ends-from r₁ r (some (r', shots)) s o e = (e.0 ∙ s, λ other ne. e.1 other ne ∙ o other ne)

module _ (user_id actor_id index : ℕ) (camera_ray muzzle_ray : List ℕ → Option ℕ) where
  report-Ends :
      (hit : Option ℕ) (r : Range)
      → HasSession user_id r
      → ((id : ℕ) → hit ≡ some id → r.alive id ≡ true)
      → Ends index r (report_hit user_id hit r)
  unfolding report_hit
  report-Ends none r h a = (refl, λ other ne. refl)
  report-Ends (some actor) r (ref, e) a = rw (e, a actor refl, report_hit) (refl, λ other ne. refl)

  shoot-Ends :
      (actors : List ℕ) (r : Range)
      → HasSession user_id r
      → HitsInside muzzle_ray
      → AllAlive r actors
      → Ends index r (shoot camera_ray muzzle_ray user_id index (actors, r))
  unfolding shoot clear_rewind_scene
  shoot-Ends actors r h inside a =
      elim (camera_ray actors)
        as (λ c. Ends index r (elim c [
          | none ↦ some (r, [])
          | some target ↦ report_hit user_id (muzzle_ray actors) (clear_rewind_scene index r)
        ])) [
          | none ↦ (refl, λ other ne. refl)
          | some target ↦
              Ends-from (clear_rewind_scene index r) r
                (report_hit user_id (muzzle_ray actors) (clear_rewind_scene index r)) refl
                (λ other ne. rw (ne→==_false index other ne) refl)
                (report-Ends (muzzle_ray actors) (clear_rewind_scene index r) h
                  (λ id e. a id (inside actors id e)))
        ]

  built : List ℕ → Range → Range
  built actors r = record r { rewind_scenes = set_scene index (some actors) r.rewind_scenes }

  fire_at-Ends :
      (snapshot : List ℕ) (r : Range)
      → index < max_players_per_room
      → HasSession user_id r
      → HitsInside muzzle_ray
      → AllAlive r snapshot
      → ((actors : List ℕ) → r.rewind_scenes index ≡ some actors → AllAlive r actors)
      → Ends index r (fire_at camera_ray muzzle_ray user_id actor_id index snapshot r)
  unfolding fire_at build_rewind_scene built
  fire_at-Ends snapshot r lt h hits a b = elim (Bool-cases (contains actor_id snapshot)) [
    | inr out ↦ rw out (refl, λ other ne. refl)
    | inl shooter ↦
        let inside = lt→ltb index max_players_per_room lt in
        elim (Option-cases (r.rewind_scenes index)) [
          | inl null ↦ rw (shooter, inside, null, build_rewind_scene) (refl, λ other ne. refl)
          | inr (actors, scene) ↦
              rw (shooter, inside, scene, build_rewind_scene)
                (Ends-from (built (actors ++ snapshot) r) r
                  (shoot camera_ray muzzle_ray user_id index
                    (actors ++ snapshot, built (actors ++ snapshot) r))
                  refl (λ other ne. rw (ne→==_false index other ne) refl)
                  (shoot-Ends (actors ++ snapshot) (built (actors ++ snapshot) r) h hits
                    (AllAlive-append r actors snapshot (b actors scene) a)))
        ]
  ]

  fire_found-Ends :
      (found : Found (List ℕ)) (r : Range)
      → found ≢ Snapshots.fault
      → index < max_players_per_room
      → HasSession user_id r
      → HitsInside muzzle_ray
      → ((time : ℕ) (snapshot : List ℕ)
          → found ≡ Snapshots.found time snapshot
          → AllAlive r snapshot)
      → ((actors : List ℕ) → r.rewind_scenes index ≡ some actors → AllAlive r actors)
      → Ends index r (fire_found camera_ray muzzle_ray user_id actor_id index found r)
  unfolding fire_found
  fire_found-Ends Snapshots.fault r ne lt h hits a b = ne refl
  fire_found-Ends Snapshots.missing r ne lt h hits a b = (refl, λ other ne. refl)
  fire_found-Ends (Snapshots.found time snapshot) r ne lt h hits a b =
      fire_at-Ends snapshot r lt h hits (a time snapshot refl) b

to_found-ne-fault : (e : Option (ℕ × List ℕ)) → to_found e ≢ Snapshots.fault
to_found-ne-fault none e = cc e
to_found-ne-fault (some (time, snapshot)) e = cc e

find-ne-fault :
    (timestamp : ℕ) (buffer : List (ℕ × List ℕ))
    → buffer ≢ []
    → find_snapshot timestamp buffer ≢ Snapshots.fault
unfolding find_snapshot
find-ne-fault timestamp [] ne e = ne refl
find-ne-fault timestamp (entry ∷ buffer) ne e =
    to_found-ne-fault (first_from timestamp (entry ∷ buffer)) e

module _ {Speed : Type 0} where
  -- What `ProcessFire` gives: the player is the one it was, and `Ends`.
  abbrev pub Fired : Player Speed → Range → Option (Player Speed × Range × List Shot) → Type 0
  Fired p r none = ⊥
  Fired p r (some (p', r', shots)) = (p' ≡ p) × Ends p.player_index r (some (r', shots))

  with_player-Fired :
      (p : Player Speed) (r : Range) (x : Option (Range × List Shot))
      → p.is_fire_in_progress ≡ false
      → Ends p.player_index r x
      → (camera_ray muzzle_ray : List ℕ → Option ℕ)
      → Fired p r (with_player camera_ray muzzle_ray (released p) x)
  with_player-Fired p r none idle e camera_ray muzzle_ray = e
  with_player-Fired p r (some (r', shots)) idle e camera_ray muzzle_ray =
      (ap (λ (b : Bool). record p { is_fire_in_progress = b }) (sym idle), e)

  pressed_on :
      (p : Player Speed) (r : Range) (x : Option (Player Speed × Range × List Shot)) (busy : Bool)
      → busy ≡ false
      → Fired p r x
      → Fired p r (if busy then some (p, r, []) else x)
  pressed_on p r x true e f = absurd (cc e)
  pressed_on p r x false e f = f

  pub process_fire-Fired :
      (camera_ray muzzle_ray : List ℕ → Option ℕ) (keys timestamp : ℕ) (p : Player Speed)
      (r : Range)
      → p.is_fire_in_progress ≡ false
      → r.snapshots ≢ []
      → p.player_index < max_players_per_room
      → HasSession p.user_id r
      → HitsInside muzzle_ray
      → NoneDangles p.player_index timestamp r
      → Fired p r (process_fire camera_ray muzzle_ray keys timestamp p r)
  unfolding process_fire
  process_fire-Fired camera_ray muzzle_ray keys timestamp p r idle some_snapshot lt h hits kept =
      elim (Bool-cases (test_bit keys fire)) [
        | inr idle_keys ↦ rw idle_keys (refl, (refl, λ other ne. refl))
        | inl pressed ↦
            let x =
              fire_found camera_ray muzzle_ray p.user_id p.actor_id p.player_index
                (find_snapshot timestamp r.snapshots) r in
            rw pressed (
              pressed_on p r (with_player camera_ray muzzle_ray (released p) x)
                p.is_fire_in_progress idle
                (with_player-Fired p r x idle
                  (fire_found-Ends p.user_id p.actor_id p.player_index camera_ray muzzle_ray
                    (find_snapshot timestamp r.snapshots) r
                    (find-ne-fault timestamp r.snapshots some_snapshot) lt h hits kept.0 kept.1)
                  camera_ray muzzle_ray))
      ]
