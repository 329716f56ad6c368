-- ===== src/Handlers/Shooting.antt =====
-- `Player::ProcessInput`, GameServer/Player.cpp, as the handler of C_PLAYER_INPUT in
-- GameServer/ClientPacketHandler.cpp runs it: what it leaves alone, and when it ends without a fault.
use jam_server_prototype.Common.{
  ℕ, ◌<◌, ◌≡◌, ◌≢◌, inl, inr, refl, ap, ◌∙◌, true, false, ◌&&◌, Option, none, some, List, [], ◌++◌,
  ltb, Bool-cases, Option-cases, test_bit,
}
use jam_server_prototype.Common.Sets.{contains}
use jam_server_prototype.Compressor.{unpack_rotation}
use jam_server_prototype.SessionManager.{protocol_udp, SessionBundle, get_session_by_user_id}
use jam_server_prototype.Snapshots.{Found, find_snapshot}
use jam_server_prototype.Snapshots
use jam_server_prototype.Room.{max_players_per_room}
use jam_server_prototype.Player.{
  Shooter, Range, Shot, fire, jump, process_movement, process_jump, report_hit, shoot, fire_at,
  fire_found, process_fire, process_input, build_rewind_scene, clear_rewind_scene, with_player,
  released, set_scene,
}
use jam_server_prototype.Player.Shots.{
  HasSession, HitsInside, NoneDangles, Fired, process_fire-Fired,
}
use jam_server_prototype.Handlers.{Outside, World, found_range}
use jam_server_prototype.Handlers.Messages.{after_input, input_to}
use jam_server_prototype.Handlers.Directory.{directory, bundle_view}
use jam_server_prototype.Handlers.Views.{bundle_view-get}
use jam_server_prototype.Handlers.Ends.{EndsKeeping}
use jam_server_prototype.Handlers.Yielding.{Returns}

-- Where a shot ends, the users have these sessions.
abbrev Seen : (ℕ → SessionBundle) → Option (Range × List Shot) → Type 0
Seen bundle_of none = Unit {0}
Seen bundle_of (some (r, shots)) = bundle_view r.sessions ≡ bundle_of

module _ (bundle_of : ℕ → SessionBundle) (user_id : ℕ) where
  report-Seen :
      (hit : Option ℕ) (r : Range)
      → bundle_view r.sessions ≡ bundle_of
      → Seen bundle_of (report_hit user_id hit r)
  unfolding report_hit
  report-Seen none r same = same
  report-Seen (some actor) r same =
      elim (Option-cases (get_session_by_user_id protocol_udp user_id r.sessions).0) [
        | inl null ↦ rw (null, report_hit) tt
        | inr (s, e) ↦ elim (Bool-cases (r.alive actor)) [
          | inl here ↦
              rw (e, here, report_hit) (bundle_view-get user_id r.sessions protocol_udp ∙ same)
          | inr gone ↦ rw (e, gone, report_hit) tt
        ]
      ]

  module _ (camera_ray muzzle_ray : List ℕ → Option ℕ) (actor_id index : ℕ) where
    shoot-Seen :
        (actors : List ℕ) (r : Range)
        → bundle_view r.sessions ≡ bundle_of
        → Seen bundle_of (shoot camera_ray muzzle_ray user_id index (actors, r))
    unfolding shoot clear_rewind_scene
    shoot-Seen actors r same = elim (Option-cases (camera_ray actors)) [
      | inl e ↦ rw (e, shoot) same
      | inr (target, e) ↦
          rw (e, shoot) (report-Seen (muzzle_ray actors) (clear_rewind_scene index r) same)
    ]

    fire_at-Seen :
        (snapshot : List ℕ) (r : Range)
        → bundle_view r.sessions ≡ bundle_of
        → Seen bundle_of (fire_at camera_ray muzzle_ray user_id actor_id index snapshot r)
    unfolding fire_at build_rewind_scene
    fire_at-Seen snapshot r same = elim (Bool-cases (contains actor_id snapshot)) [
      | inr out ↦ rw out same
      | inl shooter ↦ elim (Bool-cases (ltb index max_players_per_room)) [
        | inr beyond ↦ rw (shooter, beyond) tt
        | inl inside ↦ elim (Option-cases (r.rewind_scenes index)) [
          | inl null ↦ rw (shooter, inside, null) same
          | inr (actors, scene) ↦
              rw (shooter, inside, scene)
                (shoot-Seen (actors ++ snapshot)
                  (record r {
                    rewind_scenes = set_scene index (some (actors ++ snapshot)) r.rewind_scenes;
                  })
                  same)
        ]
      ]
    ]

    fire_found-Seen :
        (found : Found (List ℕ)) (r : Range)
        → bundle_view r.sessions ≡ bundle_of
        → Seen bundle_of (fire_found camera_ray muzzle_ray user_id actor_id index found r)
    unfolding fire_found
    fire_found-Seen Snapshots.fault r same = tt
    fire_found-Seen Snapshots.missing r same = same
    fire_found-Seen (Snapshots.found time snapshot) r same = fire_at-Seen snapshot r same

-- An input that ends leaves the sessions of the users.
abbrev SeenInput : (ℕ → SessionBundle) → Option (Shooter × Range × List Shot) → Type 0
SeenInput bundle_of none = Unit {0}
SeenInput bundle_of (some (p, r, shots)) = bundle_view r.sessions ≡ bundle_of

with_player-Seen :
    (camera_ray muzzle_ray : List ℕ → Option ℕ) (bundle_of : ℕ → SessionBundle) (p : Shooter)
    (x : Option (Range × List Shot))
    → Seen bundle_of x
    → SeenInput bundle_of (with_player camera_ray muzzle_ray p x)
with_player-Seen camera_ray muzzle_ray bundle_of p none same = tt
with_player-Seen camera_ray muzzle_ray bundle_of p (some (r, shots)) same = same

process_fire-Seen :
    (camera_ray muzzle_ray : List ℕ → Option ℕ) (bundle_of : ℕ → SessionBundle) (keys timestamp : ℕ)
    (p : Shooter) (r : Range)
    → bundle_view r.sessions ≡ bundle_of
    → SeenInput bundle_of (process_fire camera_ray muzzle_ray keys timestamp p r)
unfolding process_fire
process_fire-Seen camera_ray muzzle_ray bundle_of keys timestamp p r same =
    elim (Bool-cases (test_bit keys fire)) [
      | inr idle ↦ rw idle same
      | inl pressed ↦ elim (Bool-cases p.is_fire_in_progress) [
        | inl busy ↦ rw (pressed, busy) same
        | inr ready ↦
            rw (pressed, ready)
              (with_player-Seen camera_ray muzzle_ray bundle_of
                (released (record p { is_fire_in_progress = true }))
                (fire_found camera_ray muzzle_ray p.user_id p.actor_id p.player_index
                  (find_snapshot timestamp r.snapshots) r)
                (fire_found-Seen bundle_of p.user_id camera_ray muzzle_ray p.actor_id p.player_index
                  (find_snapshot timestamp r.snapshots) r same))
      ]
    ]

-- When a shot of the player, at this time, does not fault.
abbrev pub CanFire : (List ℕ → Option ℕ) → ℕ → Shooter → Range → Type 0
CanFire muzzle_ray timestamp p r =
    (p.is_fire_in_progress ≡ false)
    × (r.snapshots ≢ [])
    × (p.player_index < max_players_per_room)
    × HasSession p.user_id r
    × HitsInside muzzle_ray
    × NoneDangles p.player_index timestamp r

module _ (outside : Outside) (room_id user_id : ℕ) (w : World) where
  after-Keeps :
      (x : Option (Shooter × Range × List Shot))
      → SeenInput (bundle_view w.sessions) x
      → EndsKeeping w (after_input outside room_id user_id x w)
  after-Keeps none same = tt
  after-Keeps (some (p, r, shots)) same =
      (refl, ap (λ (b : ℕ → SessionBundle). record (directory w) { bundle_of = b }) same)

  pub input_to-Keeps :
      (keys angles sequence timestamp : ℕ)
      → EndsKeeping w (input_to outside room_id user_id keys angles sequence timestamp w)
  unfolding input_to process_input
  input_to-Keeps keys angles sequence timestamp =
      let camera_ray = outside.camera_ray w user_id angles timestamp in
      let muzzle_ray = outside.muzzle_ray w user_id angles timestamp in
      let (yaw, pitch) = unpack_rotation angles in
      let p : Shooter = record (outside.shooter_at w room_id user_id) {
        last_process_sequence = sequence;
        yaw = yaw;
        pitch = pitch;
      } in
      let q = process_jump outside.jump_speed keys (process_movement keys p) in
      let r = found_range outside room_id w in
      after-Keeps (process_fire camera_ray muzzle_ray keys timestamp q r)
        (process_fire-Seen camera_ray muzzle_ray (bundle_view w.sessions) keys timestamp q r refl)

  after-Returns :
      (p : Shooter) (r : Range) (x : Option (Shooter × Range × List Shot))
      → Fired p r x
      → Returns (after_input outside room_id user_id x w)
  after-Returns p r none f = absurd f
  after-Returns p r (some (p', r', shots)) f = tt

  fire-Returns :
      (camera_ray muzzle_ray : List ℕ → Option ℕ) (keys timestamp : ℕ) (p : Shooter) (r : Range)
      → (test_bit keys fire ≡ true → CanFire muzzle_ray timestamp p r)
      → Returns (
          after_input outside room_id user_id
            (process_fire camera_ray muzzle_ray keys timestamp p r)
            w)
  unfolding process_fire
  fire-Returns camera_ray muzzle_ray keys timestamp p r can =
      elim (Bool-cases (test_bit keys fire)) [
        | inr idle ↦ rw (idle, process_fire) tt
        | inl pressed ↦
            let (idle, some_snapshot, inside, session, hits, kept) = can pressed in
            after-Returns p r (process_fire camera_ray muzzle_ray keys timestamp p r) (
              process_fire-Fired camera_ray muzzle_ray keys timestamp p r idle some_snapshot inside
                session hits kept)
      ]

  pub input_to-Returns :
      (keys angles sequence timestamp : ℕ)
      → (test_bit keys fire ≡ true
          → CanFire
              (outside.muzzle_ray w user_id angles timestamp)
              timestamp
              (outside.shooter_at w room_id user_id)
              (found_range outside room_id w))
      → Returns (input_to outside room_id user_id keys angles sequence timestamp w)
  unfolding input_to process_input process_jump process_movement
  input_to-Returns keys angles sequence timestamp can =
      let camera_ray = outside.camera_ray w user_id angles timestamp in
      let muzzle_ray = outside.muzzle_ray w user_id angles timestamp in
      let (yaw, pitch) = unpack_rotation angles in
      let p : Shooter = record (outside.shooter_at w room_id user_id) {
        last_process_sequence = sequence;
        yaw = yaw;
        pitch = pitch;
      } in
      let q = process_movement keys p in
      let r = found_range outside room_id w in
      elim (Bool-cases (test_bit keys jump && p.is_grounded)) [
        | inl jumps ↦ rw jumps (
            fire-Returns camera_ray muzzle_ray keys timestamp
              (record q { vertical_velocity = outside.jump_speed }) r can)
        | inr stays ↦ rw stays (fire-Returns camera_ray muzzle_ray keys timestamp q r can)
      ]
