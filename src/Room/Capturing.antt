-- ===== src/Room/Capturing.antt =====
-- The snapshot of a tick, from CaptureSnapshot to FindSnapshot of GameServer/Room.cpp.
use jam_server_prototype.Common.{
  ℕ, ◌<◌, ◌-◌, ◌≡◌, refl, sym, ap, ◌∙◌, Bool, true, some, List, [], ◌∷◌, ◌++◌, arith,
}
use jam_server_prototype.Snapshots.{
  window, insert_at, drop_before, add_snapshot, first_from, find_snapshot, to_found,
}
use jam_server_prototype.Snapshots
use jam_server_prototype.Room.Actors.{
  Look, Message, RoomState, player_ids, entities, capture_snapshot, update,
}
use jam_server_prototype.Room.Entering.{update_ready}

-- All snapshots are older than this.
abbrev pub AllBefore : {S : Type 0} → ℕ → List (ℕ × S) → Type 0
AllBefore now [] = Unit {0}
AllBefore now ((t, s) ∷ buffer) = (t < now) × AllBefore now buffer

module _ {S : Type 0} (now : ℕ) (s : S) where
  first_from-added :
      (buffer : List (ℕ × S))
      → AllBefore now buffer
      → first_from now (drop_before (now - window) (insert_at now s buffer)) ≡ some (now, s)
  unfolding first_from drop_before insert_at
  first_from-added [] a = ground arith
  first_from-added ((t, x) ∷ buffer) (lt, a) = ground (arith, lt, first_from-added buffer a)

  find-first :
      (buffer : List (ℕ × S))
      → first_from now buffer ≡ some (now, s)
      → find_snapshot now buffer ≡ Snapshots.found now s
  unfolding find_snapshot first_from
  find-first [] e = absurd (cc e)
  find-first (entry ∷ buffer) e = ap to_found e

entities-append :
    (looks : ℕ → Look) (xs ys : List ℕ)
    → entities looks (xs ++ ys) ≡ entities looks xs ++ entities looks ys
unfolding entities
entities-append looks [] ys = refl
entities-append looks (x ∷ xs) ys =
    ap (λ es. record { actor_id = x; pose = (looks x).pose; collider = (looks x).collider } ∷ es)
      (entities-append looks xs ys)

-- After a tick of a ready room whose snapshots are all older, FindSnapshot at the time of the tick gives a
-- snapshot of that time, with every actor, bot and player of the room where the tick found them.
pub tick_is_found :
    (fits : Message → Bool) (now : ℕ) (r t : RoomState)
    → r.is_ready ≡ true
    → AllBefore now r.snapshot_buffer
    → update fits now r ≡ some t
    → find_snapshot now t.snapshot_buffer
      ≡ Snapshots.found now
          (entities r.px.looks (r.actors ++ r.bots_and_monsters ++ player_ids r.players))
unfolding capture_snapshot add_snapshot
tick_is_found fits now r t ready older e =
    let looks = r.px.looks in
    let (_, _, f) = update_ready fits now r t ready e in
    let snapshot =
      entities looks r.actors
      ++ entities looks r.bots_and_monsters
      ++ entities looks (player_ids r.players) in
    ap (λ (x : RoomState). find_snapshot now x.snapshot_buffer) f
    ∙ find-first now snapshot
        (drop_before (now - window) (insert_at now snapshot r.snapshot_buffer))
        (first_from-added now snapshot r.snapshot_buffer older)
    ∙ ap (Snapshots.found now) (
        sym (
          entities-append looks (r.actors ++ r.bots_and_monsters) (player_ids r.players)
          ∙ ap (λ es. es ++ entities looks (player_ids r.players))
              (entities-append looks r.actors r.bots_and_monsters)))
