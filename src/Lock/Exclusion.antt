-- ===== src/Lock/Exclusion.antt =====
-- A writer is alone, and what an unlock comes to.
use jam_server_prototype.Common.{
  ℕ, ◌+◌, ◌<◌, ◌≡◌, ◌≢◌, ◌↔◌, refl, sym, ap, subst, ◌∙◌, none, some, List, [], ◌∷◌, ◌++◌, length,
  u32, arith,
}
use jam_server_prototype.Lock.{
  Lock, free_lock, owner, read_count, write_lock, write_unlock, read_lock, read_unlock,
}
use jam_server_prototype.Lock.Holds.{
  writing, reading, Hold, hold, System, Reach, start, later, writes, reads, AllOf, Inv,
  reads-insert,
}
use jam_server_prototype.Lock.Kept.{Step-Inv}

holds_few : {s : System} → Reach s → length s.holds < 65536
holds_few start = omega arith
holds_few (later r st few) = few

Reach-sound : {s : System} → Reach s → Inv s
Reach-sound start = record {
  bounded = omega arith;
  readers = refl;
  writers = refl;
  unowned = λ z. refl;
  owned = λ p. absurd (omega (arith, p));
}
Reach-sound (later r st few) = Step-Inv st few (holds_few r) (Reach-sound r)

AllOf-at :
    (thread_id : ℕ) (newer older : List Hold) (h : Hold)
    → AllOf thread_id (newer ++ h ∷ older)
    → h.thread_id ≡ thread_id
AllOf-at thread_id [] older h a = a.0
AllOf-at thread_id (g ∷ newer) older h a = AllOf-at thread_id newer older h a.1

locked_out :
    (other : ℕ) (l : Lock)
    → other ≢ owner l
    → 0 < owner l
    → (write_lock other l ≡ none) × (read_lock other l ≡ none)
unfolding write_lock read_lock
locked_out other l ne pos = (ground arith, ground arith)

-- In every state that the threads can reach: if a thread holds a write lock, every hold there is is
-- that thread's, and every attempt of another thread to lock, for writing or for reading, fails.
pub writer_alone :
    {s : System} (thread_id : ℕ) (newer older : List Hold)
    → Reach s
    → s.holds ≡ newer ++ hold thread_id writing ∷ older
    → AllOf thread_id s.holds
      × ((other : ℕ)
          → other ≢ thread_id
          → (write_lock other s.lock ≡ none) × (read_lock other s.lock ≡ none))
writer_alone {s} thread_id newer older r h =
    let i = Reach-sound r in
    let some_writes : 0 < writes s.holds =
      omega (arith, ap writes h, (reads-insert newer older (hold thread_id writing)).1) in
    let (pos, all) = i.owned some_writes in
    let is_owner : thread_id ≡ owner s.lock =
      AllOf-at (owner s.lock) newer older (hold thread_id writing)
        (subst (AllOf (owner s.lock)) h all) in
    (
      subst (λ t. AllOf t s.holds) (sym is_owner) all,
      λ other ne. locked_out other s.lock (λ e. ne (e ∙ sym is_owner)) pos,
    )

zero_lock : (l : Lock) → l.lock_flag ≡ 0 → l.write_count ≡ 0 → l ≡ free_lock
zero_lock l a b = cc

read_lock_unowned :
    (thread_id : ℕ) (l : Lock)
    → owner l ≡ 0
    → read_lock thread_id l ≡ some (record l { lock_flag = u32 (l.lock_flag + 1) })
unfolding read_lock
read_lock_unowned thread_id l h = ground arith

read_unlock_held : (l : Lock) → 0 < read_count l → (l' : Lock) × (read_unlock l ≡ some l')
unfolding read_unlock
read_unlock_held l h = (record l { lock_flag = u32 (l.lock_flag + 4294967295) }, ground arith)

write_unlock-none : (l : Lock) → (write_unlock l ≡ none) ↔ (0 < read_count l)
unfolding write_unlock
write_unlock-none l = (λ e. ground arith, λ h. ground arith)

-- In every reachable state: if nothing is held, the lock is as it was made, so whoever comes gets it;
-- and if nobody holds a write lock, every thread's attempt to lock for reading succeeds.
pub released_is_free :
    {s : System} (thread_id : ℕ)
    → Reach s
    → (s.holds ≡ [] → s.lock ≡ free_lock)
      × (writes s.holds ≡ 0 → (l : Lock) × (read_lock thread_id s.lock ≡ some l))
released_is_free {s} thread_id r =
    let i = Reach-sound r in
    (
      λ e.
          let none_writes : writes s.holds ≡ 0 = ap writes e in
          let none_reads : reads s.holds ≡ 0 = ap reads e in
          zero_lock s.lock (omega (arith, i.unowned none_writes, i.readers, none_reads, i.bounded))
            (omega (arith, i.writers, none_writes)),
      λ z. (_, read_lock_unowned thread_id s.lock (i.unowned z)),
    )

-- In every reachable state: giving up a read lock that is held never crashes; giving up a write lock
-- crashes exactly if some read lock is held.
pub unlock_outcome :
    {s : System} (thread_id : ℕ) (newer older : List Hold)
    → Reach s
    → (s.holds ≡ newer ++ hold thread_id reading ∷ older
        → (l : Lock) × (read_unlock s.lock ≡ some l))
      × ((write_unlock s.lock ≡ none) ↔ (0 < reads s.holds))
unlock_outcome {s} thread_id newer older r =
    let i = Reach-sound r in
    (
      λ h. read_unlock_held s.lock (
          omega
            (arith, i.readers, ap reads h, (reads-insert newer older (hold thread_id reading)).0)),
      subst (λ n. (write_unlock s.lock ≡ none) ↔ (0 < n)) i.readers (write_unlock-none s.lock),
    )
