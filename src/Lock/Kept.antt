-- ===== src/Lock/Kept.antt =====
-- Every step keeps what the flag and the count say.
use jam_server_prototype.Common.{
  ℕ, ◌+◌, ◌*◌, ◌<◌, ◌≡◌, ◌≢◌, ◌⊎◌, inl, inr, sym, ap, subst, ◌∙◌, some, List, [], ◌∷◌, ◌++◌, ◌==◌,
  Bool-cases, if◌then◌else◌, length, u16, u32, sub16, arith,
}
use jam_server_prototype.Lock.{
  Lock, owner, read_count, write_lock, write_unlock, read_lock, read_unlock,
}
use jam_server_prototype.Lock.Holds.{
  writing, reading, Hold, hold, System, Step, write_locked, read_locked, write_unlocked,
  read_unlocked, writes, reads, AllOf, Inv, reads-insert, AllOf-remove, reads-length,
}

-- What a lock call that ends has done.
write_lock-some :
    (thread_id : ℕ) (l l' : Lock)
    → write_lock thread_id l ≡ some l'
    → (l'.write_count ≡ u16 (l.write_count + 1))
      × (((thread_id ≡ owner l) × (l'.lock_flag ≡ l.lock_flag))
          ⊎ ((l.lock_flag ≡ 0) × (l'.lock_flag ≡ u32 (thread_id * 65536))))
unfolding write_lock
write_lock-some thread_id l l' e = ground arith

read_lock-some :
    (thread_id : ℕ) (l l' : Lock)
    → read_lock thread_id l ≡ some l'
    → (l'.write_count ≡ l.write_count)
      × (l'.lock_flag ≡ u32 (l.lock_flag + 1))
      × ((thread_id ≡ owner l) ⊎ (l.lock_flag ≡ read_count l))
unfolding read_lock
read_lock-some thread_id l l' e = ground arith

write_unlock-some :
    (l l' : Lock)
    → write_unlock l ≡ some l'
    → (read_count l ≡ 0)
      × (l'.write_count ≡ sub16 l.write_count 1)
      × (l'.lock_flag ≡ (if sub16 l.write_count 1 == 0 then 0 else l.lock_flag))
unfolding write_unlock
write_unlock-some l l' e = ground arith

read_unlock-some :
    (l l' : Lock)
    → read_unlock l ≡ some l'
    → (read_count l ≢ 0)
      × (l'.write_count ≡ l.write_count)
      × (l'.lock_flag ≡ u32 (l.lock_flag + 4294967295))
unfolding read_unlock
read_unlock-some l l' e = ground arith

AllOf-empty : (thread_id : ℕ) (holds : List Hold) → length holds ≡ 0 → AllOf thread_id holds
AllOf-empty thread_id [] h = tt
AllOf-empty thread_id (g ∷ holds) h = absurd (omega (arith, h))

AllOf-owner : (a b : ℕ) (holds : List Hold) → a ≡ b → AllOf a holds → AllOf b holds
AllOf-owner a b [] e h = tt
AllOf-owner a b (g ∷ holds) e h = (h.0 ∙ e, AllOf-owner a b holds e h.1)

-- An owner holds a write lock.
pub owner-writes : (s : System) → Inv s → 0 < owner s.lock → 0 < writes s.holds
owner-writes s i h = elim (Bool-cases (writes s.holds == 0)) [
  | inl e ↦ absurd (omega (arith, i.unowned (ground arith), h))
  | inr e ↦ ground arith
]

-- A flag that is empty means that nothing is held.
pub empty-holds : (s : System) → Inv s → s.lock.lock_flag ≡ 0 → length s.holds ≡ 0
empty-holds s i h = elim (Bool-cases (writes s.holds == 0)) [
  | inl e ↦
      let none_writes : writes s.holds ≡ 0 = ground arith in
      omega (arith, none_writes, i.readers, h, reads-length s.holds)
  | inr e ↦ absurd (omega (arith, (i.owned (ground arith)).0, h))
]

-- A hold that is new: the lock call has ended with it.
write_locked-Inv :
    (thread_id : ℕ) (l : Lock) (s : System)
    → 0 < thread_id
    → thread_id < 65536
    → write_lock thread_id s.lock ≡ some l
    → length s.holds + 1 < 65536
    → Inv s
    → Inv (record { lock = l; holds = hold thread_id writing ∷ s.holds })
write_locked-Inv thread_id l s pos lt e few i =
    let (count, way) = write_lock-some thread_id s.lock l e in
    let total = reads-length s.holds in
    let writers = i.writers in
    let readers = i.readers in
    let bounded = i.bounded in
    elim way [
      | inl (own, same) ↦ record {
        bounded = omega (arith, same, bounded);
        readers = omega (arith, same, readers);
        writers = omega (arith, count, writers, total, few);
        unowned = λ z. absurd (omega (arith, z));
        owned = λ _. (
          omega (arith, own, same, pos),
          (
            omega (arith, own, same),
            AllOf-owner (owner s.lock) (owner l) s.holds (omega (arith, same))
                (i.owned (owner-writes s i (omega (arith, own, pos)))).1,
          ),
        );
      }
      | inr (empty, new) ↦ record {
        bounded = omega (arith, new);
        readers = omega (arith, new, readers, empty, lt);
        writers = omega (arith, count, writers, total, few);
        unowned = λ z. absurd (omega (arith, z));
        owned = λ _. (
          omega (arith, new, lt, pos),
          (omega (arith, new, lt), AllOf-empty (owner l) s.holds (empty-holds s i empty)),
        );
      }
    ]

read_locked-Inv :
    (thread_id : ℕ) (l : Lock) (s : System)
    → 0 < thread_id
    → read_lock thread_id s.lock ≡ some l
    → length s.holds + 1 < 65536
    → Inv s
    → Inv (record { lock = l; holds = hold thread_id reading ∷ s.holds })
read_locked-Inv thread_id l s pos e few i =
    let (count, flag, way) = read_lock-some thread_id s.lock l e in
    let total = reads-length s.holds in
    let readers = i.readers in
    let bounded = i.bounded in
    let same : owner l ≡ owner s.lock = omega (arith, flag, bounded, readers, total, few) in
    let up : read_count l ≡ read_count s.lock + 1 =
      omega (arith, flag, bounded, readers, total, few) in
    record {
      bounded = omega (arith, flag);
      readers = omega (arith, up, readers);
      writers = omega (arith, count, i.writers);
      unowned = λ z. same ∙ i.unowned (omega (arith, z));
      owned = λ some_writes. elim way [
        | inl own ↦ (
          omega (arith, own, same, pos),
          (
            omega (arith, own, same),
            AllOf-owner (owner s.lock) (owner l) s.holds (sym same)
                (i.owned (omega (arith, some_writes))).1,
          ),
        )
        | inr empty ↦ absurd (omega (arith, (i.owned (omega (arith, some_writes))).0, empty))
      ];
    }

write_unlocked-Inv :
    (thread_id : ℕ) (l : Lock) (s : System) (newer older : List Hold)
    → s.holds ≡ newer ++ hold thread_id writing ∷ older
    → write_unlock s.lock ≡ some l
    → length s.holds < 65536
    → Inv s
    → Inv (record { lock = l; holds = newer ++ older })
write_unlocked-Inv thread_id l s newer older h e few i =
    let (none_reads, count, flag) = write_unlock-some s.lock l e in
    let (r, w) = reads-insert newer older (hold thread_id writing) in
    let rs : reads s.holds ≡ reads (newer ++ older) = omega (arith, ap reads h, r) in
    let ws : writes s.holds ≡ 1 + writes (newer ++ older) = ap writes h ∙ w in
    let total = reads-length s.holds in
    let readers = i.readers in
    let writers = i.writers in
    let bounded = i.bounded in
    let down : sub16 s.lock.write_count 1 ≡ writes (newer ++ older) =
      omega (arith, writers, ws, total, few) in
    let held = i.owned (omega (arith, ws)) in
    let others =
      AllOf-remove (owner s.lock) newer older (hold thread_id writing)
        (subst (AllOf (owner s.lock)) h held.1) in
    elim (Bool-cases (writes (newer ++ older) == 0)) [
      | inl last ↦
          let zero_writes : writes (newer ++ older) ≡ 0 = ground arith in
          let cleared : l.lock_flag ≡ 0 = ground arith in
          record {
            bounded = omega (arith, cleared);
            readers = omega (arith, cleared, rs, readers, none_reads);
            writers = count ∙ down;
            unowned = λ z. omega (arith, cleared);
            owned = λ p. absurd (omega (arith, zero_writes, p));
          }
      | inr more ↦
          let same : l.lock_flag ≡ s.lock.lock_flag = ground arith in
          record {
            bounded = omega (arith, same, bounded);
            readers = omega (arith, same, rs, readers);
            writers = count ∙ down;
            unowned = λ z. absurd (ground arith);
            owned = λ p. (
              omega (arith, same, held.0),
              AllOf-owner (owner s.lock) (owner l) (newer ++ older) (omega (arith, same)) others,
            );
          }
    ]

read_unlocked-Inv :
    (thread_id : ℕ) (l : Lock) (s : System) (newer older : List Hold)
    → s.holds ≡ newer ++ hold thread_id reading ∷ older
    → read_unlock s.lock ≡ some l
    → Inv s
    → Inv (record { lock = l; holds = newer ++ older })
read_unlocked-Inv thread_id l s newer older h e i =
    let (some_reads, count, flag) = read_unlock-some s.lock l e in
    let (r, w) = reads-insert newer older (hold thread_id reading) in
    let rs : reads s.holds ≡ 1 + reads (newer ++ older) = ap reads h ∙ r in
    let ws : writes s.holds ≡ writes (newer ++ older) = omega (arith, ap writes h, w) in
    let readers = i.readers in
    let bounded = i.bounded in
    let same : owner l ≡ owner s.lock = omega (arith, flag, bounded, readers, rs) in
    record {
      bounded = omega (arith, flag);
      readers = omega (arith, flag, bounded, readers, rs);
      writers = count ∙ (i.writers ∙ ws);
      unowned = λ z. same ∙ i.unowned (omega (arith, ws, z));
      owned = λ p.
          let held = i.owned (omega (arith, ws, p)) in
          (
            omega (arith, same, held.0),
            AllOf-owner (owner s.lock) (owner l) (newer ++ older) (sym same) (
                AllOf-remove (owner s.lock) newer older (hold thread_id reading)
                  (subst (AllOf (owner s.lock)) h held.1)),
          );
    }

pub Step-Inv :
    {s t : System} → Step s t → length t.holds < 65536 → length s.holds < 65536 → Inv s → Inv t
Step-Inv {s} (write_locked thread_id l pos lt e) after before i =
    write_locked-Inv thread_id l s pos lt e (omega (arith, after)) i
Step-Inv {s} (read_locked thread_id l pos lt e) after before i =
    read_locked-Inv thread_id l s pos e (omega (arith, after)) i
Step-Inv {s} (write_unlocked thread_id l newer older h e) after before i =
    write_unlocked-Inv thread_id l s newer older h e before i
Step-Inv {s} (read_unlocked thread_id l newer older h e) after before i =
    read_unlocked-Inv thread_id l s newer older h e i
