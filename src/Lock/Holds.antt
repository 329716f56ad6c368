-- ===== src/Lock/Holds.antt =====
-- The lock with the calls that hold it, as steps of the threads in any order.
use jam_server_prototype.Common.{ℕ, ◌+◌, ◌<◌, ◌≡◌, refl, some, List, [], ◌∷◌, ◌++◌, length, arith}
use jam_server_prototype.Lock.{
  Lock, free_lock, owner, read_count, write_lock, write_unlock, read_lock, read_unlock,
}

pub data Mode : Type 0 where
  writing reading : Mode

-- One lock call that has returned and whose unlock has not come yet.
pub record Hold : Type 0 where
  pub thread_id : ℕ
  pub mode : Mode

pub record System : Type 0 where
  pub lock : Lock
  pub holds : List Hold

abbrev pub hold : ℕ → Mode → Hold
hold thread_id mode = record { thread_id = thread_id; mode = mode }

-- Thread ids are not 0 and fit 16 bits. A lock call ends; or one of the holds, of any thread and in
-- any order, is given up.
pub data Step (s : System) : System → Type 0 where
  write_locked :
      (thread_id : ℕ) (l : Lock)
      → 0 < thread_id
      → thread_id < 65536
      → write_lock thread_id s.lock ≡ some l
      → Step s (record { lock = l; holds = hold thread_id writing ∷ s.holds })
  read_locked :
      (thread_id : ℕ) (l : Lock)
      → 0 < thread_id
      → thread_id < 65536
      → read_lock thread_id s.lock ≡ some l
      → Step s (record { lock = l; holds = hold thread_id reading ∷ s.holds })
  write_unlocked :
      (thread_id : ℕ) (l : Lock) (newer older : List Hold)
      → s.holds ≡ newer ++ hold thread_id writing ∷ older
      → write_unlock s.lock ≡ some l
      → Step s (record { lock = l; holds = newer ++ older })
  read_unlocked :
      (thread_id : ℕ) (l : Lock) (newer older : List Hold)
      → s.holds ≡ newer ++ hold thread_id reading ∷ older
      → read_unlock s.lock ≡ some l
      → Step s (record { lock = l; holds = newer ++ older })

-- From a free lock, with fewer than 65536 holds at any time.
pub data Reach : System → Type 0 where
  start : Reach (record { lock = free_lock; holds = [] })
  later : {s t : System} → Reach s → Step s t → length t.holds < 65536 → Reach t

abbrev pub one_write : Mode → ℕ
one_write writing = 1
one_write reading = 0

abbrev pub one_read : Mode → ℕ
one_read writing = 0
one_read reading = 1

abbrev pub writes : List Hold → ℕ
writes [] = 0
writes (h ∷ holds) = one_write h.mode + writes holds

abbrev pub reads : List Hold → ℕ
reads [] = 0
reads (h ∷ holds) = one_read h.mode + reads holds

-- All holds are of one thread.
abbrev pub AllOf : ℕ → List Hold → Type 0
AllOf thread_id [] = Unit {0}
AllOf thread_id (h ∷ holds) = (h.thread_id ≡ thread_id) × AllOf thread_id holds

-- The flag and the count say what is held; with a write hold, its thread is the owner and all holds
-- are that thread's, and without one nobody is the owner.
pub record Inv (s : System) : Type 0 where
  pub bounded : s.lock.lock_flag < 4294967296
  pub readers : read_count s.lock ≡ reads s.holds
  pub writers : s.lock.write_count ≡ writes s.holds
  pub unowned : writes s.holds ≡ 0 → owner s.lock ≡ 0
  pub owned : 0 < writes s.holds → (0 < owner s.lock) × AllOf (owner s.lock) s.holds

pub reads-insert :
    (newer older : List Hold) (h : Hold)
    → (reads (newer ++ h ∷ older) ≡ one_read h.mode + reads (newer ++ older))
      × (writes (newer ++ h ∷ older) ≡ one_write h.mode + writes (newer ++ older))
reads-insert [] older h = (refl, refl)
reads-insert (g ∷ newer) older h =
    let (a, b) = reads-insert newer older h in (omega arith, omega arith)

pub AllOf-remove :
    (thread_id : ℕ) (newer older : List Hold) (h : Hold)
    → AllOf thread_id (newer ++ h ∷ older)
    → AllOf thread_id (newer ++ older)
AllOf-remove thread_id [] older h a = a.1
AllOf-remove thread_id (g ∷ newer) older h a = (a.0, AllOf-remove thread_id newer older h a.1)

one_of : (m : Mode) → one_read m + one_write m ≡ 1
one_of writing = refl
one_of reading = refl

pub reads-length : (holds : List Hold) → reads holds + writes holds ≡ length holds
reads-length [] = refl
reads-length (h ∷ holds) = omega (arith, one_of h.mode, reads-length holds)
