-- ===== src/Lock/Examples.antt =====
-- Two threads and their locks.
use jam_server_prototype.Common.{ℕ, ◌≡◌, ◌≢◌, refl, none, some, [], ◌∷◌, arith}
use jam_server_prototype.Lock.{Lock, free_lock, write_lock, read_lock}
use jam_server_prototype.Lock.Holds.{
  writing, reading, hold, System, write_locked, read_locked, Reach, start, later, AllOf, writes,
}
use jam_server_prototype.Lock.Exclusion.{writer_alone, released_is_free}

-- thread 5 has locked for writing, and then for reading
abbrev nested : System
nested = record {
  lock = record { lock_flag = 327681; write_count = 1 };
  holds = hold 5 reading ∷ hold 5 writing ∷ [];
}

-- thread 7 has locked for reading
abbrev one_reader : System
one_reader = record {
  lock = record { lock_flag = 1; write_count = 0 };
  holds = hold 7 reading ∷ [];
}

nested-Reach : Reach nested
unfolding write_lock read_lock
nested-Reach =
    later
      (later start
        (write_locked 5 (record { lock_flag = 327680; write_count = 1 }) (omega arith) (omega arith)
          refl)
        (omega arith))
      (read_locked 5 (record { lock_flag = 327681; write_count = 1 }) (omega arith) (omega arith)
        refl)
      (omega arith)

one_reader-Reach : Reach one_reader
unfolding read_lock
one_reader-Reach =
    later start
      (read_locked 7 (record { lock_flag = 1; write_count = 0 }) (omega arith) (omega arith) refl)
      (omega arith)

writer_alone_example :
    AllOf 5 nested.holds
    × ((other : ℕ)
        → other ≢ 5
        → (write_lock other nested.lock ≡ none) × (read_lock other nested.lock ≡ none))
writer_alone_example = writer_alone 5 (hold 5 reading ∷ []) [] nested-Reach refl

released_is_free_example :
    (one_reader.holds ≡ [] → one_reader.lock ≡ free_lock)
    × (writes one_reader.holds ≡ 0 → (l : Lock) × (read_lock 8 one_reader.lock ≡ some l))
released_is_free_example = released_is_free 8 one_reader-Reach
