-- ===== src/Lock.antt =====
-- ServerCore/Lock.h and Lock.cpp: the reader-writer spin lock. The flag is a uint32, the owner's thread
-- id in its upper half and the number of readers in its lower one; the count of nested write locks is
-- a uint16. One round of a spin loop is an attempt, with `none` where the loop goes round again; a
-- `CRASH` is `none` of an unlock. Only the owner's thread puts its id into the flag or takes it out, so
-- the test for the owner and what follows it are one step.
pub mod Holds
pub mod Kept
pub mod Exclusion
mod Examples
use jam_server_prototype.Common.{
  ℕ, ◌+◌, ◌*◌, ◌/◌, ◌%◌, Bool, true, false, not, Option, none, some, ◌==◌, if◌then◌else◌, u16, u32,
  sub16,
}

pub record Lock : Type 0 where
  pub lock_flag : ℕ
  pub write_count : ℕ

abbrev pub free_lock : Lock
free_lock = record { lock_flag = 0; write_count = 0 }

-- `(_lockFlag & WRITE_THREAD_MASK) >> 16` and `_lockFlag & READ_COUNT_MASK`
abbrev pub owner : Lock → ℕ
owner l = l.lock_flag / 65536

abbrev pub read_count : Lock → ℕ
read_count l = l.lock_flag % 65536

unfoldable pub write_lock : ℕ → Lock → Option Lock
write_lock thread_id l =
    if thread_id == owner l
    then some (record l { write_count = u16 (l.write_count + 1) })
    else if l.lock_flag == 0
    then some
        (record { lock_flag = u32 (thread_id * 65536); write_count = u16 (l.write_count + 1) })
    else none

unfoldable pub write_unlock : Lock → Option Lock
write_unlock l =
    if not (read_count l == 0)
    then none
    else if sub16 l.write_count 1 == 0
    then some (record { lock_flag = 0; write_count = sub16 l.write_count 1 })
    else some (record l { write_count = sub16 l.write_count 1 })

unfoldable pub read_lock : ℕ → Lock → Option Lock
read_lock thread_id l =
    if thread_id == owner l
    then some (record l { lock_flag = u32 (l.lock_flag + 1) })
    else if l.lock_flag == read_count l
    then some (record l { lock_flag = u32 (read_count l + 1) })
    else none

unfoldable pub read_unlock : Lock → Option Lock
read_unlock l =
    if read_count l == 0
    then none
    else some (record l { lock_flag = u32 (l.lock_flag + 4294967295) })
