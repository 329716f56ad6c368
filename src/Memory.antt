-- ===== src/Memory.antt =====
-- ServerCore/Memory.h, Memory.cpp and MemoryPool.cpp: the pools by size class and the table from an
-- allocation size to its pool. A pool is named by its block size. With `_STOMP` set, as
-- ServerCore/CoreTypes.h sets it, no block is taken from the table; its allocator is in `Stomp`.
-- `sizeof(MemoryHeader)` is 32: an SLIST_ENTRY of 16 bytes and an int32, aligned to 16.
pub mod Coverage
pub mod Counts
pub mod Stomp
mod Examples
use jam_server_prototype.Common.{
  ℕ, zero, suc, ◌+◌, ◌-◌, ◌≤◌, Bool, true, Option, none, some, List, [], ◌∷◌, ◌++◌, ltb, leb, ◌==◌,
  if◌then◌else◌,
}

abbrev pub max_alloc_size : ℕ
max_alloc_size = 4096

abbrev pub header_size : ℕ
header_size = 32

-- `_poolTable`, with `none` where the constructor has not stored a pool, and `tableIndex`.
pub record Table : Type 0 where
  pub pool : ℕ → Option ℕ
  pub index : ℕ

abbrev pub no_table : Table
no_table = record { pool = λ _. none; index = 0 }

-- `while (tableIndex <= size)`; every round advances the index, so `suc size` rounds are enough.
unfoldable pub fill : ℕ → ℕ → Table → Table
fill zero size t = t
fill (suc fuel) size t =
    let next =
      fill fuel size (record {
        pool = λ i. if t.index == i then some size else t.pool i;
        index = t.index + 1;
      }) in
    if leb t.index size then next else t

-- One of the three `for` loops: sizes from `size` to `limit`, by `step`. The result is the table and
-- the size at which the loop stopped.
unfoldable pub pass : ℕ → ℕ → ℕ → ℕ → Table → Table × ℕ
pass zero size limit step t = (t, size)
pass (suc fuel) size limit step t =
    let next = pass fuel (size + step) limit step (fill (suc size) size t) in
    if leb size limit then next else (t, size)

-- The constructor.
unfoldable pub build : Table
build =
    let (t1, size1) = pass 1024 32 1024 32 no_table in
    let (t2, size2) = pass 2048 size1 2048 128 t1 in (pass 4096 size2 4096 256 t2).0

pub data Source : Type 0 where
  -- `StompAllocator::Alloc`
  from_stomp : Source
  -- `_aligned_malloc`
  from_system : Source
  from_pool : ℕ → Source
  -- the table entry was never stored
  unset_entry : Source

abbrev pub entry_source : Option ℕ → Source
entry_source none = unset_entry
entry_source (some size) = from_pool size

-- Whether `_STOMP` is defined, in the sources as they are.
abbrev pub stomp_defined : Bool
stomp_defined = true

-- Where `Allocate` takes a block of the allocation size from, and where `Release` gives it back, with
-- `_STOMP` defined or not.
unfoldable pub source_of : Bool → ℕ → Source
source_of stomp alloc_size =
    if stomp
    then from_stomp
    else if ltb max_alloc_size alloc_size
    then from_system
    else entry_source (build.pool alloc_size)

unfoldable pub allocate : Bool → ℕ → Source
allocate stomp size = source_of stomp (size + header_size)
