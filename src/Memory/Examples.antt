-- ===== src/Memory/Examples.antt =====
-- Concrete sizes and blocks.
use jam_server_prototype.Common.{◌≡◌, refl, [], ◌∷◌, arith}
use jam_server_prototype.Memory.{from_stomp, stomp_defined, source_of}
use jam_server_prototype.Memory.Coverage.{source_of_lem}
use jam_server_prototype.Memory.Counts.{MemoryPool, Counted}

source_of_lem_example : source_of stomp_defined 4000 ≡ from_stomp
source_of_lem_example = (source_of_lem 4000 8192 (omega arith) (omega arith)).0

-- one block is free, and two are out
abbrev pool : MemoryPool
pool = record { free = record { ref = 3; alloc_size = 0 } ∷ []; use_count = 2; reserve_count = 1 }

pool-Counted : Counted 2 pool
pool-Counted = record { reserved = refl; used = refl; cleared = (refl, tt) }
