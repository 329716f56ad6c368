-- ===== src/SendBuffer.antt =====
-- ServerCore/SendBuffer.h and SendBuffer.cpp: send buffers cut from chunks of 6000 bytes. A chunk has
-- one buffer open at a time. A failed `ASSERT_CRASH` is `crash`.
pub mod Chunks
mod Examples
use jam_server_prototype.Common.{
  ℕ, ◌+◌, ◌-◌, ◌≤◌, Bool, true, false, not, Option, none, some, List, [], ◌∷◌, ltb, if◌then◌else◌,
}

abbrev pub send_buffer_chunk_size : ℕ
send_buffer_chunk_size = 6000

pub record Chunk : Type 0 where
  -- which chunk
  pub ref : ℕ
  pub is_open : Bool
  pub used_size : ℕ

-- A buffer as it was opened: its chunk, where it starts in it, and `AllocSize()`.
pub record SendBuffer : Type 0 where
  pub owner : ℕ
  pub offset : ℕ
  pub alloc_size : ℕ

pub data Result {ℓ} (A : Type ℓ) : Type ℓ where
  ok : A → Result A
  -- `nullptr`
  null : Result A
  crash : Result A

abbrev pub free_size : Chunk → ℕ
free_size c = send_buffer_chunk_size - c.used_size

unfoldable pub reset : Chunk → Chunk
reset c = record c { is_open = false; used_size = 0 }

unfoldable pub open_chunk : ℕ → Chunk → Result (SendBuffer × Chunk)
open_chunk alloc_size c =
    if ltb send_buffer_chunk_size alloc_size
    then crash
    else if c.is_open
    then crash
    else if ltb (free_size c) alloc_size
    then null
    else ok (
      record { owner = c.ref; offset = c.used_size; alloc_size = alloc_size },
      record c { is_open = true },
    )

-- `SendBuffer::Close`, with the chunk's.
unfoldable pub close : ℕ → SendBuffer → Chunk → Result Chunk
close write_size b c =
    if ltb b.alloc_size write_size
    then crash
    else if c.is_open
    then ok (record c { is_open = false; used_size = c.used_size + write_size })
    else crash

-- The manager: `LSendBufferChunk` of the thread, the chunks that came back, last first, and the
-- number that names the next chunk made.
pub record Manager : Type 0 where
  pub current : Option Chunk
  pub chunks : List Chunk
  pub next_ref : ℕ

pop_chunk : List Chunk → Manager → Chunk × Manager
pop_chunk [] m = (
  record { ref = m.next_ref; is_open = false; used_size = 0 },
  record m { next_ref = m.next_ref + 1 },
)
pop_chunk (c ∷ rest) m = (c, record m { chunks = rest })

-- `Pop` and `Reset`.
unfoldable pub take_chunk : Manager → Chunk × Manager
unfolding pop_chunk reset
take_chunk m = let (c, m') = pop_chunk m.chunks m in (reset c, m')

open_on : ℕ → Chunk × Manager → Result (SendBuffer × Manager)
unfolding open_chunk
open_on size (c, m) = elim (open_chunk size c) [
  | ok (b, c') ↦ ok (b, record m { current = some c' })
  | null ↦ null
  | crash ↦ crash
]

open_current : ℕ → Chunk × Manager → Result (SendBuffer × Manager)
unfolding take_chunk open_on
open_current size (c, m) =
    if c.is_open
    then crash
    else if ltb (free_size c) size
    then open_on size (take_chunk m)
    else open_on size (c, m)

current_or_new : Option Chunk → Manager → Chunk × Manager
unfolding take_chunk
current_or_new none m = take_chunk m
current_or_new (some c) m = (c, m)

unfoldable pub open_buffer : ℕ → Manager → Result (SendBuffer × Manager)
unfolding open_current current_or_new
open_buffer size m = open_current size (current_or_new m.current m)
