-- ===== src/RecvBuffer.antt =====
-- ServerCore/RecvBuffer.h and RecvBuffer.cpp: the receive buffer of a session, a linear buffer with a
-- read and a write position. Positions are numbers: a length comes from a completed receive or from
-- the packet loop, and neither is negative.
pub mod Fifo
pub mod Room
mod Examples
use jam_server_prototype.Common.{
  ℕ, ◌+◌, ◌-◌, ◌*◌, ◌≤◌, ◌≡◌, Bool, true, false, List, ◌++◌, ltb, ◌==◌, if◌then◌else◌, length, take,
  drop, replicate,
}

pub record RecvBuffer : Type 0 where
  pub capacity : ℕ
  pub buffer_size : ℕ
  pub read_pos : ℕ
  pub write_pos : ℕ
  pub buffer : List ℕ

abbrev pub buffer_count : ℕ
buffer_count = 10

unfoldable pub init : ℕ → RecvBuffer
init buffer_size = record {
  capacity = buffer_size * buffer_count;
  buffer_size = buffer_size;
  read_pos = 0;
  write_pos = 0;
  buffer = replicate (buffer_size * buffer_count) 0;
}

abbrev pub data_size : RecvBuffer → ℕ
data_size b = b.write_pos - b.read_pos

abbrev pub free_size : RecvBuffer → ℕ
free_size b = b.capacity - b.write_pos

-- Bytes written at a position, by `memcpy` or by a receive. `memcpy` reads its source before it
-- writes; where the two ranges overlap C++ leaves the result open.
abbrev pub overwrite : ℕ → List ℕ → List ℕ → List ℕ
overwrite pos bytes buffer = take pos buffer ++ (bytes ++ drop (pos + length bytes) buffer)

-- The unread bytes, from `ReadPos()` on.
abbrev pub unread : RecvBuffer → List ℕ
unread b = take (data_size b) (drop b.read_pos b.buffer)

-- `ReadPos()`: what stands in the buffer from the read position on.
abbrev pub read_ptr : RecvBuffer → List ℕ
read_ptr b = drop b.read_pos b.buffer

unfoldable pub clean : RecvBuffer → RecvBuffer
clean b =
    if data_size b == 0
    then record b { read_pos = 0; write_pos = 0 }
    else if ltb b.buffer_size (free_size b)
    then record b {
      buffer = overwrite 0 (unread b) b.buffer;
      read_pos = 0;
      write_pos = data_size b;
    }
    else b

unfoldable pub on_read : ℕ → RecvBuffer → RecvBuffer × Bool
on_read n b =
    if ltb (data_size b) n then (b, false) else (record b { read_pos = b.read_pos + n }, true)

unfoldable pub on_write : ℕ → RecvBuffer → RecvBuffer × Bool
on_write n b =
    if ltb (free_size b) n then (b, false) else (record b { write_pos = b.write_pos + n }, true)

-- What the system does between `RegisterRecv` and the completion: it stores bytes from `WritePos()`
-- on, at most as many as the `FreeSize()` that it was told.
unfoldable pub deposit : List ℕ → RecvBuffer → RecvBuffer
deposit bytes b = record b { buffer = overwrite b.write_pos bytes b.buffer }

pub record IsValid (b : RecvBuffer) : Type 0 where
  pub ordered : b.read_pos ≤ b.write_pos
  pub within : b.write_pos ≤ b.capacity
  pub sized : length b.buffer ≡ b.capacity
