-- ===== src/BufferIo.antt =====
-- ServerCore/BufferReader.h, BufferReader.cpp, BufferWriter.h and BufferWriter.cpp: a read and a write
-- position over a byte buffer. Sizes and positions are uint32, and the free size wraps when a position
-- is beyond the end. A refused operation is `none`.
pub mod RoundTrip
mod Examples
use jam_server_prototype.Common.{
  ℕ, ◌+◌, ◌-◌, ◌%◌, ◌≤◌, ◌<◌, ◌≡◌, Option, none, some, List, ◌++◌, ltb, if◌then◌else◌, length, take,
  drop, u32,
}
use jam_server_prototype.RecvBuffer.{overwrite}

-- Either of the two classes.
pub record Cursor : Type 0 where
  pub buffer : List ℕ
  pub size : ℕ
  pub pos : ℕ

abbrev pub free_size : Cursor → ℕ
free_size c = (c.size + 4294967296 - c.pos) % 4294967296

-- `&_buffer[_pos]`, for `len` bytes
abbrev pub bytes_at : ℕ → Cursor → List ℕ
bytes_at len c = take len (drop c.pos c.buffer)

abbrev pub advance : ℕ → Cursor → Cursor
advance len c = record c { pos = u32 (c.pos + len) }

unfoldable pub peek : ℕ → Cursor → Option (List ℕ)
peek len c = if ltb (free_size c) len then none else some (bytes_at len c)

unfoldable pub read : ℕ → Cursor → Option (List ℕ × Cursor)
unfolding peek
read len c = elim (peek len c) [ none ↦ none | some bytes ↦ some (bytes, advance len c) ]

-- `operator>>`, which checks nothing.
unfoldable pub extract : ℕ → Cursor → List ℕ × Cursor
extract len c = (bytes_at len c, advance len c)

unfoldable pub write : List ℕ → Cursor → Option Cursor
write src c =
    if ltb (free_size c) (length src)
    then none
    else some (advance (length src) (record c { buffer = overwrite c.pos src c.buffer }))

-- The position of the reserved bytes.
unfoldable pub reserve : ℕ → Cursor → Option (ℕ × Cursor)
reserve len c = if ltb (free_size c) len then none else some (c.pos, advance len c)

pub record IsValid (c : Cursor) : Type 0 where
  pub sized : length c.buffer ≡ c.size
  pub within : c.pos ≤ c.size
  pub small : c.size < 4294967296
