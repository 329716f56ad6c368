-- ===== src/RecvBuffer/Room.antt =====
-- How much room `Clean` makes, and the case in which it makes none.
use jam_server_prototype.Common.{ℕ, ◌+◌, ◌<◌, ◌≡◌, ◌⊎◌, false, length, arith}
use jam_server_prototype.RecvBuffer.{
  RecvBuffer, IsValid, data_size, free_size, unread, clean, on_write,
}
use jam_server_prototype.RecvBuffer.Fifo.{length-unread}

-- If nothing is unread, or more than one buffer size is free, the bytes already read are reclaimed:
-- after `Clean` the free space is all that the unread bytes leave.
pub clean_compacts :
    (b : RecvBuffer)
    → IsValid b
    → (data_size b ≡ 0) ⊎ (b.buffer_size < free_size b)
    → free_size (clean b) + length (unread b) ≡ b.capacity
unfolding clean
clean_compacts b v h = ground (arith, length-unread b v)

-- If the buffer was written to its end and a byte is unread, `Clean` moves nothing, however many
-- bytes before the read position could be reclaimed, and the next receive of any length is refused.
pub clean_full :
    (b : RecvBuffer) (n : ℕ)
    → IsValid b
    → b.write_pos ≡ b.capacity
    → b.read_pos < b.write_pos
    → 0 < n
    → (clean b ≡ b) × (on_write n (clean b) ≡ (b, false))
unfolding clean on_write
clean_full b n v full some_left h = ground arith
