-- ===== src/Compressor.antt =====
-- GameServer/TransformCompressor.h and TransformCompressor.cpp: the bit fields of packed positions,
-- rotations and velocities. The fields are 16-bit numbers; the scaling between them and floats is
-- floating-point arithmetic and is left out. A field that the code holds as int16 is an integer of that
-- range. The shifted fields have no bit in common, so `|` adds.
pub mod RoundTrip
mod Examples
use jam_server_prototype.Common.{ℕ, ◌+◌, ◌-◌, ◌*◌, ◌/◌, ◌%◌, ◌^◌, ltb, if◌then◌else◌, u16, u32}

pub data ℤ : Type 0 where
  pos : ℕ → ℤ
  -- -(n + 1)
  negsuc : ℕ → ℤ

-- `static_cast<int16>` of 16 bits, and back.
unfoldable pub as_int16 : ℕ → ℤ
as_int16 w = if ltb w 32768 then pos w else negsuc (65535 - w)

unfoldable pub to_uint16 : ℤ → ℕ
to_uint16 (pos n) = u16 n
to_uint16 (negsuc n) = 65535 - u16 n

-- `(packed >> shift) & 0xFFFF`
abbrev pub field : ℕ → ℕ → ℕ
field shift packed = packed / 2 ^ shift % 65536

unfoldable pub pack_position : ℕ → ℕ → ℕ → ℕ
pack_position px16 py16 pz16 = u16 px16 * 2 ^ 48 + u16 py16 * 2 ^ 32 + u16 pz16 * 2 ^ 16

-- The three fields, as `UnPackPosition` reads them.
unfoldable pub unpack_position : ℕ → ℤ × ℤ × ℤ
unfolding as_int16
unpack_position packed =
    (as_int16 (field 48 packed), as_int16 (field 32 packed), as_int16 (field 16 packed))

unfoldable pub pack_rotation : ℕ → ℕ → ℕ
pack_rotation yaw16 pitch16 = u32 (u16 yaw16 * 65536) + u16 pitch16

unfoldable pub unpack_rotation : ℕ → ℕ × ℕ
unpack_rotation packed = (field 16 packed, packed % 65536)

unfoldable pub pack_velocity_and_speed : ℤ → ℤ → ℤ → ℤ → ℕ
unfolding to_uint16
pack_velocity_and_speed vx16 vy16 vz16 speed16 =
    to_uint16 vx16 * 2 ^ 48 + to_uint16 vy16 * 2 ^ 32 + to_uint16 vz16 * 2 ^ 16 + to_uint16 speed16

unfoldable pub unpack_velocity_and_speed : ℕ → ℤ × ℤ × ℤ × ℤ
unfolding as_int16
unpack_velocity_and_speed packed = (
  as_int16 (field 48 packed),
  as_int16 (field 32 packed),
  as_int16 (field 16 packed),
  as_int16 (packed % 65536),
)
