-- ===== src/Compressor/RoundTrip.antt =====
-- What comes out of a packed value.
use jam_server_prototype.Common.{
  ℕ, ◌+◌, ◌-◌, ◌*◌, ◌%◌, ◌^◌, ◌≤◌, ◌<◌, ◌≡◌, ap, ap₂, ◌∙◌, u16, arith,
}
use jam_server_prototype.Compressor.{
  ℤ, pos, negsuc, as_int16, to_uint16, field, pack_position, unpack_position, pack_rotation,
  unpack_rotation, pack_velocity_and_speed, unpack_velocity_and_speed,
}

-- The range of an int16.
abbrev pub IsInt16 : ℤ → Type 0
IsInt16 (pos n) = n < 32768
IsInt16 (negsuc n) = n < 32768

to_uint16-lt : (z : ℤ) → to_uint16 z < 65536
unfolding to_uint16
to_uint16-lt (pos n) = omega arith
to_uint16-lt (negsuc n) = omega arith

as_int16-to_uint16 : (z : ℤ) → IsInt16 z → as_int16 (to_uint16 z) ≡ z
unfolding as_int16 to_uint16
as_int16-to_uint16 (pos n) h = ground arith
as_int16-to_uint16 (negsuc n) h = ground arith

to_uint16-as_int16 : (w : ℕ) → w < 65536 → to_uint16 (as_int16 w) ≡ w
unfolding as_int16 to_uint16
to_uint16-as_int16 w h = ground arith

as_int16-small : (w : ℕ) → w < 32768 → as_int16 w ≡ pos w
unfolding as_int16
as_int16-small w h = ground arith

as_int16-large : (w : ℕ) → 32768 ≤ w → as_int16 w ≡ negsuc (65535 - w)
unfolding as_int16
as_int16-large w h = ground arith

fields :
    (a b c d : ℕ)
    → a < 65536
    → b < 65536
    → c < 65536
    → d < 65536
    → let packed = a * 2 ^ 48 + b * 2 ^ 32 + c * 2 ^ 16 + d in
      (field 48 packed ≡ a) × (field 32 packed ≡ b) × (field 16 packed ≡ c) × (packed % 65536 ≡ d)
fields a b c d h k l m = (omega arith, omega arith, omega arith, omega arith)

-- A packed velocity and speed fits 64 bits, and unpacks to the four int16 fields that were packed.
pub unpack-pack_velocity_and_speed :
    (vx vy vz speed : ℤ)
    → IsInt16 vx
    → IsInt16 vy
    → IsInt16 vz
    → IsInt16 speed
    → (pack_velocity_and_speed vx vy vz speed < 2 ^ 64)
      × (unpack_velocity_and_speed (pack_velocity_and_speed vx vy vz speed) ≡ (vx, vy, vz, speed))
unfolding pack_velocity_and_speed unpack_velocity_and_speed
unpack-pack_velocity_and_speed vx vy vz speed hx hy hz hs =
    let a = to_uint16-lt vx in
    let b = to_uint16-lt vy in
    let c = to_uint16-lt vz in
    let d = to_uint16-lt speed in
    let f = fields (to_uint16 vx) (to_uint16 vy) (to_uint16 vz) (to_uint16 speed) a b c d in
    let x = ap as_int16 f.0 ∙ as_int16-to_uint16 vx hx in
    let y = ap as_int16 f.1 ∙ as_int16-to_uint16 vy hy in
    let z = ap as_int16 f.2 ∙ as_int16-to_uint16 vz hz in
    let w = ap as_int16 f.3 ∙ as_int16-to_uint16 speed hs in
    (omega (arith, a, b, c, d), cc (x, y, z, w))

-- A packed position fits 64 bits. Unpacked and converted back to uint16, as `ExpandPosition` takes
-- them, the fields of x and z are those that were packed. The field of y is not converted back: below
-- 32768 it is the one that was packed, and from there on it is negative.
pub unpack-pack_position :
    (px py pz : ℕ)
    → px < 65536
    → py < 65536
    → pz < 65536
    → let r = unpack_position (pack_position px py pz) in
      (pack_position px py pz < 2 ^ 64)
      × (to_uint16 r.0 ≡ px)
      × (to_uint16 r.2 ≡ pz)
      × (py < 32768 → r.1 ≡ pos py)
      × (32768 ≤ py → r.1 ≡ negsuc (65535 - py))
unfolding pack_position unpack_position
unpack-pack_position px py pz hx hy hz =
    let small : u16 px ≡ px = omega (arith, hx) in
    let small_y : u16 py ≡ py = omega (arith, hy) in
    let small_z : u16 pz ≡ pz = omega (arith, hz) in
    let packed = u16 px * 2 ^ 48 + u16 py * 2 ^ 32 + u16 pz * 2 ^ 16 in
    let x : field 48 packed ≡ px = omega (arith, hx, hy, hz) in
    let y : field 32 packed ≡ py = omega (arith, hx, hy, hz) in
    let z : field 16 packed ≡ pz = omega (arith, hx, hy, hz) in
    (
      omega (arith, hx, hy, hz),
      ap (λ w. to_uint16 (as_int16 w)) x ∙ to_uint16-as_int16 px hx,
      ap (λ w. to_uint16 (as_int16 w)) z ∙ to_uint16-as_int16 pz hz,
      λ h. ap as_int16 y ∙ as_int16-small py h,
      λ h. ap as_int16 y ∙ as_int16-large py h,
    )

-- A packed rotation fits 32 bits, and unpacks to the two fields that were packed.
pub unpack-pack_rotation :
    (yaw pitch : ℕ)
    → yaw < 65536
    → pitch < 65536
    → (pack_rotation yaw pitch < 2 ^ 32)
      × (unpack_rotation (pack_rotation yaw pitch) ≡ (yaw, pitch))
unfolding pack_rotation unpack_rotation
unpack-pack_rotation yaw pitch hy hp =
    (omega (arith, hy, hp), ap₂ (λ a b. (a, b)) (omega (arith, hy, hp)) (omega (arith, hy, hp)))
